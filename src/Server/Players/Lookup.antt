-- ===== src/Server/Players/Lookup.antt =====
-- Which player `getPlayerByName` and `getPlayerBySocket` give.
use ups_server.Base.{
  ℕ, ◌≡◌, refl, ap, ◌=s=◌, ◌&&◌, Bool, true, false, Bool-cases, Bytes, List, [], ◌∷◌, ◌++◌, Option,
  none, some, inl, inr, All, get_elem?, get_elem?-lt, get_elem?-set_self, get_elem?-set_ne,
  lt_of_get_elem?, set, length, sym, ◌∙◌, ◌==◌, ==_iff, ==→≢,
}
use ups_server.Game.Player.{Player}
use ups_server.Server.Memory.{Below, WellFormed}
use ups_server.Server.Players.{
  first_player, has_this_socket, get_player_by_name, get_player_by_socket,
}
use ups_server.Server.State.{State, done, load, get, and_then}

-- The player at the address is there and passes the test.
abbrev pub Passes : State → (Player → Bool) → ℕ → Type 0
Passes s test a = (p : Player) × (get_elem? s.heap a ≡ some p) × (test p ≡ true)

abbrev pub Fails : State → (Player → Bool) → ℕ → Type 0
Fails s test a = (p : Player) × (get_elem? s.heap a ≡ some p) × (test p ≡ false)

-- What a search gives: the first player that passes, and null if none does.
abbrev pub FirstOf : State → (Player → Bool) → List ℕ → Option ℕ → Type 0
FirstOf s test players none = All (Fails s test) players
FirstOf s test players (some a) =
    (before after : List ℕ) × (players ≡ before ++ a ∷ after)
    × Passes s test a
    × All (Fails s test) before

-- A change of a player that the test does not see leaves the players who fail it.
pub Fails-unchanged :
    (s : State) (test : Player → Bool) (a : ℕ) (p x : Player) (players : List ℕ)
    → get_elem? s.heap a ≡ some p
    → test x ≡ test p
    → All (Fails s test) players
    → All (Fails (record s { heap = set s.heap a x }) test) players
Fails-unchanged s test a p x [] here same h = tt
Fails-unchanged s test a p x (y ∷ players) here same ((q, e, miss), h) = (
  elim (Bool-cases (a == y)) [
    | inl equal ↦
        (let one : a ≡ y = (==_iff a y).0 equal in
          let found : get_elem? s.heap a ≡ some q = ap (λ i. get_elem? s.heap i) one ∙ e in
          (
            x,
            ap (λ i. get_elem? (set s.heap a x) i) (sym one)
                ∙ get_elem?-set_self s.heap a x (lt_of_get_elem? s.heap a p here),
            let player : p ≡ q = cc in same ∙ ap test player ∙ miss,
          ))
    | inr other ↦ (q, get_elem?-set_ne s.heap a y x (==→≢ a y other) ∙ e, miss)
  ],
  Fails-unchanged s test a p x players here same h,
)

further :
    (s : State) (test : Player → Bool) (a : ℕ) (players : List ℕ) (found : Option ℕ)
    → Fails s test a
    → FirstOf s test players found
    → FirstOf s test (a ∷ players) found
further s test a players none h rest = (h, rest)
further s test a players (some b) h (before, after, e, passes, fails) =
    (a ∷ before, after, ap (λ xs. a ∷ xs) e, passes, (h, fails))

first_player-FirstOf :
    (s : State) (test : Player → Bool) (players : List ℕ)
    → All (Below (length s.heap)) players
    → (found : Option ℕ) × (first_player test players s ≡ done found s)
      × FirstOf s test players found
unfolding first_player load
first_player-FirstOf s test [] h = (none, refl, tt)
first_player-FirstOf s test (a ∷ players) h =
    let (p, e) = get_elem?-lt s.heap a h.0 in
    let (found, rest, first) = first_player-FirstOf s test players h.1 in
    elim (Bool-cases (test p)) [
      | inl hit ↦ (
        some a,
        rw (first_player, load, e, and_then, hit) refl,
        ([], players, refl, (p, e, hit), tt),
      )
      | inr miss ↦ (
        found,
        rw (first_player, load, e, and_then, miss) rest,
        further s test a players found (p, e, miss) first,
      )
    ]

-- In a well formed memory both searches end without a change; the one by name gives the first
-- listed player of that name, the one by socket the first listed player whose socket is set and is
-- that one, and each gives null only if no listed player is like that.
pub lookups-FirstOf :
    (s : State) (name : Bytes) (socket : ℕ)
    → WellFormed s
    → ((found : Option ℕ) × (get_player_by_name name s ≡ done found s)
        × FirstOf s (λ p. p.name =s= name) s.players found)
      × ((found : Option ℕ) × (get_player_by_socket socket s ≡ done found s)
          × FirstOf s (λ p. p.socket_set && (p.socket == socket)) s.players found)
unfolding get_player_by_name get_player_by_socket get
lookups-FirstOf s name socket w = (
  first_player-FirstOf s (λ p. p.name =s= name) s.players w.listed,
  first_player-FirstOf s (has_this_socket socket) s.players w.listed,
)
