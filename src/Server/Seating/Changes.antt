-- ===== src/Server/Seating/Changes.antt =====
-- Changes of the memory that leave who plays in which game as it is.
use ups_server.Base.{
  if◌then◌else◌, ℕ, ◌≡◌, ◌≢◌, refl, sym, ap, ◌∙◌, Bytes, List, [], ◌∷◌, Option, none, some,
  get_elem?, get_elem?-set_ne, get_elem?-set_self, lt_of_get_elem?, set, ==_iff, ==→≢, Bool-cases,
  inl, inr, ◌==◌,
}
use ups_server.Game.Board.{Game}
use ups_server.Game.Player.{Player}
use ups_server.Server.Games.{get_game_by_player, oponent_in}
use ups_server.Server.Seating.{
  Outcome, value, outcome_in, then_outcome, name_at, names_equal, last_game, seats, seating,
  done-outcome, get_game_by_player-outcome, oponent_in-outcome,
}
use ups_server.Server.State.{State, done}

pub name_at-here :
    (s : State) (a : ℕ) (p : Player)
    → get_elem? s.heap a ≡ some p
    → name_at s (some a) ≡ value p.name
unfolding name_at
name_at-here s a p e = rw (name_at, e) refl

pub name_at-heap : (s t : State) → t.heap ≡ s.heap → (c : Option ℕ) → name_at t c ≡ name_at s c
unfolding name_at
name_at-heap s t e none = refl
name_at-heap s t e (some c) = rw (name_at, e) refl

-- A change of a player who is not the one that is asked for.
pub name_at-ne :
    (s t : State) (a : ℕ) (x : Player) (c : Option ℕ)
    → t.heap ≡ set s.heap a x
    → c ≢ some a
    → name_at t c ≡ name_at s c
unfolding name_at
name_at-ne s t a x none e ne = refl
name_at-ne s t a x (some c) e ne =
    let there = get_elem?-set_ne s.heap a c x (λ d. ne (ap some (sym d))) in
    rw (name_at, e, there) refl

-- A change of a player, but for the name.
pub name_at-same :
    (s t : State) (a : ℕ) (p x : Player)
    → get_elem? s.heap a ≡ some p
    → x.name ≡ p.name
    → t.heap ≡ set s.heap a x
    → (c : Option ℕ) → name_at t c ≡ name_at s c
unfolding name_at
name_at-same s t a p x here same e none = refl
name_at-same s t a p x here same e (some c) = elim (Bool-cases (c == a)) [
  | inl d ↦
      let one : c ≡ a = (==_iff c a).0 d in
      let now : get_elem? t.heap a ≡ some x =
        ap (λ h. get_elem? h a) e
        ∙ get_elem?-set_self s.heap a x (lt_of_get_elem? s.heap a p here) in
      ap (λ i. name_at t (some i)) one
      ∙ (name_at-here t a x now
          ∙ (ap value same
              ∙ (sym (name_at-here s a p here) ∙ ap (λ i. name_at s (some i)) (sym one))))
  | inr d ↦ name_at-ne s t a x (some c) e (λ one. ==→≢ c a d (some-injective c a one))
]
  where
    some-injective : (i j : ℕ) → some i ≡ some j → i ≡ j
    some-injective i j one = cc

-- The names of the players of each game are the same where the games' players have the same names.
pub seats-names :
    (s t : State)
    → t.game_heap ≡ s.game_heap
    → ((g : ℕ) (x : Game)
        → get_elem? s.game_heap g ≡ some x
        → (name_at t x.p1 ≡ name_at s x.p1) × (name_at t x.p2 ≡ name_at s x.p2))
    → (g : ℕ) → seats t g ≡ seats s g
unfolding seats
seats-names s t same names g = there (get_elem? s.game_heap g) refl
  where
    there : (x : Option Game) → get_elem? s.game_heap g ≡ x → seats t g ≡ seats s g
    there none e =
        let e' : get_elem? t.game_heap g ≡ none = ap (λ h. get_elem? h g) same ∙ e in
        rw (seats, e', e) refl
    there (some x) e =
        let e' : get_elem? t.game_heap g ≡ some x = ap (λ h. get_elem? h g) same ∙ e in
        let both = names g x e in rw (seats, e', e, both.0, both.1) refl

pub seating-ext :
    (s t : State)
    → ((g : ℕ) → seats t g ≡ seats s g)
    → (games : List ℕ) → seating t games ≡ seating s games
unfolding seating
seating-ext s t h [] = refl
seating-ext s t h (g ∷ games) = rw (h g, seating-ext s t h games) refl

-- The game of a player is that of a player of the same name where the seats are the same.
pub get_game_by_player-seating :
    (s t : State) (c c' found : Option ℕ)
    → name_at t c' ≡ name_at s c
    → seating t t.games ≡ seating s s.games
    → get_game_by_player c s ≡ done found s
    → get_game_by_player c' t ≡ done found t
get_game_by_player-seating s t c c' found same same' run =
    done-outcome s t (get_game_by_player c) (get_game_by_player c')
      (last_game (name_at s c) (seating s s.games) none) found (get_game_by_player-outcome s c)
      (get_game_by_player-outcome t c'
        ∙ (ap (λ n. outcome_in t (last_game n (seating t t.games) none)) same
            ∙ ap (λ games. outcome_in t (last_game (name_at s c) games none)) same'))
      run

pub oponent_in-names :
    (s t : State) (x : Game) (c found : Option ℕ)
    → name_at t x.p1 ≡ name_at s x.p1
    → name_at t c ≡ name_at s c
    → oponent_in x c s ≡ done found s
    → oponent_in x c t ≡ done found t
oponent_in-names s t x c found same same' run =
    let choose = λ (u : Outcome Bytes) (v : Outcome Bytes).
      then_outcome (names_equal u v) (λ first. value (if first then x.p2 else x.p1)) in
    done-outcome s t (oponent_in x c) (oponent_in x c) (choose (name_at s x.p1) (name_at s c)) found
      (oponent_in-outcome s x c)
      (oponent_in-outcome t x c
        ∙ (ap (λ u. outcome_in t (choose u (name_at t c))) same
            ∙ ap (λ v. outcome_in t (choose (name_at s x.p1) v)) same'))
      run

-- A game whose players have the names of those before them leaves the seats as they are.
pub seats-set :
    (s t : State) (g : ℕ) (x y : Game)
    → get_elem? s.game_heap g ≡ some x
    → t.heap ≡ s.heap
    → t.game_heap ≡ set s.game_heap g y
    → name_at s y.p1 ≡ name_at s x.p1
    → name_at s y.p2 ≡ name_at s x.p2
    → (h : ℕ) → seats t h ≡ seats s h
unfolding seats
seats-set s t g x y found heap games first second h = elim (Bool-cases (h == g)) [
  | inl d ↦
      let one : h ≡ g = (==_iff h g).0 d in
      let now : get_elem? t.game_heap h ≡ some y =
        ap (λ i. get_elem? t.game_heap i) one
        ∙ (ap (λ games. get_elem? games g) games
            ∙ get_elem?-set_self s.game_heap g y (lt_of_get_elem? s.game_heap g x found)) in
      let before : get_elem? s.game_heap h ≡ some x =
        ap (λ i. get_elem? s.game_heap i) one ∙ found in
      rw (seats, now, before, names y.p1, names y.p2, first, second) refl
  | inr d ↦
      let same : get_elem? t.game_heap h ≡ get_elem? s.game_heap h =
        ap (λ games. get_elem? games h) games
        ∙ get_elem?-set_ne s.game_heap g h y (λ one. ==→≢ h g d (sym one)) in
      others (get_elem? s.game_heap h) refl same
]
  where
    names : (c : Option ℕ) → name_at t c ≡ name_at s c
    names = name_at-heap s t heap

    others :
        (z : Option Game)
        → get_elem? s.game_heap h ≡ z
        → get_elem? t.game_heap h ≡ get_elem? s.game_heap h
        → seats t h ≡ seats s h
    others none e same = rw (seats, same, e) refl
    others (some z) e same = rw (seats, same, e, names z.p1, names z.p2) refl
