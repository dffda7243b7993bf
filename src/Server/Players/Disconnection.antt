-- ===== src/Server/Players/Disconnection.antt =====
-- What the end of a connection does, on each branch of `proceedPlayerDisconnection`.
use ups_server.Base.{
  ℕ, suc, ◌+◌, ◌≡◌, refl, ap, ◌∙◌, Bool, true, false, List, [], ◌∷◌, ◌++◌, none, some,
  unset_pointer, All, get_elem?, set, length, arith,
}
use ups_server.Game.Player.{Player, remove_socket}
use ups_server.Server.Games.Removal.{erase_at-here}
use ups_server.Server.Players.{
  first_player, has_this_socket, get_player_by_socket, close_socket, proceed_player_disconnection,
}
use ups_server.Server.Players.Parting.{cut, unplugged}
use ups_server.Server.Players.Lookup.{Passes, Fails}
use ups_server.Server.State.{
  State, Run, done, crash, pure, ◌>>=◌, ◌>>◌, load, modify, get, update, position, erase_at,
  and_then, register_command,
}
use ups_server.Wire.Codes.{internal_pl_lost}
use ups_server.Wire.Message.{message}

module _ (s : State) (test : Player → Bool) where
  pub first_player-here :
      (before after : List ℕ) (a : ℕ)
      → All (Fails s test) before
      → Passes s test a
      → first_player test (before ++ a ∷ after) s ≡ done (some a) s
  unfolding first_player load
  first_player-here [] after a fails (p, e, hit) = rw (first_player, load, e, and_then, hit) refl
  first_player-here (x ∷ before) after a ((p, e, miss), fails) passes =
      rw (first_player, load, e, and_then, miss) (first_player-here before after a fails passes)

  first_player-nowhere :
      (players : List ℕ) → All (Fails s test) players → first_player test players s ≡ done none s
  unfolding first_player load
  first_player-nowhere [] fails = refl
  first_player-nowhere (x ∷ players) ((p, e, miss), fails) =
      rw (first_player, load, e, and_then, miss) (first_player-nowhere players fails)

  position-here :
      (before after : List ℕ) (a i : ℕ)
      → All (Fails s test) before
      → Passes s test a
      → position (λ x. load (some x) >>= λ p. pure (test p)) (before ++ a ∷ after) i s
        ≡ done (suc (i + length before)) s
  unfolding position load
  position-here [] after a i fails (p, e, hit) =
      rw (e, and_then, hit) (ap (λ j. done (suc j) s) (omega arith))
  position-here (x ∷ before) after a i ((p, e, miss), fails) passes =
      rw (e, and_then, miss)
        (position-here before after a (suc i) fails passes ∙ ap (λ j. done (suc j) s) (omega arith))

  position-nowhere :
      (players : List ℕ) (i : ℕ)
      → All (Fails s test) players
      → position (λ x. load (some x) >>= λ p. pure (test p)) players i s
        ≡ done (i + length players) s
  unfolding position load
  position-nowhere [] i fails = ap (λ j. done j s) (omega arith)
  position-nowhere (x ∷ players) i ((p, e, miss), fails) =
      rw (e, and_then, miss)
        (position-nowhere players (suc i) fails ∙ ap (λ j. done j s) (omega arith))

-- Where no listed player has the socket, the handler follows a pointer that was never set.
pub proceed_player_disconnection-unknown :
    (s : State) (fd : ℕ)
    → All (Fails s (has_this_socket fd)) s.players
    → proceed_player_disconnection fd s ≡ crash unset_pointer
unfolding proceed_player_disconnection get_player_by_socket get update
proceed_player_disconnection-unknown s fd fails =
    let t = close_socket fd s in
    let index = position-nowhere t (has_this_socket fd) s.players 0 fails in
    let found = first_player-nowhere t (has_this_socket fd) s.players fails in
    rw (proceed_player_disconnection, index, and_then, found) refl

module _ (s : State) (fd a : ℕ) (p : Player) (before after : List ℕ)
    (e : s.players ≡ before ++ a ∷ after) (fails : All (Fails s (has_this_socket fd)) before)
    (here : get_elem? s.heap a ≡ some p) (hit : has_this_socket fd p ≡ true) where
  index-here :
      position
        (λ x. load (some x) >>= λ p. pure (has_this_socket fd p))
        s.players
        0
        (close_socket fd s)
      ≡ done (suc (length before)) (close_socket fd s)
  index-here =
      ap
        (λ xs.
          position (λ x. load (some x) >>= λ p. pure (has_this_socket fd p)) xs 0
            (close_socket fd s))
        e
      ∙ (position-here (close_socket fd s) (has_this_socket fd) before after a 0 fails
            (p, here, hit)
          ∙ ap (λ j. done (suc j) (close_socket fd s)) (omega arith))

  found-here :
      first_player (has_this_socket fd) s.players (close_socket fd s)
      ≡ done (some a) (close_socket fd s)
  found-here =
      ap (λ xs. first_player (has_this_socket fd) xs (close_socket fd s)) e
      ∙ first_player-here (close_socket fd s) (has_this_socket fd) before after a fails
          (p, here, hit)

  -- The branch that the player's state leads to.
  branch-erases :
      (r : Run (Unit {0}))
      → p.in_game ≡ false
      → (do
        modify (some a) (λ p. record (remove_socket p) { joining_player = none })
        rest ← erase_at s.players (suc (length before))
        update (λ s. record s { players = rest }))
          (close_socket fd s)
        ≡ r
      → proceed_player_disconnection fd s ≡ r
  unfolding proceed_player_disconnection get_player_by_socket get update load
  branch-erases r idle rest =
      rw
        (
          proceed_player_disconnection, index-here, and_then, found-here, and_then, load, here,
          and_then, idle,
        )
        rest

  branch-in_game :
      (r : Run (Unit {0}))
      → p.in_game ≡ true
      → (do
        modify (some a) remove_socket
        register_command (record (message internal_pl_lost []) { player = some a }))
          (close_socket fd s)
        ≡ r
      → proceed_player_disconnection fd s ≡ r
  unfolding proceed_player_disconnection get_player_by_socket get update load
  branch-in_game r playing rest =
      rw
        (
          proceed_player_disconnection, index-here, and_then, found-here, and_then, load, here,
          and_then, playing,
        )
        rest

  -- The first listed player with the socket, if not in a game, loses the socket and the request to
  -- join, and leaves the vector; the socket is closed, and nothing else changes.
  pub proceed_player_disconnection-erases :
      p.in_game ≡ false
      → proceed_player_disconnection fd s
        ≡ done tt (record (cut fd s) {
          heap = set s.heap a (record (unplugged p) { joining_player = none });
          players = before ++ after;
        })
  unfolding update modify
  proceed_player_disconnection-erases idle =
      let erased : (t : State)
          → erase_at s.players (suc (length before)) t ≡ done (before ++ after) t =
        λ t. ap (λ xs. erase_at xs (suc (length before)) t) e ∙ erase_at-here before after a t in
      branch-erases _ idle (rw (modify, here, and_then, erased) refl)

  -- The first listed player with the socket, if in a game, stays in the vector without it, and a
  -- command tells the command manager; the socket is closed, and nothing else changes.
  pub proceed_player_disconnection-in_game :
      p.in_game ≡ true
      → proceed_player_disconnection fd s
        ≡ done tt (record (cut fd s) {
          heap = set s.heap a (unplugged p);
          command_queue =
              s.command_queue ++ record (message internal_pl_lost []) { player = some a } ∷ [];
        })
  unfolding update modify register_command
  proceed_player_disconnection-in_game playing =
      branch-in_game _ playing (rw (modify, here, and_then) refl)

  -- What the first listed player with the socket leaves behind: a player in a game stays in the
  -- vector without the socket, and a command tells the command manager; one in no game loses the
  -- socket and the request to join, and leaves the vector. The socket is closed in both cases.
  abbrev disconnected : Bool → State
  disconnected true = record (cut fd s) {
    heap = set s.heap a (unplugged p);
    command_queue =
        s.command_queue ++ record (message internal_pl_lost []) { player = some a } ∷ [];
  }
  disconnected false = record (cut fd s) {
    heap = set s.heap a (record (unplugged p) { joining_player = none });
    players = before ++ after;
  }

  disconnects :
      (playing : Bool)
      → p.in_game ≡ playing
      → proceed_player_disconnection fd s ≡ done tt (disconnected playing)
  disconnects true h = proceed_player_disconnection-in_game h
  disconnects false h = proceed_player_disconnection-erases h

  -- Where a listed player has the socket, the connection ends for the first of them: if in a game,
  -- the player stays in the vector without the socket, and a command tells the command manager; if
  -- in none, the player loses the socket and the request to join, and leaves the vector. The socket is
  -- closed in both cases, and nothing else changes.
  pub proceed_player_disconnection-ends :
      proceed_player_disconnection fd s ≡ done tt (disconnected p.in_game)
  proceed_player_disconnection-ends = disconnects p.in_game refl
