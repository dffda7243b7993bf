-- ===== src/Commands/Dispatch/Bullshit.antt =====
-- What a message that is not of the protocol does to the client who sent it.
use ups_server.Base.{
  ℕ, ◌+◌, ◌%◌, ◌^◌, ◌&&◌, ltb, ◌≡◌, ◌≢◌, refl, sym, ap, ◌∙◌, Bool, true, false, List, [], ◌∷◌, ◌++◌,
  none, some, All, leb, get_elem?, get_elem?-set_self, get_elem?-set_ne, lt_of_get_elem?, set,
  set-set,
}
use ups_server.Commands.Dispatch.{count_bullshit}
use ups_server.Game.Player.{Player}
use ups_server.Server.Players.Parting.{cut, unplugged}
use ups_server.Server.Players.{has_this_socket, first_player, get_player_by_socket}
use ups_server.Server.Players.Disconnection.{
  first_player-here, proceed_player_disconnection-erases, proceed_player_disconnection-in_game,
}
use ups_server.Server.Players.Lookup.{Fails}
use ups_server.Server.State.{State, done, load, modify, get, and_then}
use ups_server.Wire.Codes.{internal_pl_lost}
use ups_server.Wire.Message.{message}

-- An `int` that is 10 or more.
abbrev too_many : ℕ → Bool
too_many count = leb 10 count && ltb count (2 ^ 31)

module _ (s : State) (test : Player → Bool) (a : ℕ) (p x : Player)
    (here : get_elem? s.heap a ≡ some p) (hit : test p ≡ true) where
  -- A change of a player who passes leaves the players who fail as they are.
  Fails-set :
      (players : List ℕ)
      → All (Fails s test) players
      → All (Fails (record s { heap = set s.heap a x }) test) players
  Fails-set [] h = tt
  Fails-set (y ∷ players) ((q, e, miss), h) =
      ((q, get_elem?-set_ne s.heap a y x (apart q e miss) ∙ e, miss), Fails-set players h)
    where
      apart : (q : Player) → get_elem? s.heap y ≡ some q → test q ≡ false → a ≢ y
      apart q e miss same =
          let at : get_elem? s.heap a ≡ some q = ap (λ i. get_elem? s.heap i) same ∙ e in
          let one : p ≡ q = cc in let passed : test q ≡ true = ap test (sym one) ∙ hit in cc

module _ (s : State) (fd a : ℕ) (p : Player) (before after : List ℕ)
    (e : s.players ≡ before ++ a ∷ after) (fails : All (Fails s (has_this_socket fd)) before)
    (here : get_elem? s.heap a ≡ some p) (hit : has_this_socket fd p ≡ true) where
  pub found-sender : get_player_by_socket fd s ≡ done (some a) s
  unfolding get_player_by_socket get
  found-sender =
      ap (λ xs. first_player (has_this_socket fd) xs s) e
      ∙ first_player-here s (has_this_socket fd) before after a fails (p, here, hit)

  -- Where the count of such messages of the first listed player with the socket stays below 10, the
  -- message is counted, and nothing else changes.
  count_bullshit-counts :
      too_many ((p.bullshit_messages + 1) % 2 ^ 32) ≡ false
      → count_bullshit fd s
        ≡ done tt (record s {
          heap = set s.heap a (record p { bullshit_messages = (p.bullshit_messages + 1) % 2 ^ 32 });
        })
  unfolding count_bullshit modify load
  count_bullshit-counts few =
      let counted : Player = record p { bullshit_messages = (p.bullshit_messages + 1) % 2 ^ 32 } in
      let again = get_elem?-set_self s.heap a counted (lt_of_get_elem? s.heap a p here) in
      rw
        (count_bullshit, found-sender, and_then, modify, here, and_then, load, again, and_then, few)
        refl

  -- Where it comes to 10 or more, the first listed player with the socket, if in no game, is
  -- disconnected: the message is counted, the socket is closed, and the player loses it and the
  -- request to join and leaves the vector; nothing else changes.
  count_bullshit-disconnects :
      too_many ((p.bullshit_messages + 1) % 2 ^ 32) ≡ true
      → p.in_game ≡ false
      → count_bullshit fd s
        ≡ done tt (record (cut fd s) {
          heap = set s.heap a (record (unplugged p) {
            bullshit_messages = (p.bullshit_messages + 1) % 2 ^ 32;
            joining_player = none;
          });
          players = before ++ after;
        })
  unfolding count_bullshit modify load
  count_bullshit-disconnects many idle =
      let counted : Player = record p { bullshit_messages = (p.bullshit_messages + 1) % 2 ^ 32 } in
      let again = get_elem?-set_self s.heap a counted (lt_of_get_elem? s.heap a p here) in
      let left =
        proceed_player_disconnection-erases (record s { heap = set s.heap a counted }) fd a counted
          before after e (Fails-set s (has_this_socket fd) a p counted here hit before fails) again
          hit idle in
      let gone : Player = record (unplugged counted) { joining_player = none } in
      rw
        (
          count_bullshit, found-sender, and_then, modify, here, and_then, load, again, and_then,
          many,
        )
        (left
          ∙ ap (λ h. done tt (record (cut fd s) { heap = h; players = before ++ after }))
              (set-set s.heap a counted gone))

  -- Where it comes to 10 or more, the first listed player with the socket, if in a game, loses the
  -- connection and stays in the vector; the message is counted, and a command tells the command
  -- manager; nothing else changes.
  count_bullshit-cuts :
      too_many ((p.bullshit_messages + 1) % 2 ^ 32) ≡ true
      → p.in_game ≡ true
      → count_bullshit fd s
        ≡ done tt (record (cut fd s) {
          heap =
              set s.heap a
                (record (unplugged p) { bullshit_messages = (p.bullshit_messages + 1) % 2 ^ 32 });
          command_queue =
              s.command_queue ++ record (message internal_pl_lost []) { player = some a } ∷ [];
        })
  unfolding count_bullshit modify load
  count_bullshit-cuts many playing =
      let counted : Player = record p { bullshit_messages = (p.bullshit_messages + 1) % 2 ^ 32 } in
      let again = get_elem?-set_self s.heap a counted (lt_of_get_elem? s.heap a p here) in
      let left =
        proceed_player_disconnection-in_game (record s { heap = set s.heap a counted }) fd a counted
          before after e (Fails-set s (has_this_socket fd) a p counted here hit before fails) again
          hit playing in
      let commands =
        s.command_queue ++ record (message internal_pl_lost []) { player = some a } ∷ [] in
      rw
        (
          count_bullshit, found-sender, and_then, modify, here, and_then, load, again, and_then,
          many,
        )
        (left
          ∙ ap (λ h. done tt (record (cut fd s) { heap = h; command_queue = commands }))
              (set-set s.heap a counted (unplugged counted)))

  -- The memory after one more such message; `many` is whether the count is 10 or more.
  abbrev after_bullshit : Bool → Bool → State
  after_bullshit false playing = record s {
    heap = set s.heap a (record p { bullshit_messages = (p.bullshit_messages + 1) % 2 ^ 32 });
  }
  after_bullshit true true = record (cut fd s) {
    heap =
        set s.heap a
          (record (unplugged p) { bullshit_messages = (p.bullshit_messages + 1) % 2 ^ 32 });
    command_queue =
        s.command_queue ++ record (message internal_pl_lost []) { player = some a } ∷ [];
  }
  after_bullshit true false = record (cut fd s) {
    heap = set s.heap a (record (unplugged p) {
      bullshit_messages = (p.bullshit_messages + 1) % 2 ^ 32;
      joining_player = none;
    });
    players = before ++ after;
  }

  counts :
      (many playing : Bool)
      → too_many ((p.bullshit_messages + 1) % 2 ^ 32) ≡ many
      → p.in_game ≡ playing
      → count_bullshit fd s ≡ done tt (after_bullshit many playing)
  counts false playing few h = count_bullshit-counts few
  counts true true many h = count_bullshit-cuts many h
  counts true false many h = count_bullshit-disconnects many h

  -- One more message that is not of the protocol, of the first listed player with the socket, is
  -- counted. Where the count, as an `int` that wraps around, is 10 or more then, the connection is
  -- ended as well: a player in a game stays in the vector without the socket, and a command tells
  -- the command manager; one in no game loses the socket and the request to join, and leaves the
  -- vector. In both cases the socket is closed. Nothing else changes.
  pub count_bullshit-ends :
      count_bullshit fd s
      ≡ done tt (after_bullshit (too_many ((p.bullshit_messages + 1) % 2 ^ 32)) p.in_game)
  count_bullshit-ends = counts (too_many ((p.bullshit_messages + 1) % 2 ^ 32)) p.in_game refl refl
