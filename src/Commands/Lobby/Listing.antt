-- ===== src/Commands/Lobby/Listing.antt =====
-- What a client who asks for the players who are free is told.
use ups_server.Base.{
  ℕ, suc, ◌+◌, ◌≡◌, refl, sym, ap, ◌∙◌, arith, Bool, true, Bool-cases, not, ◌&&◌, Bytes, codes,
  List, [], ◌∷◌, ◌++◌, append_assoc, append-nil, none, some, inl, inr, All, ltb, ◌=s=◌, get_elem?,
  get_elem?-lt, length, if◌then◌else◌,
}
use ups_server.Base.Separated.{followed, joined}
use ups_server.Commands.Dispatch.Packets.{register_message-frame}
use ups_server.Commands.Lobby.{tell, is_listed, join_name, list_loop, proceed_player_list_request}
use ups_server.Commands.Lobby.Registration.{packet_to}
use ups_server.Game.Player.{Player}
use ups_server.Server.Access.{load-at}
use ups_server.Server.Memory.{Below, WellFormed}
use ups_server.Server.State.{State, done, and_then, get}
use ups_server.Wire.Codes.{h_s_pl_list_ans, head_to_format, find_format}
use ups_server.Wire.Format.{Fits}
use ups_server.Wire.Message.{Message, message, word, text}

-- The players at some addresses.
unfoldable pub objects : List Player → List ℕ → List Player
objects heap [] = []
objects heap (a ∷ addresses) = elim (get_elem? heap a) [
  | none ↦ objects heap addresses
  | some p ↦ p ∷ objects heap addresses
]

-- The player can be asked for a game, and has another name than the one who wants to know.
abbrev offered : Bytes → Player → Bool
offered asker p =
    (not p.in_game && (p.availible && (p.socket_set && p.name_set))) && not (p.name =s= asker)

unfoldable pub offered_names : Bytes → List Player → List Bytes
offered_names asker [] = []
offered_names asker (p ∷ players) =
    let rest = offered_names asker players in if offered asker p then p.name ∷ rest else rest

-- The list of players, told to one.
abbrev pub list_answer : ℕ → List Bytes → Message
list_answer a names = record (message h_s_pl_list_ans (codes "is")) {
  payload = word (length names) ∷ text (joined names) ∷ [];
  player = some a;
}

-- What the loop makes of more names.
appended : ℕ → Bytes → List Bytes → Bytes
appended count result [] = result
appended count result (name ∷ names) = appended (count + 1) (join_name count result name) names

appended-followed :
    (count : ℕ) (result : Bytes) (names : List Bytes)
    → ltb 0 count ≡ true
    → appended count result names ≡ result ++ followed names
unfolding appended followed
appended-followed count result [] some_before = sym (append-nil result)
appended-followed count result (name ∷ names) some_before =
    ap (λ t. appended (count + 1) t names) (rw some_before refl)
    ∙ appended-followed (count + 1) (result ++ (b';' ∷ name)) names (ground arith)
    ∙ append_assoc result (b';' ∷ name) (followed names)

appended-joined : (names : List Bytes) → appended 0 [] names ≡ joined names
unfolding appended joined
appended-joined [] = refl
appended-joined (name ∷ names) = appended-followed 1 name names refl

module _ (s : State) (a : ℕ) (q : Player) (here : get_elem? s.heap a ≡ some q) where
  is_listed-offered : (p : Player) → is_listed (some a) p s ≡ done (offered q.name p) s
  unfolding is_listed
  is_listed-offered p =
      elim (Bool-cases (not p.in_game && (p.availible && (p.socket_set && p.name_set)))) [
        | inl free ↦ rw (is_listed, free, load-at s a q here, and_then) refl
        | inr other ↦ rw (is_listed, other) refl
      ]

  rest : List ℕ → List Bytes
  rest addresses = offered_names q.name (objects s.heap addresses)

  one_more : (count n : ℕ) → count + 1 + n ≡ count + suc n
  one_more count n = omega arith

  list_loop-appended :
      (addresses : List ℕ) (count : ℕ) (result : Bytes)
      → All (Below (length s.heap)) addresses
      → list_loop (some a) addresses count result s
        ≡ done
            (
              count + length (offered_names q.name (objects s.heap addresses)),
              appended count result (offered_names q.name (objects s.heap addresses)),
            )
            s
  unfolding list_loop objects offered_names appended rest
  list_loop-appended [] count result h = ap (λ n. done (n, result) s) (omega arith)
  list_loop-appended (b ∷ addresses) count result h =
      let (p, e) = get_elem?-lt s.heap b h.0 in
      let there : objects s.heap (b ∷ addresses) ≡ p ∷ objects s.heap addresses =
        rw (objects, e) refl in
      elim (Bool-cases (offered q.name p)) [
        | inl shown ↦
            rw (there, list_loop, load-at s b p e, and_then, is_listed-offered p, and_then, shown)
              (list_loop-appended addresses (count + 1) (join_name count result p.name) h.1
                ∙ ap
                    (λ n.
                      done
                        (n, appended (count + 1) (join_name count result p.name) (rest addresses))
                        s)
                    (one_more count (length (rest addresses))))
        | inr hidden ↦
            rw (there, list_loop, load-at s b p e, and_then, is_listed-offered p, and_then, hidden)
              (list_loop-appended addresses count result h.1)
      ]

  -- In a well formed memory, a client who is there and asks for the other players is told, if the
  -- answer fits a packet, how many listed players are in no game, free for one, and have a socket, a
  -- name and not the client's own name, and their names in the order of the list, with a semicolon
  -- between two; nothing else changes.
  pub proceed_player_list_request-lists :
      (m : Message)
      → WellFormed s
      → m.player ≡ some a
      → Fits (list_answer a (offered_names q.name (objects s.heap s.players)))
      → proceed_player_list_request m s
        ≡ done tt (record s {
          p_queue =
              s.p_queue
              ++ packet_to q.socket
                  (list_answer a (offered_names q.name (objects s.heap s.players)))
                ∷ [];
        })
  unfolding proceed_player_list_request get tell head_to_format find_format
  proceed_player_list_request-lists m w sender fits =
      let names = offered_names q.name (objects s.heap s.players) in
      let looped : list_loop (some a) s.players 0 [] s ≡ done (length names, joined names) s =
        list_loop-appended s.players 0 [] w.listed
        ∙ ap (λ n. done (n, appended 0 [] names) s) (omega arith)
        ∙ ap (λ t. done (length names, t) s) (appended-joined names) in
      rw (sender, looped, and_then)
        (register_message-frame s (list_answer a names) a q fits refl here)
