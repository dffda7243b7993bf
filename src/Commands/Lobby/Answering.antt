-- ===== src/Commands/Lobby/Answering.antt =====
-- What the answer to a request to join does when it is yes.
use ups_server.Base.{
  ◌%◌, ◌^◌, arith, set-set, set-set_ne, set-set_twice, ℕ, ◌+◌, ◌≡◌, ◌≢◌, refl, sym, ap, ◌∙◌, Bool,
  true, false, codes, List, [], ◌∷◌, ◌++◌, Option, some, none, get_elem?, get_elem?-set_self,
  get_elem?-set_ne, lt_of_get_elem?, set, length, if◌then◌else◌,
}
use ups_server.Commands.Dispatch.Packets.{register_message-frame}
use ups_server.Commands.Lobby.{tell, set_availible, set_in_game, start_game, proceed_accept_join}
use ups_server.Commands.Lobby.Registration.{packet_to, are_bytes, are_bytes-AreBytes}
use ups_server.Commands.Lobby.Starting.{game_start, new_game, start_game-starts}
use ups_server.Server.Access.{load-at, modify-at}
use ups_server.Game.Player.{Player}
use ups_server.Server.State.{State, M, ◌>>=◌, ◌>>◌, pure, done, load, modify, and_then}
use ups_server.Wire.Codes.{h_s_nack_reas, head_to_format, find_format}
use ups_server.Wire.Format.{Fits, encode, encode_item}
use ups_server.Wire.Message.{Message, message, text}

-- Word to the player who was asked that the other one is gone.
abbrev pub gone : ℕ → Message
gone b = record (message h_s_nack_reas (codes "s")) {
  payload = text (codes "Player who asked is gone") ∷ [];
  player = some b;
}

gone-Fits : (b : ℕ) → Fits (gone b)
unfolding encode encode_item are_bytes
gone-Fits b = record {
  header = omega arith;
  payload = ((refl, omega arith, are_bytes-AreBytes (codes "Player who asked is gone") refl), tt);
  size = omega arith;
}

module _ (s : State) (m : Message) (a b : ℕ) (p q : Player) (here : get_elem? s.heap a ≡ some p)
    (there : get_elem? s.heap b ≡ some q) (apart : a ≢ b) (sender : m.player ≡ some b)
    (asked : q.asked_for_joining_by ≡ some a) where
  abbrev first_mark : Player
  first_mark = record q { asked_for_joining_by = none }

  abbrev second_mark : Player
  second_mark = record first_mark { joining_player = none }

  abbrev closed : Player
  closed = set_availible false second_mark

  abbrev asking : Player
  asking = set_availible false p

  -- The players after the question is closed, after the one who asked is not free, and after both
  -- are not.
  abbrev heap2 : List Player
  heap2 = set (set s.heap b first_mark) b second_mark

  abbrev heap3 : List Player
  heap3 = set heap2 a asking

  abbrev heap4 : List Player
  heap4 = set heap3 b closed

  back : b ≢ a
  back e = apart (sym e)

  first_here : get_elem? (set s.heap b first_mark) b ≡ some first_mark
  first_here = get_elem?-set_self s.heap b first_mark (lt_of_get_elem? s.heap b q there)

  second_here : get_elem? heap2 b ≡ some second_mark
  second_here =
      get_elem?-set_self (set s.heap b first_mark) b second_mark
        (lt_of_get_elem? (set s.heap b first_mark) b first_mark first_here)

  asking_before : get_elem? heap2 a ≡ some p
  asking_before =
      get_elem?-set_ne (set s.heap b first_mark) b a second_mark back
      ∙ (get_elem?-set_ne s.heap b a first_mark back ∙ here)

  second_still : get_elem? heap3 b ≡ some second_mark
  second_still = get_elem?-set_ne heap2 a b asking apart ∙ second_here

  asking_here : get_elem? heap4 a ≡ some asking
  asking_here =
      get_elem?-set_ne heap3 b a closed back
      ∙ get_elem?-set_self heap2 a asking (lt_of_get_elem? heap2 a p asking_before)

  closed_here : get_elem? heap4 b ≡ some closed
  closed_here = get_elem?-set_self heap3 b closed (lt_of_get_elem? heap3 b second_mark second_still)

  settled : heap4 ≡ set (set s.heap a asking) b closed
  settled =
      ap (λ h. set (set h a asking) b closed) (set-set s.heap b first_mark second_mark)
      ∙ ap (λ h. set h b closed) (set-set_ne s.heap b a second_mark asking back)
      ∙ set-set (set s.heap a asking) b second_mark closed

  heaps : (u v : Player) → set (set heap4 a u) b v ≡ set (set s.heap a u) b v
  heaps u v =
      ap (λ h. set (set h a u) b v) settled ∙ set-set_twice s.heap a b asking closed u v apart

  -- The memory once the game has started, and after word that the player who asked is gone.
  abbrev pub started : State
  started = record s {
    heap = set (set s.heap a (set_in_game true asking)) b (set_in_game true closed);
    game_heap = s.game_heap ++ new_game s a b ∷ [];
    games = s.games ++ length s.game_heap ∷ [];
    max_game_id = (s.max_game_id + 1) % 2 ^ 32;
    p_queue =
        (s.p_queue ++ packet_to p.socket (game_start a p.name q.name) ∷ [])
        ++ packet_to q.socket (game_start b p.name p.name) ∷ [];
  }

  abbrev too_late : Bool → State
  too_late heard = record s {
    heap = set (set s.heap a asking) b closed;
    p_queue = if heard then s.p_queue ++ packet_to q.socket (gone b) ∷ [] else s.p_queue;
  }

  abbrev pub answered : Option ℕ → State
  answered none = too_late q.socket_set
  answered (some c) = started

  told :
      (self : Option ℕ) (heard : Bool)
      → self ≡ some b
      → (elim heard as (λ _. M (Unit {0})) [
        | true ↦ tell self h_s_nack_reas (text (codes "Player who asked is gone") ∷ [])
        | false ↦ pure tt
      ])
          (record s { heap = heap4 })
        ≡ done tt (too_late heard)
  unfolding tell head_to_format find_format
  told self true own = rw own (
      register_message-frame (record s { heap = heap4 }) (gone b) b closed (gone-Fits b) refl
        closed_here
      ∙ ap (λ h. done tt (record (too_late true) { heap = h })) settled)
  told self false own = ap (λ h. done tt (record s { heap = h })) settled

  module _ (fits : Fits (game_start a p.name q.name))
      (fits' : Fits (game_start b p.name p.name)) where
    decide :
        (by self waiting : Option ℕ)
        → by ≡ some a
        → self ≡ some b
        → (elim waiting as (λ _. M (Unit {0})) [
          | some _ ↦ start_game by self
          | none ↦ load self >>= λ q. elim q.socket_set [
            | true ↦ tell self h_s_nack_reas (text (codes "Player who asked is gone") ∷ [])
            | false ↦ pure tt
          ]
        ])
            (record s { heap = heap4 })
          ≡ done tt (answered waiting)
    decide by self (some c) e own =
        rw (e, own)
          (start_game-starts (record s { heap = heap4 }) a b asking closed asking_here closed_here
              apart fits fits'
            ∙ ap (λ h. done tt (record started { heap = h }))
                (heaps (set_in_game true asking) (set_in_game true closed)))
    decide by self none e own =
        rw (own, load-at (record s { heap = heap4 }) b closed closed_here, and_then)
          (told self q.socket_set own)

    answer :
        (by self : Option ℕ)
        → by ≡ some a
        → self ≡ some b
        → (do
          modify by (set_availible false)
          modify (some b) (set_availible false)
          p ← load by
          elim p.joining_player [
            | some _ ↦ start_game by self
            | none ↦ load self >>= λ q. elim q.socket_set [
              | true ↦ tell self h_s_nack_reas (text (codes "Player who asked is gone") ∷ [])
              | false ↦ pure tt
            ]
          ])
            (record s { heap = heap2 })
          ≡ done tt (answered p.joining_player)
    answer by self e own =
        rw
          (
            e,
            modify-at (record s { heap = heap2 }) a p (set_availible false) asking_before,
            and_then,
            modify-at (record s { heap = heap3 }) b second_mark (set_availible false) second_still,
            and_then,
            load-at (record s { heap = heap4 }) a asking asking_here,
            and_then,
          )
          (decide by self p.joining_player e own)

    -- Where a player says yes to a different player, who is there, and the two messages with their
    -- names fit packets: the question is closed and neither is free. If the one who asked still wants
    -- to join someone, a game of the two with an empty board is put behind the others, with the
    -- player who asked on turn, both are in a game, and each is told of the start; if not, the one
    -- who was asked is told that the other one is gone, if there is a socket for it, and stays not
    -- free. Nothing else changes.
    pub proceed_accept_join-answers : proceed_accept_join m s ≡ done tt (answered p.joining_player)
    unfolding proceed_accept_join
    proceed_accept_join-answers =
        let s1 : State = record s { heap = set s.heap b first_mark } in
        rw
          (
            proceed_accept_join,
            sender,
            load-at s b q there,
            and_then,
            modify-at s b q (λ x. record x { asked_for_joining_by = none }) there,
            and_then,
            modify-at s1 b first_mark (λ x. record x { joining_player = none }) first_here,
            and_then,
          )
          (answer q.asked_for_joining_by m.player asked sender)
