-- ===== src/Commands/Lobby/Declining.antt =====
-- What the answer to a request to join does when it is no.
use ups_server.Base.{
  arith, set-set, set-set_ne, ℕ, ◌≡◌, ◌≢◌, refl, sym, ap, ◌∙◌, Bool, true, false, codes, [], ◌∷◌,
  ◌++◌, Option, some, none, length, ◌<◌, get_elem?, get_elem?-set_self, get_elem?-set_ne,
  lt_of_get_elem?, set, if◌then◌else◌,
}
use ups_server.Commands.Dispatch.Packets.{register_message-frame}
use ups_server.Commands.Lobby.{tell, set_availible, proceed_decline_join}
use ups_server.Commands.Lobby.Registration.{packet_to, are_bytes, are_bytes-AreBytes}
use ups_server.Server.Access.{load-at, modify-at}
use ups_server.Game.Player.{Player}
use ups_server.Server.State.{State, M, pure, done, and_then}
use ups_server.Wire.Codes.{h_s_nack_reas, head_to_format, find_format}
use ups_server.Wire.Format.{Fits, encode, encode_item}
use ups_server.Wire.Message.{Message, message, text}

-- Word to the player who asked.
abbrev pub declined : ℕ → Message
declined a = record (message h_s_nack_reas (codes "s")) {
  payload = text (codes "Oponent declined") ∷ [];
  player = some a;
}

declined-Fits : (a : ℕ) → Fits (declined a)
unfolding encode encode_item are_bytes
declined-Fits a = record {
  header = omega arith;
  payload = ((refl, omega arith, are_bytes-AreBytes (codes "Oponent declined") refl), tt);
  size = omega arith;
}

module _ (s : State) (m : Message) (a b : ℕ) (p q : Player) (here : get_elem? s.heap a ≡ some p)
    (there : get_elem? s.heap b ≡ some q) (apart : a ≢ b) where
  abbrev first_mark : Player
  first_mark = record q { asked_for_joining_by = none }

  -- The player who was asked, without the question.
  abbrev unasked : Player
  unasked = record first_mark { joining_player = none }

  -- The memory with the question closed, and once the one who asked has heard of it.
  abbrev closed : State
  closed = record s { heap = set s.heap b unasked }

  abbrev heard : Bool → State
  heard b = record closed {
    p_queue = if b then s.p_queue ++ packet_to p.socket (declined a) ∷ [] else s.p_queue;
  }

  marks : set (set s.heap b first_mark) b unasked ≡ set s.heap b unasked
  marks = set-set s.heap b first_mark unasked

  lt : b < length s.heap
  lt = lt_of_get_elem? s.heap b q there

  still : get_elem? closed.heap a ≡ some p
  still = get_elem?-set_ne s.heap b a unasked (λ e. apart (sym e)) ∙ here

  told :
      (by : Option ℕ) (has_socket : Bool)
      → by ≡ some a
      → (elim has_socket as (λ _. M (Unit {0})) [
        | true ↦ tell by h_s_nack_reas (text (codes "Oponent declined") ∷ [])
        | false ↦ pure tt
      ])
          closed
        ≡ done tt (heard has_socket)
  unfolding tell head_to_format find_format
  told by true e =
      rw e (register_message-frame closed (declined a) a p (declined-Fits a) refl still)
  told by false e = refl

  -- Where a player says no to a different player, who is there, the question is closed, both are
  -- free for a game, and the one who asked is told of it if there is a socket for it. Nothing else
  -- changes.
  pub proceed_decline_join-frees :
      m.player ≡ some b
      → q.asked_for_joining_by ≡ some a
      → proceed_decline_join m s
        ≡ done tt (record s {
          heap =
              set
                (set s.heap a (record p { availible = true }))
                b
                (record q { availible = true; asked_for_joining_by = none; joining_player = none });
          p_queue =
              if p.socket_set then s.p_queue ++ packet_to p.socket (declined a) ∷ [] else s.p_queue;
        })
  unfolding proceed_decline_join
  proceed_decline_join-frees sender asked =
      let ready : Player = set_availible true unasked in
      let free : Player = set_availible true p in
      let s1 : State = record s { heap = set s.heap b first_mark } in
      let s3 : State = heard p.socket_set in
      let s4 : State = record s3 { heap = set closed.heap a free } in
      rw
        (
          proceed_decline_join,
          sender,
          load-at s b q there,
          and_then,
          modify-at s b q (λ x. record x { asked_for_joining_by = none }) there,
          and_then,
          modify-at s1 b first_mark (λ x. record x { joining_player = none })
              (get_elem?-set_self s.heap b first_mark lt),
          and_then,
          marks,
          asked,
          load-at closed a p still,
          and_then,
          told q.asked_for_joining_by p.socket_set asked,
          and_then,
          modify-at s3 a p (set_availible true) still,
          and_then,
          modify-at s4 b unasked (set_availible true) (
              get_elem?-set_ne closed.heap a b free apart ∙ get_elem?-set_self s.heap b unasked lt),
        )
        (ap (λ h. done tt (record s3 { heap = h }))
          (ap (λ h. set h b ready) (set-set_ne s.heap b a unasked free (λ e. apart (sym e)))
            ∙ set-set (set s.heap a free) b unasked ready))
