-- ===== src/Commands/Lobby/Requests.antt =====
-- What a request to join does when the other player is free.
use ups_server.Base.{
  set-set_twice, set-set, ℕ, ◌≡◌, ◌≢◌, refl, sym, ◌∙◌, false, Bytes, codes, [], ◌∷◌, ◌++◌, some,
  get_elem?, get_elem?-set_self, get_elem?-set_ne, lt_of_get_elem?, set,
}
use ups_server.Commands.Dispatch.Packets.{register_message-frame}
use ups_server.Commands.Lobby.{tell, set_availible, request_join}
use ups_server.Commands.Lobby.Registration.{packet_to, ack, ack-Fits}
use ups_server.Game.Player.{Player}
use ups_server.Server.Access.{load-at, modify-at}
use ups_server.Server.State.{State, done, and_then}
use ups_server.Wire.Codes.{h_s_join_player, head_to_format, find_format}
use ups_server.Wire.Format.{Fits}
use ups_server.Wire.Message.{Message, message, text}

-- The request, with the name of the player who asks.
abbrev pub join_request : ℕ → Bytes → Message
join_request b name = record (message h_s_join_player (codes "s")) {
  payload = text name ∷ [];
  player = some b;
}

module _ (s : State) (a b : ℕ) (p q : Player) (here : get_elem? s.heap a ≡ some p)
    (there : get_elem? s.heap b ≡ some q) (apart : a ≢ b) where
  asking : Player
  asking = record p { availible = false; joining_player = some b }

  heaps :
      (asked asked' : Player)
      → set (set (set (set s.heap a asking) b asked) a asking) b asked'
        ≡ set (set s.heap a asking) b asked'
  heaps asked asked' = set-set_twice s.heap a b asking asked asking asked' apart

  -- Of two different players who are there, where the request fits a packet: the one who asks gets an
  -- acknowledgement and the other one the request with the first one's name, both are no longer free,
  -- and each points to the other; nothing else changes.
  pub request_join-asks :
      Fits (join_request b p.name)
      → request_join (some a) (some b) s
        ≡ done tt (record s {
          heap =
              set
                (set s.heap a (record p { availible = false; joining_player = some b }))
                b
                (record q { asked_for_joining_by = some a; availible = false });
          p_queue =
              (s.p_queue ++ packet_to p.socket (ack a) ∷ [])
              ++ packet_to q.socket (join_request b p.name) ∷ [];
        })
  unfolding request_join tell asking head_to_format find_format
  request_join-asks fits =
      let q1 = s.p_queue ++ packet_to p.socket (ack a) ∷ [] in
      let q2 = q1 ++ packet_to q.socket (join_request b p.name) ∷ [] in
      let closed : Player = set_availible false p in
      let asked : Player = record q { asked_for_joining_by = some a } in
      let asked' : Player = set_availible false asked in
      let lt_a = lt_of_get_elem? s.heap a p here in
      let h1 = set s.heap a closed in
      let h2 = set s.heap a asking in
      let at_a1 = get_elem?-set_self s.heap a closed lt_a in
      let at_a2 = get_elem?-set_self s.heap a asking lt_a in
      let at_b = get_elem?-set_ne s.heap a b asking apart ∙ there in
      let lt_b = lt_of_get_elem? h2 b q at_b in
      let h3 = set h2 b asked in
      let at_a3 = get_elem?-set_ne h2 b a asked (λ e. apart (sym e)) ∙ at_a2 in
      let h4 = set h3 a asking in
      let at_b4 = get_elem?-set_ne h3 a b asking apart ∙ get_elem?-set_self h2 b asked lt_b in
      let merged : set h1 a asking ≡ h2 = set-set s.heap a closed asking in
      rw
        (
          request_join,
          register_message-frame s (ack a) a p (ack-Fits a) refl here,
          and_then,
          modify-at (record s { p_queue = q1 }) a p (set_availible false) here,
          and_then,
          modify-at (record s { p_queue = q1; heap = h1 }) a closed
              (λ x. record x { joining_player = some b }) at_a1,
          and_then,
          merged,
          load-at (record s { p_queue = q1; heap = h2 }) a asking at_a2,
          and_then,
          register_message-frame (record s { p_queue = q1; heap = h2 }) (join_request b p.name) b q
              fits refl at_b,
          and_then,
          modify-at (record s { p_queue = q2; heap = h2 }) b q
              (λ x. record x { asked_for_joining_by = some a }) at_b,
          and_then,
          modify-at (record s { p_queue = q2; heap = h3 }) a asking (set_availible false) at_a3,
          and_then,
          modify-at (record s { p_queue = q2; heap = h4 }) b asked (set_availible false) at_b4,
          heaps asked asked',
        )
        refl
