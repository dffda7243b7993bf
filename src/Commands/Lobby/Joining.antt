-- ===== src/Commands/Lobby/Joining.antt =====
-- What a request to join another player leads to.
use ups_server.Base.{
  ℕ, ◌≡◌, ◌≢◌, refl, ap, ◌∙◌, Bool, true, false, not, ◌&&◌, Bytes, List, [], ◌∷◌, ◌++◌, Option,
  some, All, arith, get_elem?, set, ◌=s=◌, if◌then◌else◌,
}
use ups_server.Commands.Dispatch.Packets.{register_message-frame}
use ups_server.Commands.Lobby.{tell, text_at, is_joinable, request_join, proceed_player_joining}
use ups_server.Commands.Lobby.Registration.{packet_to, ack}
use ups_server.Commands.Lobby.Requests.{join_request, request_join-asks}
use ups_server.Game.Player.{Player}
use ups_server.Server.Access.{load-at}
use ups_server.Server.Players.{get_player_by_name}
use ups_server.Server.Players.Disconnection.{first_player-here}
use ups_server.Server.Players.Lookup.{Fails}
use ups_server.Server.Players.{first_player}
use ups_server.Server.State.{State, M, done, and_then, get}
use ups_server.Wire.Codes.{h_s_nack, head_to_format, find_format}
use ups_server.Wire.Format.{Fits, encode}
use ups_server.Wire.Message.{Message, message, text}
use ups_server.Wire.Serialize.{at, as_text}

abbrev pub refusal : ℕ → Message
refusal a = record (message h_s_nack []) { player = some a }

pub refusal-Fits : (a : ℕ) → Fits (refusal a)
unfolding encode
refusal-Fits a = record { header = omega arith; payload = tt; size = omega arith }

module _ (s : State) (m : Message) (a b : ℕ) (name : Bytes) (before after : List ℕ) (p q : Player)
    (here : get_elem? s.heap a ≡ some p) (there : get_elem? s.heap b ≡ some q) (apart : a ≢ b)
    (listed : s.players ≡ before ++ b ∷ after) (fails : All (Fails s (λ p. p.name =s= name)) before)
    (named : (q.name =s= name) ≡ true) where
  -- The memory after the request, and after its refusal.
  abbrev requested : State
  requested = record s {
    heap =
        set (set s.heap a (record p { availible = false; joining_player = some b })) b
          (record q { asked_for_joining_by = some a; availible = false });
    p_queue =
        (s.p_queue ++ packet_to p.socket (ack a) ∷ [])
        ++ packet_to q.socket (join_request b p.name) ∷ [];
  }

  abbrev pub refused : State
  refused = record s { p_queue = s.p_queue ++ packet_to p.socket (refusal a) ∷ [] }

  oponent_found : get_player_by_name name s ≡ done (some b) s
  unfolding get_player_by_name get
  oponent_found =
      ap (λ xs. first_player (λ p. p.name =s= name) xs s) listed
      ∙ first_player-here s (λ p. p.name =s= name) before after b fails (q, there, named)

  choose :
      (free : Bool) (self : Option ℕ)
      → self ≡ some a
      → Fits (join_request b p.name)
      → (elim free as (λ _. M (Unit {0})) [
        | true ↦ request_join self (some b)
        | false ↦ tell self h_s_nack []
      ])
          s
        ≡ done tt (if free then requested else refused)
  unfolding tell head_to_format find_format
  choose true self own fits = rw own (request_join-asks s a b p q here there apart fits)
  choose false self own fits =
      rw own (register_message-frame s (refusal a) a p (refusal-Fits a) refl here)

  -- Where a player asks to join the first listed player of a name, who is there and a different one,
  -- and the request fits a packet: if that player is free for a game, has a socket and is in none, the
  -- one who asks gets an acknowledgement and the other one the request with the first one's name, both
  -- are no longer free, and each points to the other; if not, the one who asks is refused. Nothing
  -- else changes.
  pub proceed_player_joining-answers :
      m.player ≡ some a
      → m.payload ≡ text name ∷ []
      → Fits (join_request b p.name)
      → proceed_player_joining m s
        ≡ done tt (if q.availible && (q.socket_set && not q.in_game) then requested else refused)
  unfolding proceed_player_joining text_at at as_text
  proceed_player_joining-answers sender payload fits =
      rw
        (
          proceed_player_joining,
          text_at,
          payload,
          oponent_found,
          and_then,
          load-at s b q there,
          and_then,
        )
        (choose (is_joinable q) m.player sender fits)
