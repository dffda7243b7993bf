-- ===== src/Tests/Registration.antt =====
-- Registrations of new players, and a request to join.
use ups_server.Commands.Lobby.Joining.{proceed_player_joining-answers}
use ups_server.Commands.Lobby.Requests.{join_request}
use ups_server.Wire.Format.{Fits, encode, encode_item}
use ups_server.Base.{
  false, arith, ℕ, zero, suc, ◌≡◌, refl, ap, ◌∙◌, sym, true, [], ◌∷◌, codes, some, get_elem?, Bytes,
  ◌=s=◌, Bool, ◌↔◌, All, if◌then◌else◌,
}
use ups_server.Commands.Lobby.{proceed_new_player_connection, proceed_player_joining}
use ups_server.Commands.Lobby.Names.{NotNamed}
use ups_server.Commands.Lobby.Registration.{
  packet_to, ack, nack, proceed_new_player_connection-answers,
}
use ups_server.Game.Player.{Player, player}
use ups_server.Server.State.{State, done}
use ups_server.Tests.Memory.{two_clients, two_clients-WellFormed}
use ups_server.Wire.Codes.{h_c_new_pl, h_c_join_player}
use ups_server.Wire.Message.{Message, text, message}

abbrev asks_for : Bytes → Message
asks_for name = record {
  header = h_c_new_pl;
  msg_format = codes "s";
  payload = text name ∷ [];
  player = some 0;
}

unnamed : (a : ℕ) (q : Player) → get_elem? two_clients.heap a ≡ some q → q.name ≡ []
unnamed zero q e = let one : player true 4 ≡ q = cc in ap (λ x. x.name) (sym one)
unnamed (suc zero) q e = let one : player true 5 ≡ q = cc in ap (λ x. x.name) (sym one)
unnamed (suc (suc a)) q e = absurd (cc)

pub not_named : (a : ℕ) → NotNamed two_clients (codes "a") a
not_named a q e same = let named : [] ≡ codes "a" = sym (unnamed a q e) ∙ same in cc

proceed_new_player_connection-answers_example :
    (free : Bool) × ((free ≡ true) ↔ All (NotNamed two_clients (codes "a")) (0 ∷ 1 ∷ []))
    × (proceed_new_player_connection (asks_for (codes "a")) two_clients
        ≡ done tt (
            if free
            then record two_clients {
              heap =
                  record (player true 4) { name = codes "a"; name_set = true; availible = true }
                  ∷ player true 5
                  ∷ [];
              p_queue = packet_to 4 (ack 0) ∷ [];
            }
            else record two_clients { p_queue = packet_to 4 (nack 0) ∷ [] }))
proceed_new_player_connection-answers_example =
    proceed_new_player_connection-answers two_clients (asks_for (codes "a")) 0 (player true 4)
      (codes "a") two_clients-WellFormed refl refl refl

-- Both clients have names, and the second one is free for a game.
abbrev asks : Player
asks = record (player true 4) { name = codes "ab" }

abbrev free : Player
free = record (player true 5) { name = codes "c"; availible = true }

abbrev both_named : State
both_named = record two_clients { heap = asks ∷ free ∷ [] }

abbrev to_second : Message
to_second = record (message h_c_join_player (codes "s")) {
  payload = text (codes "c") ∷ [];
  player = some 0;
}

request-Fits : Fits (join_request 1 (codes "ab"))
unfolding encode encode_item
request-Fits = record {
  header = omega arith;
  payload = ((refl, omega arith, (omega arith, (omega arith, tt))), tt);
  size = omega arith;
}

proceed_player_joining-answers_example :
    proceed_player_joining to_second both_named
    ≡ done tt (record both_named {
      heap =
          record asks { availible = false; joining_player = some 1 }
          ∷ record free { asked_for_joining_by = some 0; availible = false }
          ∷ [];
      p_queue = packet_to 4 (ack 0) ∷ packet_to 5 (join_request 1 (codes "ab")) ∷ [];
    })
unfolding ◌=s=◌
proceed_player_joining-answers_example =
    proceed_player_joining-answers both_named to_second 0 1 (codes "c") (0 ∷ []) [] asks free refl
      refl (λ e. ground (arith, e)) refl ((asks, refl, refl), tt) refl refl refl request-Fits
