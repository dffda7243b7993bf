-- ===== src/Tests/Memory.antt =====
-- States that the server comes to.
use ups_server.Base.{
  none, ◌&&◌, ◌==◌, ℕ, ◌≡◌, refl, true, [], ◌∷◌, codes, some, arith, ◌=s=◌, =s=-refl, Option,
}
use ups_server.Commands.Events.{start, accepts, run_event, Reachable, starts, after}
use ups_server.Commands.Dispatch.{accept_client}
use ups_server.Commands.Memory.Reachable.{Reachable-WellFormed}
use ups_server.Game.Player.{player}
use ups_server.Server.Games.Finding.{registered}
use ups_server.Server.Memory.{WellFormed}
use ups_server.Server.Players.{delete_player, get_player_by_name, get_player_by_socket}
use ups_server.Server.Players.Lookup.{FirstOf, lookups-FirstOf}
use ups_server.Server.Players.Deletion.{delete_player-first}
use ups_server.Server.State.{State, done, update}

-- Two clients are connected.
abbrev one_client : State
one_client = record start { heap = player true 4 ∷ []; players = 0 ∷ []; client_socks = 4 ∷ [] }

abbrev pub two_clients : State
two_clients = record start {
  heap = player true 4 ∷ player true 5 ∷ [];
  players = 0 ∷ 1 ∷ [];
  client_socks = 5 ∷ 4 ∷ [];
}

pub two_clients-Reachable : Reachable two_clients
unfolding run_event accept_client update
two_clients-Reachable =
    after {s = one_client} (accepts true 5)
      (after {s = start} (accepts true 4) (starts (λ _. none)) refl) refl

Reachable-WellFormed_example : WellFormed two_clients
Reachable-WellFormed_example = Reachable-WellFormed two_clients two_clients-Reachable

pub two_clients-WellFormed : WellFormed two_clients
two_clients-WellFormed = Reachable-WellFormed two_clients two_clients-Reachable

-- The two of them play.
abbrev pub one_game : State
one_game = registered two_clients 0 1

pub one_game-WellFormed : WellFormed one_game
one_game-WellFormed = record {
  heap_size = refl;
  links = two_clients-WellFormed.links;
  game_size = refl;
  boards = (record { first = omega arith; second = omega arith; turn = tt; board = refl }, tt);
  ids = (refl, tt);
  next_id = refl;
  listed = two_clients-WellFormed.listed;
  running = (omega arith, tt);
  waiting = tt;
}

lookups-FirstOf_example :
    ((found : Option ℕ) × (get_player_by_name (codes "a") two_clients ≡ done found two_clients)
      × FirstOf two_clients (λ p. p.name =s= codes "a") (0 ∷ 1 ∷ []) found)
    × ((found : Option ℕ) × (get_player_by_socket 5 two_clients ≡ done found two_clients)
        × FirstOf two_clients (λ p. p.socket_set && (p.socket == 5)) (0 ∷ 1 ∷ []) found)
lookups-FirstOf_example = lookups-FirstOf two_clients (codes "a") 5 two_clients-WellFormed

-- Neither of the two has a name yet: the deletion of the second takes the first.
delete_player-first_example :
    delete_player (some 1) two_clients ≡ done tt (record two_clients { players = 1 ∷ [] })
delete_player-first_example =
    delete_player-first two_clients 1 (player true 5) [] (1 ∷ []) 0 refl refl tt
      (player true 4, refl, no_names)
  where
    no_names : ([] =s= []) ≡ true
    no_names = =s=-refl []
