-- ===== src/Commands/Memory/Reachable.antt =====
-- The memory in the states that the server comes to.
use mathlib.Core.Path.{subst, sym}
use ups_server.Base.{
  Fault, Tolerated, drop, Bool-cases, inl, inr, ltb, ℕ, suc, ◌≡◌, Bool, [], ◌∷◌, ◌++◌, Option, none,
  some, All-mono, All-append, arith, length, length-append, refl,
}
use ups_server.Commands.Dispatch.{accept_client, fd_setsize}
use ups_server.Commands.Memory.Steps.{
  command_step-Keeps, packet_step-Keeps, send_step-Valid, serve_client-Keeps,
}
use ups_server.Commands.Events.{
  start, Event, accepts, receives, packets, commands, sends, run_event, Reachable, starts, after,
}
use ups_server.Game.Player.{Player, player}
use ups_server.Game.Board.{Game}
use ups_server.Server.Memory.{
  Object, PlayerOk, GameOk, Below, Valid, WellFormed, Later, Safe, safe, crashes, Any,
}
use ups_server.Server.Memory.Managers.{Ptr-mono, Below-mono}
use ups_server.Server.Memory.Rules.{Safe-then, pure-Keeps, Later-refl}
use ups_server.Server.State.{State, Run, done, crash, update}

PlayerOk-suc : (n : ℕ) (p : Player) → PlayerOk n p → PlayerOk (suc n) p
PlayerOk-suc n p p_ok = record {
  joining = Ptr-mono n (suc n) p.joining_player (omega arith) p_ok.joining;
  asked = Ptr-mono n (suc n) p.asked_for_joining_by (omega arith) p_ok.asked;
}

Object-suc : (n : ℕ) (p : Option ℕ) → Object n p → Object (suc n) p
Object-suc n none h = h
Object-suc n (some a) h = omega arith

GameOk-suc : (n : ℕ) (g : Game) → GameOk n g → GameOk (suc n) g
GameOk-suc n g g_ok = record {
  first = Object-suc n g.p1 g_ok.first;
  second = Object-suc n g.p2 g_ok.second;
  turn = Ptr-mono n (suc n) g.player_on_turn (omega arith) g_ok.turn;
  board = g_ok.board;
}

-- A new client is one more player.
accept_client-Valid :
    {n k : ℕ} (held : Bool) (fd : ℕ)
    → (s : State) → Valid n k s
    → Safe (suc n) k s Any (accept_client held fd s)
unfolding accept_client update
accept_client-Valid {n = n} {k = k} held fd s v = elim (Bool-cases (ltb fd fd_setsize)) [
  | inl fits ↦ rw fits (safe (omega arith) accepted (Later-refl s) tt)
  | inr overflows ↦ rw overflows (crashes tt)
]
  where
    accepted : Valid (suc n) k (record s {
      client_socks = fd ∷ s.client_socks;
      heap = s.heap ++ player held fd ∷ [];
      players = s.players ++ length s.heap ∷ [];
    })
    accepted = record {
      heap_size = omega (arith, v.heap_size, length-append s.heap (player held fd ∷ []));
      links =
          All-append (PlayerOk (suc n)) s.heap (player held fd ∷ [])
            (All-mono _ _ (PlayerOk-suc n) s.heap v.links)
            (record { joining = tt; asked = tt }, tt);
      game_size = v.game_size;
      boards = All-mono _ _ (GameOk-suc n) s.game_heap v.boards;
      ids = v.ids;
      next_id = v.next_id;
      listed =
          All-append (Below (suc n)) s.players (length s.heap ∷ [])
            (Below-mono n (suc n) s.players (omega arith) v.listed)
            (omega (arith, v.heap_size), tt);
      running = v.running;
      waiting =
          All-mono _ _ (λ m h. (Ptr-mono n (suc n) m.player (omega arith) h.0, h.1)) s.command_queue
            v.waiting;
    }

-- What the sender has after it took a packet, if the round is its.
abbrev pub before : Event → State → State
before sends s = record s { p_queue = drop 1 s.p_queue }
before e s = s

run_event-Safe :
    (n k : ℕ) (e : Event) (s : State)
    → Valid n k s
    → (n' : ℕ) × Safe n' k (before e s) Any (run_event e s)
unfolding run_event
run_event-Safe n k (accepts held fd) s v = (suc n, accept_client-Valid held fd s v)
run_event-Safe n k (receives fd bytes) s v = (n, serve_client-Keeps fd bytes s v)
run_event-Safe n k packets s v = (n, packet_step-Keeps s v)
run_event-Safe n k (commands fallen) s v = (n, command_step-Keeps fallen s v)
run_event-Safe n k sends s v =
    (n, Safe-then (send_step-Valid s v) (λ k' sent le _. pure-Keeps tt tt))

start-Valid : (held : ℕ → Option ℕ) → Valid 0 0 (record start { unset = held })
start-Valid held = record {
  heap_size = refl;
  links = tt;
  game_size = refl;
  boards = tt;
  ids = tt;
  next_id = refl;
  listed = tt;
  running = tt;
  waiting = tt;
}

-- The sizes are read off a well formed memory.
whole : (n k : ℕ) (s : State) → Valid n k s → WellFormed s
whole n k s v =
    subst (λ j. Valid (length s.heap) j s) (sym v.game_size)
      (subst (λ i. Valid i k s) (sym v.heap_size) v)

Safe-done :
    {n k : ℕ} {s : State} {r : Run (Unit {0})} {u : Unit {0}} {t : State}
    → Safe n k s Any r
    → r ≡ done u t
    → WellFormed t × Later s t
Safe-done {n = n} {s = s} {t = t} (safe {k' = k'} {t = t0} le v l q) e =
    let same : t0 ≡ t = cc in (subst WellFormed same (whole n k' t0 v), subst (Later s) same l)
Safe-done (crashes h) e = cc

Safe-Tolerated :
    {n k : ℕ} {s : State} {r : Run (Unit {0})} {why : Fault}
    → Safe n k s Any r
    → r ≡ crash why
    → Tolerated why
Safe-Tolerated (safe le v l q) e = cc
Safe-Tolerated {why = why} (crashes {e = e'} h) e =
    let same : e' ≡ why = cc in subst Tolerated same h

-- In every state that the server comes to, whatever the memory of new games held before: each stored
-- pointer to a player is null or leads to an object, also the one to the player on turn, each game
-- has two players and a board of 64 squares, and the games' ids are the numbers from 0 on, modulo
-- 2 ^ 32.
pub Reachable-WellFormed : (s : State) → Reachable s → WellFormed s
Reachable-WellFormed s (starts held) = whole 0 0 (record start { unset = held }) (start-Valid held)
Reachable-WellFormed t (after {s = s} e r h) =
    (Safe-done
      (run_event-Safe (length s.heap) (length s.game_heap) e s (Reachable-WellFormed s r)).1 h).0

-- A round leaves the packets that wait for the sender in their places, but for the one that the
-- sender's round takes.
pub run_event-Later :
    (s t : State) (u : Unit {0}) (e : Event)
    → WellFormed s
    → run_event e s ≡ done u t
    → WellFormed t × Later (before e s) t
run_event-Later s t u e w h =
    Safe-done (run_event-Safe (length s.heap) (length s.game_heap) e s w).1 h

-- From every state that the server comes to, where a round of a thread stops at a fault, this is an
-- access outside an array, a null or an unset pointer, a `new` of a negative size, an `erase`
-- outside the vector, or a function that ends without its `return`: no item of a command is missing
-- or read at another type than its own, and no empty queue is read.
pub run_event-Tolerated :
    (s : State) (e : Event) (why : Fault) → Reachable s → run_event e s ≡ crash why → Tolerated why
run_event-Tolerated s e why r =
    Safe-Tolerated
      (run_event-Safe (length s.heap) (length s.game_heap) e s (Reachable-WellFormed s r)).1
