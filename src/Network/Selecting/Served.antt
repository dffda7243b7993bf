-- ===== src/Network/Selecting/Served.antt =====
-- Which events a round of the `select` loop brings, and in which order.
use ups_server.Base.{ℕ, suc, ◌≤◌, ◌<◌, ◌≡◌, Bool, true, false, List, [], ◌∷◌, ◌==◌, if◌then◌else◌}
use ups_server.Commands.Events.{Event, accepts, receives, run_event}
use ups_server.Network.Selecting.{Ready}
use ups_server.Server.State.{State, M, pure, ◌>>◌}

-- The descriptors of a set from one bound on and below another, in ascending order.
abbrev pub Members : (ℕ → Bool) → ℕ → ℕ → List ℕ → Type 0
Members set low high [] = (x : ℕ) → low ≤ x → x < high → set x ≡ false
Members set low high (fd ∷ fds) =
    (low ≤ fd)
    × (fd < high)
    × ((x : ℕ) → low ≤ x → x < fd → set x ≡ false)
    × (set fd ≡ true)
    × Members set (suc fd) high fds

-- Events one after the other.
unfoldable pub run_events : List Event → M (Unit {0})
run_events [] = pure tt
run_events (e ∷ events) = run_event e >> run_events events

-- What a ready descriptor brings: a new client at the listening socket, and what waits there at any
-- other.
abbrev brings : Ready → List ℕ → List Event
brings r [] = []
brings r (fd ∷ fds) =
    (if fd == r.server_socket then accepts r.held r.accepted else receives fd (r.waiting fd))
    ∷ brings r fds
