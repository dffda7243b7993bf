-- ===== src/Commands/Memory/Delivery.antt =====
-- What `Sender::run` of UPSServer/network/Sender.cpp hands to `send`, over any rounds of the threads.
use mathlib.Core.Path.{subst}
use ups_server.Base.{
  ℕ, zero, suc, ◌<◌, ◌≡◌, refl, sym, ap, ◌∙◌, List, [], ◌∷◌, ◌++◌, Option, none, some, arith,
  get_elem?,
}
use ups_server.Commands.Dispatch.{send_step}
use ups_server.Commands.Events.{
  Event, accepts, receives, packets, commands, sends, run_event, Reachable, after,
}
use ups_server.Commands.Memory.Reachable.{before, Reachable-WellFormed, run_event-Later}
use ups_server.Queue.{pop}
use ups_server.Server.Memory.{Later}
use ups_server.Server.State.{
  State, Packet, Run, M, done, crash, dangling, pure, ◌>>=◌, ◌>>◌, and_then, get, update, lift,
}

-- A round, with the packet that it hands to `send`, if any.
abbrev round : Event → M (Option Packet)
round sends = send_step
round e = run_event e >>= λ _. pure none

abbrev add : Option Packet → List Packet → List Packet
add none sent = sent
add (some packet) sent = packet ∷ sent

-- Rounds one after the other, with all that they hand to `send`.
unfoldable pub rounds : List Event → M (List Packet)
rounds [] = pure []
rounds (e ∷ events) = do packet ← round e; sent ← rounds events; pure (add packet sent)

abbrev sender_rounds : List Event → ℕ
sender_rounds [] = 0
sender_rounds (sends ∷ events) = suc (sender_rounds events)
sender_rounds (e ∷ events) = sender_rounds events

-- What a chain that ends came through.
and_then-done :
    {A B : Type 0} (r : Run A) (f : A → M B) {b : B} {u : State}
    → and_then r f ≡ done b u
    → (a : A) × (t : State) × (r ≡ done a t) × (f a t ≡ done b u)
and_then-done (done a t) f h = (a, t, refl, h)
and_then-done (crash why) f h = absurd (cc)
and_then-done dangling f h = absurd (cc)

-- A round of the sender, where a packet waits.
send_step-front :
    (s : State) (p : Packet) (queue : List Packet)
    → s.p_queue ≡ p ∷ queue
    → send_step s ≡ done (some p) (record s { p_queue = queue })
unfolding send_step get update pop
send_step-front s p queue e =
    subst
      (λ q.
        (elim q as (λ _. M (Option Packet)) [
          | [] ↦ pure none
          | _ ∷ _ ↦ do
            (packet, rest) ← lift (pop q)
            update (λ s. record s { p_queue = rest })
            pure (some packet)
        ])
          s
        ≡ done (some p) (record s { p_queue = queue }))
      (sym e) refl

get_elem?-append_left :
    {A : Type 0} (xs ys : List A) (i : ℕ) (x : A)
    → get_elem? xs i ≡ some x
    → get_elem? (xs ++ ys) i ≡ some x
get_elem?-append_left [] ys i x h = absurd (cc)
get_elem?-append_left (y ∷ xs) ys zero x h = h
get_elem?-append_left (y ∷ xs) ys (suc i) x h = get_elem?-append_left xs ys i x h

-- A packet keeps its place while others come.
keeps_place :
    (s u : State) (i : ℕ) (packet : Packet)
    → Later s u
    → get_elem? s.p_queue i ≡ some packet
    → get_elem? u.p_queue i ≡ some packet
keeps_place s u i packet (queued, grown) waits =
    ap (λ q. get_elem? q i) grown ∙ get_elem?-append_left s.p_queue queued i packet waits

-- The rounds after the first, where this is not the sender's.
module _ (events : List Event) (e : Event) (s : State) (reached : Reachable s) where
  after_round :
      (o : Option Packet) {sent : List Packet} {t u : State} {x : Unit {0}}
      → run_event e s ≡ done x u
      → (rounds events >>= λ more. pure (add o more)) u ≡ done sent t
      → (more : List Packet) × Reachable u × (rounds events u ≡ done more t) × (add o more ≡ sent)
  after_round o {sent} {t} {u} run h =
      let (more, v, rest, last) = and_then-done (rounds events u) _ h in
      let same : v ≡ t = cc in
      (more, after e reached run, subst (λ w. rounds events u ≡ done more w) same rest, cc)

  other_round :
      {sent : List Packet} {t : State} (i : ℕ) (packet : Packet)
      → before e s ≡ s
      → and_then
          (and_then (run_event e s) (λ _. pure none))
          (λ o. rounds events >>= λ more. pure (add o more))
        ≡ done sent t
      → get_elem? s.p_queue i ≡ some packet
      → ((u : State)
          → Reachable u
          → rounds events u ≡ done sent t
          → get_elem? u.p_queue i ≡ some packet
          → get_elem? sent i ≡ some packet)
      → get_elem? sent i ≡ some packet
  other_round {sent} {t} i packet kept h waits later =
      let (o, u, first, rest) = and_then-done (and_then (run_event e s) (λ _. pure none)) _ h in
      let (x, v, run, last) = and_then-done (run_event e s) _ first in
      let nothing : none ≡ o = cc in
      let same : v ≡ u = cc in
      let run' : run_event e s ≡ done x u = subst (λ w. run_event e s ≡ done x w) same run in
      let (more, reached', after_it, all) = after_round o run' rest in
      let sent' : more ≡ sent = subst (λ p. add p more ≡ sent) (sym nothing) all in
      let grows : Later s u =
        subst (λ w. Later w u) kept
          (run_event-Later s u x e (Reachable-WellFormed s reached) run').1 in
      let rest' : rounds events u ≡ done sent t =
        subst (λ ps. rounds events u ≡ done ps t) sent' after_it in
      later u reached' rest' (keeps_place s u i packet grows waits)

module _ (events : List Event) (s : State) (reached : Reachable s) where
  sender_round :
      {sent : List Packet} {t : State} (i : ℕ) (packet : Packet) (queue : List Packet)
      → s.p_queue ≡ queue
      → and_then (send_step s) (λ o. rounds events >>= λ more. pure (add o more)) ≡ done sent t
      → get_elem? queue i ≡ some packet
      → ((u : State) (more : List Packet) (j : ℕ)
          → i ≡ suc j
          → Reachable u
          → rounds events u ≡ done more t
          → get_elem? u.p_queue j ≡ some packet
          → get_elem? more j ≡ some packet)
      → get_elem? sent i ≡ some packet
  unfolding run_event
  sender_round i packet [] e h waits later = absurd (cc)
  sender_round {sent} {t} i packet (p ∷ queue) e h waits later =
      let step = send_step-front s p queue e in
      let rest =
        subst (λ r. and_then r (λ o. rounds events >>= λ more. pure (add o more)) ≡ done sent t)
          step h in
      let run : run_event sends s ≡ done tt (record s { p_queue = queue }) =
        ap (λ r. and_then r (λ _. pure tt)) step in
      let (more, reached', after_it, all) = after_round events sends s reached (some p) run rest in
      subst (λ ps. get_elem? ps i ≡ some packet) all
        (at more i waits (λ j e. later (record s { p_queue = queue }) more j e reached' after_it))
    where
      at :
          (more : List Packet) (i : ℕ)
          → get_elem? (p ∷ queue) i ≡ some packet
          → ((j : ℕ) → i ≡ suc j → get_elem? queue j ≡ some packet → get_elem? more j ≡ some packet)
          → get_elem? (p ∷ more) i ≡ some packet
      at more zero here next = here
      at more (suc j) there next = next j refl there

-- From a state that the server comes to, with any rounds of the threads that stop at no fault: a
-- packet that waits at a place in the sender's queue is handed to `send` at this place, if there
-- are more rounds of the sender than packets before it.
pub rounds-delivers :
    (events : List Event) (s t : State) (sent : List Packet) (i : ℕ) (packet : Packet)
    → Reachable s
    → rounds events s ≡ done sent t
    → get_elem? s.p_queue i ≡ some packet
    → i < sender_rounds events
    → get_elem? sent i ≡ some packet
unfolding rounds
rounds-delivers [] s t sent i packet reached h waits lt = absurd (omega (arith, lt))
rounds-delivers (accepts held fd ∷ events) s t sent i packet reached h waits lt =
    other_round events (accepts held fd) s reached i packet refl h waits
      λ u r g w. rounds-delivers events u t sent i packet r g w lt
rounds-delivers (receives fd bytes ∷ events) s t sent i packet reached h waits lt =
    other_round events (receives fd bytes) s reached i packet refl h waits
      λ u r g w. rounds-delivers events u t sent i packet r g w lt
rounds-delivers (packets ∷ events) s t sent i packet reached h waits lt =
    other_round events packets s reached i packet refl h waits
      λ u r g w. rounds-delivers events u t sent i packet r g w lt
rounds-delivers (commands fallen ∷ events) s t sent i packet reached h waits lt =
    other_round events (commands fallen) s reached i packet refl h waits
      λ u r g w. rounds-delivers events u t sent i packet r g w lt
rounds-delivers (sends ∷ events) s t sent i packet reached h waits lt =
    sender_round events s reached i packet s.p_queue refl h waits
      λ u more j e r g w. rounds-delivers events u t more j packet r g w (omega (arith, e, lt))
