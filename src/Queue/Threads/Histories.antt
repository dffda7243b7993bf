-- ===== src/Queue/Threads/Histories.antt =====
-- What the threads see of the queue, in any order of their accesses.
use ups_server.Base.{ℕ, ◌≡◌, ◌≢◌, sym, ◌∙◌, true, ◌++◌, Fault}
use ups_server.Queue.{Queue}
use ups_server.Queue.Threads.{
  Pc, outside, pushing, testing, tested, checked, fronting, taking, leaving, failed, System, Reach,
}
use ups_server.Queue.Threads.Invariant.{inside, Sees, some-injective_lem, Reach-Inv}

-- Two threads are never between a lock and its unlock together.
Reach-exclusive :
    {A : Type 0} {c : ℕ} {s : System A}
    → Reach c s
    → (i j : ℕ) → inside (s.pc i) ≡ true
    → inside (s.pc j) ≡ true
    → i ≡ j
Reach-exclusive r i j in_i in_j =
    some-injective_lem i j (sym ((Reach-Inv r).held i in_i) ∙ (Reach-Inv r).held j in_j)

not_failed : {A : Type 0} (q : Queue A) (e : Fault) (p : Pc A) → Sees q p → p ≢ failed e
not_failed q e outside h d = cc
not_failed q e (pushing x) h d = cc
not_failed q e testing h d = cc
not_failed q e (tested b) h d = cc
not_failed q e checked h d = cc
not_failed q e fronting h d = cc
not_failed q e (taking x) h d = cc
not_failed q e leaving h d = cc
not_failed q e (failed f) h d = h

-- In any order of the accesses, what the loop took from the queue and then what is in it is what the
-- threads put into it, in the order of the pushes; no thread fails, since where the loop saw elements
-- `pop` finds one; and two threads are never between a lock and its unlock together.
pub Reach-ordered :
    {A : Type 0} {c : ℕ} {s : System A}
    → Reach c s
    → (s.shared.pushed ≡ s.shared.popped ++ s.shared.queue)
      × ((i : ℕ) (e : Fault) → s.pc i ≢ failed e)
      × ((i j : ℕ) → inside (s.pc i) ≡ true → inside (s.pc j) ≡ true → i ≡ j)
Reach-ordered {s} r = (
  (Reach-Inv r).history,
  λ i e. not_failed s.shared.queue e (s.pc i) ((Reach-Inv r).sees i),
  Reach-exclusive r,
)
