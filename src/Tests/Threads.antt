-- ===== src/Tests/Threads.antt =====
-- Two threads at one queue: thread 1 pushes, thread 0 has the loop.
use ups_server.Base.{true, List, ℕ, ◌≡◌, ◌≢◌, refl, [], ◌∷◌, ◌++◌, Fault, none}
use ups_server.Queue.{front}
use ups_server.Queue.Threads.{
  failed, push_lock, push_body, empty_lock, empty_body, empty_unlock, pop_lock, pop_front, unlock,
  System, pick, Reach, start, later,
}
use ups_server.Queue.Threads.Histories.{Reach-ordered}
use ups_server.Queue.Threads.Invariant.{inside}
use ups_server.Queue.Threads.Progress.{Released, Reach-Released}

-- A system with the way that leads to it.
record Run : Type 1 where
  last : System ℕ
  reach : Reach 0 last

-- Thread 1 has locked the mutex to push 7.
abbrev locked : Run
locked = record { last = _; reach = later start (pick 1 (push_lock 7 refl)) }

abbrev full : Run
full = record { last = _; reach = later (later locked.reach (pick 1 push_body)) (pick 1 unlock) }

-- Thread 0 has seen an element, and waits for the mutex while thread 1 pushes 8.
abbrev seen : Run
seen = record {
  last = _;
  reach =
      later
        (later (later (later full.reach (pick 0 (empty_lock refl refl))) (pick 0 empty_body))
          (pick 0 empty_unlock))
        (pick 1 (push_lock 8 refl));
}

abbrev read : Run
unfolding front
read = record {
  last = _;
  reach =
      later
        (later (later (later seen.reach (pick 1 push_body)) (pick 1 unlock))
          (pick 0 (pop_lock refl)))
        (pick 0 (pop_front refl));
}

Reach-ordered_example :
    (◌≡◌ {A = List ℕ} (7 ∷ 8 ∷ []) ([] ++ (7 ∷ 8 ∷ [])))
    × ((i : ℕ) (e : Fault) → read.last.pc i ≢ failed e)
    × ((i j : ℕ) → inside (read.last.pc i) ≡ true → inside (read.last.pc j) ≡ true → i ≡ j)
unfolding read
Reach-ordered_example = Reach-ordered read.reach

Reach-Released_example : Released 0 0 read.last.shared (read.last.pc 0)
unfolding read
Reach-Released_example = Reach-Released read.reach 0 refl

-- The two would push at the same time, and one waits.
waits : locked.last.shared.mutex ≢ none
waits e = cc
