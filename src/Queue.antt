-- ===== src/Queue.antt =====
-- UPSServer/datatypes/ConcurrentQueue.cpp. Each operation holds the queue's mutex from its first to
-- its last access, so a thread sees it as one step. A queue is a list, oldest first.
pub mod Order
pub mod Threads
use package.ups_server.Base.{
  ℕ, Bool, true, false, List, [], ◌∷◌, ◌++◌, Result, ok, fault, empty_queue, length,
}

abbrev pub Queue {ℓ} : Type ℓ → Type ℓ
Queue A = List A

module _ {ℓ} {A : Type ℓ} where
  abbrev pub empty : Queue A → Bool
  empty [] = true
  empty (x ∷ q) = false

  abbrev pub size : Queue A → ℕ
  size q = length q

  unfoldable pub front : Queue A → Result A
  front [] = fault empty_queue
  front (x ∷ q) = ok x

  unfoldable pub back : Queue A → Result A
  back [] = fault empty_queue
  back (x ∷ []) = ok x
  back (x ∷ y ∷ q) = back (y ∷ q)

  abbrev pub push : Queue A → A → Queue A
  push q x = q ++ x ∷ []

  unfoldable pub pop : Queue A → Result (A × Queue A)
  pop [] = fault empty_queue
  pop (x ∷ q) = ok (x, q)
