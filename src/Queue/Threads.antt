-- ===== src/Queue/Threads.antt =====
-- The mutex of UPSServer/datatypes/ConcurrentQueue.cpp, one access at a time, with any number of
-- threads in any order: every thread may push, and the one whose loop it is, as in `run` of
-- UPSServer/network/Sender.cpp, PacketManager.cpp and CommandManager.cpp, tests the queue for
-- elements and pops.
pub mod Invariant
pub mod Histories
pub mod Progress
use package.ups_server.Base.{
  ℕ, ◌≡◌, Bool, true, false, List, [], ◌∷◌, ◌++◌, Option, none, some, Fault, ok, fault, ◌==◌,
  if◌then◌else◌,
}
use package.ups_server.Queue.{Queue, empty, front, push, pop}

-- The queue with its mutex, which is unlocked or held by a thread. `pushed` and `popped` are what was
-- put into the queue and taken from it so far.
pub record Shared (A : Type 0) : Type 0 where
  pub mutex : Option ℕ
  pub queue : Queue A
  pub pushed : List A
  pub popped : List A

-- Where a thread stands, with what it has in hand.
pub data Pc (A : Type 0) : Type 0 where
  outside : Pc A  -- in no operation
  pushing : A → Pc A  -- in `push`, with the mutex
  testing : Pc A  -- in `empty`, with the mutex
  tested : Bool → Pc A  -- before the unlock of `empty`
  checked : Pc A  -- in the loop, before `pop`
  fronting : Pc A  -- in `pop`, with the mutex
  taking : A → Pc A  -- in `pop`, after `front`
  leaving : Pc A  -- before the unlock of `push` or `pop`
  failed : Fault → Pc A

-- What the loop does with the result of `empty`.
abbrev pub after_test : {A : Type 0} → Bool → Pc A
after_test true = outside
after_test false = checked

-- One access of thread `i`, where `c` is the thread with the loop.
pub data Move {A : Type 0} (c i : ℕ) (m : Shared A) : Pc A → Shared A → Pc A → Type 0 where
  push_lock :
      (x : A) → m.mutex ≡ none → Move c i m outside (record m { mutex = some i }) (pushing x)
  push_body :
      {x : A}
      → Move c i m
          (pushing x)
          (record m { queue = push m.queue x; pushed = m.pushed ++ x ∷ [] })
          leaving
  empty_lock : i ≡ c → m.mutex ≡ none → Move c i m outside (record m { mutex = some i }) testing
  empty_body : Move c i m testing m (tested (empty m.queue))
  empty_unlock : {b : Bool} → Move c i m (tested b) (record m { mutex = none }) (after_test b)
  pop_lock : m.mutex ≡ none → Move c i m checked (record m { mutex = some i }) fronting
  pop_front : {x : A} → front m.queue ≡ ok x → Move c i m fronting m (taking x)
  front_fault : {e : Fault} → front m.queue ≡ fault e → Move c i m fronting m (failed e)
  pop_body :
      {x y : A} {rest : Queue A}
      → pop m.queue ≡ ok (y, rest)
      → Move c i m (taking x) (record m { queue = rest; popped = m.popped ++ x ∷ [] }) leaving
  pop_fault : {x : A} {e : Fault} → pop m.queue ≡ fault e → Move c i m (taking x) m (failed e)
  unlock : Move c i m leaving (record m { mutex = none }) outside

pub record System (A : Type 0) : Type 0 where
  pub shared : Shared A
  pub pc : ℕ → Pc A

abbrev pub update : {B : Type 0} → (ℕ → B) → ℕ → B → ℕ → B
update f i v j = if j == i then v else f j

-- Any thread takes its next access.
pub data Step {A : Type 0} (c : ℕ) (s : System A) : System A → Type 0 where
  pick :
      (i : ℕ) {m : Shared A} {p : Pc A}
      → Move c i s.shared (s.pc i) m p
      → Step c s (record { shared = m; pc = update s.pc i p })

-- A new queue, with every thread outside.
abbrev fresh : {A : Type 0} → System A
fresh = record {
  shared = record { mutex = none; queue = []; pushed = []; popped = [] };
  pc = λ _. outside;
}

pub data Reach {A : Type 0} (c : ℕ) : System A → Type 0 where
  start : Reach c fresh
  later : {s t : System A} → Reach c s → Step c s t → Reach c t
