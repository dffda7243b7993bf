-- ===== src/Queue/Threads/Progress.antt =====
-- The mutex is always given back.
use ups_server.Base.{ℕ, ◌≡◌, ◌≢◌, refl, sym, ap, Bool, true, false, none, some}
use ups_server.Queue.{empty, front, pop}
use ups_server.Queue.Threads.{
  Shared, Pc, outside, pushing, testing, tested, checked, fronting, taking, leaving, failed,
  after_test, Move, push_lock, push_body, empty_lock, empty_body, empty_unlock, pop_lock, pop_front,
  front_fault, pop_body, pop_fault, unlock, System, pick, Reach, start, later,
}
use ups_server.Queue.Threads.Invariant.{
  update_all, inside, Sees, some-injective_lem, Reach-Inv, Move-Sees,
}

-- Accesses of one thread, with no other between.
pub data Solo {A : Type 0} (c i : ℕ) : Shared A → Pc A → Shared A → Pc A → Type 0 where
  ends : {m : Shared A} {p : Pc A} → Solo c i m p m p
  goes :
      {m m' m'' : Shared A} {p p' p'' : Pc A}
      → Move c i m p m' p'
      → Solo c i m' p' m'' p''
      → Solo c i m p m'' p''

module _ {A : Type 0} {c i : ℕ} {m : Shared A} where
  Move-owner :
      {m' : Shared A} {p p' : Pc A}
      → Move c i m p m' p'
      → Sees m'.queue p'
      → (m.mutex ≡ some i → inside p ≡ true)
      → m'.mutex ≡ some i
      → inside p' ≡ true
  Move-owner (push_lock x free) sees own h = refl
  Move-owner push_body sees own h = refl
  Move-owner (empty_lock mine free) sees own h = refl
  Move-owner empty_body sees own h = refl
  Move-owner (empty_unlock {b}) sees own h = cc
  Move-owner (pop_lock free) sees own h = refl
  Move-owner (pop_front e) sees own h = refl
  Move-owner (front_fault e) sees own h = absurd sees
  Move-owner (pop_body e) sees own h = refl
  Move-owner (pop_fault e) sees own h = absurd sees
  Move-owner unlock sees own h = cc

  -- No other thread gets the mutex.
  Move-owner_ne :
      {m' : Shared A} {p p' : Pc A}
      → Move c i m p m' p'
      → (j : ℕ) → j ≢ i
      → m'.mutex ≡ some j
      → m.mutex ≡ some j
  Move-owner_ne (push_lock x free) j ne h = absurd (ne (some-injective_lem j i (sym h)))
  Move-owner_ne push_body j ne h = h
  Move-owner_ne (empty_lock mine free) j ne h = absurd (ne (some-injective_lem j i (sym h)))
  Move-owner_ne empty_body j ne h = h
  Move-owner_ne (empty_unlock {b}) j ne h = cc
  Move-owner_ne (pop_lock free) j ne h = absurd (ne (some-injective_lem j i (sym h)))
  Move-owner_ne (pop_front e) j ne h = h
  Move-owner_ne (front_fault e) j ne h = h
  Move-owner_ne (pop_body e) j ne h = h
  Move-owner_ne (pop_fault e) j ne h = h
  Move-owner_ne unlock j ne h = cc

-- Who holds the mutex is in an operation.
Reach-owner :
    {A : Type 0} {c : ℕ} {s : System A}
    → Reach c s
    → (j : ℕ) → s.shared.mutex ≡ some j
    → inside (s.pc j) ≡ true
Reach-owner start = λ j h. cc
Reach-owner {c} (later {s} r (pick i {m} {p} move)) =
    update_all (λ j q. m.mutex ≡ some j → inside q ≡ true) s.pc i p
      (Move-owner move (Move-Sees move ((Reach-Inv r).sees i)) (Reach-owner r i))
      (λ j ne h. Reach-owner r j (Move-owner_ne move j ne h))

after_test-outside : (A : Type 0) (b : Bool) → inside (after_test {A = A} b) ≡ false
after_test-outside A true = refl
after_test-outside A false = refl

-- The thread comes to the end of its operation by its own accesses.
abbrev pub Released : {A : Type 0} → ℕ → ℕ → Shared A → Pc A → Type 0
Released {A} c i m p =
    (m' : Shared A) × (p' : Pc A) × Solo c i m p m' p' × (m'.mutex ≡ none) × (inside p' ≡ false)

inside-Released :
    {A : Type 0} (c i : ℕ) (m : Shared A) (p : Pc A)
    → Sees m.queue p
    → inside p ≡ true
    → Released c i m p
unfolding front pop
inside-Released c i m outside sees h = cc
inside-Released c i m (pushing x) sees h = (_, _, goes push_body (goes unlock ends), refl, refl)
inside-Released c i m testing sees h =
    (_, _, goes empty_body (goes empty_unlock ends), refl, after_test-outside _ (empty m.queue))
inside-Released c i m (tested b) sees h =
    (_, _, goes empty_unlock ends, refl, after_test-outside _ b)
inside-Released c i m checked sees h = cc
inside-Released c i m fronting (x, rest, e) h = (
  _,
  _,
  goes (pop_front (ap front e)) (goes (pop_body (ap pop e)) (goes unlock ends)),
  refl,
  refl,
)
inside-Released c i m (taking x) (rest, e) h =
    (_, _, goes (pop_body (ap pop e)) (goes unlock ends), refl, refl)
inside-Released c i m leaving sees h = (_, _, goes unlock ends, refl, refl)
inside-Released c i m (failed e) sees h = cc

-- In any order of the accesses: a thread that holds the mutex is in an operation, and by accesses of
-- its own alone it comes to the end of the operation, where the mutex is unlocked.
pub Reach-Released :
    {A : Type 0} {c : ℕ} {s : System A}
    → Reach c s
    → (i : ℕ) → s.shared.mutex ≡ some i
    → Released c i s.shared (s.pc i)
Reach-Released {c} {s} r i h =
    inside-Released c i s.shared (s.pc i) ((Reach-Inv r).sees i) (Reach-owner r i h)
