-- ===== src/Queue/Threads/Invariant.antt =====
-- What every access of a thread keeps.
use mathlib.Core.Path.{subst}
use ups_server.Base.{
  ==_iff, ==→≢, ℕ, ◌≡◌, ◌≢◌, refl, sym, ap, ◌∙◌, Bool, true, false, List, [], ◌∷◌, ◌++◌,
  append_assoc, some, Result, ok, fault, ◌==◌, Bool-cases, inl, inr,
}
use ups_server.Queue.{Queue, empty, front, push, pop}
use ups_server.Queue.Threads.{
  Shared, Pc, outside, pushing, testing, tested, checked, fronting, taking, leaving, failed,
  after_test, Move, push_lock, push_body, empty_lock, empty_body, empty_unlock, pop_lock, pop_front,
  front_fault, pop_body, pop_fault, unlock, System, Step, pick, update, Reach, start, later,
}

-- Between a lock and the unlock that follows.
abbrev pub inside : {A : Type 0} → Pc A → Bool
inside outside = false
inside checked = false
inside (failed e) = false
inside p = true

-- In the loop's part of the operations.
abbrev consuming : {A : Type 0} → Pc A → Bool
consuming testing = true
consuming (tested b) = true
consuming checked = true
consuming fronting = true
consuming (taking x) = true
consuming p = false

-- What a thread knows of the queue.
abbrev pub Sees : {A : Type 0} → List A → Pc A → Type 0
Sees {A} q (tested false) = (x : A) × (rest : List A) × (q ≡ x ∷ rest)
Sees {A} q checked = (x : A) × (rest : List A) × (q ≡ x ∷ rest)
Sees {A} q fronting = (x : A) × (rest : List A) × (q ≡ x ∷ rest)
Sees {A} q (taking x) = (rest : List A) × (q ≡ x ∷ rest)
Sees q (failed e) = ⊥
Sees q p = Unit {0}

pub record Inv {A : Type 0} (c : ℕ) (m : Shared A) (pc : ℕ → Pc A) : Type 0 where
  pub held : (j : ℕ) → inside (pc j) ≡ true → m.mutex ≡ some j
  pub whose : (j : ℕ) → consuming (pc j) ≡ true → j ≡ c
  pub sees : (j : ℕ) → Sees m.queue (pc j)
  pub history : m.pushed ≡ m.popped ++ m.queue

pub some-injective_lem : (j i : ℕ) → some j ≡ some i → j ≡ i
some-injective_lem j i e = cc

-- A property of all threads, after one of them moved.
pub update_all {κ} :
    {B : Type 0} (P : ℕ → B → Type κ) (f : ℕ → B) (i : ℕ) (v : B)
    → P i v
    → ((j : ℕ) → j ≢ i → P j (f j))
    → (j : ℕ) → P j (update f i v j)
update_all P f i v here there j = elim (Bool-cases (j == i)) [
  | inl e ↦ let same : j ≡ i = (==_iff j i).0 e in rw e (subst (λ k. P k v) (sym same) here)
  | inr e ↦ rw e (there j (==→≢ j i e))
]

-- A list that has a first element keeps it where one is put behind.
Sees-push : {A : Type 0} (q : Queue A) (x : A) (p : Pc A) → Sees q p → Sees (push q x) p
Sees-push q x outside h = tt
Sees-push q x (pushing y) h = tt
Sees-push q x testing h = tt
Sees-push q x (tested true) h = tt
Sees-push q x (tested false) (y, rest, e) = (y, rest ++ x ∷ [], ap (λ r. r ++ x ∷ []) e)
Sees-push q x checked (y, rest, e) = (y, rest ++ x ∷ [], ap (λ r. r ++ x ∷ []) e)
Sees-push q x fronting (y, rest, e) = (y, rest ++ x ∷ [], ap (λ r. r ++ x ∷ []) e)
Sees-push q x (taking y) (rest, e) = (rest ++ x ∷ [], ap (λ r. r ++ x ∷ []) e)
Sees-push q x leaving h = tt
Sees-push q x (failed e) h = h

-- A thread that is not in the loop knows nothing of the queue.
Sees-idle : {A : Type 0} (q r : Queue A) (p : Pc A) → consuming p ≡ false → Sees q p → Sees r p
Sees-idle q r outside idle h = tt
Sees-idle q r (pushing y) idle h = tt
Sees-idle q r testing idle h = cc
Sees-idle q r (tested b) idle h = cc
Sees-idle q r checked idle h = cc
Sees-idle q r fronting idle h = cc
Sees-idle q r (taking y) idle h = cc
Sees-idle q r leaving idle h = tt
Sees-idle q r (failed e) idle h = h

Sees-tested : {A : Type 0} (q : Queue A) → Sees q (tested (empty q))
Sees-tested [] = tt
Sees-tested (x ∷ q) = (x, q, refl)

Sees-after_test : {A : Type 0} (q : Queue A) (b : Bool) → Sees q (tested b) → Sees q (after_test b)
Sees-after_test q true h = tt
Sees-after_test q false h = h

module _ {A : Type 0} {c i : ℕ} {m : Shared A} where
  -- What the mover gets.
  Move-held :
      {m' : Shared A} {p p' : Pc A}
      → Move c i m p m' p'
      → (inside p ≡ true → m.mutex ≡ some i)
      → inside p' ≡ true
      → m'.mutex ≡ some i
  Move-held (push_lock x free) own h = refl
  Move-held push_body own h = own refl
  Move-held (empty_lock mine free) own h = refl
  Move-held empty_body own h = own refl
  Move-held (empty_unlock {b = true}) own h = cc
  Move-held (empty_unlock {b = false}) own h = cc
  Move-held (pop_lock free) own h = refl
  Move-held (pop_front e) own h = own refl
  Move-held (front_fault e) own h = cc
  Move-held (pop_body e) own h = own refl
  Move-held (pop_fault e) own h = cc
  Move-held unlock own h = cc

  -- No other thread's hold on the mutex is lost.
  Move-held_ne :
      {m' : Shared A} {p p' : Pc A}
      → Move c i m p m' p'
      → (inside p ≡ true → m.mutex ≡ some i)
      → (j : ℕ) → j ≢ i
      → m.mutex ≡ some j
      → m'.mutex ≡ some j
  Move-held_ne (push_lock x free) own j ne h = cc
  Move-held_ne push_body own j ne h = h
  Move-held_ne (empty_lock mine free) own j ne h = cc
  Move-held_ne empty_body own j ne h = h
  Move-held_ne (empty_unlock {b}) own j ne h =
      let mine = own refl in absurd (ne (some-injective_lem j i (sym h ∙ mine)))
  Move-held_ne (pop_lock free) own j ne h = cc
  Move-held_ne (pop_front e) own j ne h = h
  Move-held_ne (front_fault e) own j ne h = h
  Move-held_ne (pop_body e) own j ne h = h
  Move-held_ne (pop_fault e) own j ne h = h
  Move-held_ne unlock own j ne h =
      let mine = own refl in absurd (ne (some-injective_lem j i (sym h ∙ mine)))

  Move-whose :
      {m' : Shared A} {p p' : Pc A}
      → Move c i m p m' p'
      → (consuming p ≡ true → i ≡ c)
      → consuming p' ≡ true
      → i ≡ c
  Move-whose (push_lock x free) own h = cc
  Move-whose push_body own h = cc
  Move-whose (empty_lock mine free) own h = mine
  Move-whose empty_body own h = own refl
  Move-whose (empty_unlock {b}) own h = own refl
  Move-whose (pop_lock free) own h = own refl
  Move-whose (pop_front e) own h = own refl
  Move-whose (front_fault e) own h = cc
  Move-whose (pop_body e) own h = cc
  Move-whose (pop_fault e) own h = cc
  Move-whose unlock own h = cc

  pub Move-Sees :
      {m' : Shared A} {p p' : Pc A} → Move c i m p m' p' → Sees m.queue p → Sees m'.queue p'
  unfolding front pop
  Move-Sees (push_lock x free) h = tt
  Move-Sees push_body h = tt
  Move-Sees (empty_lock mine free) h = tt
  Move-Sees empty_body h = Sees-tested m.queue
  Move-Sees (empty_unlock {b}) h = Sees-after_test m.queue b h
  Move-Sees (pop_lock free) h = h
  Move-Sees (pop_front {x} e) (y, rest, e') =
      let first : ◌≡◌ {A = Result A} (ok y) (ok x) = ap front (sym e') ∙ e in
      let same : y ≡ x = cc in (rest, e' ∙ ap (λ z. z ∷ rest) same)
  Move-Sees (front_fault {e = f} e) (y, rest, e') =
      let first : ◌≡◌ {A = Result A} (ok y) (fault f) = ap front (sym e') ∙ e in cc
  Move-Sees (pop_body e) h = tt
  Move-Sees (pop_fault {x} {e = f} e) (rest, e') =
      let first : ◌≡◌ {A = Result (A × Queue A)} (ok (x, rest)) (fault f) = ap pop (sym e') ∙ e in
      cc
  Move-Sees unlock h = tt

  Move-Sees_ne :
      {m' : Shared A} {p p' : Pc A}
      → Move c i m p m' p'
      → (consuming p ≡ true → i ≡ c)
      → (j : ℕ) (q : Pc A) → j ≢ i
      → (consuming q ≡ true → j ≡ c)
      → Sees m.queue q
      → Sees m'.queue q
  Move-Sees_ne push_body own j q ne other h = Sees-push m.queue _ q h
  Move-Sees_ne (pop_body {rest} e) own j q ne other h = elim (Bool-cases (consuming q)) [
    | inl hit ↦ absurd (ne (other hit ∙ sym (own refl)))
    | inr miss ↦ Sees-idle m.queue rest q miss h
  ]
  Move-Sees_ne (push_lock x free) own j q ne other h = h
  Move-Sees_ne (empty_lock mine free) own j q ne other h = h
  Move-Sees_ne empty_body own j q ne other h = h
  Move-Sees_ne (empty_unlock {b}) own j q ne other h = h
  Move-Sees_ne (pop_lock free) own j q ne other h = h
  Move-Sees_ne (pop_front e) own j q ne other h = h
  Move-Sees_ne (front_fault e) own j q ne other h = h
  Move-Sees_ne (pop_fault e) own j q ne other h = h
  Move-Sees_ne unlock own j q ne other h = h

  Move-history :
      {m' : Shared A} {p p' : Pc A}
      → Move c i m p m' p'
      → Sees m.queue p
      → m.pushed ≡ m.popped ++ m.queue
      → m'.pushed ≡ m'.popped ++ m'.queue
  unfolding pop
  Move-history (push_body {x}) h e =
      ap (λ xs. xs ++ x ∷ []) e ∙ append_assoc m.popped m.queue (x ∷ [])
  Move-history (pop_body {x} {y} {rest} e') (rest', e'') e =
      let first : ◌≡◌ {A = Result (A × Queue A)} (ok (x, rest')) (ok (y, rest)) =
        ap pop (sym e'') ∙ e' in
      let same : rest' ≡ rest = cc in
      e
      ∙ (ap (λ xs. m.popped ++ xs) (e'' ∙ ap (λ xs. x ∷ xs) same)
          ∙ sym (append_assoc m.popped (x ∷ []) rest))
  Move-history (push_lock x free) h e = e
  Move-history (empty_lock mine free) h e = e
  Move-history empty_body h e = e
  Move-history (empty_unlock {b}) h e = e
  Move-history (pop_lock free) h e = e
  Move-history (pop_front e') h e = e
  Move-history (front_fault e') h e = e
  Move-history (pop_fault e') h e = e
  Move-history unlock h e = e

Step-Inv :
    {A : Type 0} {c : ℕ} {s t : System A} → Step c s t → Inv c s.shared s.pc → Inv c t.shared t.pc
Step-Inv {c} {s} (pick i {m} {p} move) inv = record {
  held =
      update_all (λ j q. inside q ≡ true → m.mutex ≡ some j) s.pc i p (Move-held move (inv.held i))
        (λ j ne h. Move-held_ne move (inv.held i) j ne (inv.held j h));
  whose =
      update_all (λ j q. consuming q ≡ true → j ≡ c) s.pc i p (Move-whose move (inv.whose i))
        (λ j ne. inv.whose j);
  sees =
      update_all (λ j q. Sees m.queue q) s.pc i p (Move-Sees move (inv.sees i))
        (λ j ne. Move-Sees_ne move (inv.whose i) j (s.pc j) ne (inv.whose j) (inv.sees j));
  history = Move-history move (inv.sees i) inv.history;
}

pub Reach-Inv : {A : Type 0} {c : ℕ} {s : System A} → Reach c s → Inv c s.shared s.pc
Reach-Inv start = record { held = λ j h. cc; whose = λ j h. cc; sees = λ j. tt; history = refl }
Reach-Inv (later r step) = Step-Inv step (Reach-Inv r)
