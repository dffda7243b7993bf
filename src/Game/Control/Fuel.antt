-- ===== src/Game/Control/Fuel.antt =====
-- The depth of the search for a closed track: a call that goes deeper marks one more square.
use ups_server.Base.{
  ℕ, zero, suc, ◌≤◌, ◌<◌, ◌≡◌, ◌≢◌, refl, inl, inr, Bool, true, false, List, [], ◌∷◌, Option, none,
  some, ok, fault, no_return, ◌>>=◌, arith, Bool-cases, ◌==◌, length, get_elem?, set, length-set,
}
use ups_server.Game.Board.{Square, place, square}
use ups_server.Game.Control.{
  Turn, Turns, Marks, Fallen, Found, is_marked, outside, same, toward, run_off, attempt, follow,
  visit, control, control_fuel, no_marks,
}

pub unmarked : Marks → ℕ
unmarked [] = 0
unmarked (true ∷ marks) = unmarked marks
unmarked (false ∷ marks) = suc (unmarked marks)

unmarked-set :
    (marks : Marks) (k : ℕ)
    → k < length marks
    → get_elem? marks k ≢ some true
    → suc (unmarked (set marks k true)) ≡ unmarked marks
unfolding unmarked
unmarked-set [] k h e = absurd (omega arith)
unmarked-set (true ∷ marks) zero h e = absurd (e refl)
unmarked-set (false ∷ marks) zero h e = refl
unmarked-set (true ∷ marks) (suc k) h e = unmarked-set marks k (omega arith) e
unmarked-set (false ∷ marks) (suc k) h e = omega (arith, unmarked-set marks k (omega arith) e)

-- The run ends with no more unmarked squares than `k`, or by running off the end of a control
-- where that has no value.
abbrev pub Ends : Fallen → ℕ → Found → Type 0
Ends fallen k (ok (b, marks)) = (length marks ≡ 64) × (unmarked marks ≤ k)
Ends fallen k (fault no_return) = fallen ≡ none
Ends fallen k (fault e) = ⊥

abbrev RecEnds : Fallen → ℕ → (Square → Square → Marks → Found) → Type 0
RecEnds fallen k rec =
    (at from : Square) (marks : Marks)
    → length marks ≡ 64
    → unmarked marks < k
    → Ends fallen (unmarked marks) (rec at from marks)

run_off-Ends :
    (fallen : Fallen) (k : ℕ) (marks : Marks)
    → length marks ≡ 64
    → unmarked marks ≤ k
    → Ends fallen k (run_off fallen marks)
unfolding run_off
run_off-Ends none k marks size h = refl
run_off-Ends (some b) k marks size h = (size, h)

Ends-mono : (fallen : Fallen) (j k : ℕ) (r : Found) → j ≤ k → Ends fallen j r → Ends fallen k r
Ends-mono fallen j k (ok (b, marks)) h (size, e) = (size, omega arith)
Ends-mono fallen j k (fault no_return) h e = e
Ends-mono fallen j k (fault _) h e = e

Ends-bind :
    (fallen : Fallen) (k : ℕ) (r : Found) (next : Bool × Marks → Found)
    → Ends fallen k r
    → ((b : Bool) (marks : Marks)
        → length marks ≡ 64
        → unmarked marks ≤ k
        → Ends fallen k (next (b, marks)))
    → Ends fallen k (r >>= next)
Ends-bind fallen k (ok (b, marks)) next (size, h) rest = rest b marks size h
Ends-bind fallen k (fault no_return) next h rest = h
Ends-bind fallen k (fault _) next h rest = h

module _ (fallen : Fallen) (k : ℕ) (rec : Square → Square → Marks → Found)
    (rec_ends : RecEnds fallen k rec) where
  attempt-Ends :
      (to at from : Square) (marks : Marks)
      → length marks ≡ 64
      → unmarked marks < k
      → Ends fallen (unmarked marks) (attempt rec to at from marks)
  unfolding attempt
  attempt-Ends to at from marks size h = elim (Bool-cases (same from to)) [
    | inl e ↦ rw e (size, omega arith)
    | inr e ↦ rw e (rec_ends to at marks size h)
  ]

  follow-Ends :
      (card : Option (Turn × Turn)) (at from : Square) (marks : Marks)
      → length marks ≡ 64
      → unmarked marks < k
      → Ends fallen (unmarked marks) (follow fallen rec card at from marks)
  unfolding follow
  follow-Ends none at from marks size h = run_off-Ends fallen _ marks size (omega arith)
  follow-Ends (some (first, second)) at from marks size h =
      Ends-bind fallen (unmarked marks) _ _ (attempt-Ends (toward first at) at from marks size h)
        (λ b. second_try b)
    where
      last :
          (b : Bool) (marks' : Marks)
          → length marks' ≡ 64
          → unmarked marks' ≤ unmarked marks
          → Ends fallen
              (unmarked marks)
              (elim b [ true ↦ ok (true, marks') | false ↦ run_off fallen marks' ])
      last true marks' size' h' = (size', h')
      last false marks' size' h' = run_off-Ends fallen (unmarked marks) marks' size' h'

      second_try :
          (b : Bool) (marks' : Marks)
          → length marks' ≡ 64
          → unmarked marks' ≤ unmarked marks
          → Ends fallen (unmarked marks) (elim b [
            | true ↦ ok (true, marks')
            | false ↦ attempt rec (toward second at) at from marks' >>= λ (found', marks'').
                elim found' [ true ↦ ok (true, marks'') | false ↦ run_off fallen marks'' ]
          ])
      second_try true marks' size' h' = (size', h')
      second_try false marks' size' h' =
          Ends-bind fallen (unmarked marks) _ _
            (Ends-mono fallen (unmarked marks') (unmarked marks) _ h'
              (attempt-Ends (toward second at) at from marks' size' (omega arith)))
            last

place_lt : (at : Square) → outside at ≡ false → place at < 64
place_lt (i, j) h = ground arith

not_marked :
    (marks : Marks) (at : Square)
    → is_marked marks at ≡ false
    → get_elem? marks (place at) ≢ some true
not_marked marks at h e = ground arith

visit-Ends :
    (turns : Turns) (fallen : Fallen) (field : List ℕ) (k : ℕ)
    (rec : Square → Square → Marks → Found)
    → RecEnds fallen k rec
    → (at from : Square) (marks : Marks) → length marks ≡ 64
    → unmarked marks < suc k
    → Ends fallen (unmarked marks) (visit turns fallen field rec at from marks)
unfolding visit
visit-Ends turns fallen field k rec rec_ends at from marks size h = elim (Bool-cases (outside at)) [
  | inl e ↦ rw e (size, omega arith)
  | inr e ↦ rw e (elim (Bool-cases (square field at == 0)) [
    | inl e' ↦ rw e' (size, omega arith)
    | inr e' ↦ rw e' (elim (Bool-cases (is_marked marks at)) [
      | inl e'' ↦ rw e'' (size, omega arith)
      | inr e'' ↦
          let fewer =
            unmarked-set marks (place at) (omega (arith, place_lt at e))
              (not_marked marks at e'') in
          rw e'' (
            Ends-mono fallen _ _ _ (omega (arith, fewer)) (
              follow-Ends fallen k rec rec_ends (turns (square field at)) at from
                (set marks (place at) true) (rw length-set size) (omega (arith, fewer))))
    ])
  ])
]

-- With more fuel than there are unmarked squares a control ends.
control-Ends :
    (turns : Turns) (fallen : Fallen) (field : List ℕ) (n : ℕ) (at from : Square) (marks : Marks)
    → length marks ≡ 64
    → unmarked marks < n
    → Ends fallen (unmarked marks) (control turns fallen field n at from marks)
unfolding control
control-Ends turns fallen field zero at from marks size h = absurd (omega arith)
control-Ends turns fallen field (suc n) at from marks size h =
    visit-Ends turns fallen field n (control turns fallen field n)
      (λ at' from' marks' size' h'. control-Ends turns fallen field n at' from' marks' size' h') at
      from marks size h

-- A search from a square, with no mark set, is given fuel enough.
pub search-Ends :
    (turns : Turns) (fallen : Fallen) (field : List ℕ) (at : Square)
    → Ends fallen 64 (control turns fallen field control_fuel at at no_marks)
unfolding unmarked
search-Ends turns fallen field at =
    control-Ends turns fallen field control_fuel at at no_marks refl (omega arith)
