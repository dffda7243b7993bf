-- ===== src/Game/Control/Lines.antt =====
-- What the search finds: squares that it walks through, in the terms of the code.
use mathlib.Core.Path.{subst}
use ups_server.Base.{
  ℕ, zero, suc, ◌≡◌, ◌≢◌, refl, sym, ap, ◌∙◌, ◌⊎◌, inl, inr, Bool, true, false, List, [], ◌∷◌,
  Option, none, some, ok, ◌>>=◌, >>=-eq-ok, Bool-cases, arith, ◌==◌, ==_iff, ==→≢, if◌then◌else◌,
  length, length-set, get_elem?, get_elem?-set_ne, set, replicate,
}
use ups_server.Game.Board.{Square, place, square}
use ups_server.Game.Control.{
  Turn, Turns, Marks, Found, no_marks, outside, same, toward, attempt, run_off, follow, visit,
  control, is_marked,
}

-- One of the squares that were passed.
abbrev pub In : Square → List Square → Type 0
In s [] = ⊥
In s (x ∷ passed) = (s ≡ x) ⊎ In s passed

abbrev pub Side : Turn → Turn → Turn → Type 0
Side turn first second = (turn ≡ first) ⊎ (turn ≡ second)

-- A line on the board that goes on from `at`, where it came from `from` and passed some squares:
-- each card leads to one of the two neighbours that its lines of the colour touch, never straight
-- back, and the line ends at a square that it passed.
pub data Trail (turns : Turns) (field : List ℕ) : Square → Square → List Square → Type 0 where
  closes :
      {from at : Square} {passed : List Square}
      → outside at ≡ false
      → In at passed
      → Trail turns field from at passed
  leads :
      {from at : Square} {passed : List Square} (turn first second : Turn)
      → outside at ≡ false
      → turns (square field at) ≡ some (first, second)
      → Side turn first second
      → same from (toward turn at) ≡ false
      → Trail turns field at (toward turn at) (at ∷ passed)
      → Trail turns field from at passed

-- Only squares that were passed are marked.
Marked : Marks → List Square → Type 0
Marked marks passed =
    (length marks ≡ 64)
    × ((s : Square) → outside s ≡ false → is_marked marks s ≡ true → In s passed)

-- What a control found: a line, or nothing and no mark.
Finds : Turns → List ℕ → Square → Square → List Square → Marks → Bool × Marks → Type 0
Finds turns field at from passed marks r =
    (r.0 ≡ true → Trail turns field from at passed) × (r.0 ≡ false → r.1 ≡ marks)

place-inj : (s t : Square) → outside s ≡ false → outside t ≡ false → place s ≡ place t → s ≡ t
place-inj (i, j) (i', j') h h' e =
    let row : i ≡ i' = ground arith in let column : j ≡ j' = ground arith in cc

mark-Marked :
    (marks : Marks) (at : Square) (passed : List Square)
    → outside at ≡ false
    → Marked marks passed
    → Marked (set marks (place at) true) (at ∷ passed)
unfolding Marked
mark-Marked marks at passed inside (size, only) = (
  length-set marks (place at) true ∙ size,
  λ s s_inside marked. elim (Bool-cases (place s == place at)) [
    | inl here ↦ inl (place-inj s at s_inside inside ((==_iff (place s) (place at)).0 here))
    | inr there ↦
        let apart : place at ≢ place s = λ e. ==→≢ (place s) (place at) there (sym e) in
        let old : is_marked (set marks (place at) true) s ≡ is_marked marks s =
          ap (λ o. elim o [ none ↦ false | some b ↦ b ])
            (get_elem?-set_ne marks (place at) (place s) true apart) in
        inr (only s s_inside (sym old ∙ marked))
  ],
)

-- The switch found a line through one of the sides of the card.
abbrev Leads :
    Turns → List ℕ → Square → Square → List Square → Option (Turn × Turn) → Bool × Marks → Type 0
Leads turns field at from passed sides r =
    (turn : Turn) × (first : Turn) × (second : Turn) × (sides ≡ some (first, second))
    × Side turn first second
    × (same from (toward turn at) ≡ false)
    × Trail turns field at (toward turn at) passed
    × (r.0 ≡ true)

ok-inj : {A : Type 0} (x y : A) → ok x ≡ ok y → x ≡ y
ok-inj x y e = cc

-- A control that does what `Finds` says, with the marks of what was passed.
Searches : Turns → List ℕ → (Square → Square → Marks → Found) → Type 0
Searches turns field rec =
    (at from : Square) (passed : List Square) (marks : Marks) (r : Bool × Marks)
    → Marked marks passed
    → rec at from marks ≡ ok r
    → Finds turns field at from passed marks r

module _ (turns : Turns) (field : List ℕ) (rec : Square → Square → Marks → Found)
    (searches : Searches turns field rec) (at from : Square) (passed : List Square) (marks : Marks)
    (marked : Marked marks passed) where
  attempt-Finds :
      (to : Square) (r : Bool × Marks)
      → attempt rec to at from marks ≡ ok r
      → (r.0 ≡ true → (same from to ≡ false) × Trail turns field at to passed)
        × (r.0 ≡ false → r.1 ≡ marks)
  unfolding attempt Searches Finds
  attempt-Finds to r h = on_test (same from to) refl h
    where
      on_test :
          (b : Bool)
          → same from to ≡ b
          → (let found : Found = (if b then ok (false, marks) else rec to at marks) in found ≡ ok r)
          → (r.0 ≡ true → (same from to ≡ false) × Trail turns field at to passed)
            × (r.0 ≡ false → r.1 ≡ marks)
      on_test true back e =
          let here : (let nothing : Bool × Marks = (false, marks) in nothing ≡ r) = ok-inj _ _ e in
          let missed : false ≡ r.0 = ap (λ x. x.0) here in
          (λ hit. cc, λ _. sym (ap (λ x. x.1) here))
      on_test false on e =
          let found = searches to at passed marks r marked e in (λ hit. (on, found.0 hit), found.1)

  follow-Finds :
      (sides : Option (Turn × Turn)) (r : Bool × Marks)
      → follow none rec sides at from marks ≡ ok r
      → Leads turns field at from passed sides r
  unfolding follow run_off
  follow-Finds none r h = absurd (cc)
  follow-Finds (some (first, second)) r h =
      let ((b, marks'), tried, rest) =
        >>=-eq-ok (attempt rec (toward first at) at from marks) _ h in
      on_first b marks' tried rest
    where
      on_second :
          (b : Bool) (marks' : Marks)
          → attempt rec (toward second at) at from marks ≡ ok (b, marks')
          → (elim b as (λ _. Found) [ true ↦ ok (true, marks') | false ↦ run_off none marks' ])
            ≡ ok r
          → Leads turns field at from passed (some (first, second)) r
      on_second true marks' tried e =
          let (ahead, line) = (attempt-Finds (toward second at) (true, marks') tried).0 refl in
          (second, first, second, refl, inr refl, ahead, line, sym (ap (λ x. x.0) (ok-inj _ _ e)))
      on_second false marks' tried e = absurd (cc)

      on_first :
          (b : Bool) (marks' : Marks)
          → attempt rec (toward first at) at from marks ≡ ok (b, marks')
          → (elim b as (λ _. Found) [
            | true ↦ ok (true, marks')
            | false ↦ attempt rec (toward second at) at from marks' >>= λ (found', marks'').
                elim found' [ true ↦ ok (true, marks'') | false ↦ run_off none marks'' ]
          ])
            ≡ ok r
          → Leads turns field at from passed (some (first, second)) r
      on_first true marks' tried e =
          let (ahead, line) = (attempt-Finds (toward first at) (true, marks') tried).0 refl in
          (first, first, second, refl, inl refl, ahead, line, sym (ap (λ x. x.0) (ok-inj _ _ e)))
      on_first false marks' tried e =
          let kept : marks' ≡ marks =
            (attempt-Finds (toward first at) (false, marks') tried).1 refl in
          let ((b, marks''), tried', rest) =
            >>=-eq-ok (attempt rec (toward second at) at from marks') _ e in
          on_second b marks''
            (subst (λ m. attempt rec (toward second at) at from m ≡ ok (b, marks'')) kept tried')
            rest

visit-Searches :
    (turns : Turns) (field : List ℕ) (rec : Square → Square → Marks → Found)
    → Searches turns field rec
    → Searches turns field (visit turns none field rec)
unfolding Searches visit Finds Marked
visit-Searches turns field rec searches at from passed marks r marked h =
    on_outside (outside at) refl h
  where
    nothing :
        (let found : Found = ok (false, marks) in found ≡ ok r)
        → Finds turns field at from passed marks r
    nothing e =
        let here = ok-inj _ _ e in
        let missed : false ≡ r.0 = ap (λ x. x.0) here in (λ hit. cc, λ _. sym (ap (λ x. x.1) here))

    deeper : Found
    deeper = follow none rec (turns (square field at)) at from (set marks (place at) true)

    on_marked :
        (b : Bool)
        → outside at ≡ false
        → is_marked marks at ≡ b
        → (if b then ok (true, marks) else deeper) ≡ ok r
        → Finds turns field at from passed marks r
    on_marked true inside was e =
        let hit : true ≡ r.0 = ap (λ x. x.0) (ok-inj _ _ e) in
        (λ _. closes inside (marked.1 at inside was), λ missed. cc)
    on_marked false inside was e =
        let (turn, first, second, sides, side, ahead, line, hit) =
          follow-Finds turns field rec searches at from (at ∷ passed) (set marks (place at) true)
            (mark-Marked marks at passed inside marked) (turns (square field at)) r e in
        (λ _. leads turn first second inside sides side ahead line, λ missed. cc)

    on_empty :
        (b : Bool)
        → outside at ≡ false
        → (if b then ok (false, marks) else if is_marked marks at then ok (true, marks) else deeper)
          ≡ ok r
        → Finds turns field at from passed marks r
    on_empty true inside e = nothing e
    on_empty false inside e = on_marked (is_marked marks at) inside refl e

    on_outside :
        (b : Bool)
        → outside at ≡ b
        → (if b
            then ok (false, marks)
            else if square field at == 0
            then ok (false, marks)
            else if is_marked marks at
            then ok (true, marks)
            else deeper)
          ≡ ok r
        → Finds turns field at from passed marks r
    on_outside true is_out e = nothing e
    on_outside false inside e = on_empty (square field at == 0) inside e

control-Searches :
    (turns : Turns) (field : List ℕ) (n : ℕ) → Searches turns field (control turns none field n)
unfolding Searches control
control-Searches turns field zero at from passed marks r marked h = absurd (cc)
control-Searches turns field (suc n) at from passed marks r marked h =
    visit-Searches turns field (control turns none field n) (control-Searches turns field n) at from
      passed marks r marked h

unmarked :
    (n i : ℕ) → (elim (get_elem? (replicate n false) i) [ none ↦ false | some b ↦ b ]) ≡ false
unmarked zero i = refl
unmarked (suc n) zero = refl
unmarked (suc n) (suc i) = unmarked n i

no_marks-Marked : Marked no_marks []
unfolding Marked
no_marks-Marked =
    (refl, λ s inside marked. let none_is : true ≡ false = sym marked ∙ unmarked 64 (place s) in cc)

-- A control that starts without marks finds a trail, where it answers true.
pub control-Trail :
    (turns : Turns) (field : List ℕ) (n : ℕ) (at : Square) (marks : Marks)
    → control turns none field n at at no_marks ≡ ok (true, marks)
    → Trail turns field at at []
unfolding Finds Searches
control-Trail turns field n at marks h =
    (control-Searches turns field n at at [] no_marks (true, marks) no_marks-Marked h).0 refl

-- From a square that no other was passed before, the search comes back without a line only if the
-- square lies outside of the board or is empty.
pub control-misses :
    (turns : Turns) (field : List ℕ) (n : ℕ) (at : Square) (marks : Marks)
    → control turns none field (suc n) at at no_marks ≡ ok (false, marks)
    → (outside at ≡ true) ⊎ ((square field at == 0) ≡ true)
unfolding control visit
control-misses turns field n at marks h = on_outside (outside at) (square field at == 0) refl refl h
  where
    deeper : Found
    deeper =
        follow none (control turns none field n) (turns (square field at)) at at
          (set no_marks (place at) true)

    on_outside :
        (b c : Bool)
        → outside at ≡ b
        → (square field at == 0) ≡ c
        → (if b
            then ok (false, no_marks)
            else if c
            then ok (false, no_marks)
            else if is_marked no_marks at
            then ok (true, no_marks)
            else deeper)
          ≡ ok (false, marks)
        → (outside at ≡ true) ⊎ ((square field at == 0) ≡ true)
    on_outside true c beyond empty e = inl beyond
    on_outside false true inside empty e = inr empty
    on_outside false false inside card e =
        let new : is_marked no_marks at ≡ false = unmarked 64 (place at) in
        let found : deeper ≡ ok (false, marks) =
          subst (λ b. (if b then ok (true, no_marks) else deeper) ≡ ok (false, marks)) new e in
        let (turn, first, second, sides, side, ahead, line, hit) =
          follow-Finds turns field (control turns none field n) (control-Searches turns field n) at
            at (at ∷ []) (set no_marks (place at) true)
            (mark-Marked no_marks at [] inside no_marks-Marked) (turns (square field at))
            (false, marks) found in
        absurd (cc)

pub control-nothing :
    (turns : Turns) (field : List ℕ) (n : ℕ) (at : Square)
    → (outside at ≡ true) ⊎ ((square field at == 0) ≡ true)
    → control turns none field (suc n) at at no_marks ≡ ok (false, no_marks)
unfolding control visit
control-nothing turns field n at (inl beyond) = rw beyond refl
control-nothing turns field n at (inr empty) = elim (Bool-cases (outside at)) [
  | inl beyond ↦ rw beyond refl
  | inr inside ↦ rw (inside, empty) refl
]
