-- ===== src/Base/Lists.antt =====
-- Lists measured and indexed by native numbers, under the library's names.
use Prim.Native.Nat.{ℕ, zero, suc, ◌+◌, ◌-◌, ◌<◌}
use mathlib.Core.Path.{◌≡◌, refl, sym, ap, ◌∙◌}
use mathlib.Core.Logic.{◌≢◌, ◌⊎◌, inl, inr}
use mathlib.Core.List.{List, [], ◌∷◌, ◌++◌}
use mathlib.Core.Option.{Option, none, some}
use native.Mathlib.Nat.{zero-add}
use native.Mathlib.Omega.{arith}

module _ {ℓ} {A : Type ℓ} where
  abbrev pub length : List A → ℕ
  length [] = 0
  length (x ∷ xs) = suc (length xs)

  abbrev pub get_elem? : List A → ℕ → Option A
  get_elem? [] i = none
  get_elem? (x ∷ xs) zero = some x
  get_elem? (x ∷ xs) (suc i) = get_elem? xs i

  -- A write out of bounds changes nothing.
  abbrev pub set : List A → ℕ → A → List A
  set [] i v = []
  set (x ∷ xs) zero v = v ∷ xs
  set (x ∷ xs) (suc i) v = x ∷ set xs i v

  abbrev pub replicate : ℕ → A → List A
  replicate zero a = []
  replicate (suc n) a = a ∷ replicate n a

  abbrev pub drop : ℕ → List A → List A
  drop zero xs = xs
  drop (suc n) [] = []
  drop (suc n) (x ∷ xs) = drop n xs

  pub length-append : (xs ys : List A) → length (xs ++ ys) ≡ length xs + length ys
  length-append [] ys = omega arith
  length-append (x ∷ xs) ys = omega (arith, length-append xs ys)

  pub length-replicate : (n : ℕ) (a : A) → length (replicate n a) ≡ n
  length-replicate zero a = refl
  length-replicate (suc n) a = ap suc (length-replicate n a)

  pub length-drop : (n : ℕ) (xs : List A) → length (drop n xs) ≡ length xs - n
  length-drop zero xs = omega arith
  length-drop (suc n) [] = omega arith
  length-drop (suc n) (x ∷ xs) = omega (arith, length-drop n xs)

  pub length-set : (xs : List A) (i : ℕ) (v : A) → length (set xs i v) ≡ length xs
  length-set [] i v = refl
  length-set (x ∷ xs) zero v = refl
  length-set (x ∷ xs) (suc i) v = ap suc (length-set xs i v)

  pub get_elem?-set_self :
      (xs : List A) (i : ℕ) (v : A) → i < length xs → get_elem? (set xs i v) i ≡ some v
  get_elem?-set_self [] i v h = absurd (omega arith)
  get_elem?-set_self (x ∷ xs) zero v h = refl
  get_elem?-set_self (x ∷ xs) (suc i) v h = get_elem?-set_self xs i v (omega arith)

  pub get_elem?-set_ne :
      (xs : List A) (i j : ℕ) (v : A) → i ≢ j → get_elem? (set xs i v) j ≡ get_elem? xs j
  get_elem?-set_ne [] i j v h = refl
  get_elem?-set_ne (x ∷ xs) zero zero v h = absurd (h refl)
  get_elem?-set_ne (x ∷ xs) zero (suc j) v h = refl
  get_elem?-set_ne (x ∷ xs) (suc i) zero v h = refl
  get_elem?-set_ne (x ∷ xs) (suc i) (suc j) v h = get_elem?-set_ne xs i j v (λ e. h (ap suc e))

  drop-nil : (n : ℕ) → drop n [] ≡ []
  drop-nil zero = refl
  drop-nil (suc n) = refl

  pub drop-drop : (m n : ℕ) (xs : List A) → drop n (drop m xs) ≡ drop (m + n) xs
  drop-drop zero n xs = ap (λ k. drop k xs) (sym (zero-add n))
  drop-drop (suc m) n [] = drop-nil n ∙ sym (drop-nil (suc m + n))
  drop-drop (suc m) n (x ∷ xs) =
      let e : suc m + n ≡ suc (m + n) = omega arith in
      drop-drop m n xs ∙ ap (λ k. drop k (x ∷ xs)) (sym e)

  pub get_elem?-append :
      (done rest : List A) (x : A) (i : ℕ)
      → i ≡ length done
      → get_elem? (done ++ x ∷ rest) i ≡ some x
  get_elem?-append [] rest x i e = rw e
  get_elem?-append (y ∷ done) rest x zero e = absurd (omega arith)
  get_elem?-append (y ∷ done) rest x (suc i) e = get_elem?-append done rest x i (omega arith)

  replicate-eq : (m n : ℕ) (a : A) → m ≡ n → replicate m a ≡ replicate n a
  replicate-eq m n a e = ap (λ k. replicate k a) e

  pub drop-replicate : (m n : ℕ) (a : A) → drop m (replicate n a) ≡ replicate (n - m) a
  drop-replicate zero n a = replicate-eq n (n - 0) a (omega arith)
  drop-replicate (suc m) zero a = replicate-eq 0 (0 - suc m) a (omega arith)
  drop-replicate (suc m) (suc n) a =
      drop-replicate m n a ∙ replicate-eq (n - m) (suc n - suc m) a (omega arith)

pub set-set {ℓ} : {A : Type ℓ} (xs : List A) (i : ℕ) (u v : A) → set (set xs i u) i v ≡ set xs i v
set-set [] i u v = refl
set-set (x ∷ xs) zero u v = refl
set-set (x ∷ xs) (suc i) u v = ap (λ ys. x ∷ ys) (set-set xs i u v)

pub set-set_ne {ℓ} :
    {A : Type ℓ} (xs : List A) (i j : ℕ) (u v : A)
    → i ≢ j
    → set (set xs i u) j v ≡ set (set xs j v) i u
set-set_ne [] i j u v h = refl
set-set_ne (x ∷ xs) zero zero u v h = absurd (h refl)
set-set_ne (x ∷ xs) zero (suc j) u v h = refl
set-set_ne (x ∷ xs) (suc i) zero u v h = refl
set-set_ne (x ∷ xs) (suc i) (suc j) u v h =
    ap (λ ys. x ∷ ys) (set-set_ne xs i j u v (λ e. h (ap (λ k. suc k) e)))

-- Of two writes at each of two places, the later ones stay.
pub set-set_twice {ℓ} :
    {A : Type ℓ} (xs : List A) (i j : ℕ) (u v u' v' : A)
    → i ≢ j
    → set (set (set (set xs i u) j v) i u') j v' ≡ set (set xs i u') j v'
set-set_twice xs i j u v u' v' apart =
    let back = set-set_ne (set xs i u) j i v u' (λ e. apart (sym e)) in
    ap (λ ys. set ys j v') (back ∙ ap (λ ys. set ys j v) (set-set xs i u u'))
    ∙ set-set (set xs i u') j v v'

-- Of two ways to cut a list, the first cuts no later than the second, or it does.
pub cut-cases {ℓ} :
    {A : Type ℓ} (xs ys us vs : List A)
    → xs ++ ys ≡ us ++ vs
    → ((ws : List A) × (xs ≡ us ++ ws) × (ws ++ ys ≡ vs))
      ⊎ ((w : A) × (ws : List A) × (us ≡ xs ++ w ∷ ws) × (ys ≡ w ∷ (ws ++ vs)))
cut-cases xs ys [] vs e = inl (xs, refl, e)
cut-cases [] ys (u ∷ us) vs e = inr (u, us, refl, e)
cut-cases (x ∷ xs) ys (u ∷ us) vs e =
    let heads : x ≡ u = cc in
    let tails : xs ++ ys ≡ us ++ vs = cc in
    elim (cut-cases xs ys us vs tails) [
      | inl (ws, p, q) ↦ inl (ws, ap (λ l. x ∷ l) p ∙ ap (λ h. h ∷ (us ++ ws)) heads, q)
      | inr (w, ws, p, q) ↦
          inr (w, ws, ap (λ l. u ∷ l) p ∙ ap (λ h. h ∷ (xs ++ w ∷ ws)) (sym heads), q)
    ]
