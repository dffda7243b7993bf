-- ===== src/Base/Every.antt =====
-- A predicate of every element of a list.
use Prim.Native.Nat.{ℕ, zero, suc, ◌<◌}
use mathlib.Core.List.{List, [], ◌∷◌, ◌++◌}
use mathlib.Core.Option.{some}
use mathlib.Core.Path.{◌≡◌, refl, subst}
use native.Mathlib.Omega.{arith}
use ups_server.Base.Lists.{length, get_elem?, set}

abbrev pub All {ℓ κ} : {A : Type ℓ} → (A → Type κ) → List A → Type κ
All P [] = Unit
All P (x ∷ xs) = P x × All P xs

module _ {ℓ κ} {A : Type ℓ} (P : A → Type κ) where
  pub All-middle : (xs ys : List A) (x : A) → All P (xs ++ x ∷ ys) → P x
  All-middle [] ys x h = h.0
  All-middle (y ∷ xs) ys x h = All-middle xs ys x h.1

  pub All-append : (xs ys : List A) → All P xs → All P ys → All P (xs ++ ys)
  All-append [] ys hx hy = hy
  All-append (x ∷ xs) ys hx hy = (hx.0, All-append xs ys hx.1 hy)

  pub All-without : (xs ys : List A) (x : A) → All P (xs ++ x ∷ ys) → All P (xs ++ ys)
  All-without [] ys x h = h.1
  All-without (y ∷ xs) ys x h = (h.0, All-without xs ys x h.1)

  pub All-set : (xs : List A) (i : ℕ) (v : A) → All P xs → P v → All P (set xs i v)
  All-set [] i v h p = h
  All-set (x ∷ xs) zero v h p = (p, h.1)
  All-set (x ∷ xs) (suc i) v h p = (h.0, All-set xs i v h.1 p)

  pub All-get : (xs : List A) (i : ℕ) (x : A) → All P xs → get_elem? xs i ≡ some x → P x
  All-get [] i x h e = absurd (cc)
  All-get (y ∷ xs) zero x h e = subst P (cc) h.0
  All-get (y ∷ xs) (suc i) x h e = All-get xs i x h.1 e

  pub All-mono {μ} : (Q : A → Type μ) → ((x : A) → P x → Q x) → (xs : List A) → All P xs → All Q xs
  All-mono Q f [] h = tt
  All-mono Q f (x ∷ xs) h = (f x h.0, All-mono Q f xs h.1)

pub get_elem?-lt {ℓ} :
    {A : Type ℓ} (xs : List A) (i : ℕ) → i < length xs → (x : A) × (get_elem? xs i ≡ some x)
get_elem?-lt [] i h = absurd (omega arith)
get_elem?-lt (x ∷ xs) zero h = (x, refl)
get_elem?-lt (x ∷ xs) (suc i) h = get_elem?-lt xs i (omega arith)

pub lt_of_get_elem? {ℓ} :
    {A : Type ℓ} (xs : List A) (i : ℕ) (x : A) → get_elem? xs i ≡ some x → i < length xs
lt_of_get_elem? [] i x h = absurd (cc)
lt_of_get_elem? (y ∷ xs) zero x h = omega arith
lt_of_get_elem? (y ∷ xs) (suc i) x h = omega (arith, lt_of_get_elem? xs i x h)
