-- ===== src/Server/Memory/Lists.antt =====
-- The rules for branches, and for the loops over a vector of pointers.
use ups_server.Base.{
  ℕ, zero, suc, ◌≤◌, ◌≡◌, refl, Bool, true, false, List, [], ◌∷◌, Option, none, some, Fault,
  Tolerated, fault, bad_erase, All, All-mono, arith, get_elem?,
}
use ups_server.Server.Memory.{Below, Keeps, Any, crashes}
use ups_server.Server.Memory.Rules.{then_Keeps, pure-Keeps}
use ups_server.Server.State.{M, pure, lift, position, remove_at, erase_at}

-- A branch on a Boolean or on a pointer.
module _ {A : Type 0} {n k : ℕ} {Q : ℕ → A → Type 0} where
  pub bool_Keeps :
      (b : Bool) (x y : M A)
      → (b ≡ true → Keeps n k Q x)
      → (b ≡ false → Keeps n k Q y)
      → Keeps n k Q (elim b [ true ↦ x | false ↦ y ])
  bool_Keeps true x y hx hy = hx refl
  bool_Keeps false x y hx hy = hy refl

  pub option_Keeps :
      (p : Option ℕ) (x : M A) (y : ℕ → M A)
      → (p ≡ none → Keeps n k Q x)
      → ((a : ℕ) → p ≡ some a → Keeps n k Q (y a))
      → Keeps n k Q (elim p [ none ↦ x | some a ↦ y a ])
  option_Keeps none x y hx hy = hx refl
  option_Keeps (some a) x y hx hy = hy a refl

-- The test is safe for every element, now and later.
abbrev EachKeeps : ℕ → ℕ → (ℕ → M Bool) → List ℕ → Type 0
EachKeeps n k test = All λ a. (k' : ℕ) → k ≤ k' → Keeps n k' Any (test a)

pub position-Keeps :
    {n : ℕ} (k : ℕ) (test : ℕ → M Bool) (xs : List ℕ) (i : ℕ)
    → EachKeeps n k test xs
    → Keeps n k Any (position test xs i)
unfolding position
position-Keeps k test [] i h = pure-Keeps i tt
position-Keeps k test (x ∷ xs) i h = then_Keeps (test x) _ (h.0 k (omega arith)) λ k' hit le _.
    bool_Keeps hit (pure (suc i)) (position test xs (suc i)) (λ _. pure-Keeps (suc i) tt)
      (λ _.
        position-Keeps k' test xs (suc i)
          (All-mono _ _ (λ a keep k2 le2. keep k2 (omega arith)) xs h.1))

All-remove_at : (m : ℕ) (xs : List ℕ) (i : ℕ) → All (Below m) xs → All (Below m) (remove_at xs i)
unfolding remove_at
All-remove_at m [] i h = h
All-remove_at m (x ∷ xs) zero h = h.1
All-remove_at m (x ∷ xs) (suc i) h = (h.0, All-remove_at m xs i h.1)

pub lift-fault :
    {A : Type 0} {n k : ℕ} (Q : ℕ → A → Type 0) (e : Fault)
    → Tolerated e
    → Keeps n k Q (lift (fault e))
lift-fault Q e h s v = crashes h

-- What is left are elements that were there.
pub erase_at-Keeps :
    {n k : ℕ} (m : ℕ) (xs : List ℕ) (i : ℕ)
    → All (Below m) xs
    → Keeps n k (λ k' ys. All (Below m) ys) (erase_at xs i)
unfolding erase_at
erase_at-Keeps m xs zero h = lift-fault (λ k' ys. All (Below m) ys) bad_erase tt
erase_at-Keeps m xs (suc i) h =
    option_Keeps (get_elem? xs i) _ _ (λ _. lift-fault (λ k' ys. All (Below m) ys) bad_erase tt)
      (λ _ _. pure-Keeps (remove_at xs i) (All-remove_at m xs i h))
