-- ===== src/Base/Tests.antt =====
-- Boolean tests on the native numbers and on byte strings, and the conditional.
use Prim.Native.Nat.{ℕ, compare, Ordering}
use Prim.Native.Char.{code}
use Prim.Native.String.{String}
use mathlib.Core.Path.{◌≡◌, refl}
use mathlib.Core.Logic.{◌↔◌, ◌⊎◌, ◌≢◌, inl, inr}
use mathlib.Core.Bool.{Bool, true, false, ◌&&◌}
use mathlib.Core.List.{List, [], ◌∷◌}
use mathlib.Core.Option.{Option, none, some}
use native.Mathlib.Omega.{arith}

abbrev pub ltb : ℕ → ℕ → Bool
ltb a b = elim (compare a b) [ Ordering.lt ↦ true | _ ↦ false ]

abbrev pub leb : ℕ → ℕ → Bool
leb a b = elim (compare a b) [ Ordering.gt ↦ false | _ ↦ true ]

infix 50 ◌==◌
abbrev pub ◌==◌ : ℕ → ℕ → Bool
a == b = elim (compare a b) [ Ordering.eq ↦ true | _ ↦ false ]

infix 1 if◌then◌else◌
abbrev pub if◌then◌else◌ {ℓ} : {A : Type ℓ} → Bool → A → A → A
if true then x else y = x
if false then x else y = y

pub ==_iff : (a b : ℕ) → ((a == b) ≡ true) ↔ (a ≡ b)
==_iff a b = ground arith

pub ==-refl : (a : ℕ) → (a == a) ≡ true
==-refl a = ground arith

pub ==→≢ : (a b : ℕ) → (a == b) ≡ false → a ≢ b
==→≢ a b e = ground arith

-- To split on a computed value and keep the equation.
pub Bool-cases : (b : Bool) → (b ≡ true) ⊎ (b ≡ false)
Bool-cases true = inl refl
Bool-cases false = inr refl

pub Option-cases {ℓ} : {A : Type ℓ} (o : Option A) → (o ≡ none) ⊎ ((a : A) × (o ≡ some a))
Option-cases none = inl refl
Option-cases (some a) = inr (a, refl)

-- A `std::string`, or a byte array.
abbrev pub Bytes : Type 0
Bytes = List ℕ

-- The bytes of an ASCII literal.
abbrev pub codes : String → Bytes
codes String.[] = []
codes (String.◌∷◌ c s) = code c ∷ codes s

-- `==` on `std::string`.
infix 50 ◌=s=◌
unfoldable pub ◌=s=◌ : Bytes → Bytes → Bool
[] =s= [] = true
[] =s= (b ∷ t) = false
(a ∷ s) =s= [] = false
(a ∷ s) =s= (b ∷ t) = (a == b) && (s =s= t)

pub =s=_sound : (s t : Bytes) → (s =s= t) ≡ true → s ≡ t
unfolding ◌=s=◌
=s=_sound [] [] h = refl
=s=_sound [] (b ∷ t) h = cc
=s=_sound (a ∷ s) [] h = cc
=s=_sound (a ∷ s) (b ∷ t) h = ground (arith, =s=_sound s t)

pub =s=-refl : (s : Bytes) → (s =s= s) ≡ true
unfolding ◌=s=◌
=s=-refl [] = refl
=s=-refl (a ∷ s) = ground (arith, =s=-refl s)

pub =s=_iff : (s t : Bytes) → ((s =s= t) ≡ true) ↔ (s ≡ t)
=s=_iff s t = (=s=_sound s t, λ e. ground (arith, =s=-refl s))
