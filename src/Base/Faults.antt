-- ===== src/Base/Faults.antt =====
-- Results of code that can go wrong. A fault ends the run: what the C++ does from there on is
-- undefined, or the process is terminated.

use mathlib.Core.Path.{◌≡◌, refl}
use mathlib.Core.Option.{Option, none, some}

pub data Fault : Type 0 where
  -- an access outside an array
  out_of_bounds : Fault
  -- `vector::at` throws, and nothing catches
  at_throws : Fault
  -- a `void *` read at another type than it was stored at
  bad_cast : Fault
  -- `new T[n]` at a negative `n` throws
  bad_alloc : Fault
  -- a member access through a null pointer
  null_pointer : Fault
  -- a member access through a pointer that was never set
  unset_pointer : Fault
  -- `front` or `pop` of an empty queue
  empty_queue : Fault
  -- `vector::erase` outside the vector
  bad_erase : Fault
  -- `atoi` of a number that is no `int`
  unrepresentable : Fault
  -- a function with a result ends without a `return`
  no_return : Fault
  -- `_exit` ends the process
  exit_called : Fault
  -- no behaviour of the code: a loop of the model had too little fuel
  out_of_fuel : Fault

pub data Result {ℓ} (A : Type ℓ) : Type ℓ where
  ok : A → Result A
  fault : Fault → Result A

infixl 5 ◌>>=◌
abbrev pub ◌>>=◌ {ℓ κ} : {A : Type ℓ} {B : Type κ} → Result A → (A → Result B) → Result B
ok a >>= f = f a
fault e >>= f = fault e

abbrev pub or_fault {ℓ} : {A : Type ℓ} → Fault → Option A → Result A
or_fault e none = fault e
or_fault e (some a) = ok a

-- What a chain that succeeds did first.
pub >>=-eq-ok {ℓ κ} :
    {A : Type ℓ} {B : Type κ} (first : Result A) (next : A → Result B) {end : B}
    → (first >>= next) ≡ ok end
    → (x : A) × (first ≡ ok x) × (next x ≡ ok end)
>>=-eq-ok (fault why) next success = cc
>>=-eq-ok (ok x) next success = (x, refl, success)

pub >>=-ok {ℓ} : {A : Type ℓ} (m : Result A) → (m >>= λ a. ok a) ≡ m
>>=-ok (ok a) = refl
>>=-ok (fault e) = refl

pub >>=-assoc {ℓ κ μ} :
    {A : Type ℓ} {B : Type κ} {C : Type μ} (m : Result A) (f : A → Result B) (g : B → Result C)
    → ((m >>= f) >>= g) ≡ (m >>= λ a. f a >>= g)
>>=-assoc (ok a) f g = refl
>>=-assoc (fault e) f g = refl

-- The faults that a well formed memory with messages of the right types does not rule out.
abbrev pub Tolerated : Fault → Type 0
Tolerated out_of_bounds = Unit {0}
Tolerated bad_alloc = Unit {0}
Tolerated null_pointer = Unit {0}
Tolerated unset_pointer = Unit {0}
Tolerated bad_erase = Unit {0}
Tolerated no_return = Unit {0}
Tolerated at_throws = ⊥
Tolerated bad_cast = ⊥
Tolerated empty_queue = ⊥
Tolerated unrepresentable = ⊥
Tolerated exit_called = ⊥
Tolerated out_of_fuel = ⊥

abbrev pub Tolerable {ℓ} : {A : Type ℓ} → Result A → Type 0
Tolerable (ok a) = Unit {0}
Tolerable (fault e) = Tolerated e

pub >>=-Tolerable {ℓ κ} :
    {A : Type ℓ} {B : Type κ} (m : Result A) (f : A → Result B)
    → Tolerable m
    → ((a : A) → m ≡ ok a → Tolerable (f a))
    → Tolerable (m >>= f)
>>=-Tolerable (ok a) f h rest = rest a refl
>>=-Tolerable (fault e) f h rest = h
