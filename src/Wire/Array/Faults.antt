-- ===== src/Wire/Array/Faults.antt =====
-- An access to an array goes wrong only where it lies outside.
use ups_server.Base.{
  ℕ, zero, suc, Bytes, [], ◌∷◌, ok, Option, none, some, or_fault, out_of_bounds, get_elem?,
  Tolerable, >>=-Tolerable,
}
use ups_server.Wire.Array.{write, read}

pub write-Tolerable : (target : Bytes) (i v : ℕ) → Tolerable (write target i v)
unfolding write
write-Tolerable [] i v = tt
write-Tolerable (x ∷ xs) zero v = tt
write-Tolerable (x ∷ xs) (suc i) v =
    >>=-Tolerable (write xs i v) (λ ys. ok (x ∷ ys)) (write-Tolerable xs i v) (λ _ _. tt)

pub read-Tolerable : (source : Bytes) (i : ℕ) → Tolerable (read source i)
unfolding read
read-Tolerable source i = at (get_elem? source i)
  where
    at : (o : Option ℕ) → Tolerable (or_fault out_of_bounds o)
    at none = tt
    at (some b) = tt
