-- ===== src/Wire/Array.antt =====
-- Byte arrays of UPSServer/helpers/Serializer.cpp as lists. Every access is checked against the
-- length: an access outside is a fault. An `int` index is its 32-bit pattern, so a negative index
-- is a number from 2 ^ 31 up, which lies past the end of every array.
pub mod Faults
use package.ups_server.Base.{
  ℕ, zero, suc, Bytes, [], ◌∷◌, Result, ok, fault, out_of_bounds, ◌>>=◌, or_fault, get_elem?,
}

-- `target[i] = v`.
unfoldable pub write : Bytes → ℕ → ℕ → Result Bytes
write [] i v = fault out_of_bounds
write (x ∷ xs) zero v = ok (v ∷ xs)
write (x ∷ xs) (suc i) v = do ys ← write xs i v; ok (x ∷ ys)

-- `source[i]`.
unfoldable pub read : Bytes → ℕ → Result ℕ
read source i = or_fault out_of_bounds (get_elem? source i)
