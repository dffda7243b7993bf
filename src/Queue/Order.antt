-- ===== src/Queue/Order.antt =====
-- The order of the elements in the queue.
use mathlib.Core.Path.{subst}
use ups_server.Base.{
  ℕ, zero, suc, ◌+◌, ◌≡◌, refl, sym, ◌∙◌, List, [], ◌∷◌, ◌++◌, append_assoc, append-nil, Result, ok,
  ◌>>=◌, length, length-append,
}
use ups_server.Queue.{Queue, front, push, pop}

module _ {ℓ} {A : Type ℓ} where
  -- Elements pushed one after the other.
  abbrev fill : Queue A → List A → Queue A
  fill q [] = q
  fill q (x ∷ xs) = fill (push q x) xs

  -- What `n` calls of `front` and `pop` give, and the queue after them.
  abbrev drain : ℕ → Queue A → Result (List A × Queue A)
  drain zero q = ok ([], q)
  drain (suc n) q = do x ← front q; (_, rest) ← pop q; (xs, left) ← drain n rest; ok (x ∷ xs, left)

  fill-append : (q : Queue A) (xs : List A) → fill q xs ≡ q ++ xs
  fill-append q [] = sym (append-nil q)
  fill-append q (x ∷ xs) = fill-append (push q x) xs ∙ append_assoc q (x ∷ []) xs

  drain-append : (xs ys : List A) → drain (length xs) (xs ++ ys) ≡ ok (xs, ys)
  unfolding front pop
  drain-append [] ys = refl
  drain-append (x ∷ xs) ys = rw (drain-append xs ys) refl

  -- The queue is first in, first out: what was pushed onto a queue is taken from it after what was
  -- there, in the order of the pushes, and the queue is empty then.
  drain-fill :
      (q : Queue A) (xs : List A) → drain (length q + length xs) (fill q xs) ≡ ok (q ++ xs, [])
  drain-fill q xs =
      rw (fill-append q xs, sym (length-append q xs))
        (subst (λ z. drain (length (q ++ xs)) z ≡ ok (q ++ xs, [])) (append-nil (q ++ xs))
          (drain-append (q ++ xs) []))
