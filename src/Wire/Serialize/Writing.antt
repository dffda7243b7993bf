-- ===== src/Wire/Serialize/Writing.antt =====
-- The in-place writes of the serializer, on an array whose front is written already.
use ups_server.Base.{
  ℕ, zero, suc, ◌+◌, ◌%◌, ◌^◌, ◌≤◌, ◌<◌, ◌≡◌, refl, sym, ap, ◌∙◌, Bytes, List, [], ◌∷◌, ◌++◌,
  append_assoc, ok, ◌>>=◌, >>=-ok, >>=-assoc, arith, length, drop, length-append, length-drop,
  drop-drop, get_elem?-append,
}
use ups_server.Wire.Array.{write}
use ups_server.Wire.Format.{be32, encode_item, encode, MatchesItem, Matches}
use ups_server.Wire.Message.{Item, word, text}
use ups_server.Wire.Serialize.{byte_of, copy32int_to_place, put_chars, put_item, put_loop, at}

pub write-append :
    (pre xs : Bytes) (i k v : ℕ)
    → i ≡ length pre + k
    → write (pre ++ xs) i v ≡ (write xs k v >>= λ ys. ok (pre ++ ys))
unfolding write
write-append [] xs i k v e = let e' : i ≡ k = omega arith in rw e' (sym (>>=-ok (write xs k v)))
write-append (x ∷ pre) xs zero k v e = absurd (omega arith)
write-append (x ∷ pre) xs (suc i) k v e =
    rw (write-append pre xs i k v (omega arith)) (>>=-assoc (write xs k v) _ _)

last_byte : (x : ℕ) → byte_of x 0 ≡ x % 256
last_byte x = omega arith

-- A word goes into the next four places.
pub copy32int-append :
    (pre junk : Bytes) (i x : ℕ)
    → i ≡ length pre
    → 4 ≤ length junk
    → copy32int_to_place (pre ++ junk) x i ≡ ok (pre ++ (be32 x ++ drop 4 junk))
unfolding copy32int_to_place
copy32int-append pre [] i x e h = absurd (omega arith)
copy32int-append pre (a ∷ []) i x e h = absurd (omega arith)
copy32int-append pre (a ∷ b ∷ []) i x e h = absurd (omega arith)
copy32int-append pre (a ∷ b ∷ c ∷ []) i x e h = absurd (omega arith)
copy32int-append pre (a ∷ b ∷ c ∷ d ∷ post) i x e h =
    rw
      (
        write-append pre _ (i + 0) 0 (byte_of x 3) (omega arith),
        write-append pre _ (i + 1) 1 (byte_of x 2) (omega arith),
        write-append pre _ (i + 2) 2 (byte_of x 1) (omega arith),
        write-append pre _ (i + 3) 3 (byte_of x 0) (omega arith),
      )
      (ap (λ (t : ℕ). ok (pre ++ byte_of x 3 ∷ byte_of x 2 ∷ byte_of x 1 ∷ t ∷ post)) (last_byte x))

write_next :
    (pre junk : Bytes) (i j v : ℕ)
    → i ≡ length pre
    → write (pre ++ j ∷ junk) i v ≡ ok ((pre ++ v ∷ []) ++ junk)
write_next pre junk i j v e =
    write-append pre (j ∷ junk) i 0 v (omega arith)
    ∙ unfold write in ap ok (sym (append_assoc pre (v ∷ []) junk))

-- A string goes into the places that follow.
put_chars-append :
    (pre junk : Bytes) (i : ℕ) (s : Bytes)
    → i ≡ length pre
    → length s ≤ length junk
    → put_chars (pre ++ junk) i s ≡ ok (pre ++ (s ++ drop (length s) junk))
unfolding put_chars
put_chars-append pre junk i [] e h = refl
put_chars-append pre [] i (c ∷ s) e h = absurd (omega arith)
put_chars-append pre (j ∷ junk) i (c ∷ s) e h = rw (write_next pre junk i j c e) (
    put_chars-append (pre ++ c ∷ []) junk (i + 1) s (omega (arith, length-append pre (c ∷ [])))
      (omega arith)
    ∙ ap ok (append_assoc pre (c ∷ []) (s ++ drop (length s) junk)))

module _ (pre junk : Bytes) (payload : List Item) (i index : ℕ) (e : index ≡ length pre) where
  put_word :
      (x : ℕ)
      → at payload i ≡ ok (word x)
      → 4 ≤ length junk
      → put_item (pre ++ junk) b'i' payload i index
        ≡ ok (
          pre ++ (encode_item (word x) ++ drop (length (encode_item (word x))) junk),
          index + length (encode_item (word x)),
        )
  unfolding put_item encode_item
  put_word x here room = rw (here, copy32int-append pre junk index x e room)

  put_text_chars :
      (n : ℕ) (rest s : Bytes)
      → length s ≤ length rest
      → put_chars (pre ++ (be32 n ++ rest)) (index + 4) s
        ≡ ok (pre ++ (be32 n ++ (s ++ drop (length s) rest)))
  put_text_chars n rest s room = rw (← append_assoc pre (be32 n) rest) (
      put_chars-append (pre ++ be32 n) rest (index + 4) s
        (omega (arith, length-append pre (be32 n))) room
      ∙ ap ok (append_assoc pre (be32 n) (s ++ drop (length s) rest)))

  put_text :
      (s : Bytes)
      → at payload i ≡ ok (text s)
      → length s < 2 ^ 31
      → 4 + length s ≤ length junk
      → put_item (pre ++ junk) b's' payload i index
        ≡ ok (
          pre ++ (encode_item (text s) ++ drop (length (encode_item (text s))) junk),
          index + length (encode_item (text s)),
        )
  unfolding put_item encode_item
  put_text s here small room =
      let size : length s % 2 ^ 32 ≡ length s = omega arith in
      let rest : length s ≤ length (drop 4 junk) = omega (arith, length-drop 4 junk) in
      let all : suc (suc (suc (suc (length s)))) ≡ 4 + length s = omega arith in
      rw
        (
          here,
          size,
          copy32int-append pre junk index (length s) e (omega arith),
          put_text_chars (length s) (drop 4 junk) s rest,
          drop-drop 4 (length s) junk,
        )
        (ground (arith, all))

  -- One item is written, whatever its type, and the index moves behind it.
  put_item-append :
      (f : ℕ) (x : Item)
      → at payload i ≡ ok x
      → MatchesItem f x
      → length (encode_item x) ≤ length junk
      → put_item (pre ++ junk) f payload i index
        ≡ ok (
          pre ++ (encode_item x ++ drop (length (encode_item x)) junk),
          index + length (encode_item x),
        )
  unfolding encode_item
  put_item-append f (word x) here (letter, _) room =
      rw letter (unfold encode_item in put_word x here (omega arith))
  put_item-append f (text s) here (letter, small, _) room =
      rw letter (unfold encode_item in put_text s here small (omega arith))

pub at-append :
    (done items : List Item) (x : Item) (i : ℕ) → i ≡ length done → at (done ++ x ∷ items) i ≡ ok x
unfolding at
at-append done items x i e = rw (get_elem?-append done items x i e)

-- The loop writes the encoding of the items that are left.
pub put_loop-append :
    (pre junk : Bytes) (format : Bytes) (done items : List Item) (i index : ℕ)
    → index ≡ length pre
    → i ≡ length done
    → Matches format items
    → length (encode items) ≤ length junk
    → put_loop (pre ++ junk) format (done ++ items) i index
      ≡ ok (pre ++ (encode items ++ drop (length (encode items)) junk))
unfolding put_loop encode
put_loop-append pre junk [] done [] i index e n m room = refl
put_loop-append pre junk [] done (x ∷ items) i index e n m room = elim m [ ]
put_loop-append pre junk (f ∷ format) done [] i index e n m room = elim m [ ]
put_loop-append pre junk (f ∷ format) done (x ∷ items) i index e n (mx, m) room =
    let total = length-append (encode_item x) (encode items) in
    let rest = length-drop (length (encode_item x)) junk in
    let ih =
      put_loop-append (pre ++ encode_item x) (drop (length (encode_item x)) junk) format
        (done ++ x ∷ []) items (i + 1) (index + length (encode_item x))
        (omega (arith, length-append pre (encode_item x)))
        (omega (arith, length-append done (x ∷ []))) m (omega (arith, total, rest)) in
    rw
      (put_item-append pre junk (done ++ x ∷ items) i index e f x (at-append done items x i n) mx
        (omega (arith, total)))
      (simp (append_assoc, length-append, ← drop-drop) (simp append_assoc at ih))
