-- ===== src/Wire/Deserialize/Short.antt =====
-- Reads at the end of an array that is too short.
use ups_server.Base.{
  cut-cases, ℕ, zero, suc, ◌+◌, ◌%◌, ◌^◌, ◌<◌, ◌≤◌, ◌≡◌, ◌⊎◌, inl, inr, refl, sym, ap, ◌∙◌, Bytes,
  [], ◌∷◌, ◌++◌, append-nil, false, ok, fault, out_of_bounds, arith, leb, get_elem?, length,
  length-append, lt_of_get_elem?, Option-cases,
}
use ups_server.Wire.Array.{read}
use ups_server.Wire.Deserialize.{
  parse32int_from_array, read_chars, get_string_from_message, parse_item,
}
use ups_server.Wire.Deserialize.Reading.{parse32int-append}
use ups_server.Wire.Format.{be32, encode_item, MatchesItem}
use ups_server.Wire.Message.{Item, word, text, Message}

-- A read gives a byte of the array, or is one outside.
pub read-cases :
    (source : Bytes) (i : ℕ)
    → ((b : ℕ) × (read source i ≡ ok b) × (i < length source))
      ⊎ (read source i ≡ fault out_of_bounds)
unfolding read
read-cases source i = elim (Option-cases (get_elem? source i)) [
  | inl e ↦ inr (rw (read, e) refl)
  | inr (b, e) ↦ inl (b, rw (read, e) refl, lt_of_get_elem? source i b e)
]

-- A part of an array that has no byte at `i + k`.
pub parse32int-short :
    (source : Bytes) (i : ℕ)
    → length source < i + 4
    → parse32int_from_array source i ≡ fault out_of_bounds
unfolding parse32int_from_array
parse32int-short source i short = elim (read-cases source i) [
  | inr e ↦ rw e refl
  | inl (a, e, _) ↦ elim (read-cases source (i + 1)) [
    | inr e1 ↦ rw (e, e1) refl
    | inl (b, e1, _) ↦ elim (read-cases source (i + 2)) [
      | inr e2 ↦ rw (e, e1, e2) refl
      | inl (c, e2, _) ↦ elim (read-cases source (i + 3)) [
        | inr e3 ↦ rw (e, e1, e2, e3) refl
        | inl (d, e3, lt) ↦ absurd (omega arith)
      ]
    ]
  ]
]

read_chars-short :
    (source : Bytes) (n i : ℕ) (payload : Bytes)
    → i ≤ length source
    → length source < i + n
    → read_chars source n i payload ≡ fault out_of_bounds
unfolding read_chars
read_chars-short source zero i payload h short = absurd (omega arith)
read_chars-short source (suc n) i payload h short = elim (read-cases source i) [
  | inr e ↦ rw e refl
  | inl (c, e, lt) ↦
      rw e (read_chars-short source n (i + 1) (payload ++ c ∷ []) (omega arith) (omega arith))
]

-- A text whose length stands in the array, but of whose bytes some are missing.
parse_text-short :
    (pre part s : Bytes) (i : ℕ) (m : Message)
    → i ≡ length pre
    → length s < 2 ^ 31
    → i + (4 + length s) < 2 ^ 32
    → length part < length s
    → parse_item (pre ++ (be32 (length s) ++ part)) b's' i m ≡ fault out_of_bounds
unfolding parse_item get_string_from_message
parse_text-short pre part s i m e small fits missing =
    let start : (i + 4) % 2 ^ 32 ≡ i + 4 = omega arith in
    let signed : leb (2 ^ 31) (length s) ≡ false = ground arith in
    let source = pre ++ (be32 (length s) ++ part) in
    let size : length source ≡ length pre + (4 + length part) =
      length-append pre (be32 (length s) ++ part) ∙ ap (λ n. length pre + n) (omega arith) in
    let chars : read_chars source (length s) (i + 4) [] ≡ fault out_of_bounds =
      read_chars-short source (length s) (i + 4) [] (omega arith) (omega arith) in
    rw (parse32int-append pre part i (length s) e (omega arith), start, signed, chars) refl

-- An item of which bytes are missing.
pub parse_item-short :
    (pre part rest : Bytes) (w : ℕ) (i : ℕ) (m : Message) (f : ℕ) (x : Item)
    → i ≡ length pre
    → MatchesItem f x
    → i + length (encode_item x) < 2 ^ 32
    → encode_item x ≡ part ++ w ∷ rest
    → parse_item (pre ++ part) f i m ≡ fault out_of_bounds
unfolding encode_item parse_item
parse_item-short pre part rest w i m f (word x) e (letter, small) fits cut =
    let size : length part + suc (length rest) ≡ 4 =
      sym (ap length cut ∙ length-append part (w ∷ rest)) in
    let short = parse32int-short (pre ++ part) i (omega (arith, length-append pre part)) in
    rw (letter, short) refl
parse_item-short pre part rest w i m f (text s) e (letter, small, _) fits cut =
    go (cut-cases (be32 (length s)) s part (w ∷ rest) cut)
  where
    go :
        ((ws : Bytes) × (be32 (length s) ≡ part ++ ws) × (ws ++ s ≡ w ∷ rest))
          ⊎ ((b : ℕ) × (ws : Bytes) × (part ≡ be32 (length s) ++ b ∷ ws)
              × (s ≡ b ∷ (ws ++ w ∷ rest)))
        → parse_item (pre ++ part) f i m ≡ fault out_of_bounds
    go (inl ([], whole, tail)) =
        let one : part ≡ be32 (length s) ++ [] =
          sym (whole ∙ append-nil part) ∙ sym (append-nil (be32 (length s))) in
        let some_missing : length s ≡ suc (length rest) = ap length tail in
        ap (λ z. parse_item (pre ++ z) f i m) one
        ∙ rw letter (parse_text-short pre [] s i m e small (omega arith) (omega arith))
    go (inl (b ∷ ws, whole, tail)) =
        let size : length part + suc (length ws) ≡ 4 =
          sym (ap length whole ∙ length-append part (b ∷ ws)) in
        let short = parse32int-short (pre ++ part) i (omega (arith, length-append pre part)) in
        rw (letter, short) refl
    go (inr (b, ws, more, all)) =
        let total = ap length all in
        ap (λ z. parse_item (pre ++ z) f i m) more
        ∙ rw letter (
            parse_text-short pre (b ∷ ws) s i m e small (omega arith)
              (omega (arith, total, length-append ws (w ∷ rest))))
