-- ===== src/Wire/Deserialize/Truncated.antt =====
-- What the deserializer makes of a packet that is cut short.
use Prim.Native.Nat.{bit_or}
use ups_server.Base.{
  cut-cases, ◌*◌, ℕ, ◌+◌, ◌^◌, ◌<◌, ◌≡◌, ◌⊎◌, inl, inr, refl, sym, ap, ◌∙◌, Bytes, List, [], ◌∷◌,
  ◌++◌, append_assoc, append-nil, some, ok, fault, out_of_bounds, arith, length, length-append,
}
use ups_server.Wire.Codes.{head_to_format}
use ups_server.Wire.Deserialize.{parse32int_from_array, parse_loop, parse_known, deserialize}
use ups_server.Wire.Deserialize.Reading.{parse32int-append, parse_item-append}
use ups_server.Wire.Deserialize.RoundTrip.{parse_loop_step}
use ups_server.Wire.Format.{be32, encode_item, encode, Matches}
use ups_server.Wire.Message.{Item, Message, message, add_data}
use ups_server.Wire.Deserialize.Short.{read-cases, parse32int-short, parse_item-short}

parse_loop-short :
    (pre part rest : Bytes) (w : ℕ) (format : Bytes) (items : List Item) (i : ℕ) (m : Message)
    → i ≡ length pre
    → Matches format items
    → i + length (encode items) < 2 ^ 32
    → encode items ≡ part ++ w ∷ rest
    → parse_loop (pre ++ part) format i m ≡ fault out_of_bounds
unfolding parse_loop encode
parse_loop-short pre [] rest w [] [] i m e ms fits cut = cc
parse_loop-short pre (b ∷ part) rest w [] [] i m e ms fits cut = cc
parse_loop-short pre part rest w [] (x ∷ items) i m e ms fits cut = elim ms [ ]
parse_loop-short pre part rest w (f ∷ format) [] i m e ms fits cut = elim ms [ ]
parse_loop-short pre part rest w (f ∷ format) (x ∷ items) i m e (mx, ms) fits cut =
    go (cut-cases (encode_item x) (encode items) part (w ∷ rest) cut) (λ part' rest' w'.
      parse_loop-short (pre ++ encode_item x) part' rest' w' format items
        (i + length (encode_item x)) (add_data m x)
        (omega (arith, length-append pre (encode_item x))) ms
        (omega (arith, length-append (encode_item x) (encode items))))
  where
    total : length (encode (x ∷ items)) ≡ length (encode_item x) + length (encode items)
    total = length-append (encode_item x) (encode items)

    -- The item is whole, and what follows is cut.
    behind :
        (part' : Bytes)
        → part ≡ encode_item x ++ part'
        → parse_loop
            ((pre ++ encode_item x) ++ part')
            format
            (i + length (encode_item x))
            (add_data m x)
          ≡ fault out_of_bounds
        → parse_loop (pre ++ part) (f ∷ format) i m ≡ fault out_of_bounds
    behind part' one ih =
        let here = parse_item-append pre part' i m e f x mx (omega (arith, total)) in
        ap (λ z. parse_loop (pre ++ z) (f ∷ format) i m) one
        ∙ parse_loop_step _ f format i _ m _ _ here (
            ap (λ z. parse_loop z format (i + length (encode_item x)) (add_data m x))
              (sym (append_assoc pre (encode_item x) part'))
            ∙ ih)

    go :
        ((ws : Bytes) × (encode_item x ≡ part ++ ws) × (ws ++ encode items ≡ w ∷ rest))
          ⊎ ((b : ℕ) × (ws : Bytes) × (part ≡ encode_item x ++ b ∷ ws)
              × (encode items ≡ b ∷ (ws ++ w ∷ rest)))
        → ((part rest : Bytes) (w : ℕ)
            → encode items ≡ part ++ w ∷ rest
            → parse_loop
                ((pre ++ encode_item x) ++ part)
                format
                (i + length (encode_item x))
                (add_data m x)
              ≡ fault out_of_bounds)
        → parse_loop (pre ++ part) (f ∷ format) i m ≡ fault out_of_bounds
    go (inl ([], whole, tail)) ih =
        behind [] (sym (append-nil part) ∙ (sym whole ∙ sym (append-nil (encode_item x))))
          (ih [] rest w tail)
    go (inl (b ∷ ws, whole, tail)) ih =
        rw (parse_item-short pre part ws b i m f x e mx (omega (arith, total)) whole) refl
    go (inr (b, ws, more, all)) ih = behind (b ∷ ws) more (ih (b ∷ ws) rest w all)

parse32int-cases :
    (source : Bytes) (i : ℕ)
    → ((x : ℕ) × (parse32int_from_array source i ≡ ok x))
      ⊎ (parse32int_from_array source i ≡ fault out_of_bounds)
unfolding parse32int_from_array
parse32int-cases source i = elim (read-cases source i) [
  | inr e ↦ inr (rw e refl)
  | inl (a, e, _) ↦ elim (read-cases source (i + 1)) [
    | inr e1 ↦ inr (rw (e, e1) refl)
    | inl (b, e1, _) ↦ elim (read-cases source (i + 2)) [
      | inr e2 ↦ inr (rw (e, e1, e2) refl)
      | inl (c, e2, _) ↦ elim (read-cases source (i + 3)) [
        | inr e3 ↦ inr (rw (e, e1, e2, e3) refl)
        | inl (d, e3, lt) ↦ inl (
          bit_or (bit_or (bit_or (a * 2 ^ 24) (b * 2 ^ 16)) (c * 2 ^ 8)) d,
          rw (e, e1, e2, e3) refl,
        )
      ]
    ]
  ]
]

-- Fewer than the eight bytes of header and size.
deserialize-short : (source : Bytes) → length source < 8 → deserialize source ≡ fault out_of_bounds
unfolding deserialize
deserialize-short source short = elim (parse32int-cases source 0) [
  | inr e ↦ rw e refl
  | inl (header, e) ↦ rw (e, parse32int-short source 4 (omega arith)) refl
]

-- Where header, size word and payload of a known format are cut anywhere before their end, the
-- deserializer reads outside of the buffer.
pub deserialize-truncated :
    (header size : ℕ) (format : Bytes) (items : List Item) (source rest : Bytes) (w : ℕ)
    → header < 2 ^ 32
    → size < 2 ^ 32
    → head_to_format header ≡ some format
    → Matches format items
    → 8 + length (encode items) < 2 ^ 32
    → (be32 header ++ be32 size) ++ encode items ≡ source ++ w ∷ rest
    → deserialize source ≡ fault out_of_bounds
unfolding deserialize parse_known
deserialize-truncated header size format items source rest w header_fits size_fits known ms fits
      cut =
    go (cut-cases (be32 header ++ be32 size) (encode items) source (w ∷ rest) cut)
  where
    whole_head :
        (part : Bytes)
        → source ≡ (be32 header ++ be32 size) ++ part
        → parse_loop ((be32 header ++ be32 size) ++ part) format 8 (message header format)
          ≡ fault out_of_bounds
        → deserialize source ≡ fault out_of_bounds
    whole_head part one short =
        ap deserialize one
        ∙ rw
            (
              parse32int-append [] (be32 size ++ part) 0 header refl header_fits,
              parse32int-append (be32 header) part 4 size refl size_fits,
              known,
              short,
            )
            refl

    go :
        ((ws : Bytes) × (be32 header ++ be32 size ≡ source ++ ws) × (ws ++ encode items ≡ w ∷ rest))
          ⊎ ((b : ℕ) × (ws : Bytes) × (source ≡ (be32 header ++ be32 size) ++ b ∷ ws)
              × (encode items ≡ b ∷ (ws ++ w ∷ rest)))
        → deserialize source ≡ fault out_of_bounds
    go (inl ([], whole, tail)) = whole_head [] (sym (append-nil source) ∙ sym whole) (
        parse_loop-short (be32 header ++ be32 size) [] rest w format items 8 (message header format)
          refl ms fits tail)
    go (inl (b ∷ ws, whole, tail)) =
        deserialize-short source (omega (arith, ap length whole, length-append source (b ∷ ws)))
    go (inr (b, ws, more, all)) = whole_head (b ∷ ws) more (
        parse_loop-short (be32 header ++ be32 size) (b ∷ ws) rest w format items 8
          (message header format) refl ms fits all)
