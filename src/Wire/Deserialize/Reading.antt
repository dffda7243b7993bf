-- ===== src/Wire/Deserialize/Reading.antt =====
-- Reads at an index behind which an encoded item stands.
use Prim.Native.Nat.{bit_or}
use ups_server.Base.{
  ℕ, suc, ◌+◌, ◌*◌, ◌/◌, ◌%◌, ◌^◌, ◌<◌, ◌≡◌, sym, ap, ◌∙◌, Bytes, [], ◌∷◌, ◌++◌, append_assoc,
  append-nil, false, ok, arith, leb, length, length-append, get_elem?-append,
}
use ups_server.Base.Bits.{bit_or-shift}
use ups_server.Wire.Array.{read}
use ups_server.Wire.Deserialize.{
  parse32int_from_array, read_chars, get_string_from_message, parse_item,
}
use ups_server.Wire.Format.{be32, encode_item, MatchesItem}
use ups_server.Wire.Message.{Item, word, text, Message, add_data}

-- The shifts and ors of four bytes put the word together.
or_bytes :
    (a b c d : ℕ)
    → a < 256
    → b < 256
    → c < 256
    → d < 256
    → bit_or (bit_or (bit_or (a * 2 ^ 24) (b * 2 ^ 16)) (c * 2 ^ 8)) d
      ≡ a * 2 ^ 24 + b * 2 ^ 16 + c * 2 ^ 8 + d
or_bytes a b c d ha hb hc hd =
    let one : bit_or (a * 2 ^ 24) (b * 2 ^ 16) ≡ (a * 2 ^ 8 + b) * 2 ^ 16 =
      bit_or-shift 24 a (b * 2 ^ 16) (omega arith) ∙ omega arith in
    let two : bit_or ((a * 2 ^ 8 + b) * 2 ^ 16) (c * 2 ^ 8)
        ≡ ((a * 2 ^ 8 + b) * 2 ^ 8 + c) * 2 ^ 8 =
      bit_or-shift 16 (a * 2 ^ 8 + b) (c * 2 ^ 8) (omega arith) ∙ omega arith in
    rw (one, two, bit_or-shift 8 ((a * 2 ^ 8 + b) * 2 ^ 8 + c) d hd) (omega arith)

read_here : (pre post : Bytes) (i b : ℕ) → i ≡ length pre → read (pre ++ b ∷ post) i ≡ ok b
unfolding read
read_here pre post i b e = rw (get_elem?-append pre post b i e)

read_behind :
    (pre skip post : Bytes) (i b k : ℕ)
    → i ≡ length pre
    → k ≡ length skip
    → read (pre ++ (skip ++ b ∷ post)) (i + k) ≡ ok b
read_behind pre skip post i b k e f =
    rw (← append_assoc pre skip (b ∷ post))
      (read_here (pre ++ skip) post (i + k) b (omega (arith, length-append pre skip)))

pub parse32int-append :
    (pre post : Bytes) (i x : ℕ)
    → i ≡ length pre
    → x < 2 ^ 32
    → parse32int_from_array (pre ++ (be32 x ++ post)) i ≡ ok x
unfolding parse32int_from_array
parse32int-append pre post i x e h =
    let a = x / 2 ^ 24 % 256 in
    let b = x / 2 ^ 16 % 256 in
    let c = x / 2 ^ 8 % 256 in
    rw
      (
        read_here pre (b ∷ c ∷ x % 256 ∷ post) i a e,
        read_behind pre (a ∷ []) (c ∷ x % 256 ∷ post) i b 1 e (omega arith),
        read_behind pre (a ∷ b ∷ []) (x % 256 ∷ post) i c 2 e (omega arith),
        read_behind pre (a ∷ b ∷ c ∷ []) post i (x % 256) 3 e (omega arith),
        or_bytes a b c (x % 256) (omega arith) (omega arith) (omega arith) (omega arith),
      )
      (ap ok (omega arith))

read_chars-append :
    (pre s post acc : Bytes) (i : ℕ)
    → i ≡ length pre
    → read_chars (pre ++ (s ++ post)) (length s) i acc ≡ ok (acc ++ s)
unfolding read_chars
read_chars-append pre [] post acc i e = ap ok (sym (append-nil acc))
read_chars-append pre (c ∷ s) post acc i e =
    let ih =
      read_chars-append (pre ++ c ∷ []) s post (acc ++ c ∷ []) (i + 1)
        (omega (arith, length-append pre (c ∷ []))) in
    rw (read_here pre (s ++ post) i c e) (simp append_assoc at ih)

get_string-append :
    (pre s post : Bytes) (i : ℕ)
    → i ≡ length pre
    → length s < 2 ^ 31
    → get_string_from_message (pre ++ (s ++ post)) (length s) i ≡ ok s
unfolding get_string_from_message
get_string-append pre s post i e small =
    let signed : leb (2 ^ 31) (length s) ≡ false = ground arith in
    rw signed (read_chars-append pre s post [] i e)

module _ (pre post : Bytes) (i : ℕ) (m : Message) (e : i ≡ length pre) where
  parse_text :
      (s : Bytes)
      → length s < 2 ^ 31
      → i + (4 + length s) < 2 ^ 32
      → parse_item (pre ++ (encode_item (text s) ++ post)) b's' i m
        ≡ ok (add_data m (text s), i + length (encode_item (text s)))
  unfolding parse_item encode_item
  parse_text s small fits =
      let start : (i + 4) % 2 ^ 32 ≡ i + 4 = omega arith in
      let here =
        get_string-append (pre ++ be32 (length s)) s post (i + 4)
          (omega (arith, length-append pre (be32 (length s)))) small in
      let last : (i + 4 + length s) % 2 ^ 32 ≡ i + suc (suc (suc (suc (length s)))) = omega arith in
      rw
        (
          parse32int-append pre (s ++ post) i (length s) e (omega arith),
          start,
          ← append_assoc pre (be32 (length s)) (s ++ post),
          here,
        )
        (rw last)

  -- One item is read back, whatever its type, and the index moves behind it.
  pub parse_item-append :
      (f : ℕ) (x : Item)
      → MatchesItem f x
      → i + length (encode_item x) < 2 ^ 32
      → parse_item (pre ++ (encode_item x ++ post)) f i m
        ≡ ok (add_data m x, i + length (encode_item x))
  unfolding encode_item parse_item
  parse_item-append f (word x) (letter, small) fits =
      let next : (i + 4) % 2 ^ 32 ≡ i + 4 = omega arith in
      rw (letter, parse32int-append pre post i x e small, next)
  parse_item-append f (text s) (letter, small, _) fits =
      rw letter (unfold encode_item in parse_text s small (omega arith))
