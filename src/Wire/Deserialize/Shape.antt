-- ===== src/Wire/Deserialize/Shape.antt =====
-- Of what type the items of a message from the network are.
use mathlib.Core.Path.{subst}
use ups_server.Base.{
  Bool, true, false, ◌==◌, if◌then◌else◌, ℕ, ◌+◌, ◌%◌, ◌^◌, ◌≡◌, refl, ap, sym, ◌∙◌, Bytes, List,
  [], ◌∷◌, ◌++◌, append_assoc, append-nil, Option, none, some, Result, ok, fault, >>=-eq-ok, ◌⊎◌,
  inl, inr, All,
}
use ups_server.Wire.Codes.{head_to_format, find_format, format_table}
use ups_server.Wire.Deserialize.{
  parse32int_from_array, get_string_from_message, parse_item, parse_loop, parse_known, deserialize,
}
use ups_server.Wire.Message.{Item, word, text, Message, message, add_data}

abbrev IsLetter : ℕ → Type 0
IsLetter c = (c ≡ b'i') ⊎ (c ≡ b's')

-- The item is of the type that the letter stands for.
abbrev pub HasType : ℕ → Item → Type 0
HasType c (word x) = c ≡ b'i'
HasType c (text s) = c ≡ b's'

-- As many items as letters, each of its letter's type.
abbrev pub HasTypes : Bytes → List Item → Type 0
HasTypes [] [] = Unit {0}
HasTypes [] (x ∷ xs) = ⊥
HasTypes (c ∷ format) [] = ⊥
HasTypes (c ∷ format) (x ∷ xs) = HasType c x × HasTypes format xs

parse_item-HasType :
    (source : Bytes) (c i : ℕ) (m m' : Message) (j : ℕ)
    → IsLetter c
    → parse_item source c i m ≡ ok (m', j)
    → (x : Item) × HasType c x × (m' ≡ add_data m x)
unfolding parse_item
parse_item-HasType source c i m m' j (inl e) h =
    let h' : parse_item source b'i' i m ≡ ok (m', j) =
      subst (λ c. parse_item source c i m ≡ ok (m', j)) e h in
    let (x, _, rest) = >>=-eq-ok (parse32int_from_array source i) _ h' in
    (word x, e, ap (λ r. fst_of r) (sym rest))
  where
    fst_of : Result (Message × ℕ) → Message
    fst_of (ok p) = p.0
    fst_of (fault f) = m
parse_item-HasType source c i m m' j (inr e) h =
    let h' : parse_item source b's' i m ≡ ok (m', j) =
      subst (λ c. parse_item source c i m ≡ ok (m', j)) e h in
    let (size, _, read) = >>=-eq-ok (parse32int_from_array source i) _ h' in
    let (s, _, rest) = >>=-eq-ok (get_string_from_message source size ((i + 4) % 2 ^ 32)) _ read in
    (text s, e, ap (λ r. fst_of r) (sym rest))
  where
    fst_of : Result (Message × ℕ) → Message
    fst_of (ok p) = p.0
    fst_of (fault f) = m

parse_loop-HasTypes :
    (source format : Bytes) (i : ℕ) (m m' : Message)
    → All IsLetter format
    → parse_loop source format i m ≡ ok m'
    → (items : List Item) × HasTypes format items × (m' ≡ record m { payload = m.payload ++ items })
unfolding parse_loop
parse_loop-HasTypes source [] i m m' letters h = ([], tt, rw (append-nil m.payload) (cc))
parse_loop-HasTypes source (c ∷ format) i m m' letters h =
    let ((next, j), here, rest) = >>=-eq-ok (parse_item source c i m) _ h in
    let (x, typed, same) = parse_item-HasType source c i m next j letters.0 here in
    let (items, all_typed, same') = parse_loop-HasTypes source format j next m' letters.1 rest in
    (
      x ∷ items,
      (typed, all_typed),
      same'
          ∙ (ap (λ (y : Message). record y { payload = y.payload ++ items }) same
              ∙ ap (λ z. record m { payload = z }) (append_assoc m.payload (x ∷ []) items)),
    )

EntryOk : ℕ × Bytes → Type 0
EntryOk (key, format) = All IsLetter format

find_format-IsLetter :
    (table : List (ℕ × Bytes)) (header : ℕ) (format : Bytes)
    → All EntryOk table
    → find_format table header ≡ some format
    → All IsLetter format
unfolding find_format EntryOk
find_format-IsLetter [] header format h e = absurd (cc)
find_format-IsLetter ((key, f) ∷ table) header format h e =
    on_test (key == header) (find_format-IsLetter table header format h.1) e
  where
    on_test :
        (b : Bool)
        → (find_format table header ≡ some format → All IsLetter format)
        → (if b then some f else find_format table header) ≡ some format
        → All IsLetter format
    on_test true rest e = let same : f ≡ format = cc in subst (λ z. All IsLetter z) same h.0
    on_test false rest e = rest e

table_ok : All EntryOk format_table
unfolding EntryOk
table_ok = (
  tt,
  (
    tt,
    (
      tt,
      (
        tt,
        (
          tt,
          (
            tt,
            (
              (inr refl, tt),
              (
                (inr refl, tt),
                (
                  tt,
                  (
                    tt,
                    (
                      (inl refl, (inr refl, tt)),
                      (
                        (inr refl, tt),
                        (
                          (inr refl, tt),
                          (
                            (inr refl, tt),
                            (
                              tt,
                              (
                                tt,
                                (
                                  (inr refl, (inr refl, tt)),
                                  (
                                    (inl refl, (inl refl, (inl refl, tt))),
                                    (
                                      (inl refl, (inl refl, (inl refl, tt))),
                                      (
                                        (inr refl, (inl refl, (inl refl, (inl refl, tt)))),
                                        (tt, (tt, ((inr refl, (inr refl, (inr refl, tt))), tt))),
                                      ),
                                    ),
                                  ),
                                ),
                              ),
                            ),
                          ),
                        ),
                      ),
                    ),
                  ),
                ),
              ),
            ),
          ),
        ),
      ),
    ),
  ),
)

-- Whatever the bytes are: if a message comes out, its header is one of the table, its format is the
-- table's, and it has one item for each letter of it, each of the type that the letter stands for.
pub deserialize-HasTypes :
    (source : Bytes) (m : Message)
    → deserialize source ≡ ok (some m)
    → (head_to_format m.header ≡ some m.msg_format) × HasTypes m.msg_format m.payload
unfolding deserialize parse_known head_to_format
deserialize-HasTypes source m h =
    let (header, _, h1) = >>=-eq-ok (parse32int_from_array source 0) _ h in
    let (size, _, h2) = >>=-eq-ok (parse32int_from_array source 4) _ h1 in
    on_format header (head_to_format header) refl h2
  where
    on_format :
        (header : ℕ) (found : Option Bytes)
        → head_to_format header ≡ found
        → parse_known source header found ≡ ok (some m)
        → (head_to_format m.header ≡ some m.msg_format) × HasTypes m.msg_format m.payload
    on_format header none e h = absurd (cc)
    on_format header (some format) e h =
        let (m', parsed, rest) =
          >>=-eq-ok (parse_loop source format 8 (message header format)) _ h in
        let letters = find_format-IsLetter format_table header format table_ok e in
        let (items, typed, same) =
          parse_loop-HasTypes source format 8 (message header format) m' letters parsed in
        let whole : m ≡ record (message header format) { payload = items } = cc in
        subst (λ x. (head_to_format x.header ≡ some x.msg_format) × HasTypes x.msg_format x.payload)
          (sym whole) (e, typed)
