-- ===== src/Wire/Serialize/Faults.antt =====
-- The serializer on a message whose items are of their types: no item is missing, and none is read
-- at another type than its own.
use mathlib.Core.Path.{subst}
use ups_server.Base.{
  ℕ, zero, suc, ◌+◌, ◌-◌, ◌%◌, ◌^◌, ◌≡◌, refl, ap, Bytes, Bool, true, false, List, [], ◌∷◌, ◌++◌,
  append_assoc, Result, ok, ◌>>=◌, ◌==◌, leb, if◌then◌else◌, Tolerable, >>=-Tolerable, length,
  length-append, get_elem?-append, at_throws, or_fault, arith, replicate,
}
use ups_server.Wire.Array.{write, read}
use ups_server.Wire.Array.Faults.{write-Tolerable, read-Tolerable}
use ups_server.Wire.Codes.{msg_min_size, msg_head_size, msg_size_size, msg_checksum_size}
use ups_server.Wire.Deserialize.Faults.{if-Tolerable}
use ups_server.Wire.Deserialize.Shape.{HasType, HasTypes}
use ups_server.Wire.Message.{Item, word, text, Message}
use ups_server.Wire.Serialize.{
  byte_of, copy32int_to_place, prepare_empty_packet, at, as_word, as_text, add_item_size,
  message_size_loop, get_message_size_by_payload, put_chars, put_item, put_loop,
  put_data_to_message, checksum_loop, count_and_place_checksum, is_empty, serialize,
}

copy32int_to_place-Tolerable :
    (target : Bytes) (value start : ℕ) → Tolerable (copy32int_to_place target value start)
unfolding copy32int_to_place
copy32int_to_place-Tolerable target value start =
    >>=-Tolerable _ _ (write-Tolerable target (start + 0) (byte_of value 3)) λ t _.
      >>=-Tolerable _ _ (write-Tolerable t (start + 1) (byte_of value 2)) λ u _.
        >>=-Tolerable _ _ (write-Tolerable u (start + 2) (byte_of value 1))
          λ v _. write-Tolerable v (start + 3) (byte_of value 0)

prepare_empty_packet-Tolerable :
    (header data_size : ℕ) → Tolerable (prepare_empty_packet header data_size)
unfolding prepare_empty_packet
prepare_empty_packet-Tolerable header data_size =
    let size = (msg_head_size + msg_size_size + data_size + msg_checksum_size) % 2 ^ 32 in
    if-Tolerable (leb (2 ^ 31) size) _ _ tt (
      >>=-Tolerable (copy32int_to_place (replicate size 0) header 0) _
        (copy32int_to_place-Tolerable (replicate size 0) header 0)
        (λ t _. copy32int_to_place-Tolerable t size 4))

put_chars-Tolerable : (target : Bytes) (i : ℕ) (s : Bytes) → Tolerable (put_chars target i s)
unfolding put_chars
put_chars-Tolerable target i [] = tt
put_chars-Tolerable target i (c ∷ s) =
    >>=-Tolerable (write target i c) _ (write-Tolerable target i c)
      (λ t _. put_chars-Tolerable t (i + 1) s)

checksum_loop-Tolerable : (n i sum : ℕ) (target : Bytes) → Tolerable (checksum_loop n i sum target)
unfolding checksum_loop
checksum_loop-Tolerable zero i sum target = tt
checksum_loop-Tolerable (suc n) i sum target =
    >>=-Tolerable (read target i) _ (read-Tolerable target i)
      (λ b _. checksum_loop-Tolerable n (i + 1) ((sum + b) % 256 % 128) target)

count_and_place_checksum-Tolerable :
    (target : Bytes) (size : ℕ) → Tolerable (count_and_place_checksum target size)
unfolding count_and_place_checksum
count_and_place_checksum-Tolerable target size =
    >>=-Tolerable (checksum_loop (size - 1) 0 0 target) _
      (checksum_loop-Tolerable (size - 1) 0 0 target)
      (λ sum _. write-Tolerable target (size - 1) sum)

-- The item that a loop is at.
at-append :
    (before rest : List Item) (x : Item) (i : ℕ)
    → i ≡ length before
    → at (before ++ x ∷ rest) i ≡ ok x
unfolding at
at-append before rest x i e = ap (or_fault at_throws) (get_elem?-append before rest x i e)

as_text-Tolerable : (x : Item) (c : ℕ) → HasType c x → (c == b'i') ≡ false → Tolerable (as_text x)
unfolding as_text
as_text-Tolerable (word w) c typed other = ground (arith, typed, other)
as_text-Tolerable (text s) c typed other = tt

as_word-Tolerable : (x : Item) (c : ℕ) → HasType c x → (c == b'i') ≡ true → Tolerable (as_word x)
unfolding as_word
as_word-Tolerable (word w) c typed same = tt
as_word-Tolerable (text s) c typed same = ground (arith, typed, same)

-- A branch that knows its test.
if_cases {ℓ} :
    {A : Type ℓ} (b : Bool) (x y : Result A)
    → (b ≡ true → Tolerable x)
    → (b ≡ false → Tolerable y)
    → Tolerable (if b then x else y)
if_cases true x y hx hy = hx refl
if_cases false x y hx hy = hy refl

module _ (before rest : List Item) (x : Item) (i c : ℕ) (here : i ≡ length before)
    (typed : HasType c x) where
  add_item_size-Tolerable : (size : ℕ) → Tolerable (add_item_size c (before ++ x ∷ rest) i size)
  unfolding add_item_size
  add_item_size-Tolerable size =
      if_cases (c == b'i') _ _ (λ _. tt)
        λ other.
          if-Tolerable (c == b's') _ _
            (rw (at-append before rest x i here)
              (>>=-Tolerable (as_text x) _ (as_text-Tolerable x c typed other) (λ _ _. tt)))
            tt

  put_item-Tolerable :
      (target : Bytes) (index : ℕ) → Tolerable (put_item target c (before ++ x ∷ rest) i index)
  unfolding put_item
  put_item-Tolerable target index =
      if_cases (c == b'i') _ _
        (λ same. rw (at-append before rest x i here) (
          >>=-Tolerable (as_word x) _ (as_word-Tolerable x c typed same) λ w _.
            >>=-Tolerable (copy32int_to_place target w index) _
              (copy32int_to_place-Tolerable target w index) (λ _ _. tt)))
        λ other.
          if-Tolerable (c == b's') _ _
            (rw (at-append before rest x i here) (
              >>=-Tolerable (as_text x) _ (as_text-Tolerable x c typed other) λ s _.
                >>=-Tolerable (copy32int_to_place target (length s % 2 ^ 32) index) _
                  (copy32int_to_place-Tolerable target (length s % 2 ^ 32) index)
                  λ t _.
                    >>=-Tolerable (put_chars t (index + 4) s) _
                      (put_chars-Tolerable t (index + 4) s) (λ _ _. tt)))
            tt

next :
    (before : List Item) (x : Item) (i : ℕ) → i ≡ length before → i + 1 ≡ length (before ++ x ∷ [])
next before x i here = omega (arith, length-append before (x ∷ []))

message_size_loop-Tolerable :
    (format : Bytes) (before items : List Item) (i size : ℕ)
    → i ≡ length before
    → HasTypes format items
    → Tolerable (message_size_loop format (before ++ items) i size)
unfolding message_size_loop
message_size_loop-Tolerable [] before items i size here typed = tt
message_size_loop-Tolerable (c ∷ format) before [] i size here typed = absurd typed
message_size_loop-Tolerable (c ∷ format) before (x ∷ items) i size here typed =
    >>=-Tolerable (add_item_size c (before ++ x ∷ items) i size) _
      (add_item_size-Tolerable before items x i c here typed.0 size)
      λ total _.
        subst (λ payload. Tolerable (message_size_loop format payload (i + 1) total))
          (append_assoc before (x ∷ []) items)
          (message_size_loop-Tolerable format (before ++ x ∷ []) items (i + 1) total
            (next before x i here) typed.1)

put_loop-Tolerable :
    (target format : Bytes) (before items : List Item) (i index : ℕ)
    → i ≡ length before
    → HasTypes format items
    → Tolerable (put_loop target format (before ++ items) i index)
unfolding put_loop
put_loop-Tolerable target [] before items i index here typed = tt
put_loop-Tolerable target (c ∷ format) before [] i index here typed = absurd typed
put_loop-Tolerable target (c ∷ format) before (x ∷ items) i index here typed =
    >>=-Tolerable (put_item target c (before ++ x ∷ items) i index) _
      (put_item-Tolerable before items x i c here typed.0 target index)
      λ (t, after) _.
        subst (λ payload. Tolerable (put_loop t format payload (i + 1) after))
          (append_assoc before (x ∷ []) items)
          (put_loop-Tolerable t format (before ++ x ∷ []) items (i + 1) after (next before x i here)
            typed.1)

-- The checksum is put at the end of what the first step gives.
finish-Tolerable :
    (r : Result Bytes) (size : ℕ)
    → Tolerable r
    → Tolerable {A = Bytes × ℕ}
        (r >>= λ packet. count_and_place_checksum packet size >>= λ result. ok (result, size))
finish-Tolerable r size h = >>=-Tolerable r _ h λ packet _.
    >>=-Tolerable (count_and_place_checksum packet size) _
      (count_and_place_checksum-Tolerable packet size) (λ _ _. tt)

pub serialize-Tolerable : (m : Message) → HasTypes m.msg_format m.payload → Tolerable (serialize m)
unfolding serialize get_message_size_by_payload put_data_to_message
serialize-Tolerable m typed =
    if-Tolerable (is_empty m.msg_format) _ _
      (finish-Tolerable (prepare_empty_packet m.header 0) msg_min_size
        (prepare_empty_packet-Tolerable m.header 0))
      (>>=-Tolerable (message_size_loop m.msg_format m.payload 0 0) _
        (message_size_loop-Tolerable m.msg_format [] m.payload 0 0 refl typed)
        λ size _.
          >>=-Tolerable (prepare_empty_packet m.header size) _
            (prepare_empty_packet-Tolerable m.header size)
            λ packet _.
              finish-Tolerable
                (put_loop packet m.msg_format m.payload 0 (msg_head_size + msg_size_size))
                ((msg_min_size + size) % 2 ^ 32)
                (put_loop-Tolerable packet m.msg_format [] m.payload 0
                  (msg_head_size + msg_size_size) refl typed))
