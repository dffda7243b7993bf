-- ===== src/Wire/Serialize/Frame.antt =====
-- The in-place serializer, and the packet that `Format` describes.
use ups_server.Base.{
  ◌*◌, ℕ, suc, ◌+◌, ◌-◌, ◌%◌, ◌^◌, ◌<◌, ◌≡◌, refl, sym, ap, ◌∙◌, inl, inr, true, false, Bytes, List,
  [], ◌∷◌, ◌++◌, append_assoc, ok, ◌>>=◌, >>=-assoc, arith, Bool-cases, leb, length, drop,
  replicate, length-append, length-drop, length-replicate, drop-drop, drop-replicate,
}
use ups_server.Wire.Format.{
  be32, encode_item, encode, MatchesItem, Matches, sum, unsigned_frame, frame, Fits,
}
use ups_server.Wire.Message.{Item, word, text, Message}
use ups_server.Wire.Serialize.{
  at, add_item_size, message_size_loop, get_message_size_by_payload, prepare_empty_packet,
  put_data_to_message, count_and_place_checksum, is_empty, serialize,
}
use ups_server.Wire.Serialize.Checksum.{AreBytes-unsigned_frame, count_and_place_checksum-append}
use ups_server.Wire.Serialize.Writing.{copy32int-append, at-append, put_loop-append}

add_item_size-append :
    (f : ℕ) (payload : List Item) (x : Item) (i acc : ℕ)
    → at payload i ≡ ok x
    → MatchesItem f x
    → acc + length (encode_item x) < 2 ^ 32
    → add_item_size f payload i acc ≡ ok (acc + length (encode_item x))
unfolding add_item_size encode_item
add_item_size-append f payload (word x) i acc here (l, _) fits = rw l (ap ok (omega arith))
add_item_size-append f payload (text s) i acc here (l, _, _) fits =
    rw (l, here) (ap ok (omega arith))

message_size_loop-append :
    (format : Bytes) (done items : List Item) (i acc : ℕ)
    → i ≡ length done
    → Matches format items
    → acc + length (encode items) < 2 ^ 32
    → message_size_loop format (done ++ items) i acc ≡ ok (acc + length (encode items))
unfolding message_size_loop encode
message_size_loop-append [] done [] i acc e m fits = ap ok (omega arith)
message_size_loop-append [] done (x ∷ items) i acc e m fits = elim m [ ]
message_size_loop-append (f ∷ format) done [] i acc e m fits = elim m [ ]
message_size_loop-append (f ∷ format) done (x ∷ items) i acc e (mx, m) fits =
    let total = length-append (encode_item x) (encode items) in
    let ih =
      message_size_loop-append format (done ++ x ∷ []) items (i + 1) (acc + length (encode_item x))
        (omega (arith, length-append done (x ∷ []))) m (omega (arith, total)) in
    rw
      (add_item_size-append f (done ++ x ∷ items) x i acc (at-append done items x i e) mx
        (omega (arith, total)))
      (simp append_assoc at ih ∙ ap ok (omega (arith, total)))

-- The fresh packet: header and size, and zeros.
prepare_empty_packet_lem :
    (header n : ℕ)
    → 9 + n < 2 ^ 31
    → prepare_empty_packet header n ≡ ok ((be32 header ++ be32 (9 + n)) ++ replicate (suc n) 0)
unfolding prepare_empty_packet
prepare_empty_packet_lem header n h =
    let size : (4 + 4 + n + 1) % 2 ^ 32 ≡ 9 + n = omega arith in
    let small : leb (2 ^ 31) (9 + n) ≡ false = ground arith in
    let zeros : List ℕ = replicate (9 + n) 0 in
    let all : length zeros ≡ 9 + n = length-replicate (9 + n) 0 in
    let eight : 9 + n - (4 + 4) ≡ suc n = omega arith in
    rw (
      size,
      small,
      copy32int-append [] zeros 0 header refl (omega (arith, all)),
      copy32int-append (be32 header) (drop 4 zeros) 4 (9 + n) (omega arith)
          (omega (arith, all, length-drop 4 zeros)),
      drop-drop 4 4 zeros,
      drop-replicate,
      eight,
    )

empty_payload :
    (format : Bytes) (items : List Item)
    → Matches format items
    → is_empty format ≡ true
    → items ≡ []
unfolding is_empty
empty_payload [] [] m e = refl
empty_payload [] (x ∷ items) m e = elim m [ ]
empty_payload (f ∷ format) items m e = cc

empty_format : (format : Bytes) → is_empty format ≡ true → format ≡ []
unfolding is_empty
empty_format [] e = refl
empty_format (f ∷ format) e = cc

-- Filling and signing the fresh packet.
fill_and_sign :
    (m : Message)
    → Fits m
    → let n = length (encode m.payload) in
      (put_data_to_message
          ((be32 m.header ++ be32 (9 + n)) ++ replicate (suc n) 0)
          m.msg_format
          m.payload
        >>= λ filled. count_and_place_checksum filled (9 + n))
      ≡ ok (frame m)
unfolding put_data_to_message frame
fill_and_sign m fits =
    let n = length (encode m.payload) in
    let front = be32 m.header ++ be32 (9 + n) in
    let zeros : List ℕ = replicate (suc n) 0 in
    let all : length zeros ≡ suc n = length-replicate (suc n) 0 in
    let one : suc n - n ≡ 1 = omega arith in
    rw
      (
        put_loop-append front zeros m.msg_format [] m.payload 0 (4 + 4) (omega arith) (omega arith)
            fits.payload (omega (arith, all)),
        drop-replicate,
        one,
      )
      (count_and_place_checksum-append (unsigned_frame m) 0 (9 + n) (omega arith)
        (AreBytes-unsigned_frame m fits))

-- Without a payload the packet has nine bytes.
serialize_bare :
    (m : Message)
    → m.msg_format ≡ []
    → m.payload ≡ []
    → serialize m ≡ ok (frame m, 9 + length (encode m.payload))
unfolding serialize frame encode sum
serialize_bare m f p = rw (f, p) (ground arith)

serialize_full :
    (m : Message)
    → Fits m
    → is_empty m.msg_format ≡ false
    → serialize m ≡ ok (frame m, 9 + length (encode m.payload))
unfolding serialize get_message_size_by_payload
serialize_full m fits e =
    let n = length (encode m.payload) in
    let size : (9 + n) % 2 ^ 32 ≡ 9 + n = omega arith in
    let from_zero : 0 + n ≡ n = omega arith in
    rw
      (
        e,
        message_size_loop-append m.msg_format [] m.payload 0 0 (omega arith) fits.payload
            (omega arith),
        from_zero,
        size,
        prepare_empty_packet_lem m.header n fits.size,
      )
      (sym (>>=-assoc _ (λ filled. count_and_place_checksum filled (9 + n)) _)
        ∙ ap (λ t. t >>= λ result. ok (result, 9 + n)) (fill_and_sign m fits))

length-frame : (m : Message) → length (frame m) ≡ 9 + length (encode m.payload)
unfolding frame
length-frame m =
    omega (arith, length-append (encode m.payload) ((sum (unsigned_frame m) % 128) ∷ []))

-- A message that fits is serialized to its packet, and the size beside it is the packet's length.
pub serialize-frame : (m : Message) → Fits m → serialize m ≡ ok (frame m, length (frame m))
serialize-frame m fits = rw (length-frame m) (elim (Bool-cases (is_empty m.msg_format)) [
  | inl e ↦
      serialize_bare m (empty_format m.msg_format e)
        (empty_payload m.msg_format m.payload fits.payload e)
  | inr e ↦ serialize_full m fits e
])

sum-last : (s : Bytes) (b : ℕ) → sum (s ++ b ∷ []) ≡ sum s + b
unfolding sum
sum-last [] b = omega arith
sum-last (x ∷ s) b = omega (arith, sum-last s b)

-- A message that fits is serialized to header, size, payload and, as the last byte, the sum of these
-- bytes modulo 128, and the size beside the bytes is their number: no write leaves the array and no
-- payload item is read at a wrong type. So all bytes of a packet add up to twice that sum modulo 128,
-- and not to 0 as the client asks.
pub serialize-packet :
    (m : Message)
    → Fits m
    → (serialize m ≡ ok (frame m, length (frame m)))
      × (sum (frame m) % 128 ≡ 2 * sum (unsigned_frame m) % 128)
unfolding frame
serialize-packet m fits = (
  serialize-frame m fits,
  omega (arith, sum-last (unsigned_frame m) (sum (unsigned_frame m) % 128)),
)
