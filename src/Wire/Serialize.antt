-- ===== src/Wire/Serialize.antt =====
-- The serializing half of UPSServer/helpers/Serializer.cpp.
pub mod Writing
pub mod Checksum
pub mod Frame
pub mod Faults
use package.ups_server.Base.{
  ℕ, zero, suc, ◌+◌, ◌-◌, ◌*◌, ◌/◌, ◌%◌, ◌^◌, Bytes, Bool, true, false, List, [], ◌∷◌, replicate,
  Result, ok, fault, at_throws, bad_cast, bad_alloc, ◌>>=◌, or_fault, ◌==◌, leb, if◌then◌else◌,
  length, get_elem?,
}
use package.ups_server.Wire.Array.{write, read}
use package.ups_server.Wire.Codes.{
  msg_min_size, msg_head_size, msg_size_size, msg_checksum_size, msg_string_len_size,
}
use package.ups_server.Wire.Message.{Item, word, text, Message}

-- `((uint8_t *) &data)[k]`, on a little-endian machine.
abbrev pub byte_of : ℕ → ℕ → ℕ
byte_of value k = value / 2 ^ (8 * k) % 256

pub copy32int_to_place : Bytes → ℕ → ℕ → Result Bytes
unfolding write
copy32int_to_place target value start = do
  t ← write target (start + 0) (byte_of value 3)
  u ← write t (start + 1) (byte_of value 2)
  v ← write u (start + 2) (byte_of value 1)
  write v (start + 3) (byte_of value 0)

-- The `int` computed is reduced to 32 bits; `new` throws where that is negative.
pub prepare_empty_packet : ℕ → ℕ → Result Bytes
unfolding copy32int_to_place
prepare_empty_packet header data_size =
    let message_size = (msg_head_size + msg_size_size + data_size + msg_checksum_size) % 2 ^ 32 in
    if leb (2 ^ 31) message_size then fault bad_alloc else do
      t ← copy32int_to_place (replicate message_size 0) header 0
      copy32int_to_place t message_size 4

unfoldable pub at : List Item → ℕ → Result Item
at payload i = or_fault at_throws (get_elem? payload i)

unfoldable pub as_word : Item → Result ℕ
as_word (word x) = ok x
as_word (text s) = fault bad_cast

unfoldable pub as_text : Item → Result Bytes
as_text (word x) = fault bad_cast
as_text (text s) = ok s

-- One round of the loop of `getMessageSizeByPayload`: the sum after it.
pub add_item_size : ℕ → List Item → ℕ → ℕ → Result ℕ
unfolding at as_text
add_item_size f payload i result_size =
    if f == b'i'
    then ok ((result_size + 4) % 2 ^ 32)
    else if f == b's'
    then (do
      item ← at payload i
      s ← as_text item
      ok ((result_size + msg_string_len_size + length s) % 2 ^ 32))
    else ok result_size

pub message_size_loop : Bytes → List Item → ℕ → ℕ → Result ℕ
unfolding add_item_size
message_size_loop [] payload i result_size = ok result_size
message_size_loop (f ∷ format) payload i result_size =
    add_item_size f payload i result_size >>= λ total.
    message_size_loop format payload (i + 1) total

pub get_message_size_by_payload : Message → Result ℕ
unfolding message_size_loop
get_message_size_by_payload m = message_size_loop m.msg_format m.payload 0 0

-- `for (char sf : *stringPayload) { target[index] = sf; index++; }`.
pub put_chars : Bytes → ℕ → Bytes → Result Bytes
unfolding write
put_chars target index [] = ok target
put_chars target index (sf ∷ s) = do t ← write target index sf; put_chars t (index + 1) s

-- One round of the loop of `putDataToMessage`: the array and the index after it.
pub put_item : Bytes → ℕ → List Item → ℕ → ℕ → Result (Bytes × ℕ)
unfolding at as_text as_word copy32int_to_place put_chars
put_item target f payload i index =
    if f == b'i'
    then (do
      item ← at payload i
      x ← as_word item
      t ← copy32int_to_place target x index
      ok (t, index + 4))
    else if f == b's'
    then (do
      item ← at payload i
      s ← as_text item
      t ← copy32int_to_place target (length s % 2 ^ 32) index
      u ← put_chars t (index + 4) s
      ok (u, index + 4 + length s))
    else ok (target, index)

pub put_loop : Bytes → Bytes → List Item → ℕ → ℕ → Result Bytes
unfolding put_item
put_loop target [] payload i index = ok target
put_loop target (f ∷ format) payload i index =
    put_item target f payload i index >>= λ (t, next). put_loop t format payload (i + 1) next

pub put_data_to_message : Bytes → Bytes → List Item → Result Bytes
unfolding put_loop
put_data_to_message target format payload =
    put_loop target format payload 0 (msg_head_size + msg_size_size)

-- `checkSum` is a `uint8_t`; `n` rounds are left.
pub checksum_loop : ℕ → ℕ → ℕ → Bytes → Result ℕ
unfolding read
checksum_loop zero i check_sum target = ok check_sum
checksum_loop (suc n) i check_sum target =
    read target i >>= λ b. checksum_loop n (i + 1) ((check_sum + b) % 256 % 128) target

pub count_and_place_checksum : Bytes → ℕ → Result Bytes
unfolding checksum_loop write
count_and_place_checksum target size =
    checksum_loop (size - 1) 0 0 target >>= λ check_sum. write target (size - 1) check_sum

pub is_empty : Bytes → Bool
is_empty [] = true
is_empty (b ∷ s) = false

-- The packet and its size. A payload that is not as long as the format is logged only.
unfoldable pub serialize : Message → Result (Bytes × ℕ)
unfolding prepare_empty_packet count_and_place_checksum get_message_size_by_payload
    put_data_to_message is_empty
serialize m =
    if is_empty m.msg_format
    then (do
      packet ← prepare_empty_packet m.header 0
      result ← count_and_place_checksum packet msg_min_size
      ok (result, msg_min_size))
    else do
      payload_size ← get_message_size_by_payload m
      let message_size = (msg_min_size + payload_size) % 2 ^ 32
      packet ← prepare_empty_packet m.header payload_size
      filled ← put_data_to_message packet m.msg_format m.payload
      result ← count_and_place_checksum filled message_size
      ok (result, message_size)
