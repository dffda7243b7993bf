-- ===== src/Wire/Deserialize.antt =====
-- The deserializing half of UPSServer/helpers/Serializer.cpp.
pub mod Reading
pub mod RoundTrip
pub mod Short
pub mod Truncated
pub mod Shape
pub mod Faults
use Prim.Native.Nat.{bit_or}
use package.ups_server.Base.{
  ℕ, zero, suc, ◌+◌, ◌*◌, ◌%◌, ◌^◌, Bytes, [], ◌∷◌, ◌++◌, Option, none, some, Result, ok, ◌>>=◌,
  ◌==◌, leb, if◌then◌else◌,
}
use package.ups_server.Wire.Array.{read}
use package.ups_server.Wire.Codes.{head_to_format}
use package.ups_server.Wire.Message.{word, text, Message, message, add_data}

pub parse32int_from_array : Bytes → ℕ → Result ℕ
unfolding read
parse32int_from_array source index = do
  a ← read source index
  b ← read source (index + 1)
  c ← read source (index + 2)
  d ← read source (index + 3)
  ok (bit_or (bit_or (bit_or (a * 2 ^ 24) (b * 2 ^ 16)) (c * 2 ^ 8)) d)

pub read_chars : Bytes → ℕ → ℕ → Bytes → Result Bytes
unfolding read
read_chars source zero index payload = ok payload
read_chars source (suc n) index payload =
    read source index >>= λ c. read_chars source n (index + 1) (payload ++ c ∷ [])

-- The length comes as an `int`: from 2 ^ 31 up it is negative, and no round is made.
pub get_string_from_message : Bytes → ℕ → ℕ → Result Bytes
unfolding read_chars
get_string_from_message source size index =
    if leb (2 ^ 31) size then ok [] else read_chars source size index []

-- One round of the loop of `deserialize`: the message and the index after it.
pub parse_item : Bytes → ℕ → ℕ → Message → Result (Message × ℕ)
unfolding parse32int_from_array get_string_from_message
parse_item source c index m =
    if c == b'i'
    then (do x ← parse32int_from_array source index; ok (add_data m (word x), (index + 4) % 2 ^ 32))
    else if c == b's'
    then (do
      size ← parse32int_from_array source index
      let start = (index + 4) % 2 ^ 32
      s ← get_string_from_message source size start
      ok (add_data m (text s), (start + size) % 2 ^ 32))
    else ok (m, index)

pub parse_loop : Bytes → Bytes → ℕ → Message → Result Message
unfolding parse_item
parse_loop source [] index m = ok m
parse_loop source (c ∷ format) index m =
    parse_item source c index m >>= λ (m', next). parse_loop source format next m'

pub parse_known : Bytes → ℕ → Option Bytes → Result (Option Message)
parse_known source header none = ok none
parse_known source header (some format) =
    parse_loop source format 8 (message header format) >>= λ m. ok (some m)

-- `none` is the null pointer, for a header that the table does not have. The size is read, and
-- neither it nor the checksum is looked at.
unfoldable pub deserialize : Bytes → Result (Option Message)
deserialize source = do
  header ← parse32int_from_array source 0
  size ← parse32int_from_array source 4
  parse_known source header (head_to_format header)
