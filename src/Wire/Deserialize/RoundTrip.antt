-- ===== src/Wire/Deserialize/RoundTrip.antt =====
-- What the deserializer makes of a packet, whatever follows it in the buffer.
use ups_server.Base.{
  ℕ, ◌+◌, ◌%◌, ◌^◌, ◌<◌, ◌≡◌, refl, ap, ◌∙◌, Bytes, List, [], ◌∷◌, ◌++◌, append_assoc, append-nil,
  none, some, Result, ok, ◌>>=◌, arith, length, length-append,
}
use ups_server.Wire.Codes.{head_to_format}
use ups_server.Wire.Deserialize.{parse_item, parse_loop, parse_known, deserialize}
use ups_server.Wire.Deserialize.Reading.{parse32int-append, parse_item-append}
use ups_server.Wire.Format.{be32, encode_item, encode, Matches, sum, unsigned_frame, frame, Fits}
use ups_server.Wire.Message.{Item, Message, message, add_data}
use ups_server.Wire.Serialize.{serialize}
use ups_server.Wire.Serialize.Frame.{serialize-frame}

pub parse_loop_step :
    (source : Bytes) (f : ℕ) (format : Bytes) (i j : ℕ) (m m' : Message) (r : Result Message)
    → parse_item source f i m ≡ ok (m', j)
    → parse_loop source format j m' ≡ r
    → parse_loop source (f ∷ format) i m ≡ r
unfolding parse_loop
parse_loop_step source f format i j m m' r here rest = rw here rest

parse_loop-append :
    (pre post : Bytes) (format : Bytes) (items : List Item) (i : ℕ) (m : Message)
    → i ≡ length pre
    → Matches format items
    → i + length (encode items) < 2 ^ 32
    → parse_loop (pre ++ (encode items ++ post)) format i m
      ≡ ok (record m { payload = m.payload ++ items })
unfolding parse_loop encode
parse_loop-append pre post [] [] i m e ms fits = rw (append-nil m.payload)
parse_loop-append pre post [] (x ∷ items) i m e ms fits = elim ms [ ]
parse_loop-append pre post (f ∷ format) [] i m e ms fits = elim ms [ ]
parse_loop-append pre post (f ∷ format) (x ∷ items) i m e (mx, ms) fits =
    let total = length-append (encode_item x) (encode items) in
    let here = parse_item-append pre (encode items ++ post) i m e f x mx (omega (arith, total)) in
    let ih =
      parse_loop-append (pre ++ encode_item x) post format items (i + length (encode_item x))
        (add_data m x) (omega (arith, length-append pre (encode_item x))) ms
        (omega (arith, total)) in
    let source = append_assoc (encode_item x) (encode items) post in
    ap (λ s. parse_loop (pre ++ s) (f ∷ format) i m) source
    ∙ parse_loop_step _ f format i _ m _ _ here (simp append_assoc at ih)

frame-append :
    (m : Message) (rest : Bytes)
    → let n = length (encode m.payload) in
      frame m ++ rest
      ≡ be32 m.header
        ++ (be32 (9 + n) ++ (encode m.payload ++ ((sum (unsigned_frame m) % 128) ∷ rest)))
unfolding frame
frame-append m rest =
    let last = (sum (unsigned_frame m) % 128) ∷ [] in
    let n = length (encode m.payload) in
    ap (λ s. be32 m.header ++ (be32 (9 + n) ++ s)) (append_assoc (encode m.payload) last rest)

-- Header, size word, and payload of a known format are read as a message, whatever the size word
-- says and whatever bytes follow the payload, those of a checksum included: neither is looked at.
pub deserialize-encode :
    (header size : ℕ) (format : Bytes) (items : List Item) (rest : Bytes)
    → header < 2 ^ 32
    → size < 2 ^ 32
    → head_to_format header ≡ some format
    → Matches format items
    → 8 + length (encode items) < 2 ^ 32
    → deserialize (be32 header ++ (be32 size ++ (encode items ++ rest)))
      ≡ ok (some (record (message header format) { payload = items }))
unfolding deserialize parse_known
deserialize-encode header size format items rest header_fits size_fits known ms fits = rw (
  parse32int-append [] (be32 size ++ (encode items ++ rest)) 0 header refl header_fits,
  parse32int-append (be32 header) (encode items ++ rest) 4 size refl size_fits,
  known,
  parse_loop-append (be32 header ++ be32 size) rest format items 8 (message header format) refl ms
      fits,
)

-- A packet is read back, whatever stands behind it in the buffer.
pub deserialize-frame :
    (m : Message) (rest : Bytes)
    → Fits m
    → head_to_format m.header ≡ some m.msg_format
    → deserialize (frame m ++ rest) ≡ ok (some (record m { player = none }))
deserialize-frame m rest fits known =
    let n = length (encode m.payload) in
    let behind = (sum (unsigned_frame m) % 128) ∷ rest in
    rw (frame-append m rest) (
      deserialize-encode m.header (9 + n) m.msg_format m.payload behind fits.header (omega arith)
        known fits.payload (omega arith))

-- A message that fits, and whose format is the table's for its header, is read back from the packet
-- that the serializer makes of it, without its player; also where more bytes stand behind it in the
-- buffer: of those nothing is read.
pub deserialize-serialize :
    (m : Message) (rest : Bytes)
    → Fits m
    → head_to_format m.header ≡ some m.msg_format
    → (serialize m >>= λ (packet, size). deserialize (packet ++ rest))
      ≡ ok (some (record m { player = none }))
deserialize-serialize m rest fits known =
    rw (serialize-frame m fits) (deserialize-frame m rest fits known)
