-- ===== src/Wire/Format.antt =====
-- What a packet of the server is: header, size, payload and checksum. The client under ups-client
-- asks for another checksum.
use ups_server.Base.{ℕ, ◌+◌, ◌/◌, ◌%◌, ◌^◌, ◌<◌, ◌≡◌, Bytes, List, [], ◌∷◌, ◌++◌, length}
use ups_server.Wire.Message.{Item, word, text, Message}

-- Four bytes, the highest first.
abbrev pub be32 : ℕ → Bytes
be32 x = (x / 2 ^ 24 % 256) ∷ (x / 2 ^ 16 % 256) ∷ (x / 2 ^ 8 % 256) ∷ (x % 256) ∷ []

unfoldable pub encode_item : Item → Bytes
encode_item (word x) = be32 x
encode_item (text s) = be32 (length s) ++ s

unfoldable pub encode : List Item → Bytes
unfolding encode_item
encode [] = []
encode (x ∷ xs) = encode_item x ++ encode xs

abbrev pub AreBytes : Bytes → Type 0
AreBytes [] = Unit {0}
AreBytes (b ∷ s) = (b < 256) × AreBytes s

-- The item is of the type that the letter of a format stands for, and fits it.
abbrev pub MatchesItem : ℕ → Item → Type 0
MatchesItem f (word x) = (f ≡ b'i') × (x < 2 ^ 32)
MatchesItem f (text s) = (f ≡ b's') × (length s < 2 ^ 31) × AreBytes s

abbrev pub Matches : Bytes → List Item → Type 0
Matches [] [] = Unit {0}
Matches [] (x ∷ xs) = ⊥
Matches (f ∷ format) [] = ⊥
Matches (f ∷ format) (x ∷ xs) = MatchesItem f x × Matches format xs

unfoldable pub sum : Bytes → ℕ
sum [] = 0
sum (b ∷ s) = b + sum s

-- All but the checksum.
unfoldable pub unsigned_frame : Message → Bytes
unsigned_frame m = be32 m.header ++ (be32 (9 + length (encode m.payload)) ++ encode m.payload)

-- The packet that the server makes of a message; the last byte is the sum of the others modulo 128.
unfoldable pub frame : Message → Bytes
unfolding unsigned_frame sum
frame m = unsigned_frame m ++ (sum (unsigned_frame m) % 128) ∷ []

-- A message that the protocol can carry: its payload is of its format, and the packet's size is an
-- `int`.
pub record Fits (m : Message) : Type 0 where
  pub header : m.header < 2 ^ 32
  pub payload : Matches m.msg_format m.payload
  pub size : 9 + length (encode m.payload) < 2 ^ 31
