-- ===== src/Tests/Wire.antt =====
-- Messages, their packets, and queues.
use ups_server.Base.{
  ◌%◌, ◌*◌, fault, out_of_bounds, ◌≡◌, ◌<◌, ◌+◌, ◌^◌, refl, [], ◌∷◌, ◌++◌, codes, none, some, ok,
  ◌>>=◌, arith, length,
}
use ups_server.Queue.{size}
use ups_server.Wire.Codes.{h_c_game_move, head_to_format, find_format}
use ups_server.Wire.Deserialize.{deserialize}
use ups_server.Wire.Deserialize.RoundTrip.{deserialize-serialize, deserialize-encode}
use ups_server.Wire.Deserialize.Shape.{HasTypes, deserialize-HasTypes}
use ups_server.Wire.Deserialize.Truncated.{deserialize-truncated}
use ups_server.Wire.Format.{sum, unsigned_frame, be32, encode_item, encode, frame, Fits}
use ups_server.Wire.Message.{Message, word}
use ups_server.Wire.Serialize.{serialize}
use ups_server.Wire.Serialize.Frame.{serialize-packet}

-- A black card at row 2 and column 5.
abbrev pub move_message : Message
move_message = record {
  header = h_c_game_move;
  msg_format = codes "iii";
  payload = word 1 ∷ word 2 ∷ word 5 ∷ [];
  player = none;
}

pub move_message-Fits : Fits move_message
unfolding encode encode_item
move_message-Fits = record {
  header = omega arith;
  payload = ((refl, omega arith), ((refl, omega arith), ((refl, omega arith), tt)));
  size = omega arith;
}

pub known_move : head_to_format h_c_game_move ≡ some (codes "iii")
unfolding head_to_format find_format
known_move = refl

serialize-packet_example :
    (serialize move_message ≡ ok (frame move_message, length (frame move_message)))
    × (sum (frame move_message) % 128 ≡ 2 * sum (unsigned_frame move_message) % 128)
serialize-packet_example = serialize-packet move_message move_message-Fits

deserialize-serialize_example :
    (serialize move_message >>= λ (packet, size). deserialize (packet ++ (0 ∷ 0 ∷ [])))
    ≡ ok (some move_message)
deserialize-serialize_example =
    deserialize-serialize move_message (0 ∷ 0 ∷ []) move_message-Fits known_move

short : 8 + length (encode (word 1 ∷ word 2 ∷ word 5 ∷ [])) < 2 ^ 32
short = omega (arith, move_message-Fits.size)

-- The size word is 0, and the checksum is missing.
deserialize-encode_example :
    deserialize (be32 h_c_game_move ++ (be32 0 ++ (encode (word 1 ∷ word 2 ∷ word 5 ∷ []) ++ [])))
    ≡ ok (some move_message)
deserialize-encode_example =
    deserialize-encode h_c_game_move 0 (codes "iii") (word 1 ∷ word 2 ∷ word 5 ∷ []) []
      (omega arith) (omega arith) known_move move_message-Fits.payload short

-- The packet of a move that ends after two bytes of its last number.
deserialize-truncated_example :
    deserialize (be32 h_c_game_move ++ (be32 21 ++ (be32 1 ++ (be32 2 ++ (0 ∷ 0 ∷ [])))))
    ≡ fault out_of_bounds
unfolding encode encode_item
deserialize-truncated_example =
    deserialize-truncated h_c_game_move 21 (codes "iii") (word 1 ∷ word 2 ∷ word 5 ∷ [])
      (be32 h_c_game_move ++ (be32 21 ++ (be32 1 ++ (be32 2 ++ (0 ∷ 0 ∷ []))))) (5 ∷ []) 0
      (omega arith) (omega arith) known_move move_message-Fits.payload short whole
  where
    whole :
        (be32 h_c_game_move ++ be32 21) ++ encode (word 1 ∷ word 2 ∷ word 5 ∷ [])
        ≡ (be32 h_c_game_move ++ (be32 21 ++ (be32 1 ++ (be32 2 ++ (0 ∷ 0 ∷ []))))) ++ 0 ∷ 5 ∷ []
    whole = refl

bytes_read :
    deserialize (be32 h_c_game_move ++ (be32 0 ++ (encode (word 1 ∷ word 2 ∷ word 5 ∷ []) ++ [])))
    ≡ ok (some move_message)
bytes_read =
    deserialize-encode h_c_game_move 0 (codes "iii") (word 1 ∷ word 2 ∷ word 5 ∷ []) []
      (omega arith) (omega arith) known_move move_message-Fits.payload short

deserialize-HasTypes_example :
    (head_to_format h_c_game_move ≡ some (codes "iii"))
    × HasTypes (codes "iii") (word 1 ∷ word 2 ∷ word 5 ∷ [])
deserialize-HasTypes_example =
    deserialize-HasTypes
      (be32 h_c_game_move ++ (be32 0 ++ (encode (word 1 ∷ word 2 ∷ word 5 ∷ []) ++ [])))
      move_message bytes_read
