-- ===== src/Wire/Message.antt =====
-- UPSServer/datatypes/Message.h and Message.cpp.
use ups_server.Base.{ℕ, Bytes, List, [], ◌∷◌, ◌++◌, Option, none}

-- What the `void *` of a payload points to.
pub data Item : Type 0 where
  word : ℕ → Item
  text : Bytes → Item

-- `player` is the address of a player, and `none` is the null pointer.
pub record Message : Type 0 where
  pub header : ℕ
  pub msg_format : Bytes
  pub payload : List Item
  pub player : Option ℕ

-- The constructor. The C++ leaves `player` unset, and each caller sets it before it is read.
abbrev pub message : ℕ → Bytes → Message
message header msg_format = record {
  header = header;
  msg_format = msg_format;
  payload = [];
  player = none;
}

-- One item too many is logged, and added all the same.
abbrev pub add_data : Message → Item → Message
add_data m item = record m { payload = m.payload ++ item ∷ [] }
