-- ===== src/Game/Player.antt =====
-- UPSServer/game/Player.h and Player.cpp. A pointer to a player is an address, `none` if null.
-- An `int` is its 32-bit pattern. The accessors are the fields, and the setters are updates.
use ups_server.Base.{ℕ, Bytes, [], Bool, true, false, Option, none}

pub record Player : Type 0 where
  pub joining_player : Option ℕ
  pub asked_for_joining_by : Option ℕ
  pub lost : Bool
  pub bullshit_messages : ℕ
  pub name_set : Bool
  pub name : Bytes
  pub socket_set : Bool
  pub socket : ℕ
  pub in_game : Bool
  pub availible : Bool

-- -1
abbrev no_socket : ℕ
no_socket = 0xffff_ffff

-- The constructor `Player(int socket)` does not set `nameSet`: it starts as what the memory held.
abbrev pub player : Bool → ℕ → Player
player held socket = record {
  joining_player = none;
  asked_for_joining_by = none;
  lost = false;
  bullshit_messages = 0;
  name_set = held;
  name = [];
  socket_set = true;
  socket = socket;
  in_game = false;
  availible = false;
}

-- The constructor `Player()` sets neither `socketSet` nor `nameSet`.
abbrev default_player : (held_socket held_name : Bool) → Player
default_player held_socket held_name = record {
  joining_player = none;
  asked_for_joining_by = none;
  lost = false;
  bullshit_messages = 0;
  name_set = held_name;
  name = [];
  socket_set = held_socket;
  socket = no_socket;
  in_game = false;
  availible = false;
}

-- The constructor `Player(int socket, std::string name)`.
abbrev named_player : ℕ → Bytes → Player
named_player socket name = record {
  joining_player = none;
  asked_for_joining_by = none;
  lost = false;
  bullshit_messages = 0;
  name_set = true;
  name = name;
  socket_set = true;
  socket = socket;
  in_game = false;
  availible = false;
}

abbrev set_socket : Player → ℕ → Player
set_socket p socket = record p { socket = socket; socket_set = true }

abbrev pub remove_socket : Player → Player
remove_socket p = record p { socket = no_socket; socket_set = false }

abbrev pub set_name : Player → Bytes → Player
set_name p name = record p { name = name; name_set = true }
