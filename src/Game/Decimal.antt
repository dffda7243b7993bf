-- ===== src/Game/Decimal.antt =====
-- `std::to_string(int)` and `Game::getGameString` of UPSServer/game/Game.cpp. An `int` is its
-- 32-bit pattern; it has ten decimal digits at most.
pub mod Reading
use package.ups_server.Base.{
  ℕ, zero, suc, ◌+◌, ◌-◌, ◌/◌, ◌%◌, ◌^◌, Bytes, List, [], ◌∷◌, ◌++◌, ltb, leb, if◌then◌else◌,
}

unfoldable pub digits : ℕ → ℕ → Bytes
digits zero v = []
digits (suc n) v =
    let front = digits n (v / 10) in
    if ltb v 10 then (b'0' + v) ∷ [] else front ++ (b'0' + v % 10) ∷ []

unfoldable pub to_string : ℕ → Bytes
unfolding digits
to_string v = if leb (2 ^ 31) v then b'-' ∷ digits 10 (2 ^ 32 - v) else digits 10 v

abbrev with_separator : Bytes → Bytes
with_separator [] = []
with_separator (c ∷ s) = (c ∷ s) ++ b';' ∷ []

-- The two loops over the field, row by row, with the string so far.
unfoldable pub game_string_loop : List ℕ → Bytes → Bytes
unfolding to_string
game_string_loop [] g_s = g_s
game_string_loop (v ∷ field) g_s = game_string_loop field (with_separator g_s ++ to_string v)

unfoldable pub get_game_string : List ℕ → Bytes
unfolding game_string_loop
get_game_string field = game_string_loop field []
