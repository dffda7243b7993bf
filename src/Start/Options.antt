-- ===== src/Start/Options.antt =====
-- UPSServer/helpers/MainOptions.h and MainOptions.cpp. An argument is a C string, without its
-- terminating zero byte. The map of the options is a list in the order of the keys.
pub mod Pairs
use package.ups_server.Base.{
  ℕ, zero, suc, ◌+◌, Bytes, codes, Bool, true, false, List, [], ◌∷◌, ◌++◌, Option, none, some,
  Result, ok, fault, null_pointer, ltb, ◌==◌, ◌=s=◌, ◌&&◌, ◌||◌, if◌then◌else◌,
}
use package.ups_server.Game.Decimal.{to_string}
use package.ups_server.Start.Output.{Line, out}

-- `MainOptions::Option`
abbrev pub Pair : Type 0
Pair = Bytes × Bytes

abbrev pub Options : Type 0
Options = List Pair

-- `std::map::find`
unfoldable pub find : Bytes → Options → Option Pair
unfolding ◌=s=◌
find key [] = none
find key ((k, v) ∷ options) = if k =s= key then some (k, v) else find key options

-- `<` on `std::string`
less : Bytes → Bytes → Bool
less s [] = false
less [] (b ∷ t) = true
less (a ∷ s) (b ∷ t) = ltb a b || ((a == b) && less s t)

-- A key that the map does not have, put at its place.
place : Pair → Options → Options
unfolding less
place (key, value) [] = (key, value) ∷ []
place (key, value) ((k, v) ∷ options) =
    if less key k then (key, value) ∷ (k, v) ∷ options else (k, v) ∷ place (key, value) options

-- `std::map::insert`: a key that the map has keeps its value.
unfoldable pub insert : Pair → Options → Options
unfolding find place
insert (key, value) options = elim (find key options) [
  | some _ ↦ options
  | none ↦ place (key, value) options
]

-- `p[0] == '-'`; an empty string has a zero byte there.
abbrev pub is_key : Bytes → Bool
is_key [] = false
is_key (c ∷ p) = c == b'-'

-- `i == this->last()`, where these arguments follow.
abbrev pub is_last : List Bytes → Bool
is_last [] = true
is_last (p ∷ rest) = false

-- `option->first == ""`
abbrev pub is_blank : Bytes → Bool
is_blank [] = true
is_blank (c ∷ s) = false

-- The loop of `parse`, with `*option` and `options_` so far.
unfoldable pub parse_loop : List Bytes → Pair → Options → Options
unfolding insert
parse_loop [] option options = options
parse_loop (p ∷ rest) (first, second) options =
    let opens =
      parse_loop rest (p, second) (if is_last rest then insert (p, second) options else options) in
    let closed = insert (first, codes "null") options in
    let reopens =
      parse_loop rest (p, []) (if is_last rest then insert (p, []) closed else closed) in
    let closes = parse_loop rest ([], []) (insert (first, p) options) in
    let skips = parse_loop rest (first, second) options in
    if is_blank first && is_key p
    then opens
    else if is_key p
    then reopens
    else if is_blank first
    then skips
    else closes

pub record MainOptions : Type 0 where
  pub app_name : Bytes
  pub options : Options

-- The constructor, with `parse`. Without an application's name a string is made of a null pointer.
unfoldable pub main_options : List Bytes → Result MainOptions
unfolding parse_loop
main_options [] = fault null_pointer
main_options (name ∷ arguments) =
    ok (record { app_name = name; options = parse_loop arguments ([], []) [] })

unfoldable pub has_key : MainOptions → Bytes → Bool
unfolding find
has_key mo key = elim (find key mo.options) [ some _ ↦ true | none ↦ false ]

unfoldable pub get_param_from_key : MainOptions → Bytes → Option Pair
unfolding find
get_param_from_key mo key = find key mo.options

-- `printOptions`, from the parameter numbered `i` on.
print_loop : ℕ → Options → List Line
print_loop i [] = []
print_loop i ((k, v) ∷ options) =
    out (codes "Parameter [" ++ to_string i ++ codes "] [" ++ k ++ codes " " ++ v ++ codes "]")
    ∷ print_loop (i + 1) options

print_options : MainOptions → List Line
unfolding print_loop to_string
print_options mo = elim mo.options [
  | [] ↦ out (codes "No parameters") ∷ []
  | _ ∷ _ ↦ print_loop 0 mo.options
]
