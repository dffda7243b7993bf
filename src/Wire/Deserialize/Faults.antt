-- ===== src/Wire/Deserialize/Faults.antt =====
-- The deserializer goes wrong only outside the packet.
use ups_server.Base.{
  ℕ, zero, suc, ◌+◌, ◌%◌, ◌^◌, Bytes, Bool, true, false, [], ◌∷◌, ◌++◌, Option, none, some, Result,
  ok, ◌==◌, leb, if◌then◌else◌, Tolerable, >>=-Tolerable,
}
use ups_server.Wire.Array.{read}
use ups_server.Wire.Array.Faults.{read-Tolerable}
use ups_server.Wire.Codes.{head_to_format}
use ups_server.Wire.Deserialize.{
  parse32int_from_array, read_chars, get_string_from_message, parse_item, parse_loop, parse_known,
  deserialize,
}
use ups_server.Wire.Message.{Message, message}

pub if-Tolerable {ℓ} :
    {A : Type ℓ} (b : Bool) (x y : Result A)
    → Tolerable x
    → Tolerable y
    → Tolerable (if b then x else y)
if-Tolerable true x y hx hy = hx
if-Tolerable false x y hx hy = hy

parse32int_from_array-Tolerable :
    (source : Bytes) (i : ℕ) → Tolerable (parse32int_from_array source i)
unfolding parse32int_from_array
parse32int_from_array-Tolerable source i =
    >>=-Tolerable (read source i) _ (read-Tolerable source i) λ _ _.
      >>=-Tolerable (read source (i + 1)) _ (read-Tolerable source (i + 1)) λ _ _.
        >>=-Tolerable (read source (i + 2)) _ (read-Tolerable source (i + 2))
          λ _ _. >>=-Tolerable (read source (i + 3)) _ (read-Tolerable source (i + 3)) λ _ _. tt

read_chars-Tolerable :
    (source : Bytes) (n i : ℕ) (payload : Bytes) → Tolerable (read_chars source n i payload)
unfolding read_chars
read_chars-Tolerable source zero i payload = tt
read_chars-Tolerable source (suc n) i payload =
    >>=-Tolerable (read source i) (λ c. read_chars source n (i + 1) (payload ++ c ∷ []))
      (read-Tolerable source i) (λ c _. read_chars-Tolerable source n (i + 1) (payload ++ c ∷ []))

get_string_from_message-Tolerable :
    (source : Bytes) (size i : ℕ) → Tolerable (get_string_from_message source size i)
unfolding get_string_from_message
get_string_from_message-Tolerable source size i =
    if-Tolerable (leb (2 ^ 31) size) _ _ tt (read_chars-Tolerable source size i [])

parse_item-Tolerable :
    (source : Bytes) (c i : ℕ) (m : Message) → Tolerable (parse_item source c i m)
unfolding parse_item
parse_item-Tolerable source c i m =
    if-Tolerable (c == b'i') _ _
      (>>=-Tolerable (parse32int_from_array source i) _ (parse32int_from_array-Tolerable source i)
        (λ _ _. tt))
      (if-Tolerable (c == b's') _ _
        (>>=-Tolerable (parse32int_from_array source i) _ (parse32int_from_array-Tolerable source i)
          (λ size _.
            >>=-Tolerable (get_string_from_message source size ((i + 4) % 2 ^ 32)) _
              (get_string_from_message-Tolerable source size ((i + 4) % 2 ^ 32)) (λ _ _. tt)))
        tt)

parse_loop-Tolerable :
    (source format : Bytes) (i : ℕ) (m : Message) → Tolerable (parse_loop source format i m)
unfolding parse_loop
parse_loop-Tolerable source [] i m = tt
parse_loop-Tolerable source (c ∷ format) i m =
    >>=-Tolerable (parse_item source c i m) _ (parse_item-Tolerable source c i m)
      (λ (next, j) _. parse_loop-Tolerable source format j next)

parse_known-Tolerable :
    (source : Bytes) (header : ℕ) (format : Option Bytes)
    → Tolerable (parse_known source header format)
unfolding parse_known
parse_known-Tolerable source header none = tt
parse_known-Tolerable source header (some format) =
    >>=-Tolerable (parse_loop source format 8 (message header format)) (λ m. ok (some m))
      (parse_loop-Tolerable source format 8 (message header format)) (λ _ _. tt)

pub deserialize-Tolerable : (source : Bytes) → Tolerable (deserialize source)
unfolding deserialize
deserialize-Tolerable source =
    >>=-Tolerable (parse32int_from_array source 0) _ (parse32int_from_array-Tolerable source 0)
      λ header _.
        >>=-Tolerable (parse32int_from_array source 4) _ (parse32int_from_array-Tolerable source 4)
          λ size _. parse_known-Tolerable source header (head_to_format header)
