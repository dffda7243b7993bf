-- ===== src/Game/Decimal/Reading.antt =====
-- The string of a game, read back.
use native.Mathlib.Nat.{pow-suc}
use ups_server.Base.{
  ℕ, zero, suc, ◌+◌, ◌-◌, ◌*◌, ◌/◌, ◌%◌, ◌^◌, ◌≤◌, ◌<◌, ◌≡◌, refl, sym, ap, ◌∙◌, false, Bool-cases,
  Bytes, List, [], ◌∷◌, ◌++◌, append_assoc, append-nil, map, inl, inr, All, All-append, All-mono,
  ltb, leb, ◌==◌, if◌then◌else◌, arith,
}
use ups_server.Base.Separated.{followed, joined, split, NotSemicolon, split-joined}
use ups_server.Game.Decimal.{digits, to_string, game_string_loop, get_game_string}

-- Decimal digits, after those that make `v`.
unfoldable pub value : ℕ → Bytes → ℕ
value v [] = v
value v (c ∷ s) = value (v * 10 + (c - b'0')) s

-- An `int` from its decimal form.
int_of : Bytes → ℕ
int_of [] = 0
int_of (c ∷ s) = if c == b'-' then 2 ^ 32 - value 0 s else value 0 (c ∷ s)

-- The squares of a game string.
pub read_board : Bytes → List ℕ
unfolding split int_of value
read_board s = map int_of (split [] s)

abbrev pub Digit : ℕ → Type 0
Digit c = (b'0' ≤ c) × (c ≤ b'9')

pub digits-Digit : (n v : ℕ) → All Digit (digits n v)
unfolding digits
digits-Digit zero v = tt
digits-Digit (suc n) v = elim (Bool-cases (ltb v 10)) [
  | inl small ↦ rw small (ground (arith, small), tt)
  | inr large ↦
      rw large (All-append Digit (digits n (v / 10)) _ (digits-Digit n (v / 10)) (omega arith, tt))
]

value-append : (v : ℕ) (s t : Bytes) → value v (s ++ t) ≡ value (value v s) t
unfolding value
value-append v [] t = refl
value-append v (c ∷ s) t = value-append (v * 10 + (c - b'0')) s t

pub value-digits : (n v : ℕ) → v < 10 ^ n → value 0 (digits n v) ≡ v
unfolding value digits
value-digits zero v h = omega arith
value-digits (suc n) v h = elim (Bool-cases (ltb v 10)) [
  | inl small ↦ rw small (omega arith)
  | inr large ↦
      let power : 10 ^ suc n ≡ 10 ^ n * 10 = pow-suc 10 n in
      let front = value-digits n (v / 10) (omega (arith, power)) in
      rw large (
        value-append 0 (digits n (v / 10)) ((b'0' + v % 10) ∷ [])
        ∙ (ap (λ x. value x ((b'0' + v % 10) ∷ [])) front ∙ omega arith))
]

int_of-Digits : (s : Bytes) → All Digit s → int_of s ≡ value 0 s
unfolding int_of value
int_of-Digits [] h = refl
int_of-Digits (c ∷ s) h = let no_sign : (c == b'-') ≡ false = ground (arith, h.0) in rw no_sign refl

-- The decimal form of an `int` is read back.
int_of-to_string : (v : ℕ) → v < 2 ^ 32 → int_of (to_string v) ≡ v
unfolding int_of to_string
int_of-to_string v h = elim (Bool-cases (leb (2 ^ 31) v)) [
  | inl negative ↦
      rw (negative, value-digits 10 (2 ^ 32 - v) (ground (arith, negative, h))) (omega (arith, h))
  | inr positive ↦ rw positive (
      int_of-Digits (digits 10 v) (digits-Digit 10 v)
      ∙ value-digits 10 v (ground (arith, positive, h)))
]

to_string-NotSemicolon : (v : ℕ) → All NotSemicolon (to_string v)
unfolding to_string
to_string-NotSemicolon v = elim (Bool-cases (leb (2 ^ 31) v)) [
  | inl negative ↦ rw negative (refl, plain (2 ^ 32 - v))
  | inr positive ↦ rw positive (plain v)
]
  where
    plain : (w : ℕ) → All NotSemicolon (digits 10 w)
    plain w =
        All-mono Digit NotSemicolon (λ c d. ground (arith, d)) (digits 10 w) (digits-Digit 10 w)

unfoldable pub Cons : Bytes → Type 0
Cons s = (c : ℕ) × (t : Bytes) × (s ≡ c ∷ t)

append-Cons : (s : Bytes) (x : ℕ) → Cons (s ++ x ∷ [])
unfolding Cons
append-Cons [] x = (x, [], refl)
append-Cons (c ∷ s) x = (c, s ++ x ∷ [], refl)

pub to_string-Cons : (v : ℕ) → Cons (to_string v)
unfolding to_string Cons digits
to_string-Cons v = elim (Bool-cases (leb (2 ^ 31) v)) [
  | inl negative ↦ rw negative (b'-', digits 10 (2 ^ 32 - v), refl)
  | inr positive ↦ rw positive (some_digits v)
]
  where
    some_digits : (w : ℕ) → Cons (digits 10 w)
    some_digits w = elim (Bool-cases (ltb w 10)) [
      | inl small ↦ rw small (b'0' + w, [], refl)
      | inr large ↦ rw large (append-Cons (digits 9 (w / 10)) (b'0' + w % 10))
    ]

game_string_loop-followed :
    (field : List ℕ) (c : ℕ) (s : Bytes)
    → game_string_loop field (c ∷ s) ≡ (c ∷ s) ++ followed (map to_string field)
unfolding game_string_loop followed
game_string_loop-followed [] c s = sym (append-nil (c ∷ s))
game_string_loop-followed (v ∷ field) c s =
    game_string_loop-followed field c ((s ++ b';' ∷ []) ++ to_string v)
    ∙ ap (λ t. c ∷ t)
        (append_assoc (s ++ b';' ∷ []) (to_string v) (followed (map to_string field))
          ∙ append_assoc s (b';' ∷ []) (to_string v ++ followed (map to_string field)))

strings-NotSemicolon : (field : List ℕ) → All (All NotSemicolon) (map to_string field)
strings-NotSemicolon [] = tt
strings-NotSemicolon (v ∷ field) = (to_string-NotSemicolon v, strings-NotSemicolon field)

get_game_string-joined :
    (v : ℕ) (field : List ℕ) → get_game_string (v ∷ field) ≡ joined (map to_string (v ∷ field))
unfolding get_game_string game_string_loop Cons joined
get_game_string-joined v field =
    let (c, s, e) = to_string-Cons v in
    ap (λ t. game_string_loop field t) e
    ∙ (game_string_loop-followed field c s ∙ ap (λ t. t ++ followed (map to_string field)) (sym e))

ints_read :
    (field : List ℕ) → All (λ v. v < 2 ^ 32) field → map int_of (map to_string field) ≡ field
ints_read [] h = refl
ints_read (v ∷ field) h = rw (int_of-to_string v h.0) (ap (λ vs. v ∷ vs) (ints_read field h.1))

-- The game string tells the whole board: split at the semicolons and read as decimal numbers, it
-- gives the squares back, for every board of at least one square whose squares hold an `int`.
pub read_board-get_game_string :
    (v : ℕ) (field : List ℕ)
    → All (λ x. x < 2 ^ 32) (v ∷ field)
    → read_board (get_game_string (v ∷ field)) ≡ v ∷ field
unfolding read_board
read_board-get_game_string v field h =
    rw
      (
        get_game_string-joined v field,
        split-joined (to_string v) (map to_string field) (strings-NotSemicolon (v ∷ field)),
      )
      (ints_read (v ∷ field) h)
