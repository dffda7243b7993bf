-- ===== src/Start/Options/Pairs.antt =====
-- The options against a description without the loop's state: every argument that begins with a
-- dash is a key, and what stands behind it gives its value.
use ups_server.Base.{
  Bytes, codes, true, false, List, [], ◌∷◌, Option, none, some, ok, ◌>>=◌, ◌≡◌, refl, sym, ap, ◌∙◌,
  ◌=s=◌, =s=_sound, =s=-refl, if◌then◌else◌, arith, Bool-cases, inl, inr,
}
use ups_server.Start.Options.{
  Pair, Options, find, place, insert, is_key, is_last, is_blank, parse_loop, main_options,
  get_param_from_key,
}

-- The value of a key, by what follows it.
value_before : List Bytes → Bytes
value_before [] = []
value_before (p ∷ rest) = if is_key p then codes "null" else p

-- The keys among the arguments, each with its value.
unfoldable pub pairs : List Bytes → Options
unfolding value_before
pairs [] = []
pairs (p ∷ rest) =
    let later = pairs rest in if is_key p then (p, value_before rest) ∷ later else later

find-place_self :
    (key value : Bytes) (options : Options)
    → find key options ≡ none
    → find key (place (key, value) options) ≡ some (key, value)
unfolding find place
find-place_self key value [] h = rw (=s=-refl key) refl
find-place_self key value ((j, v) ∷ options) h =
    ground (arith, =s=-refl key, find-place_self key value options)

find-place_ne :
    (k key value : Bytes) (options : Options)
    → (key =s= k) ≡ false
    → find k (place (key, value) options) ≡ find k options
unfolding find place
find-place_ne k key value [] h = rw h refl
find-place_ne k key value ((j, v) ∷ options) h = ground (arith, find-place_ne k key value options h)

-- The first of two results.
abbrev or_else : Option Pair → Option Pair → Option Pair
or_else none second = second
or_else (some x) second = some x

or_else-none : (o : Option Pair) → or_else o none ≡ o
or_else-none none = refl
or_else-none (some x) = refl

or_else_assoc : (a b c : Option Pair) → or_else (or_else a b) c ≡ or_else a (or_else b c)
or_else_assoc none b c = refl
or_else_assoc (some x) b c = refl

find-cons :
    (k : Bytes) (x : Pair) (options : Options)
    → find k (x ∷ options) ≡ or_else (find k (x ∷ [])) (find k options)
unfolding find
find-cons k (key, value) options = ground arith

find-insert :
    (k : Bytes) (x : Pair) (options : Options)
    → find k (insert x options) ≡ or_else (find k options) (find k (x ∷ []))
unfolding insert find
find-insert k (key, value) options = elim (Bool-cases (key =s= k)) [
  | inl same ↦ rw (same, sym (=s=_sound key k same)) (at_key (find key options) refl)
  | inr other ↦ rw (other, or_else-none (find k options)) (elsewhere (find key options) other)
]
  where
    at_key :
        (old : Option Pair)
        → find key options ≡ old
        → find key (elim old [ some _ ↦ options | none ↦ place (key, value) options ])
          ≡ or_else old (some (key, value))
    at_key none e = find-place_self key value options e
    at_key (some x) e = e

    elsewhere :
        (old : Option Pair)
        → (key =s= k) ≡ false
        → find k (elim old [ some _ ↦ options | none ↦ place (key, value) options ])
          ≡ find k options
    elsewhere none e = find-place_ne k key value options e
    elsewhere (some x) e = refl

-- A pair that is put before those that a lookup comes to.
find-insert-later :
    (k : Bytes) (x : Pair) (options later : Options)
    → or_else (find k (insert x options)) (find k later)
      ≡ or_else (find k options) (find k (x ∷ later))
find-insert-later k x options later =
    ap (λ o. or_else o (find k later)) (find-insert k x options)
    ∙ (or_else_assoc (find k options) (find k (x ∷ [])) (find k later)
        ∙ ap (or_else (find k options)) (sym (find-cons k x later)))

is_key-not_blank : (p : Bytes) → is_key p ≡ true → is_blank p ≡ false
is_key-not_blank [] h = cc
is_key-not_blank (c ∷ p) h = refl

mutual
  unfolding parse_loop pairs value_before

  -- Where no key waits for its value.
  pub parse_loop-pairs :
      (k : Bytes) (arguments : List Bytes) (options : Options)
      → find k (parse_loop arguments ([], []) options)
        ≡ or_else (find k options) (find k (pairs arguments))
  parse_loop-pairs k [] options = sym (or_else-none (find k options))
  parse_loop-pairs k (p ∷ rest) options = elim (Bool-cases (is_key p)) [
    | inl key ↦ rw key (parse_loop-waiting k p rest options (is_key-not_blank p key))
    | inr plain ↦ rw plain (parse_loop-pairs k rest options)
  ]

  -- Where `first` waits; it is put into the map at once if nothing follows.
  parse_loop-waiting :
      (k first : Bytes) (arguments : List Bytes) (options : Options)
      → is_blank first ≡ false
      → find k (
          parse_loop arguments
            (first, [])
            (if is_last arguments then insert (first, []) options else options))
        ≡ or_else (find k options) (find k ((first, value_before arguments) ∷ pairs arguments))
  parse_loop-waiting k first [] options waits = find-insert k (first, []) options
  parse_loop-waiting k first (p ∷ rest) options waits = elim (Bool-cases (is_key p)) [
    | inl key ↦
        rw (waits, key)
          (parse_loop-waiting k p rest (insert (first, codes "null") options)
              (is_key-not_blank p key)
            ∙ find-insert-later k (first, codes "null") options
                ((p, value_before rest) ∷ pairs rest))
    | inr plain ↦
        rw (waits, plain)
          (parse_loop-pairs k rest (insert (first, p) options)
            ∙ find-insert-later k (first, p) options (pairs rest))
  ]

-- For every command line with an application's name, the constructor returns, and a lookup of a key
-- gives the first argument that begins with a dash and is this key, or null if there is none. Its
-- value is the argument behind it, `null` where that begins with a dash too, and empty where the
-- command line ends.
pub main_options-pairs :
    (name key : Bytes) (arguments : List Bytes)
    → (main_options (name ∷ arguments) >>= λ mo. ok (get_param_from_key mo key))
      ≡ ok (find key (pairs arguments))
unfolding main_options get_param_from_key
main_options-pairs name key arguments = ap ok (parse_loop-pairs key arguments [])
