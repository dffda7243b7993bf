-- ===== src/Base/Separated.antt =====
-- Texts in parts, with a semicolon between two.
use Prim.Native.Nat.{ℕ}
use mathlib.Core.Bool.{false}
use mathlib.Core.List.{List, [], ◌∷◌, ◌++◌, append_assoc, append-nil}
use mathlib.Core.Path.{◌≡◌, refl, sym, ap, ◌∙◌}
use ups_server.Base.Every.{All}
use ups_server.Base.Tests.{Bytes, ◌==◌, if◌then◌else◌}

-- Parts behind another one.
unfoldable pub followed : List Bytes → Bytes
followed [] = []
followed (part ∷ parts) = b';' ∷ part ++ followed parts

unfoldable pub joined : List Bytes → Bytes
unfolding followed
joined [] = []
joined (part ∷ parts) = part ++ followed parts

-- The parts between semicolons; `part` is what the first of them has so far.
unfoldable pub split : Bytes → Bytes → List Bytes
split part [] = part ∷ []
split part (c ∷ s) =
    let rest = split [] s in
    let longer = split (part ++ c ∷ []) s in if c == b';' then part ∷ rest else longer

abbrev pub NotSemicolon : ℕ → Type 0
NotSemicolon c = (c == b';') ≡ false

split-append :
    (part s rest : Bytes) → All NotSemicolon s → split part (s ++ rest) ≡ split (part ++ s) rest
unfolding split
split-append part [] rest h = ap (λ p. split p rest) (sym (append-nil part))
split-append part (c ∷ s) rest h = rw h.0 (
    split-append (part ++ c ∷ []) s rest h.1
    ∙ ap (λ p. split p rest) (append_assoc part (c ∷ []) s))

split-followed :
    (parts : List Bytes) (part : Bytes)
    → All (All NotSemicolon) parts
    → split part (followed parts) ≡ part ∷ parts
unfolding split followed
split-followed [] part h = refl
split-followed (next ∷ parts) part h =
    ap (λ all. part ∷ all)
      (split-append [] next (followed parts) h.0 ∙ split-followed parts next h.1)

-- Parts without semicolons, at least one, are what lies between those of the text.
pub split-joined :
    (part : Bytes) (parts : List Bytes)
    → All (All NotSemicolon) (part ∷ parts)
    → split [] (joined (part ∷ parts)) ≡ part ∷ parts
unfolding joined
split-joined part parts h =
    split-append [] part (followed parts) h.0 ∙ split-followed parts part h.1
