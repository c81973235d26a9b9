-- ===== src/Prelude/Split.antt =====
-- `s.split(sep)` for a separator of one character, and tests of every character of a text.
use Prim.Native.Char.{Char, code}
use Prim.Native.String.append
use Prim.Native.String.{String, [], ◌∷◌, ◌++◌}
use mathlib.Core.Path.{◌≡◌, refl, ap, ◌∙◌}
use mathlib.Core.Bool.{Bool, true, not, ◌&&◌}
use mathlib.Core.List.{List, [], ◌∷◌}
use native.Mathlib.Omega.{arith}
use hyperfixation_core.Prelude.Tests.{eqb, if◌then◌else◌}

-- A split has at least one piece.
unfoldable pub put_first : Char → List String → List String
put_first c [] = (c ∷ "") ∷ []
put_first c (s ∷ ss) = (c ∷ s) ∷ ss

unfoldable pub split : Char → String → List String
unfolding put_first
split sep [] = "" ∷ []
split sep (c ∷ s) =
    let rest = split sep s in if eqb (code c) (code sep) then "" ∷ rest else put_first c rest

unfoldable pub first : List String → String
first [] = ""
first (s ∷ ss) = s

pub first-put_first : (c : Char) (ss : List String) → first (put_first c ss) ≡ c ∷ first ss
unfolding first put_first
first-put_first c [] = refl
first-put_first c (s ∷ ss) = refl

unfoldable pub all_chars : (Char → Bool) → String → Bool
all_chars p [] = true
all_chars p (c ∷ s) = p c && all_chars p s

-- Every character but the separator.
abbrev pub is_not : Char → Char → Bool
is_not sep c = not (eqb (code c) (code sep))

pub split-append :
    (sep : Char) (s t : String)
    → all_chars (is_not sep) s ≡ true
    → split sep (s ++ (sep ∷ t)) ≡ s ∷ split sep t
unfolding split all_chars put_first
split-append sep [] t h = ap (split sep) (append.nil (sep ∷ t)) ∙ ground arith
split-append sep (c ∷ s) t h =
    ap (split sep) (append.cons c s (sep ∷ t)) ∙ ground (arith, split-append sep s t)

pub split-whole : (sep : Char) (s : String) → all_chars (is_not sep) s ≡ true → split sep s ≡ s ∷ []
unfolding split all_chars put_first
split-whole sep [] h = refl
split-whole sep (c ∷ s) h = ground (arith, split-whole sep s)

pub all_chars_mono :
    (p q : Char → Bool)
    → ((c : Char) → p c ≡ true → q c ≡ true)
    → (s : String) → all_chars p s ≡ true
    → all_chars q s ≡ true
unfolding all_chars
all_chars_mono p q weaker [] h = refl
all_chars_mono p q weaker (c ∷ s) h = ground (arith, weaker c, all_chars_mono p q weaker s)
