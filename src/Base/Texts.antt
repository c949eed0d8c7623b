-- ===== src/Base/Texts.antt =====
-- Texts that the program walks, as the lists of their code points.
use Prim.Native.Nat.{ℕ}
use Prim.Native.Char.{code}
use Prim.Native.String.{String, ◌++◌}
use mathlib.Core.Path.{◌≡◌, refl}
use mathlib.Core.Logic.{◌↔◌}
use mathlib.Core.Bool.{Bool, true, false, ◌&&◌, ◌||◌}
use mathlib.Core.List.{List, [], ◌∷◌}
use native.Mathlib.Omega.{arith}
use ai_business_operating_sy.Base.Tests.{eqb, if◌then◌else◌}

abbrev pub Text : Type 0
Text = List ℕ

abbrev pub codes : String → Text
codes String.[] = []
codes (String.◌∷◌ c s) = code c ∷ codes s

-- `===` of texts
abbrev pub same_text : Text → Text → Bool
same_text [] [] = true
same_text [] (_ ∷ _) = false
same_text (_ ∷ _) [] = false
same_text (a ∷ s) (b ∷ t) = eqb a b && same_text s t

-- `s.startsWith(prefix)`, the prefix first
abbrev pub starts_with : Text → Text → Bool
starts_with [] s = true
starts_with (_ ∷ _) [] = false
starts_with (a ∷ p) (b ∷ s) = eqb a b && starts_with p s

-- `s.endsWith(suffix)`, the suffix first
abbrev pub ends_with : Text → Text → Bool
ends_with p [] = same_text p []
ends_with p (b ∷ s) = same_text p (b ∷ s) || ends_with p s

abbrev pub has_code : ℕ → Text → Bool
has_code c [] = false
has_code c (b ∷ s) = eqb b c || has_code c s

abbrev grow : ℕ → List Text → List Text
grow b [] = (b ∷ []) ∷ []
grow b (part ∷ parts) = (b ∷ part) ∷ parts

-- `s.split(c)` at one character
abbrev pub split_on : ℕ → Text → List Text
split_on c [] = [] ∷ []
split_on c (b ∷ s) = let rest = split_on c s in if eqb b c then [] ∷ rest else grow b rest

pub same_text_iff : (s t : Text) → (same_text s t ≡ true) ↔ (s ≡ t)
same_text_iff s t = (go s t, back s t)
  where
    go : (s t : Text) → same_text s t ≡ true → s ≡ t
    go [] [] h = refl
    go [] (_ ∷ _) h = ground arith
    go (_ ∷ _) [] h = ground arith
    go (a ∷ s) (b ∷ t) h = ground (arith, go s t)

    back : (s t : Text) → s ≡ t → same_text s t ≡ true
    back [] [] h = refl
    back [] (_ ∷ _) h = ground arith
    back (_ ∷ _) [] h = ground arith
    back (a ∷ s) (b ∷ t) h = ground (arith, back s t)

-- JavaScript's `a + b` of texts
abbrev pub concat : String → String → String
concat a b = a ++ b
