-- ===== src/Base/Text.antt =====
-- Texts are compared as a whole only, by a decision that computes at literals. An optional `str`
-- that the code tests by its truth is a text, empty where the value is missing.
use Prim.Native.Nat.{ℕ}
use Prim.Native.Char.{code}
use Prim.Native.String.{String}
use mathlib.Core.List.{List, [], ◌∷◌}
use retiboard.Base.Tests.{ltb, ◌==◌, if◌then◌else◌}
use mathlib.Core.Path.{◌≡◌, refl}
use mathlib.Core.Bool.{Bool, true, false, not}
use mathlib.Core.Logic.{◌↔◌}
use native.Mathlib.Omega.{arith}
use text.Mathlib.Text.{◌==◌ as str_eq}
use text.Mathlib.TextEquality.{eq_iff}

text_discrete_by : (s t : String) (b : Bool) → str_eq s t ≡ b → Dec (s ≡ t)
text_discrete_by s t true e = yes ((eq_iff s t).0 e)
text_discrete_by s t false e = no (λ p. cc ((eq_iff s t).1 p))

unfoldable pub text_discrete : Discrete String
unfolding text_discrete_by
text_discrete s t = text_discrete_by s t (str_eq s t) refl

-- `s == t`
abbrev pub same : String → String → Bool
same s t = elim (text_discrete s t) [ yes _ ↦ true | no _ ↦ false ]

-- `bool(s)`
abbrev pub truthy : String → Bool
truthy s = not (same s "")

-- The code points of a text.
abbrev pub codes : String → List ℕ
codes String.[] = []
codes (String.◌∷◌ c s) = code c ∷ codes s

-- Lists of code points in the order of the texts, which `<` on `str` is.
unfoldable pub codes_before : List ℕ → List ℕ → Bool
codes_before cs [] = false
codes_before [] (d ∷ ds) = true
codes_before (c ∷ cs) (d ∷ ds) = if c == d then codes_before cs ds else ltb c d

-- `s < t`
abbrev pub text_before : String → String → Bool
text_before s t = codes_before (codes s) (codes t)

pub same_refl : (s : String) → same s s ≡ true
same_refl s = ground arith

pub same_iff : (s t : String) → (same s t ≡ true) ↔ (s ≡ t)
same_iff s t = ground arith

pub same_sym : (s t : String) → same s t ≡ false → same t s ≡ false
same_sym s t h = ground arith
