-- ===== src/Base/TextOrder.antt =====
-- The order of texts, by their code points, is a strict order that ties no two texts.
use Prim.Native.Nat.{ℕ, compare, Ordering}
use Prim.Native.Char.{code}
use Prim.Native.String.{String}
use mathlib.Core.Path.{◌≡◌, refl}
use mathlib.Core.Bool.{true, false}
use mathlib.Core.List.{List, [], ◌∷◌}
use native.Mathlib.Omega.{arith}
use text.Mathlib.TextEquality.{codes_equal}
use retiboard.Base.Text.{codes, codes_before, text_before}

codes_before-asymmetric : (cs ds : List ℕ) → codes_before cs ds ≡ true → codes_before ds cs ≡ false
unfolding codes_before
codes_before-asymmetric cs [] h = ground arith
codes_before-asymmetric [] (d ∷ ds) h = refl
codes_before-asymmetric (c ∷ cs) (d ∷ ds) h = ground (arith, codes_before-asymmetric cs ds)

codes_before-transitive :
    (cs ds es : List ℕ)
    → codes_before cs ds ≡ true
    → codes_before ds es ≡ true
    → codes_before cs es ≡ true
unfolding codes_before
codes_before-transitive cs ds [] h k = ground arith
codes_before-transitive cs [] (e ∷ es) h k = ground arith
codes_before-transitive [] (d ∷ ds) (e ∷ es) h k = refl
codes_before-transitive (c ∷ cs) (d ∷ ds) (e ∷ es) h k =
    ground (arith, codes_before-transitive cs ds es)

-- Where neither list comes first, the first codes are equal, and neither rest comes first.
compare_codes :
    (c d : ℕ) (cs ds : List ℕ)
    → codes_before (c ∷ cs) (d ∷ ds) ≡ false
    → codes_before (d ∷ ds) (c ∷ cs) ≡ false
    → (compare c d ≡ Ordering.eq) × (codes_before cs ds ≡ false) × (codes_before ds cs ≡ false)
unfolding codes_before
compare_codes c d cs ds h k = ground arith

codes_before-total :
    (s t : String)
    → codes_before (codes s) (codes t) ≡ false
    → codes_before (codes t) (codes s) ≡ false
    → s ≡ t
unfolding codes_before
codes_before-total String.[] String.[] h k = refl
codes_before-total String.[] (String.◌∷◌ d t) h k = cc
codes_before-total (String.◌∷◌ c s) String.[] h k = cc
codes_before-total (String.◌∷◌ c s) (String.◌∷◌ d t) h k =
    let e = compare_codes (code c) (code d) (codes s) (codes t) h k in
    λ i. String.◌∷◌ (codes_equal c d e.0 i) (codes_before-total s t e.1 e.2 i)

pub text_before-asymmetric : (s t : String) → text_before s t ≡ true → text_before t s ≡ false
text_before-asymmetric s t = codes_before-asymmetric (codes s) (codes t)

pub text_before-transitive :
    (s t u : String) → text_before s t ≡ true → text_before t u ≡ true → text_before s u ≡ true
text_before-transitive s t u = codes_before-transitive (codes s) (codes t) (codes u)

pub text_before-total : (s t : String) → text_before s t ≡ false → text_before t s ≡ false → s ≡ t
text_before-total = codes_before-total
