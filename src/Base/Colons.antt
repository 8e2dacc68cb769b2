-- ===== src/Base/Colons.antt =====
-- Keys that the code joins with colons: what the parts must satisfy so that a key determines them.
use mathlib.Core.Path.{◌≡◌, refl, sym, ap, ◌∙◌}
use mathlib.Core.Bool.{Bool, true, false}
use mathlib.Core.List.{[], ◌∷◌, ◌++◌}
use native.Mathlib.Omega.{arith}
use eventfabric.Base.Tests.{◌==◌, if◌then◌else◌}
use eventfabric.Base.Text.{Str, IsColonFree}

-- A part without colons is determined by what follows the first colon.
pub split_first_colon :
    (a b x y : Str)
    → IsColonFree a
    → IsColonFree b
    → a ++ (58 ∷ x) ≡ b ++ (58 ∷ y)
    → (a ≡ b) × (x ≡ y)
split_first_colon [] [] x y ha hb e = ground arith
split_first_colon [] (c ∷ b) x y ha hb e = ground arith
split_first_colon (c ∷ a) [] x y ha hb e = ground arith
split_first_colon (c ∷ a) (d ∷ b) x y ha hb e = ground (arith, split_first_colon a b x y ha.1 hb.1)

has_colon : Str → Bool
has_colon [] = false
has_colon (c ∷ s) = if c == 58 then true else has_colon s

-- What stands behind the last colon.
last_part : Str → Str
unfolding has_colon
last_part [] = []
last_part (c ∷ s) =
    let rest = last_part s in if has_colon s then rest else if c == 58 then s else c ∷ s

has_colon-IsColonFree : (s : Str) → IsColonFree s → has_colon s ≡ false
unfolding has_colon
has_colon-IsColonFree [] h = refl
has_colon-IsColonFree (c ∷ s) h = ground (arith, has_colon-IsColonFree s h.1)

has_colon-append : (s t : Str) → has_colon (s ++ (58 ∷ t)) ≡ true
unfolding has_colon
has_colon-append [] t = refl
has_colon-append (c ∷ s) t = ground (arith, has_colon-append s t)

last_part-append : (s t : Str) → IsColonFree t → last_part (s ++ (58 ∷ t)) ≡ t
unfolding last_part
last_part-append [] t h = ground (arith, has_colon-IsColonFree t h)
last_part-append (c ∷ s) t h = ground (arith, has_colon-append s t, last_part-append s t h)

-- Parts without colons behind the last colon are equal where the keys are, whatever stands before.
pub split_last_colon :
    (s t a b : Str) → IsColonFree a → IsColonFree b → s ++ (58 ∷ a) ≡ t ++ (58 ∷ b) → a ≡ b
split_last_colon s t a b ha hb e =
    sym (last_part-append s a ha) ∙ (ap last_part e ∙ last_part-append t b hb)
