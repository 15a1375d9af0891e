-- ===== src/App/Memory/Texts.antt =====
-- The order of Go strings, by which entries of one time are listed.
use Prim.Native.Nat.{Ordering}
use Prim.Native.String.{compare}
use Prim.Native.String.compare
use text.Mathlib.Text.{is_lt}
use text.Mathlib.TextEquality.{path_by_compare}
use browser_automation_byte.Prelude.{String, Bool, true, false, ◌≡◌, ◌⊎◌, arith, ◌≢◌}

-- Go's `<` on strings.
abbrev pub str_ltb : String → String → Bool
str_ltb s t = is_lt (compare s t)

pub str_ltb_trans : (s t u : String) → str_ltb s t ≡ true → str_ltb t u ≡ true → str_ltb s u ≡ true
str_ltb_trans String.[] String.[] u h k = k
str_ltb_trans (String.◌∷◌ c s) String.[] u h k = cc (compare.cons-nil c s)
str_ltb_trans s (String.◌∷◌ d t) String.[] h k = cc (compare.cons-nil d t)
str_ltb_trans String.[] (String.◌∷◌ d t) (String.◌∷◌ e u) h k = cc (compare.nil-cons e u)
str_ltb_trans (String.◌∷◌ c s) (String.◌∷◌ d t) (String.◌∷◌ e u) h k = ground (
  arith,
  compare.cons-cons c d s t,
  compare.cons-cons d e t u,
  compare.cons-cons c e s u,
  str_ltb_trans s t u,
)

compare_swap :
    (s t : String)
    → (compare s t ≡ Ordering.gt → compare t s ≡ Ordering.lt)
      × (compare s t ≡ Ordering.lt → compare t s ≡ Ordering.gt)
compare_swap String.[] String.[] = (λ h. cc compare.nil-nil, λ h. cc compare.nil-nil)
compare_swap String.[] (String.◌∷◌ d t) =
    (λ h. cc (compare.nil-cons d t), λ h. cc (compare.cons-nil d t))
compare_swap (String.◌∷◌ c s) String.[] =
    (λ h. cc (compare.nil-cons c s), λ h. cc (compare.cons-nil c s))
compare_swap (String.◌∷◌ c s) (String.◌∷◌ d t) =
    let a = compare.cons-cons c d s t in
    let b = compare.cons-cons d c t s in
    let ih = compare_swap s t in (λ h. ground (arith, a, b, ih), λ h. ground (arith, a, b, ih))

pub str_ltb_asym : (s t : String) → str_ltb s t ≡ true → str_ltb t s ≡ false
str_ltb_asym s t h = ground (arith, compare_swap s t)

pub str_ltb_connected : (s t : String) → s ≢ t → (str_ltb s t ≡ true) ⊎ (str_ltb t s ≡ true)
str_ltb_connected s t n = ground (arith, compare_swap s t, path_by_compare s t)
