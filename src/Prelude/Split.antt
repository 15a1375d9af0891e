-- ===== src/Prelude/Split.antt =====
-- Go's `strings.Split`, `Count`, `FieldsFunc`, `Contains` and the tests and cuts of prefixes and
-- suffixes, over the native text. A separator of one byte is given by its code.
pub mod Laws
use Prim.Native.Nat.{ℕ, suc}
use Prim.Native.Char.{Char, code}
use Prim.Native.String.{String}
use mathlib.Core.Path.{◌≡◌, refl}
use mathlib.Core.Bool.{Bool, true, false, ◌||◌}
use mathlib.Core.Option.{Option, none, some}
use mathlib.Core.List.{List, [], ◌∷◌}
use text.Mathlib.Text.{◌==◌ as str_eq}
use browser_automation_byte.Prelude.Tests.{◌==◌, if◌then◌else◌}

-- `strings.Count` of one byte
unfoldable pub count : ℕ → String → ℕ
count sep String.[] = 0
count sep (String.◌∷◌ c s) = if code c == sep then suc (count sep s) else count sep s

abbrev pub cons_first : Char → List String → List String
cons_first c [] = String.◌∷◌ c String.[] ∷ []
cons_first c (part ∷ parts) = String.◌∷◌ c part ∷ parts

-- The parts between the characters that `f` holds of.
unfoldable pub split_by : (ℕ → Bool) → String → List String
split_by f String.[] = String.[] ∷ []
split_by f (String.◌∷◌ c s) =
    if f (code c) then String.[] ∷ split_by f s else cons_first c (split_by f s)

-- `strings.Split` at one byte
abbrev pub split : ℕ → String → List String
split sep = split_by (λ c. c == sep)

-- The two parts that `strings.SplitN` with 2 gives of a text with a separator.
unfoldable pub split_once : ℕ → String → String × String
split_once sep String.[] = ("", "")
split_once sep (String.◌∷◌ c s) =
    let (before, after) = split_once sep s in
    if code c == sep then ("", s) else (String.◌∷◌ c before, after)

abbrev pub drop_empty : List String → List String
drop_empty [] = []
drop_empty (part ∷ parts) = if str_eq part "" then drop_empty parts else part ∷ drop_empty parts

-- `strings.FieldsFunc`
unfoldable pub fields_func : (ℕ → Bool) → String → List String
unfolding split_by
fields_func f s = drop_empty (split_by f s)

-- What stands behind a prefix.
unfoldable pub strip_prefix : String → String → Option String
strip_prefix String.[] s = some s
strip_prefix (String.◌∷◌ c p) String.[] = none
strip_prefix (String.◌∷◌ c p) (String.◌∷◌ d s) = if code c == code d then strip_prefix p s else none

abbrev cons_some : Char → Option String → Option String
cons_some c none = none
cons_some c (some s) = some (String.◌∷◌ c s)

-- What stands in front of a suffix.
unfoldable pub strip_suffix : String → String → Option String
strip_suffix suffix String.[] = if str_eq suffix "" then some String.[] else none
strip_suffix suffix (String.◌∷◌ c s) =
    if str_eq suffix (String.◌∷◌ c s) then some String.[] else cons_some c (strip_suffix suffix s)

abbrev is_some : Option String → Bool
is_some none = false
is_some (some s) = true

abbrev or_whole : String → Option String → String
or_whole s none = s
or_whole s (some t) = t

-- `strings.HasPrefix`, `TrimPrefix`, `HasSuffix` and `TrimSuffix`
abbrev pub has_prefix : String → String → Bool
has_prefix s prefix = is_some (strip_prefix prefix s)

abbrev pub trim_prefix : String → String → String
trim_prefix s prefix = or_whole s (strip_prefix prefix s)

abbrev pub has_suffix : String → String → Bool
has_suffix s suffix = is_some (strip_suffix suffix s)

abbrev pub trim_suffix : String → String → String
trim_suffix s suffix = or_whole s (strip_suffix suffix s)

-- `strings.Contains`
unfoldable pub contains : String → String → Bool
unfolding strip_prefix
contains String.[] needle = has_prefix String.[] needle
contains (String.◌∷◌ c s) needle = has_prefix (String.◌∷◌ c s) needle || contains s needle

abbrev cons_kept : (ℕ → Bool) → Char → String → String
cons_kept f c String.[] = if f (code c) then String.[] else String.◌∷◌ c String.[]
cons_kept f c (String.◌∷◌ d s) = String.◌∷◌ c (String.◌∷◌ d s)

-- `strings.TrimRight` with a set of characters
unfoldable pub trim_right_by : (ℕ → Bool) → String → String
trim_right_by f String.[] = String.[]
trim_right_by f (String.◌∷◌ c s) = cons_kept f c (trim_right_by f s)

split_test : split b':' "a::b" ≡ "a" ∷ "" ∷ "b" ∷ []
unfolding split_by
split_test = refl

cut_tests :
    (trim_prefix "/sessions/x" "/sessions/" ≡ "x")
    × (trim_suffix "x/stop" "/stop" ≡ "x")
    × (contains "http://h" "://" ≡ true)
    × (fields_func (λ c. c == 10) "a\n\nb" ≡ "a" ∷ "b" ∷ [])
    × (trim_right_by (λ c. c == b'/') "u/a//" ≡ "u/a")
unfolding strip_prefix strip_suffix contains fields_func trim_right_by
cut_tests = (refl, refl, refl, refl, refl)
