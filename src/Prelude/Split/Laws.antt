-- ===== src/Prelude/Split/Laws.antt =====
-- Texts cut at separators and trimmed: how the parts and the whole agree.
use Prim.Native.Nat.{ℕ, suc}
use Prim.Native.Char.{Char, code}
use Prim.Native.String.{String, ◌++◌}
use text.Mathlib.TextLemmas.{nil-append, cons-append}
use text.Mathlib.TextEquality.{Char-path}
use mathlib.Core.Path.{◌≡◌, refl, sym, ap, ◌∙◌}
use mathlib.Core.Option.{some}
use mathlib.Core.Bool.{true, false}
use mathlib.Core.List.{[], ◌∷◌}
use mathlib.Core.Logic.{inl, inr}
use native.Mathlib.Omega.{arith}
use browser_automation_byte.Prelude.Tests.{◌==◌, Bool-cases, Option-cases}
use browser_automation_byte.Prelude.Split.{count, split_by, split, strip_prefix, has_prefix}

-- A part without separators in front of one is the first part.
pub split-append :
    (sep : ℕ) (mid : Char) (part s : String)
    → (code mid == sep) ≡ true
    → count sep part ≡ 0
    → split sep (part ++ String.◌∷◌ mid s) ≡ part ∷ split sep s
unfolding split_by count
split-append sep mid String.[] s m h = rw (nil-append (String.◌∷◌ mid s)) (rw (m, split_by) refl)
split-append sep mid (String.◌∷◌ c part) s m h = elim (Bool-cases (code c == sep)) [
  | inl e ↦ absurd (ground arith)
  | inr e ↦
      rw (cons-append c part (String.◌∷◌ mid s))
        (rw (e, split_by) (rw (split-append sep mid part s m (ground arith)) refl))
]

-- A text without separators is its only part.
pub split_one : (sep : ℕ) (s : String) → count sep s ≡ 0 → split sep s ≡ s ∷ []
unfolding split_by count
split_one sep String.[] h = refl
split_one sep (String.◌∷◌ c s) h = elim (Bool-cases (code c == sep)) [
  | inl e ↦ absurd (ground arith)
  | inr e ↦ rw (e, split_by) (rw (split_one sep s (ground arith)) refl)
]

pub count-append :
    (sep : ℕ) (mid : Char) (part s : String)
    → (code mid == sep) ≡ true
    → count sep part ≡ 0
    → count sep (part ++ String.◌∷◌ mid s) ≡ suc (count sep s)
unfolding count
count-append sep mid String.[] s m h = rw (nil-append (String.◌∷◌ mid s)) (rw (m, count) refl)
count-append sep mid (String.◌∷◌ c part) s m h = elim (Bool-cases (code c == sep)) [
  | inl e ↦ absurd (ground arith)
  | inr e ↦
      rw (cons-append c part (String.◌∷◌ mid s))
        (rw (e, count) (count-append sep mid part s m (ground arith)))
]

-- What stands behind a prefix, with the prefix in front, is the text.
pub strip_prefix-append : (p s rest : String) → strip_prefix p s ≡ some rest → s ≡ p ++ rest
unfolding strip_prefix
strip_prefix-append String.[] s rest h = let same : s ≡ rest = cc in same ∙ sym (nil-append rest)
strip_prefix-append (String.◌∷◌ c p) String.[] rest h = cc
strip_prefix-append (String.◌∷◌ c p) (String.◌∷◌ d s) rest h =
    elim (Bool-cases (code c == code d)) [
      | inr e ↦ absurd (ground arith)
      | inl e ↦
          let first : c ≡ d = Char-path c d (ground arith) in
          let behind : s ≡ p ++ rest = strip_prefix-append p s rest (ground arith) in
          rw (← first) (ap (String.◌∷◌ c) behind ∙ sym (cons-append c p rest))
    ]

-- A text that has a prefix is the prefix and some rest.
pub has_prefix-append : (s p : String) → has_prefix s p ≡ true → (rest : String) × (s ≡ p ++ rest)
has_prefix-append s p h = elim (Option-cases (strip_prefix p s)) [
  | inl e ↦ let wrong : false ≡ true = rw e at h in cc
  | inr (rest, e) ↦ (rest, strip_prefix-append p s rest e)
]
