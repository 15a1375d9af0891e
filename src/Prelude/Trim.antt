-- ===== src/Prelude/Trim.antt =====
-- `strings.TrimSpace`: trimming twice is trimming once, and a trimmed text has no character that the
-- whole does not have.
use Prim.Native.Nat.{ℕ}
use Prim.Native.Char.{Char, code}
use Prim.Native.String.{String, ◌++◌}
use text.Mathlib.TextLemmas.{nil-append, cons-append}
use mathlib.Core.Path.{◌≡◌, refl, ap, ◌∙◌}
use mathlib.Core.Bool.{Bool, false, ◌||◌}
use mathlib.Core.List.{List, [], ◌∷◌}
use mathlib.Core.Logic.{inl, inr}
use native.Mathlib.Omega.{arith}
use text.Mathlib.Text.{◌==◌ as str_eq}
use browser_automation_byte.Prelude.Tests.{Bool-cases}
use browser_automation_byte.Prelude.Lists.{All}
use browser_automation_byte.Prelude.Texts.{
  is_space, trim_left, cons_trimmed, trim_right, trim_space,
}
use browser_automation_byte.Prelude.Split.{cons_first, split_by, drop_empty, fields_func}

trim_right-cons :
    (c : Char) (s : String)
    → is_space (code c) ≡ false
    → trim_right (String.◌∷◌ c s) ≡ String.◌∷◌ c (trim_right s)
unfolding trim_right
trim_right-cons c s h = cons_lem (trim_right s)
  where
    cons_lem : (t : String) → cons_trimmed c t ≡ String.◌∷◌ c t
    cons_lem String.[] = rw (h) refl
    cons_lem (String.◌∷◌ d u) = refl

trim_left-trim : (s : String) → trim_left (trim_right (trim_left s)) ≡ trim_right (trim_left s)
unfolding trim_left trim_right
trim_left-trim String.[] = refl
trim_left-trim (String.◌∷◌ c s) = elim (Bool-cases (is_space (code c))) [
  | inl e ↦ rw (e, trim_left) (trim_left-trim s)
  | inr e ↦ rw (e, trim_left) (rw (trim_right-cons c s e) (rw (e, trim_left) refl))
]

trim_right-cons_trimmed :
    (c : Char) (t : String) → trim_right t ≡ t → trim_right (cons_trimmed c t) ≡ cons_trimmed c t
unfolding trim_right
trim_right-cons_trimmed c String.[] h = elim (Bool-cases (is_space (code c))) [
  | inl e ↦ rw (e, trim_right) refl
  | inr e ↦ rw (e, trim_right) (rw (e, trim_right) refl)
]
trim_right-cons_trimmed c (String.◌∷◌ d u) h = ap (cons_trimmed c) h

trim_right-trim_right : (s : String) → trim_right (trim_right s) ≡ trim_right s
unfolding trim_right
trim_right-trim_right String.[] = refl
trim_right-trim_right (String.◌∷◌ c s) =
    trim_right-cons_trimmed c (trim_right s) (trim_right-trim_right s)

pub trim_space-trim_space : (s : String) → trim_space (trim_space s) ≡ trim_space s
unfolding trim_space
trim_space-trim_space s = ap trim_right (trim_left-trim s) ∙ trim_right-trim_right (trim_left s)

-- Whether a character of the text satisfies `f`.
unfoldable pub any_char : (ℕ → Bool) → String → Bool
any_char f String.[] = false
any_char f (String.◌∷◌ c s) = f (code c) || any_char f s

-- A property of the code of every character of the text
unfoldable pub AllChars : (ℕ → Type 0) → String → Type 0
AllChars P String.[] = Unit
AllChars P (String.◌∷◌ c s) = P (code c) × AllChars P s

-- What no character satisfies, and what follows from that of each one
pub any_char-AllChars :
    (f : ℕ → Bool) (P : ℕ → Type 0) (s : String)
    → ((c : ℕ) → f c ≡ false → P c)
    → any_char f s ≡ false
    → AllChars P s
unfolding any_char AllChars
any_char-AllChars f P String.[] h k = tt
any_char-AllChars f P (String.◌∷◌ c s) h k =
    (h (code c) (ground arith), any_char-AllChars f P s h (ground arith))

pub AllChars-any_char :
    (f : ℕ → Bool) (P : ℕ → Type 0) (s : String)
    → ((c : ℕ) → P c → f c ≡ false)
    → AllChars P s
    → any_char f s ≡ false
unfolding any_char AllChars
AllChars-any_char f P String.[] h k = refl
AllChars-any_char f P (String.◌∷◌ c s) h k =
    let first : f (code c) ≡ false = h (code c) k.0 in
    rw (first, any_char) (AllChars-any_char f P s h k.1)

-- A text without white space stays as it is.
trim_right-blankless : (s : String) → any_char is_space s ≡ false → trim_right s ≡ s
unfolding any_char trim_right
trim_right-blankless String.[] h = refl
trim_right-blankless (String.◌∷◌ c s) h =
    trim_right-cons c s (ground arith) ∙ ap (String.◌∷◌ c) (trim_right-blankless s (ground arith))

pub trim_space_blankless : (s : String) → any_char is_space s ≡ false → trim_space s ≡ s
unfolding any_char trim_space trim_left
trim_space_blankless String.[] h = trim_right-blankless "" h
trim_space_blankless (String.◌∷◌ c s) h =
    let first : is_space (code c) ≡ false = ground arith in
    rw (first, trim_space) (trim_right-blankless (String.◌∷◌ c s) h)

module _ (f : ℕ → Bool) where
  pub any_char-append :
      (s t : String) → any_char f s ≡ false → any_char f t ≡ false → any_char f (s ++ t) ≡ false
  unfolding any_char
  any_char-append String.[] t h k = rw (nil-append t) k
  any_char-append (String.◌∷◌ c s) t h k =
      rw (cons-append c s t) (ground (arith, any_char-append s t))

module _ (f : ℕ → Bool) where
  any_char-trim_left : (s : String) → any_char f s ≡ false → any_char f (trim_left s) ≡ false
  unfolding any_char trim_left
  any_char-trim_left String.[] h = h
  any_char-trim_left (String.◌∷◌ c s) h = ground (arith, any_char-trim_left s)

  any_char-cons_trimmed :
      (c : Char) (t : String)
      → f (code c) ≡ false
      → any_char f t ≡ false
      → any_char f (cons_trimmed c t) ≡ false
  unfolding any_char
  any_char-cons_trimmed c String.[] h k = elim (Bool-cases (is_space (code c))) [
    | inl e ↦ rw (e, any_char) refl
    | inr e ↦ rw (e, any_char) (ground arith)
  ]
  any_char-cons_trimmed c (String.◌∷◌ d u) h k = ground arith

  any_char-trim_right : (s : String) → any_char f s ≡ false → any_char f (trim_right s) ≡ false
  unfolding any_char trim_right
  any_char-trim_right String.[] h = h
  any_char-trim_right (String.◌∷◌ c s) h =
      any_char-cons_trimmed c (trim_right s) (ground arith) (any_char-trim_right s (ground arith))

  pub any_char-trim_space : (s : String) → any_char f s ≡ false → any_char f (trim_space s) ≡ false
  unfolding trim_space
  any_char-trim_space s h = any_char-trim_right (trim_left s) (any_char-trim_left s h)

  Lacks : String → Type 0
  Lacks s = any_char f s ≡ false

  cons_first-Lacks :
      (c : Char) (parts : List String)
      → f (code c) ≡ false
      → All Lacks parts
      → All Lacks (cons_first c parts)
  unfolding Lacks any_char
  cons_first-Lacks c [] h k = (ground arith, tt)
  cons_first-Lacks c (part ∷ parts) h k = (ground (arith, k.0), k.1)

  split_by-Lacks : (s : String) → All Lacks (split_by f s)
  unfolding split_by Lacks any_char
  split_by-Lacks String.[] = (refl, tt)
  split_by-Lacks (String.◌∷◌ c s) = elim (Bool-cases (f (code c))) [
    | inl e ↦ rw (e, split_by) (refl, split_by-Lacks s)
    | inr e ↦ rw (e, split_by) (cons_first-Lacks c (split_by f s) e (split_by-Lacks s))
  ]

  drop_empty-Lacks : (parts : List String) → All Lacks parts → All Lacks (drop_empty parts)
  drop_empty-Lacks [] h = tt
  drop_empty-Lacks (part ∷ parts) h = elim (Bool-cases (str_eq part "")) [
    | inl e ↦ rw (e) (drop_empty-Lacks parts h.1)
    | inr e ↦ rw (e) (h.0, drop_empty-Lacks parts h.1)
  ]

  -- No field has a separator in it.
  pub fields_func-Lacks : (s : String) → All (λ part. any_char f part ≡ false) (fields_func f s)
  unfolding fields_func Lacks
  fields_func-Lacks s = drop_empty-Lacks (split_by f s) (split_by-Lacks s)
