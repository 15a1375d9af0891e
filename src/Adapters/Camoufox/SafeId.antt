-- ===== src/Adapters/Camoufox/SafeId.antt =====
-- internal/adapters/runtime/camoufox/safe_id.go: the part of a path that is made of a session's id.
use browser_automation_byte.Prelude.{
  ℕ, String, Bool, true, false, not, ◌||◌, ◌&&◌, ◌==◌, ◌≡◌, ◌≢◌, ◌↔◌, ◌⊎◌, ◌≤◌, refl, ap, inl, inr,
  leb, str_eq, eq_iff, if◌then◌else◌, arith, Bool-cases,
}
use browser_automation_byte.Prelude.Trim.{any_char, AllChars, any_char-AllChars, AllChars-any_char}
use Prim.Native.Char.{code, Char}

-- The letters, the digits, `-` and `_`
abbrev pub is_safe : ℕ → Bool
is_safe r =
    (leb b'a' r && leb r b'z')
    || (leb b'A' r && leb r b'Z')
    || (leb b'0' r && leb r b'9')
    || r == b'-'
    || r == b'_'

abbrev safe_rune : Char → Char
safe_rune r = if is_safe (code r) then r else "-"

-- The loop of `safeID`, over the runes of a text
unfoldable pub safe_runes : String → String
safe_runes String.[] = String.[]
safe_runes (String.◌∷◌ r rest) = String.◌∷◌ (safe_rune r) (safe_runes rest)

abbrev or_given : String → String
or_given built = if str_eq built "" then "default" else built

-- `safeID`
unfoldable pub safe_id : String → String
unfolding safe_runes
safe_id value = if str_eq value "" then "default" else or_given (safe_runes value)

abbrev is_unsafe : ℕ → Bool
is_unsafe r = not (is_safe r)

-- The code of one of `a` to `z`, `A` to `Z`, `0` to `9`, `-` and `_`
pub IsSafeCode : ℕ → Type 0
IsSafeCode r =
    ((97 ≤ r) × (r ≤ 122))
    ⊎ (((65 ≤ r) × (r ≤ 90)) ⊎ (((48 ≤ r) × (r ≤ 57)) ⊎ ((r ≡ 45) ⊎ (r ≡ 95))))

-- A text of at least one character, all of which are letters, digits, `-` or `_`
pub IsSafe : String → Type 0
IsSafe value = (value ≢ "") × AllChars IsSafeCode value

-- The same, as the code tests it
IsTested : String → Type 0
IsTested value = (value ≢ "") × (any_char is_unsafe value ≡ false)

is_unsafe-IsSafeCode : (r : ℕ) → is_unsafe r ≡ false → IsSafeCode r
unfolding IsSafeCode
is_unsafe-IsSafeCode r h = elim (Bool-cases (leb 97 r && leb r 122)) [
  | inl e ↦ inl (ground arith)
  | inr e ↦ elim (Bool-cases (leb 65 r && leb r 90)) [
    | inl f ↦ inr (inl (ground arith))
    | inr f ↦ elim (Bool-cases (leb 48 r && leb r 57)) [
      | inl g ↦ inr (inr (inl (ground arith)))
      | inr g ↦ elim (Bool-cases (r == 45)) [
        | inl k ↦ inr (inr (inr (inl (ground arith))))
        | inr k ↦ inr (inr (inr (inr (ground arith))))
      ]
    ]
  ]
]

IsSafeCode-is_unsafe : (r : ℕ) → IsSafeCode r → is_unsafe r ≡ false
unfolding IsSafeCode
IsSafeCode-is_unsafe r (inl h) = ground arith
IsSafeCode-is_unsafe r (inr (inl h)) = ground arith
IsSafeCode-is_unsafe r (inr (inr (inl h))) = ground arith
IsSafeCode-is_unsafe r (inr (inr (inr (inl h)))) = ground arith
IsSafeCode-is_unsafe r (inr (inr (inr (inr h)))) = ground arith

safe_rune-is_safe : (r : Char) → is_safe (code (safe_rune r)) ≡ true
safe_rune-is_safe r = elim (Bool-cases (is_safe (code r))) [
  | inl e ↦ rw (e) e
  | inr e ↦ rw (e) refl
]

safe_runes-is_safe : (value : String) → any_char is_unsafe (safe_runes value) ≡ false
unfolding any_char safe_runes
safe_runes-is_safe String.[] = refl
safe_runes-is_safe (String.◌∷◌ r rest) =
    rw (safe_rune-is_safe r, any_char) (safe_runes-is_safe rest)

or_given-IsTested : (built : String) → any_char is_unsafe built ≡ false → IsTested (or_given built)
unfolding any_char IsTested
or_given-IsTested built h = elim (Bool-cases (str_eq built "")) [
  | inl e ↦ rw (e) (λ e. cc, refl)
  | inr e ↦ rw (e) (λ same. ground (arith, eq_iff built ""), h)
]

safe_id-IsTested : (value : String) → IsTested (safe_id value)
unfolding safe_id any_char IsTested
safe_id-IsTested value = elim (Bool-cases (str_eq value "")) [
  | inl e ↦ rw (e, safe_id) (λ same. cc, refl)
  | inr e ↦ rw (e, safe_id) (or_given-IsTested (safe_runes value) (safe_runes-is_safe value))
]

-- Whatever an id is, `safeID` makes of it a text of one or more characters, each of which is one of `a` to
-- `z`, `A` to `Z`, `0` to `9`, `-` and `_`.
pub safe_id-IsSafe : (value : String) → IsSafe (safe_id value)
unfolding IsSafe IsTested
safe_id-IsSafe value =
    let tested = safe_id-IsTested value in
    (tested.0, any_char-AllChars is_unsafe IsSafeCode (safe_id value) is_unsafe-IsSafeCode tested.1)

safe_runes-fixed : (value : String) → any_char is_unsafe value ≡ false → safe_runes value ≡ value
unfolding any_char safe_runes
safe_runes-fixed String.[] h = refl
safe_runes-fixed (String.◌∷◌ r rest) h =
    let first : is_safe (code r) ≡ true = ground arith in
    rw (first, safe_runes) (ap (String.◌∷◌ r) (safe_runes-fixed rest (ground arith)))

-- `safeID` leaves an id as it is exactly if the id is such a text already.
pub safe_id_iff : (value : String) → (safe_id value ≡ value) ↔ IsSafe value
unfolding safe_id IsSafe
safe_id_iff value = (
  λ same. rw same at (safe_id-IsSafe value),
  λ safe. elim (Bool-cases (str_eq value "")) [
    | inl e ↦ absurd (safe.0 (ground (arith, eq_iff value "")))
    | inr e ↦
        rw (e, safe_id)
          (rw
            (safe_runes-fixed value
              (AllChars-any_char is_unsafe IsSafeCode value IsSafeCode-is_unsafe safe.1))
            (rw (e) refl))
  ],
)
