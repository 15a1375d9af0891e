-- ===== src/Prelude/Decimal/RoundTrip.antt =====
-- What `itoa` prints, `atoi` reads back.
use Prim.Native.Nat.{ℕ, zero, suc, ◌+◌, ◌/◌, ◌%◌, ◌≤◌, ◌<◌}
use Prim.Native.Char.{code}
use Prim.Native.String.{String}
use mathlib.Core.Path.{◌≡◌, refl}
use mathlib.Core.Logic.{inl, inr}
use mathlib.Core.Bool.{true}
use mathlib.Core.Option.{some}
use native.Mathlib.Omega.{arith}
use browser_automation_byte.Prelude.Tests.{◌==◌, Bool-cases}
use browser_automation_byte.Prelude.Int.{pos}
use browser_automation_byte.Prelude.Decimal.{
  max_int, is_digit, scan_digits, in_range, atoi, digit_char, digits, itoa,
}

code-digit_char : (d : ℕ) → d < 10 → code (digit_char d) ≡ b'0' + d
unfolding digit_char
code-digit_char zero h = refl
code-digit_char (suc zero) h = refl
code-digit_char (suc (suc zero)) h = refl
code-digit_char (suc (suc (suc zero))) h = refl
code-digit_char (suc (suc (suc (suc zero)))) h = refl
code-digit_char (suc (suc (suc (suc (suc zero))))) h = refl
code-digit_char (suc (suc (suc (suc (suc (suc zero)))))) h = refl
code-digit_char (suc (suc (suc (suc (suc (suc (suc zero))))))) h = refl
code-digit_char (suc (suc (suc (suc (suc (suc (suc (suc zero)))))))) h = refl
code-digit_char (suc (suc (suc (suc (suc (suc (suc (suc (suc zero))))))))) h = refl
code-digit_char (suc (suc (suc (suc (suc (suc (suc (suc (suc (suc d)))))))))) h =
    absurd (omega arith)

scan_last :
    (n : ℕ) (out : String)
    → scan_digits (String.◌∷◌ (digit_char (n % 10)) out) (n / 10) ≡ scan_digits out n
unfolding scan_digits
scan_last n out = ground (arith, code-digit_char (n % 10))

scan_digits-digits :
    (fuel n : ℕ) (out : String) → n ≤ fuel → scan_digits (digits fuel n out) 0 ≡ scan_digits out n
unfolding digits
scan_digits-digits zero n out h = let e : n ≡ 0 = omega arith in rw e refl
scan_digits-digits (suc fuel) n out h =
    let longer = String.◌∷◌ (digit_char (n % 10)) out in
    ground (arith, scan_digits-digits fuel (n / 10) longer, scan_last n out)

-- The first character is a digit, so neither sign.
abbrev StartsWithDigit : String → Type 0
StartsWithDigit String.[] = ⊥
StartsWithDigit (String.◌∷◌ c s) = is_digit c ≡ true

digit_char-is_digit : (d : ℕ) → d < 10 → is_digit (digit_char d) ≡ true
unfolding is_digit
digit_char-is_digit d h = ground (arith, code-digit_char d)

digits-StartsWithDigit :
    (fuel n : ℕ) (out : String) → StartsWithDigit out → StartsWithDigit (digits fuel n out)
unfolding digits
digits-StartsWithDigit zero n out h = h
digits-StartsWithDigit (suc fuel) n out h = elim (Bool-cases (n == 0)) [
  | inl done ↦ rw done h
  | inr more ↦
      rw more (digits-StartsWithDigit fuel (n / 10) _ (digit_char-is_digit (n % 10) (omega arith)))
]

atoi-StartsWithDigit : (s : String) → StartsWithDigit s → atoi s ≡ in_range (scan_digits s 0)
unfolding atoi is_digit
atoi-StartsWithDigit String.[] h = absurd h
atoi-StartsWithDigit (String.◌∷◌ c s) h = ground arith

digits-StartsWithDigit_pos : (n : ℕ) → 0 < n → StartsWithDigit (digits n n "")
unfolding digits
digits-StartsWithDigit_pos zero h = absurd (omega arith)
digits-StartsWithDigit_pos (suc k) h = elim (Bool-cases (suc k == 0)) [
  | inl done ↦ absurd (ground arith)
  | inr more ↦
      rw more
        (digits-StartsWithDigit k (suc k / 10) _ (digit_char-is_digit (suc k % 10) (omega arith)))
]

itoa-zero : (n : ℕ) → n ≡ 0 → atoi (itoa n) ≡ some (pos n)
unfolding itoa atoi
itoa-zero n e = rw e refl

itoa-pos : (n : ℕ) → 0 < n → itoa n ≡ digits n n ""
unfolding itoa
itoa-pos n h = ground arith

-- Every `int` that is not negative is read back from its print.
pub atoi-itoa : (n : ℕ) → n ≤ max_int → atoi (itoa n) ≡ some (pos n)
unfolding in_range scan_digits
atoi-itoa zero h = itoa-zero zero refl
atoi-itoa (suc k) h =
    let n = suc k in
    rw
      (
        itoa-pos n (omega arith),
        atoi-StartsWithDigit (digits n n "") (digits-StartsWithDigit_pos n (omega arith)),
        scan_digits-digits n n "" (omega arith),
      )
      (ground arith)
