-- ===== src/Prelude/Decimal.antt =====
-- Go's `strconv.Atoi` and `strconv.Itoa`, for a 64-bit `int`; `fmt.Sprint` prints an `int` alike.
pub mod RoundTrip
use Prim.Native.Nat.{ℕ, zero, suc, ◌+◌, ◌-◌, ◌*◌, ◌/◌, ◌%◌, ◌^◌}
use Prim.Native.Char.{Char, code}
use Prim.Native.String.{String}
use mathlib.Core.Path.{◌≡◌, refl}
use mathlib.Core.Bool.{Bool, ◌&&◌}
use mathlib.Core.Option.{Option, none, some}
use browser_automation_byte.Prelude.Tests.{leb, ◌==◌, if◌then◌else◌}
use browser_automation_byte.Prelude.Int.{ℤ, pos, negsuc}

abbrev pub max_int : ℕ
max_int = 2 ^ 63 - 1

unfoldable pub is_digit : Char → Bool
is_digit c = leb b'0' (code c) && leb (code c) b'9'

-- The number that decimal digits spell behind `n`.
unfoldable pub scan_digits : String → ℕ → Option ℕ
unfolding is_digit
scan_digits String.[] n = some n
scan_digits (String.◌∷◌ c s) n =
    if is_digit c then scan_digits s (n * 10 + (code c - b'0')) else none

digits_of : String → Option ℕ
unfolding scan_digits
digits_of String.[] = none
digits_of (String.◌∷◌ c s) = scan_digits (String.◌∷◌ c s) 0

in_range : Option ℕ → Option ℤ
in_range none = none
in_range (some n) = if leb n max_int then some (pos n) else none

in_range_negated : Option ℕ → Option ℤ
in_range_negated none = none
in_range_negated (some n) =
    if n == 0 then some (pos 0) else if leb n (max_int + 1) then some (negsuc (n - 1)) else none

unfoldable pub atoi : String → Option ℤ
unfolding digits_of in_range in_range_negated
atoi String.[] = none
atoi (String.◌∷◌ c s) =
    if code c == b'-'
    then in_range_negated (digits_of s)
    else if code c == b'+'
    then in_range (digits_of s)
    else in_range (digits_of (String.◌∷◌ c s))

unfoldable pub digit_char : ℕ → Char
digit_char d =
    if d == 0
    then "0"
    else if d == 1
    then "1"
    else if d == 2
    then "2"
    else if d == 3
    then "3"
    else if d == 4
    then "4"
    else if d == 5
    then "5"
    else if d == 6
    then "6"
    else if d == 7
    then "7"
    else if d == 8
    then "8"
    else "9"

-- The digits of `n` in front of a text; as much fuel as `n` is enough.
unfoldable pub digits : ℕ → ℕ → String → String
unfolding digit_char
digits zero n out = out
digits (suc fuel) n out =
    let longer = digits fuel (n / 10) (String.◌∷◌ (digit_char (n % 10)) out) in
    if n == 0 then out else longer

unfoldable pub itoa : ℕ → String
unfolding digits
itoa n = if n == 0 then "0" else digits n n ""

itoa_test : itoa 9070 ≡ "9070"
unfolding itoa
itoa_test = refl

atoi_tests :
    (atoi "-12" ≡ some (negsuc 11))
    × (atoi "+7" ≡ some (pos 7))
    × (atoi "1_0" ≡ none)
    × (atoi "-" ≡ none)
    × (atoi "9223372036854775808" ≡ none)
unfolding atoi
atoi_tests = (refl, refl, refl, refl, refl)
