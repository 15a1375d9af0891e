-- ===== src/Core/Pages.antt =====
-- internal/core/pagination.go. An offset is an `int` that is not negative.
use browser_automation_byte.Prelude.{
  ℕ, zero, suc, ◌≤◌, ◌≡◌, refl, sym, ap, ◌∙◌, ◌≢◌, ◌⊎◌, inl, inr, ◌<◌, String, false, Option, none,
  some, ltb, ◌==◌, if◌then◌else◌, not, str_eq, eq_iff, arith,
}
use browser_automation_byte.Prelude.Int.{ℤ, pos, negsuc, is_positive, to_ℕ}
use browser_automation_byte.Prelude.Decimal.{max_int, atoi, itoa}
use browser_automation_byte.Prelude.Decimal.RoundTrip.{atoi-itoa}
use browser_automation_byte.Core.Errors.{GoError, new_error}
use browser_automation_byte.Core.Errors.Code
use browser_automation_byte.Core.Reply.{Reply, ok, fail}

abbrev pub default_page_size : ℕ
default_page_size = 50

abbrev pub max_page_size : ℕ
max_page_size = 200

abbrev invalid_token : GoError
invalid_token = new_error Code.validation_failed "page_token must be a non-negative offset" false

abbrev offset_of : Option ℤ → Reply ℕ
offset_of none = fail invalid_token
offset_of (some (pos n)) = ok n
offset_of (some (negsuc n)) = fail invalid_token

-- `ParsePageToken`
unfoldable pub parse_page_token : String → Reply ℕ
parse_page_token t = if str_eq t "" then ok 0 else offset_of (atoi t)

-- `NormalizePageSize`
unfoldable pub normalize_page_size : ℤ → ℕ
normalize_page_size size =
    if not (is_positive size)
    then default_page_size
    else if ltb max_page_size (to_ℕ size)
    then max_page_size
    else to_ℕ size

-- `PageToken`
unfoldable pub page_token : ℕ → String
page_token offset = if offset == 0 then "" else itoa offset

atoi-nil : atoi "" ≡ none
unfolding atoi
atoi-nil = refl

-- A token that the service gives out is read back as the offset that it was made from.
pub parse_page_token-page_token :
    (offset : ℕ) → offset ≤ max_int → parse_page_token (page_token offset) ≡ ok offset
unfolding parse_page_token page_token
parse_page_token-page_token zero h = refl
parse_page_token-page_token (suc k) h =
    let n = suc k in
    let e : page_token n ≡ itoa n = ground arith in
    rw e (ground (arith, atoi-nil, atoi-itoa n h, eq_iff (itoa n) ""))

pub page_token-ne-nil : (n : ℕ) → 0 < n → n ≤ max_int → page_token n ≢ ""
unfolding parse_page_token
page_token-ne-nil n h k e =
    let same : ok 0 ≡ ok n =
      sym parse_nil ∙ ap parse_page_token (sym e) ∙ parse_page_token-page_token n k in
    ground arith
  where
    parse_nil : parse_page_token "" ≡ ok 0
    parse_nil = refl

-- A page holds between 1 and 200 entries, whatever size is asked for, and a size in that range is
-- kept.
pub normalize_page_size_bounds :
    (size : ℤ)
    → (1 ≤ normalize_page_size size)
      × (normalize_page_size size ≤ max_page_size)
      × ((normalize_page_size size ≡ to_ℕ size)
          ⊎ ((is_positive size ≡ false) ⊎ (max_page_size < to_ℕ size)))
unfolding normalize_page_size
normalize_page_size_bounds (pos n) = (ground arith, ground arith, ground arith)
normalize_page_size_bounds (negsuc n) = (omega arith, omega arith, inr (inl refl))
