-- ===== src/Core/Reply.antt =====
-- The results of Go functions: `(value, error)` pairs of which a function returns three kinds.
use browser_automation_byte.Prelude.{
  Bool, true, false, ◌≡◌, refl, ◌⊎◌, inl, inr, Option, none, some, if◌then◌else◌,
}
use browser_automation_byte.Core.Errors.{GoError}

-- `ok v` is `(v, nil)`, `fail e` is `(nil, e)`, and `fail_with v e` is `(v, e)`.
pub data Reply {ℓ} (A : Type ℓ) : Type ℓ where
  ok : A → Reply A
  fail : GoError → Reply A
  fail_with : A → GoError → Reply A

module _ {ℓ} {A : Type ℓ} where
  -- The returned error.
  abbrev pub error_of : Reply A → Option GoError
  error_of (ok a) = none
  error_of (fail e) = some e
  error_of (fail_with a e) = some e

  -- The returned value.
  abbrev pub value_of : Reply A → Option A
  value_of (ok a) = some a
  value_of (fail e) = none
  value_of (fail_with a e) = some a

-- `if err != nil { return nil, err }`
infixl 5 ◌>>=◌
abbrev pub ◌>>=◌ {ℓ κ} : {A : Type ℓ} {B : Type κ} → Reply A → (A → Reply B) → Reply B
ok a >>= f = f a
fail e >>= f = fail e
fail_with a e >>= f = fail e

-- A function that returns only an error: nil is `none`.
infixr 5 ◌then_check◌
abbrev pub ◌then_check◌ : Option GoError → Option GoError → Option GoError
none then_check next = next
some e then_check next = some e

-- A reply that a check lets through is the rest's.
pub check-ok :
    {A : Type 0} (test : Bool) (a : A) (err : GoError) {rest : Reply A} {r : A}
    → (if test then fail_with a err else rest) ≡ ok r
    → (test ≡ false) × (rest ≡ ok r)
check-ok true a err h = cc
check-ok false a err h = (refl, h)

-- The three kinds of a reply
pub Reply-cases :
    {A : Type 0} (r : Reply A)
    → ((a : A) × (r ≡ ok a))
      ⊎ (((err : GoError) × (r ≡ fail err)) ⊎ ((a : A) × (err : GoError) × (r ≡ fail_with a err)))
Reply-cases (ok a) = inl (a, refl)
Reply-cases (fail err) = inr (inl (err, refl))
Reply-cases (fail_with a err) = inr (inr (a, err, refl))
