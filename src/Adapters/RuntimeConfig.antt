-- ===== src/Adapters/RuntimeConfig.antt =====
-- internal/adapters/runtime/camoufox/config.go and internal/adapters/runtime/cloakbrowser/config.go: the
-- defaults that the configurations of both runtimes have, and how they are filled in.
use browser_automation_byte.Prelude.{
  ℕ, suc, zero, ◌*◌, String, true, false, ◌≡◌, ◌≢◌, refl, inl, inr, str_eq, eq_iff, if◌then◌else◌,
  arith, Bool-cases,
}
use browser_automation_byte.Prelude.Int.{ℤ, pos, negsuc, is_negative, is_positive}
use browser_automation_byte.Core.Times.{Duration}

abbrev pub second : ℕ
second = 1000000000

abbrev pub default_startup_timeout : Duration
default_startup_timeout = pos (30 * second)

abbrev pub default_shutdown_timeout : Duration
default_shutdown_timeout = pos (5 * second)

abbrev pub default_task_timeout : Duration
default_task_timeout = pos (2 * 60 * second)

-- A text, or the default for the empty one
abbrev pub or_default : String → String → String
or_default value default = if str_eq value "" then default else value

-- A time, or the default for zero
abbrev pub or_duration : Duration → Duration → Duration
or_duration (pos zero) default = default
or_duration given default = given

-- `if c.MaxSessions < 1 { c.MaxSessions = 1 }`
abbrev pub at_least_one : ℤ → ℤ
at_least_one n = if is_positive n then n else pos 1

pub or_default-filled : (value default : String) → default ≢ "" → or_default value default ≢ ""
or_default-filled value default h = ground (arith, eq_iff value "")

pub or_duration-positive :
    (given default : Duration)
    → is_positive default ≡ true
    → is_negative (or_duration given default) ≡ false
    → is_positive (or_duration given default) ≡ true
or_duration-positive (pos zero) default d n = d
or_duration-positive (pos (suc k)) default d n = ground arith
or_duration-positive (negsuc k) default d n = cc

pub at_least_one-positive : (n : ℤ) → is_positive (at_least_one n) ≡ true
at_least_one-positive n = elim (Bool-cases (is_positive n)) [
  | inl e ↦ rw (e) e
  | inr e ↦ rw (e) refl
]
