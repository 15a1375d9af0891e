-- ===== src/Cmd/Capacity.antt =====
-- cmd/browser-automation-service/capacity.go: how many sessions the memory allows. The reading of a file is
-- a parameter.
use browser_automation_byte.Prelude.{
  ℕ, ◌-◌, ◌*◌, ◌/◌, ◌^◌, String, true, ◌||◌, ◌≡◌, refl, inl, inr, Option, none, some, str_eq,
  if◌then◌else◌, ltb, leb, trim_space, arith, Bool-cases,
}
use browser_automation_byte.Prelude.Int.{ℤ, pos, negsuc, is_positive}
use browser_automation_byte.Prelude.Decimal.{atoi}

abbrev bytes_per_mib : ℕ
bytes_per_mib = 1024 * 1024

abbrev default_session_memory_mib : ℕ
default_session_memory_mib = 1024

abbrev default_browser_memory_reserve_mib : ℕ
default_browser_memory_reserve_mib = 768

abbrev default_max_concurrent_sessions : ℕ
default_max_concurrent_sessions = 1

abbrev unlimited_cgroup_memory_limit_bytes : ℕ
unlimited_cgroup_memory_limit_bytes = 2 ^ 60

abbrev positive_only : Option ℤ → Option ℕ
positive_only none = none
positive_only (some (negsuc n)) = none
positive_only (some (pos n)) = if ltb 0 n then some n else none

abbrev limit_of_text : String → Option ℕ
limit_of_text value =
    if str_eq value "" || str_eq value "max"
    then some unlimited_cgroup_memory_limit_bytes
    else positive_only (atoi value)

module _ (read_file : String → Option String) where
  -- `readMemoryLimitFile`
  unfoldable pub read_memory_limit_file : String → Option ℕ
  unfolding atoi
  read_memory_limit_file path = elim (read_file path) [
    | none ↦ none
    | some content ↦ limit_of_text (trim_space content)
  ]

  -- `cgroupMemoryLimitBytes`
  unfoldable pub cgroup_memory_limit_bytes : Option ℕ
  unfolding read_memory_limit_file
  cgroup_memory_limit_bytes = elim (read_memory_limit_file "/sys/fs/cgroup/memory.max") [
    | some value ↦ some value
    | none ↦ read_memory_limit_file "/sys/fs/cgroup/memory/memory.limit_in_bytes"
  ]

  -- The sessions that a limit leaves room for, one at least
  abbrev derived : Option ℕ → ℕ
  derived none = default_max_concurrent_sessions
  derived (some limit) =
      let reserve = default_browser_memory_reserve_mib * bytes_per_mib in
      let room = (limit - reserve) / (default_session_memory_mib * bytes_per_mib) in
      if leb limit 0 || leb unlimited_cgroup_memory_limit_bytes limit
      then default_max_concurrent_sessions
      else if leb limit reserve
      then default_max_concurrent_sessions
      else if ltb room default_max_concurrent_sessions
      then default_max_concurrent_sessions
      else room

  -- `deriveMaxConcurrentSessions`
  unfoldable pub derive_max_concurrent_sessions : ℤ → ℤ
  unfolding cgroup_memory_limit_bytes
  derive_max_concurrent_sessions configured =
      if is_positive configured then configured else pos (derived cgroup_memory_limit_bytes)

  derived-positive : (limit : Option ℕ) → is_positive (pos (derived limit)) ≡ true
  derived-positive none = refl
  derived-positive (some limit) = ground arith

  -- However much memory there is, at least one session is allowed.
  pub derive-positive :
      (configured : ℤ) → is_positive (derive_max_concurrent_sessions configured) ≡ true
  unfolding derive_max_concurrent_sessions
  derive-positive configured = elim (Bool-cases (is_positive configured)) [
    | inl e ↦ rw (e, derive_max_concurrent_sessions) e
    | inr e ↦ rw (e, derive_max_concurrent_sessions) (derived-positive cgroup_memory_limit_bytes)
  ]
