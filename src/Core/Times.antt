-- ===== src/Core/Times.antt =====
-- Go's `time.Time`, `time.Duration` and the wire's timestamps and durations. A time is its distance
-- from the zero time, 1 January of the year 1, in nanoseconds; no earlier time has a wire form.
use browser_automation_byte.Prelude.{
  ℕ, ◌+◌, ◌*◌, Option, none, some, Bool, ltb, ◌==◌, if◌then◌else◌,
}
use browser_automation_byte.Prelude.Int.{ℤ, pos, to_ℕ}

abbrev pub Time : Type 0
Time = ℕ

-- The zero time, `time.Time{}`.
abbrev pub zero_time : Time
zero_time = 0

-- `t.After(u)`; `t.Before(u)` is `is_after u t`.
abbrev pub is_after : Time → Time → Bool
is_after t u = ltb u t

-- In nanoseconds; an `int64` as large as these is far from its bounds.
abbrev pub Duration : Type 0
Duration = ℤ

abbrev pub minute : ℕ
minute = 60 * 1_000_000_000

-- `t.Add(d)` where `d` is not negative.
abbrev pub add : Time → Duration → Time
add t d = t + to_ℕ d

-- `timestamp` of internal/app/proto_helpers.go: the zero time has no wire form.
unfoldable pub timestamp : Time → Option Time
timestamp value = if value == zero_time then none else some value

-- `protoTime` of internal/app/memory_helpers.go
unfoldable pub proto_time : Option Time → Time
proto_time none = zero_time
proto_time (some t) = t

-- `duration` of internal/app/proto_helpers.go
unfoldable pub duration : Option Duration → Duration
duration none = pos 0
duration (some d) = d
