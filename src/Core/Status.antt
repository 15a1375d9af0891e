-- ===== src/Core/Status.antt =====
-- Which statuses are final: the end of internal/core/types.go.
use browser_automation_byte.Prelude.{Bool, true, false, ◌≡◌, ◌⊎◌, ◌↔◌, refl, inl, inr}
use browser_automation_byte.Core.Messages.{SessionStatus, TaskStatus}

-- `SessionStatusIsFinal`
unfoldable pub session_status_is_final : SessionStatus → Bool
session_status_is_final SessionStatus.stopped = true
session_status_is_final SessionStatus.failed = true
session_status_is_final SessionStatus.expired = true
session_status_is_final _ = false

-- `TaskStatusIsFinal`
unfoldable pub task_status_is_final : TaskStatus → Bool
task_status_is_final TaskStatus.succeeded = true
task_status_is_final TaskStatus.failed = true
task_status_is_final TaskStatus.canceled = true
task_status_is_final TaskStatus.timeout = true
task_status_is_final _ = false

-- `status != RUNNING`, negated
abbrev pub is_running : SessionStatus → Bool
is_running SessionStatus.running = true
is_running _ = false

-- STOPPED, FAILED or EXPIRED
abbrev pub IsFinal : SessionStatus → Type 0
IsFinal s = (s ≡ SessionStatus.stopped) ⊎ ((s ≡ SessionStatus.failed) ⊎ (s ≡ SessionStatus.expired))

-- The predicate holds of these three statuses and of no other.
pub session_status_is_final_iff :
    (s : SessionStatus) → (session_status_is_final s ≡ true) ↔ IsFinal s
unfolding session_status_is_final
session_status_is_final_iff s = (named s, meant s)
  where
    named : (s : SessionStatus) → session_status_is_final s ≡ true → IsFinal s
    named SessionStatus.stopped h = inl refl
    named SessionStatus.failed h = inr (inl refl)
    named SessionStatus.expired h = inr (inr refl)
    named _ h = cc

    meant : (s : SessionStatus) → IsFinal s → session_status_is_final s ≡ true
    meant s (inl e) = rw e refl
    meant s (inr (inl e)) = rw e refl
    meant s (inr (inr e)) = rw e refl
