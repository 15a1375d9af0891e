-- ===== src/Core/Ports.antt =====
-- internal/core/ports.go: what the automation service is built on. A port's state is a type of its
-- own, which its operations take and return; an operation that may be missing is an `Option`.
use browser_automation_byte.Prelude.{
  ℕ, String, ◌≡◌, ◌≢◌, Option, none, some, List, All, if◌then◌else◌, str_eq,
}
use browser_automation_byte.Prelude.Int.{ℤ}
use browser_automation_byte.Core.Errors.{GoError}
use browser_automation_byte.Core.Reply.{Reply, ok}
use browser_automation_byte.Core.Times.{Time}
use browser_automation_byte.Core.Messages.{
  Session, Task, TaskFilter, BrowserKind, CommandResult, Artifact, ProxySelection,
}

-- `SessionListResult` and `TaskListResult`
pub record ListResult (V : Type 0) : Type 0 where
  pub items : List V
  pub next_page_token : String

-- `Store`
pub record Store (S : Type 0) : Type 0 where
  pub create_session : Option Session → S → Option GoError × S
  pub get_session : String → S → Reply Session
  pub get_session_by_request_id : String → S → Reply (Option Session)
  pub list_sessions : ℤ → String → S → Reply (ListResult Session)
  pub update_session : Option Session → S → Option GoError × S
  pub create_task : Option Task → S → Option GoError × S
  pub get_task : String → S → Reply Task
  pub get_task_by_request_id : String → S → Reply (Option Task)
  pub list_tasks : Option TaskFilter → ℤ → String → S → Reply (ListResult Task)
  pub update_task : Option Task → S → Option GoError × S

-- What the service relies on: a write that fails changes nothing, one that succeeds is read back,
-- the update of a stored session succeeds,
-- a new session takes no id that is in use, sessions and tasks do not touch one another, and in a store
-- that `IsValid`, as every operation leaves it, each session stands under its own id and a list
-- holds the sessions as they are stored.
module _ {S : Type 0} (store : Store S) (IsValid : S → Type 0) where
  open store use {
    create_session, get_session, get_session_by_request_id, list_sessions, update_session,
    create_task, get_task, get_task_by_request_id, update_task,
  }

  pub record StoreLaws : Type 0 where
    pub create_session_failed :
        (v : Session) (s : S) (e : GoError)
        → (create_session (some v) s).0 ≡ some e
        → (create_session (some v) s).1 ≡ s
    pub create_session_fresh :
        (v w : Session) (s : S)
        → (create_session (some v) s).0 ≡ none
        → get_session v.session_id s ≢ ok w
    pub get-create_session :
        (v : Session) (s : S) (k : String)
        → (create_session (some v) s).0 ≡ none
        → get_session k (create_session (some v) s).1
          ≡ (if str_eq v.session_id k then ok v else get_session k s)
    pub update_session_failed :
        (v : Session) (s : S) (e : GoError)
        → (update_session (some v) s).0 ≡ some e
        → (update_session (some v) s).1 ≡ s
    pub get-update_session :
        (v : Session) (s : S) (k : String)
        → (update_session (some v) s).0 ≡ none
        → get_session k (update_session (some v) s).1
          ≡ (if str_eq v.session_id k then ok v else get_session k s)
    pub update_session_succeeds :
        (v w : Session) (s : S)
        → get_session v.session_id s ≡ ok w
        → (update_session (some v) s).0 ≡ none
    pub request-update_session :
        (v : Session) (s : S)
        → v.request_id ≢ ""
        → (update_session (some v) s).0 ≡ none
        → get_session_by_request_id v.request_id (update_session (some v) s).1 ≡ ok (some v)
    pub session-create_task :
        (t : Option Task) (s : S) (k : String) → get_session k (create_task t s).1 ≡ get_session k s
    pub session-update_task :
        (t : Option Task) (s : S) (k : String) → get_session k (update_task t s).1 ≡ get_session k s
    pub get-update_task :
        (v : Task) (s : S) (k : String)
        → (update_task (some v) s).0 ≡ none
        → get_task k (update_task (some v) s).1
          ≡ (if str_eq v.task_id k then ok v else get_task k s)
    pub request-update_task :
        (v : Task) (s : S)
        → v.request_id ≢ ""
        → (update_task (some v) s).0 ≡ none
        → get_task_by_request_id v.request_id (update_task (some v) s).1 ≡ ok (some v)
    pub get_session-id :
        (s : S) (k : String) (v : Session) → IsValid s → get_session k s ≡ ok v → v.session_id ≡ k
    pub list_sessions-stored :
        (page_size : ℤ) (page_token : String) (r : ListResult Session) (s : S)
        → IsValid s
        → list_sessions page_size page_token s ≡ ok r
        → All (λ v. (w : Session) → get_session v.session_id s ≡ ok w → w ≡ v) r.items
    pub create_session-IsValid :
        (v : Option Session) (s : S) → IsValid s → IsValid (create_session v s).1
    pub update_session-IsValid :
        (v : Option Session) (s : S) → IsValid s → IsValid (update_session v s).1
    pub create_task-IsValid : (v : Option Task) (s : S) → IsValid s → IsValid (create_task v s).1
    pub update_task-IsValid : (v : Option Task) (s : S) → IsValid s → IsValid (update_task v s).1

-- `TaskExecutionResult`
pub record TaskExecutionResult : Type 0 where
  pub results : List CommandResult
  pub artifacts : List Artifact

-- `RuntimeCapacity`
pub record Capacity (E : Type 0) : Type 0 where
  pub active_session_count : E → ℕ
  pub max_session_count : E → ℤ

-- `Runtime`, with the optional interfaces `RuntimeCapacity` and `RuntimeProfileDefaults`
pub record Runtime (E : Type 0) : Type 0 where
  pub start_session : Session → E → Option GoError × E
  pub stop_session : Session → String → E → Option GoError × E
  pub enqueue_task : Task → E → Option GoError × E
  pub execute_task : Task → E → (TaskExecutionResult × Option GoError) × E
  pub capacity : Option (Capacity E)
  pub default_browser_kind : Option BrowserKind

-- `ProxyController` as the service uses it. `prepare` may write the session's profile.
pub record ProxyController (E : Type 0) : Type 0 where
  pub prepare_session_proxy : Session → Option ProxySelection → E → (Session × Option GoError) × E
  pub release_session_proxy : Session → E → Option GoError × E

-- What stands around the service: the clock, the ids, the runtime and the proxy controller, which
-- may share their state.
pub record Environment (E : Type 0) : Type 0 where
  pub now : E → Time × E
  pub new_id : String → E → String × E
  pub runtime : Runtime E
  pub proxy : Option (ProxyController E)

module _ {E : Type 0} where
  -- What the service relies on of a proxy controller: to prepare a session's proxy changes nothing
  -- of the session but its profile.
  abbrev pub KeepsSession : Option (ProxyController E) → Type 0
  KeepsSession none = Unit
  KeepsSession (some p) =
      (v : Session) (selection : Option ProxySelection) (e : E)
      → (p.prepare_session_proxy v selection e).0.0
        ≡ record v { profile = (p.prepare_session_proxy v selection e).0.0.profile }
