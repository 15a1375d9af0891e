-- ===== src/Adapters/Cloakbrowser.antt =====
-- internal/adapters/runtime/cloakbrowser/runtime_core.go: the workers that the runtime keeps. A start looks
-- at the map under the lock, starts a worker without it, and takes it again to keep the worker: `look`,
-- `begin_worker` and `commit`. A stop and a shutdown take workers out of the map under the lock and stop
-- them without it: `take_worker` and `finish_stop`, and `take_workers` and `stop_each`. Other calls may
-- come between these steps. A worker is a value of a type `H`; what the processes, the files and the proxy
-- controller keep is of a type `E`.
pub mod Config
pub mod Steps
pub mod Counted
pub mod Workers
use browser_automation_byte.Prelude.{
  ℕ, String, Bool, true, false, not, Option, none, some, List, [], ◌∷◌, Map, lookup, insert, erase,
  length, leb, str_eq, if◌then◌else◌,
}
use browser_automation_byte.Core.Errors.{GoError, joined, new_error, error_text}
use browser_automation_byte.Core.Errors.Code
use browser_automation_byte.Core.Reply.{Reply, ok, fail, fail_with, ◌then_check◌}
use browser_automation_byte.Core.Messages.{
  Session, SessionStatus, BrowserKind, Task, TaskInput, profile_browser_kind, input_session_id,
}
use browser_automation_byte.Core.Ports.{TaskExecutionResult}

-- What the runtime calls: `os.MkdirAll`, the proxy controller, the start, the stop and the task of a
-- worker.
pub record Outside (H E : Type 0) : Type 0 where
  pub make_artifacts_dir : E → Option GoError × E
  pub resolve_session_proxy : Session → E → Reply String × E
  pub release_session_proxy : Session → E → Option GoError × E
  pub start_worker : Session → String → E → Reply H × E
  pub stop_worker : H → E → Option GoError × E
  pub execute_task : H → Task → E → (TaskExecutionResult × Option GoError) × E

-- `Runtime`, with `MaxSessions` of its configuration, and the state of what it calls
pub record CloakRuntime (H E : Type 0) : Type 0 where
  pub max_sessions : ℕ
  pub sessions : Map H
  pub outside : E

abbrev pub is_chromium : BrowserKind → Bool
is_chromium BrowserKind.chromium = true
is_chromium _ = false

abbrev exhausted : GoError
exhausted = new_error Code.capacity_unavailable "browser session capacity is exhausted" true

abbrev wrong_kind : GoError
wrong_kind =
    new_error Code.unsupported_operation "cloakbrowser runtime supports chromium browser kind" false

abbrev pub is_present {ℓ} : {A : Type ℓ} → Option A → Bool
is_present none = false
is_present (some a) = true

-- How the first step of a start ends: the start returns, or it has a worker.
pub data Launch (H : Type 0) : Type 0 where
  returned : Option GoError → Launch H
  started : H → Launch H

-- A session of which only the id is known, as `Shutdown` makes it
abbrev pub session_of_id : String → Session
session_of_id id = record {
  session_id = id;
  request_id = "";
  status = SessionStatus.unspecified;
  profile = none;
  last_error = none;
  artifacts = [];
  labels = [];
  created_at = none;
  started_at = none;
  updated_at = none;
  stopped_at = none;
  expires_at = none;
}

-- `errors.Join`
abbrev pub join_errors : Option GoError → Option GoError → Option GoError
join_errors none err = err
join_errors (some first) none = some first
join_errors (some first) (some second) = some (joined first second)

module _ {H E : Type 0} (port : Outside H E) where
  open port use {
    make_artifacts_dir, resolve_session_proxy, release_session_proxy, start_worker, stop_worker,
  }

  -- `ActiveSessionCount`
  unfoldable pub cloak_session_count : CloakRuntime H E → ℕ
  cloak_session_count r = length r.sessions

  abbrev pub worker_started : Session → CloakRuntime H E → Reply H × E → Launch H × CloakRuntime H E
  worker_started session r (ok worker, e) = (started worker, record r { outside = e })
  worker_started session r (fail err, e) =
      (returned (some err), record r { outside = (release_session_proxy session e).1 })
  worker_started session r (fail_with worker err, e) =
      (returned (some err), record r { outside = (release_session_proxy session e).1 })

  abbrev pub proxy_resolved :
      Session → CloakRuntime H E → Reply String × E → Launch H × CloakRuntime H E
  proxy_resolved session r (ok url, e) = worker_started session r (start_worker session url e)
  proxy_resolved session r (fail err, e) = (
    returned (some (new_error Code.proxy_failed (error_text err) false)),
    record r { outside = e },
  )
  proxy_resolved session r (fail_with url err, e) = (
    returned (some (new_error Code.proxy_failed (error_text err) false)),
    record r { outside = e },
  )

  abbrev pub dir_made :
      Session → CloakRuntime H E → Option GoError × E → Launch H × CloakRuntime H E
  dir_made session r (none, e) = proxy_resolved session r (resolve_session_proxy session e)
  dir_made session r (some err, e) =
      (returned (some (new_error Code.internal (error_text err) true)), record r { outside = e })

  -- The beginning of `StartSession` on a session that is not nil, which ends under the lock: what it returns,
  -- if it returns
  unfoldable pub look : Session → CloakRuntime H E → Option (Option GoError)
  look session r =
      if not (is_chromium (profile_browser_kind session.profile))
      then some (some wrong_kind)
      else if is_present (lookup session.session_id r.sessions)
      then some none
      else if leb r.max_sessions (length r.sessions)
      then some (some exhausted)
      else none

  -- The middle of `StartSession`, without the lock
  unfoldable pub begin_worker : Session → CloakRuntime H E → Launch H × CloakRuntime H E
  unfolding error_text
  begin_worker session r = dir_made session r (make_artifacts_dir r.outside)

  abbrev pub looked :
      Session → Option (Option GoError) → CloakRuntime H E → Launch H × CloakRuntime H E
  looked session (some err) r = (returned err, r)
  looked session none r = begin_worker session r

  -- `StartSession` until a worker is there, when no other call comes between its steps
  unfoldable pub launch : Session → CloakRuntime H E → Launch H × CloakRuntime H E
  unfolding look begin_worker
  launch session r = looked session (look session r) r

  -- A worker that is not kept is stopped, and its proxy is released.
  abbrev pub discard : Session → H → CloakRuntime H E → CloakRuntime H E
  discard session worker r = record r {
    outside = (release_session_proxy session (stop_worker worker r.outside).1).1;
  }

  -- The end of `StartSession`, under the lock, with the worker
  unfoldable pub commit : Session → H → CloakRuntime H E → Option GoError × CloakRuntime H E
  commit session worker r =
      if is_present (lookup session.session_id r.sessions)
      then (none, discard session worker r)
      else if leb r.max_sessions (length r.sessions)
      then (some exhausted, discard session worker r)
      else (none, record r { sessions = insert session.session_id worker r.sessions })

  abbrev pub committed : Session → Launch H × CloakRuntime H E → Option GoError × CloakRuntime H E
  committed session (returned err, r) = (err, r)
  committed session (started worker, r) = commit session worker r

  -- `StartSession` on a session that is not nil, when no other call comes between its steps
  unfoldable pub start_session : Session → CloakRuntime H E → Option GoError × CloakRuntime H E
  unfolding launch commit
  start_session session r = committed session (launch session r)

  -- The part of `StopSession` on a session that is not nil under the lock
  unfoldable pub take_worker : Session → CloakRuntime H E → Option H × CloakRuntime H E
  take_worker session r = (
    lookup session.session_id r.sessions,
    record r { sessions = erase session.session_id r.sessions },
  )

  -- The rest of `StopSession`, with the worker that was taken
  unfoldable pub finish_stop :
      Session → Option H → CloakRuntime H E → Option GoError × CloakRuntime H E
  finish_stop session none r =
      let (err, e) = release_session_proxy session r.outside in (err, record r { outside = e })
  finish_stop session (some worker) r =
      let (stop_err, stopped) = stop_worker worker r.outside in
      let (release_err, released) = release_session_proxy session stopped in
      (stop_err then_check release_err, record r { outside = released })

  -- `StopSession` on a session that is not nil, when no other call comes between its steps
  unfoldable pub stop_session : Session → CloakRuntime H E → Option GoError × CloakRuntime H E
  unfolding take_worker finish_stop
  stop_session session r = finish_stop session (take_worker session r).0 (take_worker session r).1

  -- The part of `Shutdown` under the lock
  unfoldable pub take_workers : CloakRuntime H E → Map H × CloakRuntime H E
  take_workers r = (r.sessions, record r { sessions = [] })

  -- The loop of `Shutdown`
  unfoldable pub stop_each : Map H → Option GoError → E → Option GoError × E
  stop_each [] result e = (result, e)
  stop_each ((id, worker) ∷ workers) result e =
      let (stop_err, stopped) = stop_worker worker e in
      let (release_err, released) = release_session_proxy (session_of_id id) stopped in
      stop_each workers (join_errors (join_errors result stop_err) release_err) released

  -- `Shutdown`, when no other call comes between its steps
  unfoldable pub shutdown : CloakRuntime H E → Option GoError × CloakRuntime H E
  unfolding take_workers stop_each
  shutdown r =
      let (workers, emptied) = take_workers r in
      let (err, e) = stop_each workers none emptied.outside in (err, record emptied { outside = e })

  abbrev executed :
      Task → Option H → CloakRuntime H E → (TaskExecutionResult × Option GoError) × CloakRuntime H E
  executed task none r = (
    (
      record { results = []; artifacts = [] },
      some (new_error Code.browser_unavailable "cloakbrowser session runtime is not running" true),
    ),
    r,
  )
  executed task (some worker) r =
      let (result, e) = port.execute_task worker task r.outside in
      (result, record r { outside = e })

  -- `ExecuteTask` on a task that is not nil
  unfoldable pub execute_task :
      Task → CloakRuntime H E → (TaskExecutionResult × Option GoError) × CloakRuntime H E
  execute_task task r = elim task.input [
    | none ↦ (
      (
        record { results = []; artifacts = [] },
        some (new_error Code.validation_failed "task input is required" false),
      ),
      r,
    )
    | some input ↦ executed task (lookup input.session_id r.sessions) r
  ]
