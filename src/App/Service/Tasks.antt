-- ===== src/App/Service/Tasks.antt =====
-- internal/app/task_service.go: how tasks are queued and run.
use browser_automation_byte.Prelude.{String, not, Option, none, some, [], str_eq, if◌then◌else◌}
use browser_automation_byte.Prelude.Int.{ℤ}
use browser_automation_byte.Core.Errors.{GoError}
use browser_automation_byte.Core.Errors.Code
use browser_automation_byte.Core.Reply.{Reply, ok, fail, fail_with}
use browser_automation_byte.Core.Times.{Time, timestamp}
use browser_automation_byte.Core.Messages.{Session, Task, TaskInput, TaskStatus, TaskFilter}
use browser_automation_byte.Core.Status.{is_running}
use browser_automation_byte.Core.Ports.{Store, ListResult, Environment, TaskExecutionResult}
use browser_automation_byte.App.Validation.Checks.{validate_task_input, validation_error, is_empty}
use browser_automation_byte.App.Validation.Command.{validate_commands}
use browser_automation_byte.App.Service.World.{
  Act, ◌>>=◌, ◌>>◌, attempt_only, check, ignore, require, return, raise, raise_with, call_env,
  call_store, read_store, succeed,
}
use browser_automation_byte.App.Service.Helpers.{is_task_not_found, last_error_of}
use browser_automation_byte.App.Service.Sessions.{clock_now, request_id_or_new, not_running}
use browser_automation_byte.App.Service.Lifetime.{get_browser_session}

-- What a lookup by request id answers: the task, or a start if there is none.
module _ {S E : Type 0} where
  abbrev pub existing_or : Reply (Option Task) → Act S E (Option Task) → Act S E (Option Task)
  existing_or (ok existing) start w = (ok existing, w)
  existing_or (fail err) start w = if is_task_not_found err then start w else (fail err, w)
  existing_or (fail_with v err) start w = if is_task_not_found err then start w else (fail err, w)

-- The task that is made for an input.
abbrev pub new_task : String → String → TaskStatus → TaskInput → Time → Option Time → Task
new_task task_id request_id status input time started = record {
  task_id = task_id;
  request_id = request_id;
  status = status;
  input = some input;
  last_error = none;
  artifacts = [];
  results = [];
  labels = input.labels;
  created_at = timestamp time;
  started_at = started;
  updated_at = timestamp time;
  completed_at = none;
}

abbrev pub with_default_key : TaskInput → TaskInput
with_default_key input =
    if str_eq input.task_key "" then record input { task_key = "browser.commands" } else input

-- The error for a session that takes no task, and the one for an input without commands.
abbrev pub running_error : Session → Option GoError
running_error session = if not (is_running session.status) then some not_running else none

abbrev pub no_commands : TaskInput → Option GoError
no_commands input =
    if is_empty input.commands then some (validation_error "commands are required") else none

module _ {S E : Type 0} (store : Store S) (environment : Environment E) where
  open store use {get_task, get_task_by_request_id, list_tasks, create_task, update_task}
  open environment use {new_id, runtime}

  -- `if session.GetStatus() != RUNNING { return nil, … }`
  abbrev pub require_running : Session → Act S E (Unit {0})
  require_running session = require (running_error session)

  -- `StartBrowserTask`, when the task is stored as QUEUED
  unfoldable pub enqueue : Task → Act S E (Option Task)
  enqueue task =
      attempt_only (call_env (runtime.enqueue_task task))
        (λ err. do
          time ← clock_now store environment
          let failed = record task {
            status = TaskStatus.failed;
            last_error = last_error_of err Code.browser_unavailable;
            updated_at = timestamp time;
            completed_at = timestamp time;
          }
          ignore (call_store (update_task (some failed)))
          raise_with (some failed) err)
        (return (some task))

  -- `StartBrowserTask` from the point where all is checked
  unfoldable pub create_queued : String → TaskInput → Act S E (Option Task)
  unfolding enqueue
  create_queued request_id input = do
    time ← clock_now store environment
    request ← request_id_or_new store environment request_id
    task_id ← succeed (call_env (new_id "brtask_"))
    let task = new_task task_id request TaskStatus.queued input time none
    check (call_store (create_task (some task)))
    enqueue task

  -- `StartBrowserTask` for a request that has no task yet
  unfoldable pub start_new_task : String → Option TaskInput → Act S E (Option Task)
  unfolding create_queued
  start_new_task request_id none = raise (validation_error "input is required")
  start_new_task request_id (some input) = do
    require (validate_task_input (some input))
    session ← get_browser_session store environment input.session_id
    require_running session
    create_queued request_id input

  -- `StartBrowserTask`
  unfoldable pub start_browser_task : String → Option TaskInput → Act S E (Option Task)
  unfolding start_new_task is_task_not_found
  start_browser_task request_id input w =
      let start = start_new_task request_id input in
      if not (str_eq request_id "")
      then existing_or (get_task_by_request_id request_id w.stored) start w
      else start w

  -- What `ExecuteBrowserCommands` makes of the runtime's answer.
  unfoldable pub complete : Task → TaskExecutionResult × Option GoError → Act S E (Option Task)
  complete task (result, none) = do
    time ← clock_now store environment
    let succeeded = record task {
      results = result.results;
      artifacts = result.artifacts;
      updated_at = timestamp time;
      completed_at = timestamp time;
      status = TaskStatus.succeeded;
    }
    check (call_store (update_task (some succeeded)))
    return (some succeeded)
  complete task (result, some err) = do
    time ← clock_now store environment
    let failed = record task {
      results = result.results;
      artifacts = result.artifacts;
      updated_at = timestamp time;
      completed_at = timestamp time;
      status = TaskStatus.failed;
      last_error = last_error_of err Code.browser_unavailable;
    }
    ignore (call_store (update_task (some failed)))
    raise_with (some failed) err

  -- `ExecuteBrowserCommands`, when the task is stored as RUNNING
  unfoldable pub execute : Task → Act S E (Option Task)
  unfolding complete
  execute task = do outcome ← succeed (call_env (runtime.execute_task task)); complete task outcome

  -- `ExecuteBrowserCommands` from the point where all is checked
  unfoldable pub create_and_execute : String → TaskInput → Act S E (Option Task)
  unfolding execute
  create_and_execute request_id input = do
    time ← clock_now store environment
    request ← request_id_or_new store environment request_id
    task_id ← succeed (call_env (new_id "brtask_"))
    let task = new_task task_id request TaskStatus.running input time (timestamp time)
    check (call_store (create_task (some task)))
    execute task

  -- `ExecuteBrowserCommands` for a request that has no task yet
  unfoldable pub execute_new_task : String → Option TaskInput → Act S E (Option Task)
  unfolding create_and_execute
  execute_new_task request_id none = raise (validation_error "input is required")
  execute_new_task request_id (some given) = do
    let input = with_default_key given
    require (validate_task_input (some input))
    require (no_commands input)
    require (validate_commands input.commands)
    session ← get_browser_session store environment input.session_id
    require_running session
    create_and_execute request_id input

  -- `ExecuteBrowserCommands`
  unfoldable pub execute_browser_commands : String → Option TaskInput → Act S E (Option Task)
  unfolding execute_new_task is_task_not_found
  execute_browser_commands request_id input w =
      let start = execute_new_task request_id input in
      if not (str_eq request_id "")
      then existing_or (get_task_by_request_id request_id w.stored) start w
      else start w

  -- `GetBrowserTask`
  unfoldable pub get_browser_task : String → Act S E Task
  get_browser_task task_id = read_store (get_task task_id)

  -- `ListBrowserTasks`
  unfoldable pub list_browser_tasks : Option TaskFilter → ℤ → String → Act S E (ListResult Task)
  list_browser_tasks filter page_size page_token =
      read_store (list_tasks filter page_size page_token)
