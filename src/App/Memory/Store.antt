-- ===== src/App/Memory/Store.antt =====
-- `MemoryStore` of internal/app/memory.go: the methods of memory_session.go and memory_task.go.
pub mod Laws
use browser_automation_byte.Prelude.{
  ℕ, String, Bool, true, false, not, ◌&&◌, ◌||◌, Option, none, some, List, Map, lookup, str_eq,
  ◌==◌, if◌then◌else◌,
}
use browser_automation_byte.Prelude.Int.{ℤ}
use browser_automation_byte.Core.Errors.{GoError, new_error}
use browser_automation_byte.Core.Errors.Code
use browser_automation_byte.Core.Reply.{Reply}
use browser_automation_byte.Core.Times.{Time, is_after, proto_time}
use browser_automation_byte.Core.Messages.{
  Session, Task, TaskStatus, TaskFilter, input_session_id, input_task_key, input_scenario_key,
}
use browser_automation_byte.Core.Ports.{Store, ListResult}
use browser_automation_byte.App.Memory.Table
use browser_automation_byte.App.Memory.Table.{Entity, Table, empty}

pub record MemoryStore : Type 0 where
  pub sessions : Table Session
  pub tasks : Table Task

abbrev pub session_entity : Entity Session
session_entity = record {
  id = λ v. v.session_id;
  request_id = λ v. v.request_id;
  listed_at = λ v. v.updated_at;
  id_required = new_error Code.validation_failed "session_id is required" false;
  already_exists = new_error Code.validation_failed "session already exists" false;
  not_found = new_error Code.session_not_found "browser session not found" false;
}

abbrev pub task_entity : Entity Task
task_entity = record {
  id = λ v. v.task_id;
  request_id = λ v. v.request_id;
  listed_at = λ v. v.created_at;
  id_required = new_error Code.validation_failed "task_id is required" false;
  already_exists = new_error Code.validation_failed "task already exists" false;
  not_found = new_error Code.task_not_found "browser task not found" false;
}

-- The number of a `BrowserTaskStatus`, by which two are compared.
unfoldable pub status_number : TaskStatus → ℕ
status_number TaskStatus.unspecified = 0
status_number TaskStatus.queued = 1
status_number TaskStatus.running = 2
status_number TaskStatus.succeeded = 3
status_number TaskStatus.failed = 4
status_number TaskStatus.canceled = 5
status_number TaskStatus.timeout = 6
status_number (TaskStatus.unrecognized n) = n

abbrev label_matches : TaskFilter → Option String → Bool
label_matches f Option.none = false
label_matches f (Option.some value) =
    not (not (str_eq f.label_value "") && not (str_eq value f.label_value))

abbrev not_before : Option Time → Time → Bool
not_before Option.none t = true
not_before (Option.some limit) t = not (is_after limit t)

abbrev not_after : Option Time → Time → Bool
not_after Option.none t = true
not_after (Option.some limit) t = not (is_after t limit)

-- `taskMatches`; the tests are those of the early returns.
unfoldable pub task_matches : Option TaskFilter → Task → Bool
unfolding status_number proto_time
task_matches Option.none task = true
task_matches (Option.some f) task =
    if not (str_eq f.session_id "") && not (str_eq (input_session_id task.input) f.session_id)
    then false
    else if not (status_number f.status == 0)
        && not (status_number task.status == status_number f.status)
    then false
    else if not (str_eq f.task_key "") && not (str_eq (input_task_key task.input) f.task_key)
    then false
    else if not (str_eq f.scenario_key "")
        && not (str_eq (input_scenario_key task.input) f.scenario_key)
    then false
    else if not (str_eq f.label_key "") && not (label_matches f (lookup f.label_key task.labels))
    then false
    else if not (not_before f.created_after (proto_time task.created_at))
    then false
    else not_after f.created_before (proto_time task.created_at)

-- `NewMemoryStore` and `NewMemoryStoreWithData`
unfoldable pub new_memory_store : MemoryStore
unfolding empty
new_memory_store = record { sessions = empty; tasks = empty }

unfoldable pub new_memory_store_with_data : List (Option Session) → List (Option Task) → MemoryStore
unfolding empty Table.load
new_memory_store_with_data sessions tasks = record {
  sessions = Table.load session_entity sessions empty;
  tasks = Table.load task_entity tasks empty;
}

-- `CreateSession`
unfoldable pub create_session : Option Session → MemoryStore → Option GoError × MemoryStore
create_session v s =
    let (err, t) = Table.create session_entity v s.sessions in (err, record s { sessions = t })

-- `GetSession`
unfoldable pub get_session : String → MemoryStore → Reply Session
get_session id s = Table.get session_entity id s.sessions

-- `GetSessionByRequestID`
unfoldable pub get_session_by_request_id : String → MemoryStore → Reply (Option Session)
get_session_by_request_id r s = Table.get_by_request_id session_entity r s.sessions

-- `ListSessions`
unfoldable pub list_sessions : ℤ → String → MemoryStore → Reply (ListResult Session)
list_sessions size token s = Table.list session_entity (λ v. true) size token s.sessions

-- `UpdateSession`
unfoldable pub update_session : Option Session → MemoryStore → Option GoError × MemoryStore
update_session v s =
    let (err, t) = Table.update session_entity v s.sessions in (err, record s { sessions = t })

-- `CreateTask`
unfoldable pub create_task : Option Task → MemoryStore → Option GoError × MemoryStore
create_task v s = let (err, t) = Table.create task_entity v s.tasks in (err, record s { tasks = t })

-- `GetTask`
unfoldable pub get_task : String → MemoryStore → Reply Task
get_task id s = Table.get task_entity id s.tasks

-- `GetTaskByRequestID`
unfoldable pub get_task_by_request_id : String → MemoryStore → Reply (Option Task)
get_task_by_request_id r s = Table.get_by_request_id task_entity r s.tasks

-- `ListTasks`
unfoldable pub list_tasks : Option TaskFilter → ℤ → String → MemoryStore → Reply (ListResult Task)
unfolding task_matches
list_tasks filter size token s = Table.list task_entity (task_matches filter) size token s.tasks

-- `UpdateTask`
unfoldable pub update_task : Option Task → MemoryStore → Option GoError × MemoryStore
update_task v s = let (err, t) = Table.update task_entity v s.tasks in (err, record s { tasks = t })

-- The memory store as the service's `core.Store`.
abbrev pub memory_store : Store MemoryStore
memory_store = record {
  create_session = create_session;
  get_session = get_session;
  get_session_by_request_id = get_session_by_request_id;
  list_sessions = list_sessions;
  update_session = update_session;
  create_task = create_task;
  get_task = get_task;
  get_task_by_request_id = get_task_by_request_id;
  list_tasks = list_tasks;
  update_task = update_task;
}
