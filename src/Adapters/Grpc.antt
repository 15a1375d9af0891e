-- ===== src/Adapters/Grpc.antt =====
-- internal/adapters/grpc/server.go: each call of the gRPC server is one call of the service, and an
-- error of the service becomes a field of the response.
use browser_automation_byte.Prelude.{String, Option, none, some, List, []}
use browser_automation_byte.Core.Errors.{automation_error}
use browser_automation_byte.Core.Reply.{Reply, ok, fail, fail_with}
use browser_automation_byte.Core.Times.{duration}
use browser_automation_byte.Core.Messages.{Session, Task, CommandResult}
use browser_automation_byte.Core.Ports.{ListResult}
use browser_automation_byte.Core.Requests.{
  StartSessionRequest, StopSessionRequest, ListSessionsRequest, TaskRequest, ListTasksRequest,
  Response, ListResponse, CommandsResponse,
}
use browser_automation_byte.App.Service.World.{Act, Call}
use browser_automation_byte.App.Service.LiveView.{LiveView, LiveViewRequest}
use browser_automation_byte.App.Service.Methods.{
  AutomationService, start_session, get_session, list_sessions, stop_session, create_live_view,
  start_task, execute_commands, get_task, list_tasks,
}

abbrev respond : {S E A R : Type 0} → (Reply A → R) → Act S E A → Call S E R
respond response act w = let (reply, after) = act w in (response reply, after)

-- A method that returns a pointer, which may be nil: its value is sent with its error.
abbrev pub response_of : {A : Type 0} → Reply (Option A) → Response A
response_of (ok value) = record { value = value; error = none }
response_of (fail err) = record { value = none; error = automation_error (some err) }
response_of (fail_with value err) = record { value = value; error = automation_error (some err) }

-- The same, of a pointer that is not nil.
abbrev pub response_with : {A : Type 0} → Reply A → Response A
response_with (ok value) = record { value = some value; error = none }
response_with (fail err) = record { value = none; error = automation_error (some err) }
response_with (fail_with value err) = record {
  value = some value;
  error = automation_error (some err);
}

-- Without the value where there is an error.
abbrev pub response_without : {A : Type 0} → Reply A → Response A
response_without (ok value) = record { value = some value; error = none }
response_without (fail err) = record { value = none; error = automation_error (some err) }
response_without (fail_with value err) = record {
  value = none;
  error = automation_error (some err);
}

abbrev pub list_response : {A : Type 0} → Reply (ListResult A) → ListResponse A
list_response (ok result) = record {
  items = result.items;
  next_page_token = result.next_page_token;
  error = none;
}
list_response (fail err) = record {
  items = [];
  next_page_token = "";
  error = automation_error (some err);
}
list_response (fail_with result err) = record {
  items = [];
  next_page_token = "";
  error = automation_error (some err);
}

-- `taskResults`
unfoldable pub task_results : Option Task → List CommandResult
task_results none = []
task_results (some task) = task.results

-- The response of `ExecuteBrowserCommands`
abbrev pub commands_response : Reply (Option Task) → CommandsResponse
commands_response (ok task) = record { task = task; results = task_results task; error = none }
commands_response (fail err) = record {
  task = none;
  results = task_results none;
  error = automation_error (some err);
}
commands_response (fail_with task err) = record {
  task = task;
  results = task_results task;
  error = automation_error (some err);
}

module _ {S E B : Type 0} (service : AutomationService S E B) where
  unfoldable pub start_browser_session : StartSessionRequest → Call S E (Response Session)
  start_browser_session request = respond response_of (
      start_session service request.request_id request.profile (duration request.ttl) request.labels
        request.proxy)

  unfoldable pub get_browser_session : String → Call S E (Response Session)
  get_browser_session session_id = respond response_without (get_session service session_id)

  unfoldable pub list_browser_sessions : ListSessionsRequest → Call S E (ListResponse Session)
  list_browser_sessions request =
      respond list_response (list_sessions service request.page_size request.page_token)

  unfoldable pub stop_browser_session : StopSessionRequest → Call S E (Response Session)
  stop_browser_session request =
      respond response_of (stop_session service request.session_id request.reason)

  unfoldable pub create_browser_live_view : LiveViewRequest → Call S E (Response LiveView)
  create_browser_live_view request = respond response_with (create_live_view service request)

  unfoldable pub start_browser_task : TaskRequest → Call S E (Response Task)
  start_browser_task request =
      respond response_of (start_task service request.request_id request.input)

  unfoldable pub execute_browser_commands : TaskRequest → Call S E CommandsResponse
  unfolding task_results
  execute_browser_commands request =
      respond commands_response (execute_commands service request.request_id request.input)

  unfoldable pub get_browser_task : String → Call S E (Response Task)
  get_browser_task task_id = respond response_without (get_task service task_id)

  unfoldable pub list_browser_tasks : ListTasksRequest → Call S E (ListResponse Task)
  list_browser_tasks request =
      respond list_response (list_tasks service request.filter request.page_size request.page_token)
