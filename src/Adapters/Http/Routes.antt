-- ===== src/Adapters/Http/Routes.antt =====
-- internal/adapters/http/server.go: which request is answered by which call of the service.
use browser_automation_byte.Prelude.{
  zero, String, Bool, false, not, ◌&&◌, Option, none, some, [], str_eq, if◌then◌else◌, trim_space,
}
use browser_automation_byte.Prelude.Int.{ℤ, pos}
use browser_automation_byte.Prelude.Split.{trim_prefix, trim_suffix, strip_prefix, strip_suffix}
use browser_automation_byte.Core.Errors.{GoError, new_error, automation_error}
use browser_automation_byte.Core.Errors.Code
use browser_automation_byte.Core.Reply.{Reply, ok, fail, fail_with, error_of, value_of}
use browser_automation_byte.Core.Times.{duration}
use browser_automation_byte.Core.Messages.{Task, TaskFilter, TaskStatus}
use browser_automation_byte.Core.Ports.{ListResult}
use browser_automation_byte.Core.Requests.{
  StopSessionRequest, AnswerRequest, Response, ListResponse, CommandsResponse, AnswerResponse,
}
use browser_automation_byte.Adapters.Grpc.{task_results}
use browser_automation_byte.Adapters.Http.{
  HttpRequest, HttpResponse, Message, session_message, sessions_message, live_view_message,
  commands_message, task_message, tasks_message, answer_message, Encoding, Files, Read, got,
  refused, forbidden, parse_int, query_get, write_error, write_proto, read_proto, same_origin,
}
use browser_automation_byte.App.Service.World.{World, Act, Call}
use browser_automation_byte.App.Service.LiveView.{LiveView, LiveViewRequest}
use browser_automation_byte.App.Service.Methods.{
  AutomationService, start_session, get_session, list_sessions, stop_session, create_live_view,
  authorize_live_view, execute_commands, get_task, list_tasks,
}
use browser_automation_byte.Platform.Urls.{NetUrl}

-- The pointer that a method returns: nil with an error, unless it returns both.
abbrev pub pointer_of : {A : Type 0} → Reply (Option A) → Option A
pointer_of (ok value) = value
pointer_of (fail err) = none
pointer_of (fail_with value err) = value

-- The list that a method returns: the empty one with an error, unless it returns both.
abbrev pub list_of : {A : Type 0} → Reply (ListResult A) → ListResult A
list_of (ok result) = result
list_of (fail err) = record { items = []; next_page_token = "" }
list_of (fail_with result err) = result

-- The messages that the handlers build of what the service returns: the value and the error, if any.
abbrev pub pointer_response : {A : Type 0} → Reply (Option A) → Response A
pointer_response reply = record {
  value = pointer_of reply;
  error = automation_error (error_of reply);
}

abbrev pub value_response : {A : Type 0} → Reply A → Response A
value_response reply = record { value = value_of reply; error = automation_error (error_of reply) }

abbrev pub listed_response : {A : Type 0} → Reply (ListResult A) → ListResponse A
listed_response reply = record {
  items = (list_of reply).items;
  next_page_token = (list_of reply).next_page_token;
  error = automation_error (error_of reply);
}

abbrev pub executed_response : Reply (Option Task) → CommandsResponse
executed_response reply = record {
  task = pointer_of reply;
  results = task_results (pointer_of reply);
  error = automation_error (error_of reply);
}

abbrev answer_error : GoError → AnswerResponse
answer_error err = record { answer_sdp = ""; answer_type = ""; error = automation_error (some err) }

abbrev answer_or_error : Reply AnswerResponse → AnswerResponse
answer_or_error (ok answer) = answer
answer_or_error (fail err) = answer_error err
answer_or_error (fail_with answer err) = answer_error err

abbrev no_stop_request : StopSessionRequest
no_stop_request = record { session_id = ""; reason = "" }

abbrev no_live_view_request : LiveViewRequest
no_live_view_request = record {
  session_id = "";
  provider = 0;
  ttl = none;
  control_enabled = false;
  max_width = pos 0;
  max_height = pos 0;
}

abbrev or_path_id : String → String → String
or_path_id session_id path_id = if str_eq session_id "" then trim_space path_id else session_id

-- What stands around the server, besides its service: `LiveWebRTCServer.CreateAnswer`, and what a
-- WebSocket does until it is closed, if the upgrade of the connection succeeds.
pub record Web (S E : Type 0) : Type 0 where
  pub encoding : Encoding
  pub files : Files
  pub web_dir : String
  pub net : NetUrl
  pub equal_fold : String → String → Bool
  pub create_answer : LiveView → String → Act S E AnswerResponse
  pub stream : HttpRequest → LiveView → World S E → World S E

module _ {S E B : Type 0} (web : Web S E) (service : AutomationService S E B) where
  open web use {encoding, files, web_dir, net, equal_fold, create_answer, stream}

  -- A method of the service is called, and a message is made of what it returns.
  abbrev answer : {A : Type 0} → Act S E A → (Reply A → Message) → Call S E HttpResponse
  answer act message w = let (reply, after) = act w in (write_proto encoding (message reply), after)

  -- A request's body is read, and the rest is done only if it is valid.
  abbrev with_body : {A : Type 0} → Read A → (A → Call S E HttpResponse) → Call S E HttpResponse
  with_body (got message) handle w = handle message w
  with_body (refused response) handle w = (response, w)

  -- `r.ContentLength != 0 && !readProto(w, r, request)`
  abbrev optional_body : {A : Type 0} → ℤ → A → Read A → Read A
  optional_body (pos zero) empty body = got empty
  optional_body length empty body = body

  -- `startSession`
  unfoldable pub serve_start_session : HttpRequest → Call S E HttpResponse
  unfolding read_proto write_proto
  serve_start_session request =
      with_body (read_proto encoding encoding.read_start request) (λ start.
        answer
          (start_session service start.request_id start.profile (duration start.ttl) start.labels
            start.proxy)
          (λ reply. session_message (pointer_response reply)))

  -- `getSession`
  unfoldable pub serve_get_session : String → Call S E HttpResponse
  unfolding write_proto
  serve_get_session session_id =
      answer (get_session service (trim_space session_id))
        (λ reply. session_message (value_response reply))

  -- `listSessions`
  unfoldable pub serve_list_sessions : HttpRequest → Call S E HttpResponse
  unfolding write_proto parse_int query_get
  serve_list_sessions request =
      answer
        (list_sessions service (parse_int (query_get request.query "page_size"))
          (query_get request.query "page_token"))
        (λ reply. sessions_message (listed_response reply))

  -- `stopSession`
  unfoldable pub serve_stop_session : HttpRequest → String → Call S E HttpResponse
  unfolding read_proto write_proto strip_prefix strip_suffix
  serve_stop_session request path =
      let path_id = trim_suffix (trim_prefix path "/sessions/") "/stop" in
      with_body
        (optional_body request.content_length no_stop_request
          (read_proto encoding encoding.read_stop request))
        (λ stop.
          answer (stop_session service (or_path_id stop.session_id path_id) stop.reason)
            (λ reply. session_message (pointer_response reply)))

  -- `createLiveView`
  unfoldable pub serve_create_live_view : HttpRequest → String → Call S E HttpResponse
  unfolding read_proto write_proto strip_prefix strip_suffix
  serve_create_live_view request path =
      let path_id = trim_suffix (trim_prefix path "/sessions/") "/live" in
      with_body
        (optional_body request.content_length no_live_view_request
          (read_proto encoding encoding.read_live_view request))
        (λ create.
          answer
            (create_live_view service
              (record create { session_id = or_path_id create.session_id path_id }))
            (λ reply. live_view_message (value_response reply)))

  abbrev answer_offer : AnswerRequest → Reply LiveView → Act S E AnswerResponse
  answer_offer request (ok view) w = create_answer view request.offer_sdp w
  answer_offer request (fail err) w = (fail err, w)
  answer_offer request (fail_with view err) w = (fail err, w)

  -- `createLiveWebRTCAnswer`, once the request is read
  unfoldable pub serve_answer : AnswerRequest → String → Call S E HttpResponse
  unfolding write_proto
  serve_answer request path_token w =
      let token =
        if str_eq request.live_view_token ""
        then trim_space path_token
        else request.live_view_token in
      let (view, authorized) = authorize_live_view service token w in
      let (reply, answered) = answer_offer request view authorized in
      if not (str_eq request.offer_type "") && not (str_eq request.offer_type "offer")
      then (
        write_proto encoding (
            answer_message
              (answer_error (new_error Code.validation_failed "offer_type must be offer" false))),
        w,
      )
      else (write_proto encoding (answer_message (answer_or_error reply)), answered)

  -- `createLiveWebRTCAnswer`
  unfoldable pub serve_create_answer : HttpRequest → String → Call S E HttpResponse
  unfolding same_origin write_error read_proto serve_answer strip_prefix strip_suffix
  serve_create_answer request path w =
      if not (same_origin net equal_fold request)
      then (write_error encoding forbidden "origin is not allowed", w)
      else with_body (read_proto encoding encoding.read_answer request)
          (λ offer. serve_answer offer (trim_suffix (trim_prefix path "/live/") "/webrtc/answer")) w

  -- `executeTask`
  unfoldable pub serve_execute_task : HttpRequest → Call S E HttpResponse
  unfolding read_proto write_proto
  serve_execute_task request = with_body (read_proto encoding encoding.read_task request) (λ task.
      answer (execute_commands service task.request_id task.input)
        (λ reply. commands_message (executed_response reply)))

  -- `getTask`
  unfoldable pub serve_get_task : String → Call S E HttpResponse
  unfolding write_proto
  serve_get_task task_id =
      answer (get_task service (trim_space task_id)) (λ reply. task_message (value_response reply))

  -- `listTasks`
  unfoldable pub serve_list_tasks : HttpRequest → Call S E HttpResponse
  unfolding write_proto parse_int query_get
  serve_list_tasks request =
      let get = query_get request.query in
      let filter : TaskFilter = record {
        session_id = get "session_id";
        status = TaskStatus.unspecified;
        task_key = get "task_key";
        scenario_key = get "scenario_key";
        label_key = get "label_key";
        label_value = get "label_value";
        created_after = none;
        created_before = none;
      } in
      answer (list_tasks service (some filter) (parse_int (get "page_size")) (get "page_token"))
        (λ reply. tasks_message (listed_response reply))
