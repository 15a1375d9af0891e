-- ===== src/Adapters/Http/Dispatch.antt =====
-- internal/adapters/http/server.go: `ServeHTTP` and `serveAPI`, which choose a handler by the method and
-- the path.
use browser_automation_byte.Prelude.{some, String, Bool, ◌&&◌, str_eq, if◌then◌else◌}
use browser_automation_byte.Prelude.Split.{
  has_prefix, has_suffix, trim_prefix, strip_prefix, strip_suffix,
}
use browser_automation_byte.Core.Errors.{GoError, automation_error}
use browser_automation_byte.Core.Reply.{Reply, ok, fail, fail_with}
use browser_automation_byte.Adapters.Http.{
  HttpRequest, HttpResponse, json, not_found, streamed, Message, server_message, status_ok,
  write_proto, serve_static,
}
use browser_automation_byte.Adapters.Http.Routes.{
  Web, serve_start_session, serve_list_sessions, serve_get_session, serve_create_live_view,
  serve_create_answer, serve_stop_session, serve_execute_task, serve_list_tasks, serve_get_task,
}
use browser_automation_byte.App.Service.World.{World, Call}
use browser_automation_byte.App.Service.LiveView.{LiveView}
use browser_automation_byte.App.Service.Methods.{AutomationService, authorize_live_view}

-- `BrowserLiveServerMessage` with an error and no frame
abbrev live_error : GoError → Message
live_error err = server_message (automation_error (some err))

-- What `serveAPI` chooses: a handler, with the rest of the path that it takes.
pub data Route : Type 0 where
  start_session list_sessions execute_task list_tasks unknown : Route
  get_session get_task create_live_view create_answer stop_session : String → Route

abbrev is_post : String → Bool
is_post method = str_eq method "POST"

abbrev is_get : String → Bool
is_get method = str_eq method "GET"

-- The switch of `serveAPI`
unfoldable pub route : String → String → Route
unfolding strip_prefix strip_suffix
route method path =
    if is_post method && str_eq path "/sessions"
    then start_session
    else if is_get method && str_eq path "/sessions"
    then list_sessions
    else if is_get method && has_prefix path "/sessions/"
    then get_session (trim_prefix path "/sessions/")
    else if is_post method && has_prefix path "/sessions/" && has_suffix path "/live"
    then create_live_view path
    else if is_post method && has_prefix path "/live/" && has_suffix path "/webrtc/answer"
    then create_answer path
    else if is_post method && has_prefix path "/sessions/" && has_suffix path "/stop"
    then stop_session path
    else if is_post method && str_eq path "/tasks/execute"
    then execute_task
    else if is_get method && str_eq path "/tasks"
    then list_tasks
    else if is_get method && has_prefix path "/tasks/"
    then get_task (trim_prefix path "/tasks/")
    else unknown

module _ {S E B : Type 0} (web : Web S E) (service : AutomationService S E B) where
  -- The handlers of `serveAPI`
  unfoldable pub handle : Route → HttpRequest → Call S E HttpResponse
  unfolding serve_start_session serve_list_sessions serve_get_session serve_create_live_view
      serve_create_answer serve_stop_session serve_execute_task serve_list_tasks serve_get_task
  handle start_session request w = serve_start_session web service request w
  handle list_sessions request w = serve_list_sessions web service request w
  handle (get_session id) request w = serve_get_session web service id w
  handle (create_live_view path) request w = serve_create_live_view web service request path w
  handle (create_answer path) request w = serve_create_answer web service request path w
  handle (stop_session path) request w = serve_stop_session web service request path w
  handle execute_task request w = serve_execute_task web service request w
  handle list_tasks request w = serve_list_tasks web service request w
  handle (get_task id) request w = serve_get_task web service id w
  handle unknown request w = (not_found, w)

  -- `serveAPI`
  unfoldable pub serve_api : HttpRequest → Call S E HttpResponse
  unfolding route handle strip_prefix
  serve_api request =
      handle (route request.method (trim_prefix request.path "/api/browser-automation")) request

  abbrev live_socket : HttpRequest → Reply LiveView × World S E → HttpResponse × World S E
  live_socket request (ok view, w) = (streamed, web.stream request view w)
  live_socket request (fail err, w) = (write_proto web.encoding (live_error err), w)
  live_socket request (fail_with view err, w) = (write_proto web.encoding (live_error err), w)

  -- `serveLiveWebSocket`; what happens on the connection is `stream`.
  unfoldable pub serve_live_web_socket : HttpRequest → String → Call S E HttpResponse
  unfolding write_proto
  serve_live_web_socket request token w = live_socket request (authorize_live_view service token w)

  -- `ServeHTTP`
  unfoldable pub serve_http : HttpRequest → Call S E HttpResponse
  unfolding serve_live_web_socket serve_api serve_static strip_prefix
  serve_http request w =
      let static = serve_static web.files web.web_dir request in
      if has_prefix request.path "/ws/browser-automation/live/"
      then serve_live_web_socket request (trim_prefix request.path "/ws/browser-automation/live/") w
      else if has_prefix request.path "/live/"
      then (static, w)
      else if has_prefix request.path "/api/browser-automation/"
      then serve_api request w
      else if str_eq request.path "/api/health"
      then (json status_ok "{\"status\":\"ok\"}", w)
      else (static, w)
