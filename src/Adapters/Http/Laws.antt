-- ===== src/Adapters/Http/Laws.antt =====
-- internal/adapters/http/server.go: the HTTP server answers as the gRPC server does, and serves no file
-- from outside its directory.
use browser_automation_byte.Prelude.{
  String, true, ◌≡◌, ◌⊎◌, refl, inl, inr, Option, str_eq, eq_iff, if◌then◌else◌, arith, Bool-cases,
}
use browser_automation_byte.Prelude.Split.{trim_prefix, has_prefix}
use browser_automation_byte.Prelude.Split.Laws.{has_prefix-append}
use Prim.Native.String.{◌++◌ as str_append}
use browser_automation_byte.Core.Errors.{automation_error}
use browser_automation_byte.Core.Reply.{Reply, ok, fail, fail_with}
use browser_automation_byte.Core.Times.{duration}
use browser_automation_byte.Core.Messages.{Task}
use browser_automation_byte.Core.Requests.{StartSessionRequest, TaskRequest}
use browser_automation_byte.Adapters.Grpc
use browser_automation_byte.Adapters.Grpc.{response_of, commands_response}
use browser_automation_byte.Adapters.Http.{
  HttpRequest, serve_file, session_message, commands_message, Files, got, write_proto, read_proto,
  is_inside, serve_file_at, serve_static,
}
use browser_automation_byte.Adapters.Http.Routes.{Web, pointer_response, executed_response}
use browser_automation_byte.Adapters.Http.Dispatch.{serve_http}
use browser_automation_byte.App.Service.World.{World}
use browser_automation_byte.App.Service.Methods.{AutomationService, start_session, execute_commands}

pointer_response-response_of :
    {A : Type 0} (reply : Reply (Option A)) → pointer_response reply ≡ response_of reply
unfolding automation_error
pointer_response-response_of (ok value) = refl
pointer_response-response_of (fail err) = refl
pointer_response-response_of (fail_with value err) = refl

executed_response-commands_response :
    (reply : Reply (Option Task)) → executed_response reply ≡ commands_response reply
unfolding automation_error
executed_response-commands_response (ok task) = refl
executed_response-commands_response (fail err) = refl
executed_response-commands_response (fail_with task err) = refl

-- A request with another method and another path.
abbrev pub posted : String → HttpRequest → HttpRequest
posted path request = record request { method = "POST"; path = path }

module _ {S E B : Type 0} (web : Web S E) (service : AutomationService S E B) where
  -- A POST of a readable request to /sessions is answered by what the gRPC server answers to that
  -- request, encoded.
  serve_http-start :
      (given : HttpRequest) (start : StartSessionRequest) (w : World S E)
      → let request = posted "/api/browser-automation/sessions" given in
        read_proto web.encoding web.encoding.read_start request ≡ got start
        → serve_http web service request w ≡ (
            let (response, after) = Grpc.start_browser_session service start w in
            (write_proto web.encoding (session_message response), after))
  unfolding serve_http Grpc.start_browser_session
  serve_http-start given start w r =
      rw (r, serve_http)
        (rw
          (pointer_response-response_of
            (start_session service start.request_id start.profile (duration start.ttl) start.labels
              start.proxy w).0)
          refl)

  -- A POST of a readable request to /tasks/execute is answered by what the gRPC server answers to that
  -- request, encoded.
  serve_http-execute :
      (given : HttpRequest) (task : TaskRequest) (w : World S E)
      → let request = posted "/api/browser-automation/tasks/execute" given in
        read_proto web.encoding web.encoding.read_task request ≡ got task
        → serve_http web service request w ≡ (
            let (response, after) = Grpc.execute_browser_commands service task w in
            (write_proto web.encoding (commands_message response), after))
  unfolding serve_http Grpc.execute_browser_commands
  serve_http-execute given task w r =
      rw (r, serve_http)
        (rw
          (executed_response-commands_response
            (execute_commands service task.request_id task.input w).0)
          refl)

  -- A POST of a readable request to /sessions or to /tasks/execute is answered by what the gRPC server
  -- answers to that request, encoded, and the service is left as that call leaves it.
  pub serve_http-grpc :
      (given : HttpRequest) (start : StartSessionRequest) (task : TaskRequest) (w : World S E)
      → let starting = posted "/api/browser-automation/sessions" given in
        read_proto web.encoding web.encoding.read_start starting ≡ got start
        → let executing = posted "/api/browser-automation/tasks/execute" given in
          read_proto web.encoding web.encoding.read_task executing ≡ got task
          → (serve_http web service starting w ≡ (
              let (response, after) = Grpc.start_browser_session service start w in
              (write_proto web.encoding (session_message response), after)))
            × (serve_http web service executing w ≡ (
                let (response, after) = Grpc.execute_browser_commands service task w in
                (write_proto web.encoding (commands_message response), after)))
  serve_http-grpc given start task w s t =
      (serve_http-start given start w s, serve_http-execute given task w t)

module _ (files : Files) (web_dir : String) where
  -- The index of the directory, the directory itself, or a path that begins with the directory's and a
  -- slash
  abbrev pub IsAllowed : String → Type 0
  IsAllowed file =
      (file ≡ files.join web_dir "index.html")
      ⊎ ((file ≡ files.clean web_dir)
          ⊎ ((rest : String) × (file ≡ str_append (str_append (files.clean web_dir) "/") rest)))

  is_inside-IsAllowed :
      (file : String) → is_inside (files.clean web_dir) file ≡ true → IsAllowed file
  unfolding is_inside
  is_inside-IsAllowed file h =
      let root = files.clean web_dir in
      elim (Bool-cases (has_prefix file (str_append root "/"))) [
        | inl e ↦ inr (inr (has_prefix-append file (str_append root "/") e))
        | inr e ↦ inr (inl (ground (arith, eq_iff file root)))
      ]

  serve_file_at-IsAllowed :
      (asked file : String) → serve_file_at files web_dir asked ≡ serve_file file → IsAllowed file
  unfolding serve_file_at
  serve_file_at-IsAllowed asked file h = elim (Bool-cases (is_inside (files.clean web_dir) asked)) [
    | inr i ↦ absurd (ground arith)
    | inl i ↦ elim (Bool-cases (files.is_file asked)) [
      | inl f ↦ let same : asked ≡ file = ground arith in is_inside-IsAllowed file (rw (← same) i)
      | inr f ↦ elim (Bool-cases (files.exists (files.join web_dir "index.html"))) [
        | inl e ↦ inl (ground arith)
        | inr e ↦ absurd (ground arith)
      ]
    ]
  ]

  -- A file that `serveStatic` serves is the index of its directory, or lies in the directory: its path is
  -- the directory's, or begins with that and a slash.
  pub serve_static-IsAllowed :
      (request : HttpRequest) (file : String)
      → serve_static files web_dir request ≡ serve_file file
      → IsAllowed file
  unfolding serve_static
  serve_static-IsAllowed request file h =
      let cleaned = files.clean (trim_prefix request.path "/") in
      let path = if str_eq cleaned "." then "index.html" else cleaned in
      elim (Bool-cases (str_eq web_dir "")) [
        | inl e ↦ absurd (ground arith)
        | inr e ↦ serve_file_at-IsAllowed (files.join web_dir path) file (rw (e, serve_static) at h)
      ]
