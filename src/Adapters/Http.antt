-- ===== src/Adapters/Http.antt =====
-- internal/adapters/http/server.go: what the HTTP server reads and writes. The reading of a request's
-- body up to a limit, proto JSON, `net/url`, `strings.EqualFold`, `path/filepath` and the files under
-- the directory of the console are parameters.
pub mod Routes
pub mod Dispatch
pub mod Live
pub mod Laws
pub mod Streams
use browser_automation_byte.Prelude.{
  ℕ, ◌+◌, ◌-◌, ◌*◌, ◌%◌, ◌^◌, String, Bool, true, false, not, ◌&&◌, ◌||◌, Option, none, some, Map,
  lookup, str_eq, if◌then◌else◌, trim_space, ltb, ◌==◌,
}
use browser_automation_byte.Prelude.Int.{ℤ, pos, as_int64}
use browser_automation_byte.Prelude.Decimal.{is_digit}
use browser_automation_byte.Prelude.Split.{has_prefix, trim_prefix, strip_prefix}
use Prim.Native.Char.{code}
use Prim.Native.String.{◌++◌ as str_append}
use browser_automation_byte.Core.Errors.{AutomationError}
use browser_automation_byte.Core.Messages.{Session, Task}
use browser_automation_byte.Core.Requests.{
  StartSessionRequest, StopSessionRequest, TaskRequest, AnswerRequest, Response, ListResponse,
  CommandsResponse, AnswerResponse,
}
use browser_automation_byte.App.Service.LiveView.{LiveView, LiveViewRequest}
use browser_automation_byte.Platform.Urls.{Url, NetUrl}

-- `http.Request`: the method, the path of its url, the headers `Origin` and `Host`, the length of the
-- body, the values of the query and the body.
pub record HttpRequest : Type 0 where
  pub method : String
  pub path : String
  pub origin : String
  pub host : String
  pub content_length : ℤ
  pub query : Map String
  pub body : String

-- What is written: JSON with a status, an answer that there is nothing, a file, or, once a connection is
-- a WebSocket, what is sent on it.
pub data HttpResponse : Type 0 where
  json : ℕ → String → HttpResponse
  not_found : HttpResponse
  serve_file : String → HttpResponse
  streamed : HttpResponse

-- The messages that the server encodes; that of a live view's server is one without a frame.
pub data Message : Type 0 where
  session_message : Response Session → Message
  sessions_message : ListResponse Session → Message
  live_view_message : Response LiveView → Message
  commands_message : CommandsResponse → Message
  task_message : Response Task → Message
  tasks_message : ListResponse Task → Message
  answer_message : AnswerResponse → Message
  server_message : Option AutomationError → Message

-- Proto JSON, `json.Marshal` of an error's text, and the reading of at most some bytes of a body
pub record Encoding : Type 0 where
  pub marshal : Message → Option String
  pub error_json : String → Option String
  pub read_all : ℕ → HttpRequest → Option String
  pub read_start : String → Option StartSessionRequest
  pub read_stop : String → Option StopSessionRequest
  pub read_live_view : String → Option LiveViewRequest
  pub read_answer : String → Option AnswerRequest
  pub read_task : String → Option TaskRequest

-- `filepath.Clean`, `filepath.Join`, and whether a file is there that is no directory, or anything
pub record Files : Type 0 where
  pub clean : String → String
  pub join : String → String → String
  pub is_file : String → Bool
  pub exists : String → Bool

abbrev pub max_request_body_bytes : ℕ
max_request_body_bytes = 8 * 1024 * 1024

abbrev pub status_ok : ℕ
status_ok = 200

abbrev pub bad_request : ℕ
bad_request = 400

abbrev pub forbidden : ℕ
forbidden = 403

abbrev pub internal_error : ℕ
internal_error = 500

-- The loop of `parseInt`; the number wraps.
unfoldable pub parse_digits : String → ℕ → ℤ
unfolding is_digit
parse_digits String.[] out = as_int64 out
parse_digits (String.◌∷◌ c s) out =
    let rest = parse_digits s ((out * 10 + (code c - b'0')) % 2 ^ 64) in
    if is_digit c then rest else pos 0

-- `parseInt`
unfoldable pub parse_int : String → ℤ
unfolding parse_digits
parse_int value = parse_digits (trim_space value) 0

-- `query.Get`
unfoldable pub query_get : Map String → String → String
query_get query key = elim (lookup key query) [ none ↦ "" | some value ↦ value ]

-- What `readProto` gives: the message, or the error that it has written.
pub data Read (A : Type 0) : Type 0 where
  got : A → Read A
  refused : HttpResponse → Read A

module _ (encoding : Encoding) where
  open encoding use {marshal, error_json, read_all}

  abbrev or_constant : Option String → String
  or_constant none = "{\"error\":\"internal\"}"
  or_constant (some payload) = payload

  -- `writeError`
  unfoldable pub write_error : ℕ → String → HttpResponse
  write_error status message = json status (or_constant (error_json message))

  abbrev written : Option String → HttpResponse
  written none = write_error internal_error "response encode failed"
  written (some data_text) = json status_ok data_text

  -- `writeProto`
  unfoldable pub write_proto : Message → HttpResponse
  unfolding write_error
  write_proto message = written (marshal message)

  module _ {A : Type 0} (unmarshal : String → Option A) where
    abbrev decoded_body : Option A → Read A
    decoded_body none = refused (write_error bad_request "request body is not valid proto JSON")
    decoded_body (some message) = got message

    abbrev read_text : Option String → Read A
    read_text none = refused (write_error bad_request "request body is invalid")
    read_text (some data_text) =
        if str_eq (trim_space data_text) ""
        then refused (write_error bad_request "request body is required")
        else decoded_body (unmarshal data_text)

    -- `readProto`
    unfoldable pub read_proto : HttpRequest → Read A
    unfolding write_error
    read_proto request = read_text (read_all max_request_body_bytes request)

abbrev origin_matches : (String → String → Bool) → String → Option Url → Bool
origin_matches equal_fold host none = false
origin_matches equal_fold host (some parsed) = equal_fold parsed.host host

-- `sameOrigin`
unfoldable pub same_origin : NetUrl → (String → String → Bool) → HttpRequest → Bool
same_origin net equal_fold request =
    if str_eq request.origin ""
    then true
    else origin_matches equal_fold request.host (net.parse request.origin)

-- Whether a path is that of a directory or lies in it.
unfoldable pub is_inside : String → String → Bool
unfolding strip_prefix
is_inside root file = has_prefix file (str_append root "/") || str_eq file root

-- `serveStatic`, with the path of the file
unfoldable pub serve_file_at : Files → String → String → HttpResponse
unfolding is_inside
serve_file_at files web_dir file =
    let index = files.join web_dir "index.html" in
    if not (is_inside (files.clean web_dir) file)
    then not_found
    else if files.is_file file
    then serve_file file
    else if files.exists index
    then serve_file index
    else not_found

-- `serveStatic`, with the directory of the console, which is trimmed
unfoldable pub serve_static : Files → String → HttpRequest → HttpResponse
unfolding serve_file_at strip_prefix
serve_static files web_dir request =
    let cleaned = files.clean (trim_prefix request.path "/") in
    let path = if str_eq cleaned "." then "index.html" else cleaned in
    if str_eq web_dir "" then not_found else serve_file_at files web_dir (files.join web_dir path)
