-- ===== src/Tests/Servers.antt =====
-- The HTTP server on the automation service with a memory store.
use browser_automation_byte.Prelude.{
  ℕ, suc, String, true, ◌≡◌, refl, Option, none, some, [], ◌∷◌, str_eq, trim_space, if◌then◌else◌,
  ◌==◌,
}
use browser_automation_byte.Prelude.Int.{pos}
use browser_automation_byte.Prelude.Split.{strip_prefix}
use browser_automation_byte.Core.Errors.{plain}
use browser_automation_byte.Core.Reply.{ok, fail}
use browser_automation_byte.Core.Requests.{StartSessionRequest, TaskRequest}
use browser_automation_byte.App.Memory.Store.{MemoryStore, memory_store}
use browser_automation_byte.App.Service.Methods.{AutomationService}
use browser_automation_byte.App.Service.Frames.{LiveFrames}
use browser_automation_byte.Adapters.Grpc
use browser_automation_byte.Adapters.Http.{
  HttpRequest, serve_file, session_message, commands_message, Encoding, Files, got, write_proto,
  read_proto, is_inside, serve_static,
}
use browser_automation_byte.Adapters.Http.Routes.{Web}
use browser_automation_byte.Adapters.Http.Dispatch.{serve_http}
use browser_automation_byte.Adapters.Http.Laws.{
  posted, IsAllowed, serve_http-grpc, serve_static-IsAllowed,
}
use browser_automation_byte.Adapters.Http.Live.{
  tick, Connection, serve_frames, pump_webrtc_frames, read_live_messages,
}
use browser_automation_byte.Adapters.Http.Streams.{
  ErrorsLast, frames-ErrorsLast, read_live_messages-read_only,
}
use browser_automation_byte.Tests.Service.{environment, running_world}
use browser_automation_byte.Tests.LiveView.{view, codec, live}
use browser_automation_byte.Tests.Proxies.{net}

abbrev start : StartSessionRequest
start = record { request_id = "r2"; profile = none; ttl = none; labels = []; proxy = none }

abbrev task : TaskRequest
task = record { request_id = "t2"; input = none }

abbrev encoding : Encoding
encoding = record {
  marshal = λ message. some "message";
  error_json = λ message. none;
  read_all = λ limit request. some request.body;
  read_start = λ s. some start;
  read_stop = λ s. none;
  read_live_view = λ s. none;
  read_answer = λ s. none;
  read_task = λ s. some task;
}

abbrev asset : String
asset = "/web/a.js"

abbrev files : Files
files = record {
  clean = λ path. path;
  join = λ a b. asset;
  is_file = λ path. true;
  exists = λ path. true;
}

abbrev service : AutomationService MemoryStore ℕ String
service = record {
  store = memory_store;
  environment = environment;
  codec = codec;
  live = live;
  default_provider = none;
}

abbrev web : Web MemoryStore ℕ
web = record {
  encoding = encoding;
  files = files;
  web_dir = "/web";
  net = net;
  equal_fold = λ a b. str_eq a b;
  create_answer =
      λ v sdp w. (ok (record { answer_sdp = ""; answer_type = "answer"; error = none }), w);
  stream = λ request v w. w;
}

abbrev request : HttpRequest
request = record {
  method = "GET";
  path = "/a.js";
  origin = "";
  host = "";
  content_length = pos 2;
  query = [];
  body = "{}";
}

start_read :
    read_proto encoding encoding.read_start (posted "/api/browser-automation/sessions" request)
    ≡ got start
unfolding read_proto trim_space
start_read = refl

task_read :
    read_proto encoding encoding.read_task (posted "/api/browser-automation/tasks/execute" request)
    ≡ got task
unfolding read_proto trim_space
task_read = refl

serve_http-grpc_example :
    (serve_http web service (posted "/api/browser-automation/sessions" request) running_world ≡ (
      let (response, after) = Grpc.start_browser_session service start running_world in
      (write_proto encoding (session_message response), after)))
    × (serve_http web service (posted "/api/browser-automation/tasks/execute" request) running_world
        ≡ (let (response, after) = Grpc.execute_browser_commands service task running_world in
            (write_proto encoding (commands_message response), after)))
serve_http-grpc_example =
    serve_http-grpc web service request start task running_world start_read task_read

served : serve_static files "/web" request ≡ serve_file asset
unfolding serve_static is_inside strip_prefix
served = refl

serve_static-IsAllowed_example : IsAllowed files "/web" asset
serve_static-IsAllowed_example = serve_static-IsAllowed files "/web" request asset served

-- The state counts what reaches the runtime; the second frame fails.
abbrev frames : Option (LiveFrames ℕ String String)
frames = some (record {
  capture_live_frame = λ id v n e. (if n == 2 then fail (plain "gone") else ok "frame", suc e);
  dispatch_live_input = λ id event e. (none, suc e);
})

abbrev connection : Connection ℕ String String
connection = record {
  marshal = λ message. ok "m";
  send = λ s e. (none, e);
  is_open = λ e. true;
  unmarshal = λ s. some (some s);
}

read_live_messages-read_only_example :
    read_live_messages frames connection view ("click" ∷ "type" ∷ []) 5 ≡ 5
read_live_messages-read_only_example =
    read_live_messages-read_only frames connection view refl ("click" ∷ "type" ∷ []) 5

frames-ErrorsLast_example :
    ErrorsLast (serve_frames frames connection view (tick ∷ tick ∷ tick ∷ []) 0).0
    × ErrorsLast (pump_webrtc_frames frames connection view (tick ∷ tick ∷ tick ∷ []) 0).0
frames-ErrorsLast_example = frames-ErrorsLast frames connection view (tick ∷ tick ∷ tick ∷ []) 0
