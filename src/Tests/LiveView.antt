-- ===== src/Tests/LiveView.antt =====
-- Live views, proxies and the noop runtime at concrete inputs.
use browser_automation_byte.Prelude.{
  ℕ, String, true, false, ◌≡◌, refl, Option, none, some, [], ◌∷◌, str_eq, lookup, insert,
  trim_space, if◌then◌else◌,
}
use browser_automation_byte.Prelude.Int.{pos}
use browser_automation_byte.Core.Reply.{ok}
use browser_automation_byte.Core.Times.{Time, timestamp}
use browser_automation_byte.Core.Status.{session_status_is_final}
use browser_automation_byte.Core.Messages.{Session, Task, TaskStatus}
use browser_automation_byte.Core.Ports.{KeepsSession}
use browser_automation_byte.App.Validation.Checks.{validate_profile}
use browser_automation_byte.App.Memory.Table
use browser_automation_byte.App.Memory.Store.{
  MemoryStore, memory_store, new_memory_store, create_session, get_session,
  get_session_by_request_id, update_session,
}
use browser_automation_byte.App.Memory.Store.Laws.{memory_store-StoreLaws}
use browser_automation_byte.App.Service.World.{World}
use browser_automation_byte.App.Service.Helpers.{
  is_session_not_found, clone_profile, default_browser_kind, ensure_session_capacity,
}
use browser_automation_byte.App.Service.Sessions.{
  prepare_session_proxy, mark_running, launch_session, create_and_launch, start_new_session,
  start_browser_session,
}
use browser_automation_byte.App.Service.Lifetime.{
  get_browser_session, expire_session_if_needed, is_due,
}
use browser_automation_byte.App.Service.LiveView.{
  LiveView, LiveRuntime, Codec, cut, verify_live_view, authorize_browser_live_view,
}
use browser_automation_byte.App.Service.Authorizing.{IsAuthorized, authorize-IsAuthorized}
use browser_automation_byte.Adapters.Proxy.{Controller, State, proxy_controller, resolve, release}
use browser_automation_byte.Adapters.Proxy.Laws.{controller-KeepsSession, release-resolve}
use browser_automation_byte.Tests.Service.{
  environment, running_world, running, running_world-IsConsistent,
}

abbrev pub view : LiveView
view = record {
  live_view_id = "brlive_";
  session_id = "brsess_";
  provider = 1;
  url = "";
  websocket_url = "";
  webrtc_url = "";
  control_enabled = false;
  max_width = pos 1280;
  max_height = pos 900;
  created_at = timestamp 20;
  expires_at = timestamp 90;
}

-- Payloads are texts, the payload of every view is "p", and every signature is "s".
abbrev pub codec : Codec String
codec = record {
  marshal = λ v. ok "p";
  unmarshal = λ b. some view;
  encode = λ b. b;
  decode = λ t. some t;
  signature = λ b. "s";
  equal = λ a b. str_eq a b;
}

abbrev pub live : Option LiveRuntime
live = some (record { supports = λ provider. true })

abbrev before : World MemoryStore ℕ
before = record running_world { env = 50 }

abbrev behind : World MemoryStore ℕ
behind = record running_world { env = 52 }

was_authorized :
    authorize_browser_live_view memory_store environment codec live none "p.s" before
    ≡ (ok view, behind)
unfolding start_browser_session start_new_session clone_profile default_browser_kind
    ensure_session_capacity create_and_launch launch_session prepare_session_proxy mark_running
    is_session_not_found Table.get_by_request_id Table.create Table.create_value Table.update
    Table.update_value Table.get create_session get_session get_session_by_request_id update_session
    new_memory_store Table.empty lookup insert validate_profile trim_space get_browser_session
    expire_session_if_needed is_due session_status_is_final timestamp authorize_browser_live_view
    verify_live_view cut
was_authorized = refl

authorize-IsAuthorized_example :
    IsAuthorized memory_store-StoreLaws environment codec live none "p.s" before view behind
authorize-IsAuthorized_example =
    authorize-IsAuthorized memory_store-StoreLaws environment codec live none "p.s" before behind
      view running_world-IsConsistent was_authorized

abbrev controller : Controller ℕ
controller = record {
  manual = ("home", "http://localhost:3128") ∷ [];
  proxy_runtime = none;
  validate_proxy_value = λ url. none;
  quote = λ text. text;
}

abbrev kept : State ℕ
kept = record {
  sessions =
      (
        "brsess_",
        record { account_id = ""; lease_id = ""; purpose = ""; url = "http://localhost:3128" },
      )
      ∷ [];
  client = 0;
}

abbrev neighbour : Session
neighbour = record running { session_id = "other" }

controller-KeepsSession_example : KeepsSession (some (proxy_controller controller))
controller-KeepsSession_example = controller-KeepsSession controller

release-resolve_example :
    resolve controller running (release controller running kept).1
    ≡ (if str_eq "brsess_" "brsess_" then "" else resolve controller running kept)
release-resolve_example = release-resolve controller running running kept

abbrev now : ℕ → Time × ℕ
now e = (e, e)

abbrev task : Task
task = record {
  task_id = "brtask_";
  request_id = "t1";
  status = TaskStatus.running;
  input = none;
  last_error = none;
  artifacts = [];
  results = [];
  labels = [];
  created_at = none;
  started_at = none;
  updated_at = none;
  completed_at = none;
}
