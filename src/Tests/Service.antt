-- ===== src/Tests/Service.antt =====
-- The automation service of internal/app on a memory store, with a runtime that always succeeds.
use browser_automation_byte.Prelude.{
  ℕ, suc, false, ◌≡◌, refl, inl, Option, none, some, [], ◌∷◌, arith, eq_iff, lookup, insert,
  trim_space,
}
use browser_automation_byte.Prelude.Int.{pos}
use browser_automation_byte.Core.Reply.{ok}
use browser_automation_byte.Core.Times.{timestamp}
use browser_automation_byte.Core.Status.{session_status_is_final}
use browser_automation_byte.Core.Messages.{Session, SessionStatus, BrowserKind}
use browser_automation_byte.App.Validation.Checks.{validate_profile}
use browser_automation_byte.Core.Ports.{Environment, Runtime}
use browser_automation_byte.App.Memory.Table
use browser_automation_byte.App.Memory.Table.Invariant.{empty-IsConsistent}
use browser_automation_byte.App.Memory.Store.{
  MemoryStore, memory_store, session_entity, task_entity, new_memory_store, create_session,
  get_session, get_session_by_request_id, update_session,
}
use browser_automation_byte.App.Memory.Store.Laws.{IsConsistentStore, memory_store-StoreLaws}
use browser_automation_byte.App.Service.World.{World}
use browser_automation_byte.App.Service.Helpers.{
  empty_profile, is_session_not_found, clone_profile, default_browser_kind, ensure_session_capacity,
}
use browser_automation_byte.App.Service.Sessions.{
  prepare_session_proxy, release_session_proxy, mark_running, launch_session, create_and_launch,
  start_new_session, start_browser_session,
}
use browser_automation_byte.App.Service.Lifetime.{
  mark_stopped, stop_session, stop_browser_session, get_browser_session, expire_session_if_needed,
  expire_session, is_due,
}
use browser_automation_byte.App.Service.LiveView.{LiveViewRequest}
use browser_automation_byte.App.Service.Frames.{LiveFrames}
use browser_automation_byte.App.Service.Methods.{AutomationService}
use browser_automation_byte.App.Service.Runs.{Request, Reaches, after}
use browser_automation_byte.App.Service.Final.{final-run, run-IsValid}
use browser_automation_byte.App.Service.Starting.{
  StartEnds, start_new_session-Ends, start_browser_session-again,
}
use browser_automation_byte.App.Service.Stopping.{
  IsStopped, IsNotStopped, stop_browser_session-Ends, stop_browser_session_stops,
}
use browser_automation_byte.App.Service.Overlap.{stop_session-expired}
use browser_automation_byte.App.Service.Reading.{IsCurrent, get_browser_session-IsCurrent}
use browser_automation_byte.App.Service.Ends.{Ends}

abbrev runtime : Runtime ℕ
runtime = record {
  start_session = λ v e. (none, e);
  stop_session = λ v reason e. (none, e);
  enqueue_task = λ t e. (none, e);
  execute_task = λ t e. ((record { results = []; artifacts = [] }, none), e);
  capacity = none;
  default_browser_kind = none;
}

-- The clock counts its calls, and the ids are the prefixes.
abbrev pub environment : Environment ℕ
environment = record {
  now = λ e. (e, suc e);
  new_id = λ prefix e. (prefix, e);
  runtime = runtime;
  proxy = none;
}

abbrev live_view_request : LiveViewRequest
live_view_request = record {
  session_id = "brsess_";
  provider = 0;
  ttl = none;
  control_enabled = false;
  max_width = pos 0;
  max_height = pos 0;
}

-- Every view has the same token.
abbrev service : AutomationService MemoryStore ℕ ℕ
service = record {
  store = memory_store;
  environment = environment;
  codec = record {
    marshal = λ view. ok 1;
    unmarshal = λ payload. none;
    encode = λ payload. "token";
    decode = λ text. none;
    signature = λ payload. 2;
    equal = λ a b. false;
  };
  live = none;
  default_provider = none;
}

-- A runtime without live views
abbrev no_frames : Option (LiveFrames ℕ ℕ ℕ)
no_frames = none

abbrev start_world : World MemoryStore ℕ
start_world = record { stored = new_memory_store; env = 1 }

abbrev pub running_world : World MemoryStore ℕ
running_world =
    (start_browser_session memory_store environment "r1" none (pos 100) [] none start_world).1

empty_store-IsConsistent : IsConsistentStore new_memory_store
unfolding new_memory_store Table.empty
empty_store-IsConsistent = record {
  sessions = empty-IsConsistent session_entity;
  tasks = empty-IsConsistent task_entity;
}

pub running_world-IsConsistent : IsConsistentStore running_world.stored
unfolding after start_browser_session
running_world-IsConsistent =
    run-IsValid service no_frames memory_store-StoreLaws tt start_world running_world
      (Reaches.call Reaches.here (Request.start_session "r1" none (pos 100) [] none))
      empty_store-IsConsistent

abbrev pub running : Session
running = record {
  session_id = "brsess_";
  request_id = "r1";
  status = SessionStatus.running;
  profile = some (record empty_profile { browser_kind = BrowserKind.chromium });
  last_error = none;
  artifacts = [];
  labels = [];
  created_at = timestamp 1;
  started_at = timestamp 2;
  updated_at = timestamp 2;
  stopped_at = none;
  expires_at = timestamp 101;
}

-- The session that is started first is stored as running.
started :
    start_browser_session memory_store environment "r1" none (pos 100) [] none start_world
    ≡ (ok (some running), running_world)
unfolding start_browser_session start_new_session clone_profile default_browser_kind
    ensure_session_capacity create_and_launch launch_session prepare_session_proxy mark_running
    is_session_not_found Table.get_by_request_id Table.create Table.create_value Table.update
    Table.update_value Table.get create_session get_session get_session_by_request_id update_session
    new_memory_store Table.empty lookup insert validate_profile trim_space
started = refl

running_stored : get_session "brsess_" running_world.stored ≡ ok running
unfolding start_browser_session start_new_session clone_profile default_browser_kind
    ensure_session_capacity create_and_launch launch_session prepare_session_proxy mark_running
    is_session_not_found Table.get_by_request_id Table.create Table.create_value Table.update
    Table.update_value Table.get create_session get_session get_session_by_request_id update_session
    new_memory_store Table.empty lookup insert validate_profile trim_space
running_stored = refl

abbrev stopped_world : World MemoryStore ℕ
stopped_world = (stop_browser_session memory_store environment "brsess_" "done" running_world).1

abbrev stopped : Session
stopped = record {
  session_id = "brsess_";
  request_id = "r1";
  status = SessionStatus.stopped;
  profile = some (record empty_profile { browser_kind = BrowserKind.chromium });
  last_error = none;
  artifacts = [];
  labels = ("stop_reason", "done") ∷ [];
  created_at = timestamp 1;
  started_at = timestamp 2;
  updated_at = timestamp 4;
  stopped_at = timestamp 4;
  expires_at = timestamp 101;
}

stopped_stored : get_session "brsess_" stopped_world.stored ≡ ok stopped
unfolding start_browser_session start_new_session clone_profile default_browser_kind
    ensure_session_capacity create_and_launch launch_session prepare_session_proxy mark_running
    is_session_not_found Table.get_by_request_id Table.create Table.create_value Table.update
    Table.update_value Table.get create_session get_session get_session_by_request_id update_session
    new_memory_store Table.empty lookup insert validate_profile trim_space stop_browser_session
    stop_session mark_stopped release_session_proxy session_status_is_final
stopped_stored = refl

stopped_world-IsConsistent : IsConsistentStore stopped_world.stored
unfolding after stop_browser_session
stopped_world-IsConsistent =
    run-IsValid service no_frames memory_store-StoreLaws tt running_world stopped_world
      (Reaches.call Reaches.here (Request.stop_session "brsess_" "done")) running_world-IsConsistent

-- The stopped session's live view is asked for, and the session is stopped again.
final-run_example :
    get_session "brsess_"
      (after service no_frames
        (Request.stop_session "brsess_" "again")
        (after service no_frames (Request.create_live_view live_view_request) stopped_world)).stored
    ≡ ok stopped
unfolding session_status_is_final
final-run_example =
    final-run service no_frames memory_store-StoreLaws tt stopped_world
      (after service no_frames (Request.stop_session "brsess_" "again")
        (after service no_frames (Request.create_live_view live_view_request) stopped_world))
      "brsess_" stopped stopped_world-IsConsistent stopped_stored (inl refl)
      (Reaches.call (Reaches.call Reaches.here (Request.create_live_view live_view_request))
        (Request.stop_session "brsess_" "again"))

start_browser_session-again_example :
    start_browser_session memory_store environment "r1" none (pos 5) [] none running_world
    ≡ (ok (some running), running_world)
start_browser_session-again_example =
    start_browser_session-again memory_store-StoreLaws environment "r1" none none (pos 100) (pos 5)
      [] [] none none start_world running_world (some running) tt (ground (arith, eq_iff "r1" ""))
      started

start_new_session-Ends_example :
    StartEnds memory_store-StoreLaws environment "r1"
      (start_new_session memory_store environment "r1" none (pos 100) [] none start_world)
start_new_session-Ends_example =
    start_new_session-Ends memory_store-StoreLaws environment "r1" none (pos 100) [] none
      start_world tt

stop_browser_session-Ends_example :
    Ends
      (IsStopped memory_store-StoreLaws environment "brsess_")
      (IsNotStopped memory_store-StoreLaws environment "brsess_" running_world)
      (stop_browser_session memory_store environment "brsess_" "done" running_world)
stop_browser_session-Ends_example =
    stop_browser_session-Ends memory_store-StoreLaws environment "brsess_" "done" running_world
      running_world-IsConsistent

stop_browser_session_stops_example :
    (a : Option Session) × (w' : World MemoryStore ℕ) × (stop_browser_session memory_store
        environment "brsess_" "done" running_world
      ≡ (ok a, w'))
    × IsStopped memory_store-StoreLaws environment "brsess_" a w'
unfolding session_status_is_final
stop_browser_session_stops_example =
    stop_browser_session_stops memory_store-StoreLaws environment "brsess_" "done" running_world
      running running_world-IsConsistent running_stored refl (λ u e. refl)

-- The running session, read after its expiry
abbrev due_world : World MemoryStore ℕ
due_world = record running_world { env = 200 }

abbrev expired_world : World MemoryStore ℕ
expired_world = (get_browser_session memory_store environment "brsess_" due_world).1

abbrev expired : Session
expired = record running {
  status = SessionStatus.expired;
  updated_at = timestamp 200;
  stopped_at = timestamp 200;
}

was_expired :
    get_browser_session memory_store environment "brsess_" due_world ≡ (ok (expired), expired_world)
unfolding start_browser_session start_new_session clone_profile default_browser_kind
    ensure_session_capacity create_and_launch launch_session prepare_session_proxy mark_running
    is_session_not_found Table.get_by_request_id Table.create Table.create_value Table.update
    Table.update_value Table.get create_session get_session get_session_by_request_id update_session
    new_memory_store Table.empty lookup insert validate_profile trim_space get_browser_session
    expire_session_if_needed expire_session release_session_proxy is_due session_status_is_final
    timestamp
was_expired = refl

stop_session-expired_example :
    (get_session "brsess_" expired_world.stored ≡ ok expired)
    × ((a : Option Session) × (w : World MemoryStore ℕ) × (stop_session memory_store environment
            running "done" expired_world
          ≡ (ok a, w))
        × IsStopped memory_store-StoreLaws environment "brsess_" a w)
unfolding session_status_is_final
stop_session-expired_example =
    stop_session-expired memory_store-StoreLaws environment "brsess_" "done" due_world expired_world
      running expired running_world-IsConsistent running_stored refl was_expired refl (λ u e. refl)

abbrev late_world : World MemoryStore ℕ
late_world = record running_world { env = 50 }

abbrev read_world : World MemoryStore ℕ
read_world = record running_world { env = 51 }

was_read :
    get_browser_session memory_store environment "brsess_" late_world ≡ (ok running, read_world)
unfolding start_browser_session start_new_session clone_profile default_browser_kind
    ensure_session_capacity create_and_launch launch_session prepare_session_proxy mark_running
    is_session_not_found Table.get_by_request_id Table.create Table.create_value Table.update
    Table.update_value Table.get create_session get_session get_session_by_request_id update_session
    new_memory_store Table.empty lookup insert validate_profile trim_space get_browser_session
    expire_session_if_needed is_due session_status_is_final timestamp
was_read = refl

get_browser_session-IsCurrent_example :
    IsCurrent memory_store-StoreLaws environment "brsess_" 50 running read_world
get_browser_session-IsCurrent_example =
    get_browser_session-IsCurrent memory_store-StoreLaws environment "brsess_" late_world read_world
      running running_world-IsConsistent was_read
