-- ===== src/App/Service/Runs.antt =====
-- internal/app/session_service.go, task_service.go, live_view_service.go: runs of the service, in which its
-- methods are called one after the other, in any order and with any arguments. The service has no lock of
-- its own, so methods that run at the same time are not such a run.
use browser_automation_byte.Prelude.{ℕ, String, Option, Map}
use browser_automation_byte.Prelude.Int.{ℤ}
use browser_automation_byte.Core.Times.{Duration}
use browser_automation_byte.Core.Messages.{TaskInput, TaskFilter, Profile, ProxySelection}
use browser_automation_byte.Core.Ports.{KeepsSession}
use browser_automation_byte.App.Service.World.{World}
use browser_automation_byte.App.Service.Invariants.{IsInvariant}
use browser_automation_byte.App.Service.Preservation.{
  start_browser_session-keeps, stop_browser_session-keeps, get_browser_session-keeps,
  list_browser_sessions-keeps,
}
use browser_automation_byte.App.Service.TaskPreservation.{
  start_browser_task-keeps, execute_browser_commands-keeps,
}
use browser_automation_byte.App.Service.LivePreservation.{
  create_browser_live_view-keeps, authorize_browser_live_view-keeps,
}
use browser_automation_byte.App.Service.Tasks.{get_browser_task, list_browser_tasks}
use browser_automation_byte.App.Service.LiveView.{LiveView, LiveViewRequest}
use browser_automation_byte.App.Service.Frames.{LiveFrames, capture_live_frame, dispatch_live_input}
use browser_automation_byte.App.Service.Methods
use browser_automation_byte.App.Service.Methods.{AutomationService}

-- A call of a method of `AutomationService`; an input event is a value of a type `I`.
pub data Request (I : Type 0) : Type 0 where
  start_session :
      String → Option Profile → Duration → Map String → Option ProxySelection → Request I
  get_session : String → Request I
  list_sessions : ℤ → String → Request I
  stop_session : String → String → Request I
  start_task : String → Option TaskInput → Request I
  execute_commands : String → Option TaskInput → Request I
  get_task : String → Request I
  list_tasks : Option TaskFilter → ℤ → String → Request I
  create_live_view : LiveViewRequest → Request I
  authorize_live_view : String → Request I
  capture_frame : LiveView → ℕ → Request I
  dispatch_input : LiveView → I → Request I

module _ {S E B F I : Type 0} (service : AutomationService S E B)
    (frames : Option (LiveFrames E F I)) where
  -- The state that a call leaves, whatever it returns.
  unfoldable pub after : Request I → World S E → World S E
  unfolding get_browser_task list_browser_tasks
  after (start_session request_id profile ttl labels selection) w =
      (Methods.start_session service request_id profile ttl labels selection w).1
  after (get_session id) w = (Methods.get_session service id w).1
  after (list_sessions size token) w = (Methods.list_sessions service size token w).1
  after (stop_session id reason) w = (Methods.stop_session service id reason w).1
  after (start_task request_id input) w = (Methods.start_task service request_id input w).1
  after (execute_commands request_id input) w =
      (Methods.execute_commands service request_id input w).1
  after (get_task id) w = (Methods.get_task service id w).1
  after (list_tasks filter size token) w = (Methods.list_tasks service filter size token w).1
  after (create_live_view request) w = (Methods.create_live_view service request w).1
  after (authorize_live_view token) w = (Methods.authorize_live_view service token w).1
  after (capture_frame view number) w = record w {
    env = (capture_live_frame frames view number w.env).1;
  }
  after (dispatch_input view event) w = record w {
    env = (dispatch_live_input frames view event w.env).1;
  }

  -- `Reaches w w'`: some calls, one after the other, lead from `w` to `w'`.
  pub data Reaches (w : World S E) : World S E → Type 0 where
    here : Reaches w w
    call : {w' : World S E} → Reaches w w' → (request : Request I) → Reaches w (after request w')

module _ {S E B F I : Type 0} (service : AutomationService S E B)
    (frames : Option (LiveFrames E F I)) {P : S → Type 0} (invariant : IsInvariant service.store P)
    (keeps : KeepsSession service.environment.proxy) where
  open service use {environment, codec, live, default_provider}

  after-keeps :
      (request : Request I) (w : World S E) → P w.stored → P (after service frames request w).stored
  unfolding after get_browser_task list_browser_tasks
  after-keeps (start_session request_id profile ttl labels selection) w h =
      start_browser_session-keeps invariant environment request_id profile ttl labels selection w
        keeps h
  after-keeps (get_session id) w h = get_browser_session-keeps invariant environment id w h
  after-keeps (list_sessions size token) w h =
      list_browser_sessions-keeps invariant environment size token w h
  after-keeps (stop_session id reason) w h =
      stop_browser_session-keeps invariant environment id reason w h
  after-keeps (start_task request_id input) w h =
      start_browser_task-keeps invariant environment request_id input w h
  after-keeps (execute_commands request_id input) w h =
      execute_browser_commands-keeps invariant environment request_id input w h
  after-keeps (get_task id) w h = h
  after-keeps (list_tasks filter size token) w h = h
  after-keeps (create_live_view request) w h =
      create_browser_live_view-keeps invariant environment codec live default_provider request w h
  after-keeps (authorize_live_view token) w h =
      authorize_browser_live_view-keeps invariant environment codec live default_provider token w h
  after-keeps (capture_frame view number) w h = h
  after-keeps (dispatch_input view event) w h = h

  -- What holds before a run and is kept by every write holds after it.
  pub run-keeps : (w w' : World S E) → Reaches service frames w w' → P w.stored → P w'.stored
  run-keeps w w' here h = h
  run-keeps w w' (call {w' = u} r request) h = after-keeps request u (run-keeps w u r h)
