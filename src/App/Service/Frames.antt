-- ===== src/App/Service/Frames.antt =====
-- internal/app/live_view_service.go: the frames and the input events of a live view, which go through to
-- the runtime. A frame is a value of a type `F`, and an input event of a type `I`.
use browser_automation_byte.Prelude.{ℕ, String, false, not, Option, none, some, if◌then◌else◌}
use browser_automation_byte.Core.Errors.{GoError, new_error}
use browser_automation_byte.Core.Errors.Code
use browser_automation_byte.Core.Reply.{Reply, fail}
use browser_automation_byte.App.Service.LiveView.{LiveView}

-- `core.RuntimeLiveView`: the frame of a session for a view, with its number, and an input event for a
-- session.
pub record LiveFrames (E F I : Type 0) : Type 0 where
  pub capture_live_frame : String → LiveView → ℕ → E → Reply F × E
  pub dispatch_live_input : String → I → E → Option GoError × E

abbrev no_live_view : GoError
no_live_view =
    new_error Code.unsupported_operation "active runtime does not support browser live view" false

abbrev read_only : GoError
read_only = new_error Code.validation_failed "browser live view is read-only" false

module _ {E F I : Type 0} (live : Option (LiveFrames E F I)) where
  -- `CaptureLiveFrame`
  unfoldable pub capture_live_frame : LiveView → ℕ → E → Reply F × E
  capture_live_frame view sequence e = elim live [
    | none ↦ (fail no_live_view, e)
    | some runtime ↦ runtime.capture_live_frame view.session_id view sequence e
  ]

  -- `DispatchLiveInput`
  unfoldable pub dispatch_live_input : LiveView → I → E → Option GoError × E
  dispatch_live_input view event e =
      let sent : Option GoError × E = elim live [
        | none ↦ (some no_live_view, e)
        | some runtime ↦ runtime.dispatch_live_input view.session_id event e
      ] in
      if not view.control_enabled then (some read_only, e) else sent
