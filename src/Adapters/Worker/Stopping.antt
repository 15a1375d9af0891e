-- ===== src/Adapters/Worker/Stopping.antt =====
-- internal/adapters/runtime/camoufox/process_control.go, and `stop` of runtime_worker.go: how a worker's
-- process is asked to end, then interrupted, then killed.
use browser_automation_byte.Prelude.{
  Bool, true, false, if◌then◌else◌, Option, none, some, List, [], ◌∷◌,
}
use browser_automation_byte.Core.Errors.{GoError, new_error}
use browser_automation_byte.Core.Errors.Code
use browser_automation_byte.Adapters.Worker.{Pipe}

-- When the value of the exit is received: while the worker may end by itself, at the check before the
-- interrupt, after the interrupt, or after the kill. It is not if the worker outlives all of them.
pub data Exit : Type 0 where
  by_itself before_interrupt after_interrupt after_kill never : Exit

-- What is sent to a process
pub data Signal : Type 0 where
  stop_request interrupt kill : Signal

abbrev pub not_exited : GoError
not_exited = new_error Code.browser_unavailable "process did not exit after kill" true

module _ (is_exit_error : GoError → Bool) where
  -- `ignoreFinished`
  unfoldable pub ignore_finished : Option GoError → Option GoError
  ignore_finished none = none
  ignore_finished (some err) = elim (is_exit_error err) [ true ↦ none | false ↦ some err ]

  -- `stopCommand` on a process that was started: the error, and the signals
  unfoldable pub stop_command : Option GoError → Exit → Option GoError × List Signal
  unfolding ignore_finished
  stop_command err by_itself = (ignore_finished err, [])
  stop_command err before_interrupt = (ignore_finished err, [])
  stop_command err after_interrupt = (ignore_finished err, interrupt ∷ [])
  stop_command err after_kill = (ignore_finished err, interrupt ∷ kill ∷ [])
  stop_command err never = (some not_exited, interrupt ∷ kill ∷ [])

  -- `stop`, with the value of an exit that can be received
  unfoldable pub stop_with : Option GoError → Exit → Option GoError × List Signal
  unfolding stop_command
  stop_with err by_itself = (ignore_finished err, stop_request ∷ [])
  stop_with err exit =
      let (result, signals) = stop_command err exit in (result, stop_request ∷ signals)

  -- `stop`, with the value and the time of an exit that is still to come. The value of an exit is
  -- received once: when it was received before, there is nothing to receive, whenever the process ended.
  unfoldable pub stop : Option GoError → Exit → Pipe → Option GoError × List Signal
  unfolding stop_with
  stop err exit pipe = elim pipe.done [
    | some waiting ↦ stop_with waiting by_itself
    | none ↦ stop_with err (if pipe.received then never else exit)
  ]
