-- ===== src/Adapters/Worker/Laws.antt =====
-- internal/adapters/runtime/camoufox/runtime_session.go and process_control.go: what a task is answered
-- with, and what a stop returns, when something came late.
use browser_automation_byte.Prelude.{String, Bool, ◌≡◌, refl, Option, none, some, List, [], ◌∷◌}
use browser_automation_byte.Core.Errors.{GoError}
use browser_automation_byte.Core.Reply.{ok}
use browser_automation_byte.Core.Messages.{Task}
use browser_automation_byte.Adapters.Worker.{
  Pipe, Wakes, line_first, exit_first, timer_first, WorkerCodec, read_line, decode_worker_response,
  result_of, after_write, execute_task,
}
use browser_automation_byte.Adapters.Worker.Stopping.{
  Exit, stop_request, interrupt, kill, not_exited, stop,
}

module _ (codec : WorkerCodec) where
  execute_task-written :
      (task : Task) (request : String) (printed : List String) (wakes : Wakes) (pipe : Pipe)
      → codec.marshal_task task ≡ ok request
      → execute_task codec task none printed wakes pipe ≡ after_write codec none printed wakes pipe
  unfolding execute_task
  execute_task-written task request printed wakes pipe m = rw (m, execute_task) refl

  -- A reply that comes after the time of its task is up is not dropped: it is the answer to the next
  -- task, whatever the tasks are, and the next task's own reply is left unread.
  pub execute_task-late :
      (first second : Task) (written_first written_second late own : String) (pipe : Pipe)
      → codec.marshal_task first ≡ ok written_first
      → codec.marshal_task second ≡ ok written_second
      → pipe.lines ≡ []
      → let timed_out = execute_task codec first none [] timer_first pipe in
        let answered = execute_task codec second none (late ∷ own ∷ []) line_first timed_out.1 in
        (answered.0 ≡ result_of codec (decode_worker_response codec late))
        × (answered.1.lines ≡ own ∷ [])
  unfolding read_line
  execute_task-late first second written_first written_second late own pipe f s l =
      rw (execute_task-written first written_first [] timer_first pipe f) (
        rw
          (execute_task-written second written_second (late ∷ own ∷ []) line_first
            (after_write codec none [] timer_first pipe).1 s)
          (rw (l) (refl, refl)))

-- Once a task has received the worker's exit, a stop does not receive it: whenever the process ended, it
-- is interrupted and killed, and the stop fails.
pub stop-received :
    (is_exit_error : GoError → Bool) (pipe : Pipe) (waiting err : Option GoError) (exit : Exit)
    → pipe.done ≡ some waiting
    → stop is_exit_error err exit (read_line exit_first pipe).1
      ≡ (some not_exited, stop_request ∷ interrupt ∷ kill ∷ [])
unfolding stop read_line
stop-received is_exit_error pipe waiting err exit d = rw (d, read_line) refl
