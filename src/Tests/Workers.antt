-- ===== src/Tests/Workers.antt =====
-- The workers of a runtime, with numbers for processes.
use browser_automation_byte.Prelude.{
  ℕ, suc, ◌+◌, String, false, ◌≡◌, refl, none, some, List, [], ◌∷◌, length, lookup, insert, erase,
}
use browser_automation_byte.Core.Errors.{plain}
use browser_automation_byte.Core.Reply.{ok, fail}
use browser_automation_byte.Core.Messages.{Task, TaskStatus}
use browser_automation_byte.Adapters.Worker.{
  Pipe, line_first, exit_first, timer_first, WorkerCodec, read_line, decode_worker_response,
  result_of, execute_task,
}
use browser_automation_byte.Adapters.Worker.Stopping.{
  by_itself, stop_request, interrupt, kill, not_exited, stop,
}
use browser_automation_byte.Adapters.Worker.Laws.{execute_task-late, stop-received}
use browser_automation_byte.Adapters.Cloakbrowser.{
  Outside, look, begin_worker, commit, take_worker, take_workers, finish_stop, cloak_session_count,
}
use browser_automation_byte.Adapters.Cloakbrowser.Steps.{
  Running, Step, looks, begins, commits, takes, takes_all, finishes, pick, total, step, run,
  at_rest,
}
use browser_automation_byte.Adapters.Cloakbrowser.Counted.{Ledger, counted, pending}
use browser_automation_byte.Adapters.Cloakbrowser.Workers.{run-accounted}
use browser_automation_byte.Tests.Service.{running}

abbrev idle : Pipe
idle = record { lines = []; closed = false; done = none; received = false; stderr = "" }

abbrev exited : Pipe
exited = record idle { done = some none }

abbrev codec : WorkerCodec
codec = record {
  marshal_task = λ task. ok "task";
  envelope = λ line.
      ok (record {
        kind = "task_result";
        task_id = line;
        results = [];
        artifacts = [];
        error = none;
      });
  command_result = λ raw. fail (plain raw);
  artifact = λ raw. fail (plain raw);
}

abbrev task : String → Task
task id = record {
  task_id = id;
  request_id = "";
  status = TaskStatus.running;
  input = none;
  last_error = none;
  artifacts = [];
  results = [];
  labels = [];
  created_at = none;
  started_at = none;
  updated_at = none;
  completed_at = none;
}

execute_task-late_example :
    let timed_out = execute_task codec (task "a") none [] timer_first idle in
    let answered = execute_task codec (task "b") none ("ra" ∷ "rb" ∷ []) line_first timed_out.1 in
    (answered.0 ≡ result_of codec (decode_worker_response codec "ra"))
    × (answered.1.lines ≡ "rb" ∷ [])
execute_task-late_example =
    execute_task-late codec (task "a") (task "b") "task" "task" "ra" "rb" idle refl refl refl

stop-received_example :
    stop (λ err. false) none by_itself (read_line exit_first exited).1
    ≡ (some not_exited, stop_request ∷ interrupt ∷ kill ∷ [])
stop-received_example = stop-received (λ err. false) exited none none by_itself refl

-- The state is the number of the workers that run; a stop may fail, and leaves the worker then.
abbrev outside : Outside ℕ ℕ
outside = record {
  make_artifacts_dir = λ e. (none, e);
  resolve_session_proxy = λ v e. (ok "", e);
  release_session_proxy = λ v e. (none, e);
  start_worker = λ v url e. (ok 7, suc e);
  stop_worker = λ h e. (some (plain "process did not exit after kill"), e);
  execute_task = λ h t e. ((record { results = []; artifacts = [] }, none), e);
}

-- Two starts of one session, a stop, and a shutdown that comes while the stop is under way
abbrev steps : List Step
steps =
    looks running
    ∷ looks running
    ∷ begins 0
    ∷ begins 0
    ∷ commits 1
    ∷ takes running
    ∷ commits 0
    ∷ takes_all
    ∷ finishes 1
    ∷ []

abbrev begun : Running ℕ (Ledger ℕ)
begun = at_rest (counted outside) (record {
  max_sessions = 2;
  sessions = [];
  outside = record { inner = 0; started_workers = 0; stopped_workers = 0 };
})

run-accounted_example :
    let s = run (counted outside) steps begun in
    s.runtime.outside.started_workers
    ≡ s.runtime.outside.stopped_workers
      + (cloak_session_count (counted outside) s.runtime
          + (length s.starting + total pending s.stopping))
run-accounted_example = run-accounted outside steps 2 0

-- Both workers were started, and one of them is still to be stopped.
two_started :
    let s = run (counted outside) steps begun in
    (s.runtime.outside.started_workers ≡ 2)
    × (s.runtime.outside.stopped_workers ≡ 1)
    × (total pending s.stopping ≡ 1)
unfolding run step look begin_worker commit take_worker take_workers finish_stop pick lookup insert
    erase
two_started = (refl, refl, refl)
