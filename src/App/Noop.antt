-- ===== src/App/Noop.antt =====
-- internal/app/noop_runtime.go: the runtime that does nothing and reports success. The system
-- clock is a parameter.
use browser_automation_byte.Prelude.{
  String, false, Option, none, List, [], ◌∷◌, ◌≡◌, refl, All, map, ap,
}
use browser_automation_byte.Prelude.Int.{pos}
use browser_automation_byte.Core.Errors.{GoError}
use browser_automation_byte.Core.Times.{Time, timestamp}
use browser_automation_byte.Core.Commands.{BrowserCommand}
use browser_automation_byte.Core.Messages.{Task, TaskInput, CommandResult, CommandStatus, get_of}
use browser_automation_byte.Core.Ports.{Runtime, TaskExecutionResult}

-- The ids by which a command and its result name the command; those of nil are empty.
abbrev pub id_of : Option BrowserCommand → String
id_of command = get_of (λ c. c.command_id) "" command

abbrev pub key_of : Option BrowserCommand → String
key_of command = get_of (λ c. c.command_key) "" command

abbrev result_of : Option Time → Option BrowserCommand → CommandResult
result_of now command = record {
  command_id = id_of command;
  command_key = key_of command;
  status = CommandStatus.succeeded;
  error = none;
  text = "";
  texts = [];
  json_value = none;
  artifact = none;
  matched_count = pos 0;
  current_url = "";
  attribute_value = "";
  attributes = [];
  visible = false;
  bounding_box = none;
  title = "";
  secret_ref = none;
  artifact_ref = none;
  completed_at = now;
}

-- The loop of `ExecuteTask`
unfoldable pub results_of : Option Time → List (Option BrowserCommand) → List CommandResult
results_of now [] = []
results_of now (command ∷ commands) = result_of now command ∷ results_of now commands

abbrev pub commands_of : Option TaskInput → List (Option BrowserCommand)
commands_of input = get_of (λ i. i.commands) [] input

module _ {E : Type 0} (now : E → Time × E) where
  -- `ExecuteTask`
  unfoldable pub execute_task : Task → E → (TaskExecutionResult × Option GoError) × E
  unfolding results_of
  execute_task task e =
      let (time, e') = now e in
      (
        (
          record { results = results_of (timestamp time) (commands_of task.input); artifacts = [] },
          none,
        ),
        e',
      )

  -- `NoopRuntime`
  abbrev pub noop_runtime : Runtime E
  noop_runtime = record {
    start_session = λ session e. (none, e);
    stop_session = λ session reason e. (none, e);
    enqueue_task = λ task e. (none, e);
    execute_task = execute_task;
    capacity = none;
    default_browser_kind = none;
  }

pub IsSucceeded : CommandResult → Type 0
IsSucceeded result = result.status ≡ CommandStatus.succeeded

results_of-IsSucceeded :
    (now : Option Time) (commands : List (Option BrowserCommand))
    → All IsSucceeded (results_of now commands)
unfolding results_of IsSucceeded
results_of-IsSucceeded now [] = tt
results_of-IsSucceeded now (command ∷ commands) = (refl, results_of-IsSucceeded now commands)

results_of-ids :
    (now : Option Time) (commands : List (Option BrowserCommand))
    → map (λ r. r.command_id) (results_of now commands) ≡ map id_of commands
unfolding results_of
results_of-ids now [] = refl
results_of-ids now (command ∷ commands) = ap (λ l. id_of command ∷ l) (results_of-ids now commands)

module _ {E : Type 0} (now : E → Time × E) where
  -- The noop runtime reports no error and, in the order of the commands, one result for each that has
  -- the command's id, and all of them succeeded.
  pub execute_task_lem :
      (task : Task) (e : E)
      → ((execute_task now task e).0.1 ≡ none)
        × ((map (λ r. r.command_id) (execute_task now task e).0.0.results
              ≡ map id_of (commands_of task.input))
            × All IsSucceeded (execute_task now task e).0.0.results)
  unfolding execute_task
  execute_task_lem task e = (
    refl,
    (
      results_of-ids (timestamp (now e).0) (commands_of task.input),
      results_of-IsSucceeded (timestamp (now e).0) (commands_of task.input),
    ),
  )
