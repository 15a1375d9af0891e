-- ===== src/Tests/Commands.antt =====
-- Commands on a running session of internal/app, on a memory store.
use browser_automation_byte.Prelude.{
  ℕ, false, ◌≡◌, refl, none, some, [], ◌∷◌, arith, eq_iff, lookup, insert, trim_space,
}
use browser_automation_byte.Core.Reply.{ok}
use browser_automation_byte.Core.Times.{timestamp}
use browser_automation_byte.Core.Status.{session_status_is_final}
use browser_automation_byte.Core.Messages.{Task, TaskInput, TaskStatus}
use browser_automation_byte.Core.Commands.{Operation}
use browser_automation_byte.App.Validation.Checks.{
  validate_profile, validate_task_input, require_string,
}
use browser_automation_byte.App.Validation.Command.{
  validate_commands, validate_command, validate_operation,
}
use browser_automation_byte.App.Memory.Table
use browser_automation_byte.App.Memory.Store.{
  MemoryStore, memory_store, new_memory_store, create_session, get_session,
  get_session_by_request_id, update_session, create_task, get_task_by_request_id, update_task,
}
use browser_automation_byte.App.Memory.Store.Laws.{memory_store-StoreLaws}
use browser_automation_byte.App.Service.World.{World}
use browser_automation_byte.App.Service.Helpers.{
  is_session_not_found, is_task_not_found, clone_profile, default_browser_kind,
  ensure_session_capacity,
}
use browser_automation_byte.App.Service.Sessions.{
  prepare_session_proxy, mark_running, launch_session, create_and_launch, start_new_session,
  start_browser_session,
}
use browser_automation_byte.App.Service.Lifetime.{
  get_browser_session, expire_session_if_needed, is_due,
}
use browser_automation_byte.App.Service.Tasks.{
  complete, execute, create_and_execute, execute_new_task, execute_browser_commands,
}
use browser_automation_byte.App.Service.Executing.{
  Answers, Fails, execute_browser_commands-Answers, execute_browser_commands-again,
}
use browser_automation_byte.App.Service.Ends.{Ends}
use browser_automation_byte.Tests.Service.{environment, running_world}

abbrev input : TaskInput
input = record {
  session_id = "brsess_";
  task_key = "";
  scenario_key = "";
  target_url = "";
  timeout = none;
  commands =
      some (record {
        command_id = "";
        command_key = "";
        timeout = none;
        continue_on_error = false;
        labels = [];
        operation = some (Operation.navigate "https://example.org");
      })
      ∷ [];
  security_policy = none;
  labels = [];
}

execute_browser_commands-Answers_example :
    Ends
      (Answers memory_store-StoreLaws environment "t1" input running_world)
      (Fails memory_store-StoreLaws environment input running_world)
      (execute_browser_commands memory_store environment "t1" (some input) running_world)
execute_browser_commands-Answers_example =
    execute_browser_commands-Answers memory_store-StoreLaws environment "t1" input running_world

abbrev executed_world : World MemoryStore ℕ
executed_world =
    (execute_browser_commands memory_store environment "t1" (some input) running_world).1

abbrev executed : Task
executed = record {
  task_id = "brtask_";
  request_id = "t1";
  status = TaskStatus.succeeded;
  input = some (record input { task_key = "browser.commands" });
  last_error = none;
  artifacts = [];
  results = [];
  labels = [];
  created_at = timestamp 4;
  started_at = timestamp 4;
  updated_at = timestamp 5;
  completed_at = timestamp 5;
}

was_executed :
    execute_browser_commands memory_store environment "t1" (some input) running_world
    ≡ (ok (some executed), executed_world)
unfolding start_browser_session start_new_session clone_profile default_browser_kind
    ensure_session_capacity create_and_launch launch_session prepare_session_proxy mark_running
    is_session_not_found Table.get_by_request_id Table.create Table.create_value Table.update
    Table.update_value Table.get create_session get_session get_session_by_request_id update_session
    new_memory_store Table.empty lookup insert validate_profile trim_space get_browser_session
    expire_session_if_needed is_due session_status_is_final execute_browser_commands
    execute_new_task create_and_execute execute complete validate_task_input validate_commands
    validate_command validate_operation require_string create_task get_task_by_request_id
    update_task is_task_not_found timestamp
was_executed = refl

execute_browser_commands-again_example :
    execute_browser_commands memory_store environment "t1" none executed_world
    ≡ (ok (some executed), executed_world)
execute_browser_commands-again_example =
    execute_browser_commands-again memory_store-StoreLaws environment "t1" (some input) none
      running_world executed_world (some executed) (ground (arith, eq_iff "t1" "")) was_executed
