-- ===== src/Tests/Validation.antt =====
-- The validators of internal/app/task_validation.go on single commands.
use browser_automation_byte.Prelude.{◌≡◌, ◌↔◌, Option, none, some, List, [], ◌∷◌, false, All}
use browser_automation_byte.Core.Commands.{Operation, BrowserCommand}
use browser_automation_byte.App.Validation.Parts.{IsAccepted}
use browser_automation_byte.App.Validation.Command.{validate_operation, validate_commands}
use browser_automation_byte.App.Validation.Laws.{
  IsRunnable, validate_operation_iff, validate_commands_iff,
}

abbrev open_page : Operation
open_page = Operation.navigate "https://example.org"

abbrev commands : List (Option BrowserCommand)
commands =
    some (record {
      command_id = "c1";
      command_key = "open";
      timeout = none;
      continue_on_error = false;
      labels = [];
      operation = some open_page;
    })
    ∷ []

validate_operation_iff_example : (validate_operation open_page ≡ none) ↔ IsAccepted open_page
validate_operation_iff_example = validate_operation_iff open_page

validate_commands_iff_example : (validate_commands commands ≡ none) ↔ All IsRunnable commands
validate_commands_iff_example = validate_commands_iff commands
