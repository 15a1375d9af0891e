-- ===== src/App/Validation/Command.antt =====
-- `validateCommand` and `validateCommands` of internal/app/task_validation.go.
use browser_automation_byte.Prelude.{
  not, ◌&&◌, Option, none, some, List, [], ◌∷◌, if◌then◌else◌, str_eq,
}
use browser_automation_byte.Prelude.Int.{is_negative, is_positive}
use browser_automation_byte.Core.Errors.{GoError}
use browser_automation_byte.Core.Reply.{◌then_check◌}
use browser_automation_byte.Core.Times.{duration}
use browser_automation_byte.Core.Commands.{
  Operation, BrowserCommand, navigate, reload, go_back, go_forward, mouse_down, mouse_up,
  get_page_state, get_cookies, get_storage_state, screenshot, wait_for_load_state, click, fill,
  set_checked, clear, focus, blur, hover, type_text, press, mouse_move, mouse_click, drag, scroll,
  wait_for_selector, extract_text, count_elements, extract_element, submit_form, wait_for_text,
  wait_for_url, wait_for_timeout, wait_for_network_request, get_network_requests, get_attribute,
  upload_file, select_option, evaluate,
}
use browser_automation_byte.App.Validation.Checks.{
  validation_error, require_selector, require_string, is_present, validate_mouse_move,
  validate_drag, validate_scroll, validate_get_attribute, validate_upload_file,
  validate_select_option,
}

-- The `switch` of `validateCommand`.
unfoldable pub validate_operation : Operation → Option GoError
unfolding duration
validate_operation (navigate url) = require_string url "navigate url is required"
validate_operation reload = none
validate_operation go_back = none
validate_operation go_forward = none
validate_operation mouse_down = none
validate_operation mouse_up = none
validate_operation get_page_state = none
validate_operation get_cookies = none
validate_operation get_storage_state = none
validate_operation screenshot = none
validate_operation (click t) = require_selector t "click selector is required"
validate_operation (fill t) = require_selector t "fill selector is required"
validate_operation (set_checked t) = require_selector t "set checked selector is required"
validate_operation (type_text text) = require_string text "type text is required"
validate_operation (clear t) = require_selector t "clear selector is required"
validate_operation (press key) = require_string key "press key is required"
validate_operation (focus t) = require_selector t "focus selector is required"
validate_operation (blur t) = require_selector t "blur selector is required"
validate_operation (hover t) = require_selector t "hover selector is required"
validate_operation (mouse_move point path) = validate_mouse_move point path
validate_operation (mouse_click point) =
    if not (is_present point) then some (validation_error "mouse click point is required") else none
validate_operation (drag source target source_point target_point) =
    validate_drag source target source_point target_point
validate_operation (scroll t delta_x delta_y) = validate_scroll t delta_x delta_y
validate_operation (wait_for_selector t) = require_selector t "wait selector is required"
validate_operation (wait_for_text text) = require_string text "wait text is required"
validate_operation (wait_for_url url_pattern) =
    require_string url_pattern "wait url pattern is required"
validate_operation wait_for_load_state = none
validate_operation (wait_for_timeout d) =
    if not (is_positive (duration d))
    then some (validation_error "wait timeout duration is required")
    else none
validate_operation (wait_for_network_request timeout) =
    if is_negative (duration timeout)
    then some (validation_error "wait network request timeout cannot be negative")
    else none
validate_operation (get_network_requests limit) =
    if is_negative limit
    then some (validation_error "network request limit cannot be negative")
    else none
validate_operation (extract_text t) = require_selector t "extract selector is required"
validate_operation (count_elements t) = require_selector t "count elements selector is required"
validate_operation (get_attribute t name) = validate_get_attribute t name
validate_operation (extract_element t) = require_selector t "extract element selector is required"
validate_operation (upload_file t refs) = validate_upload_file t refs
validate_operation (select_option t values labels indexes) =
    validate_select_option t values labels indexes
validate_operation (submit_form t) = require_selector t "submit form selector is required"
validate_operation (evaluate script_ref inline_expression) =
    if str_eq script_ref "" && str_eq inline_expression ""
    then some (validation_error "evaluate script_ref or inline_expression is required")
    else none

abbrev pub operation_error : Option Operation → Option GoError
operation_error none = some (validation_error "command operation is required")
operation_error (some operation) = validate_operation operation

-- `validateCommand`, on a command that may be nil
unfoldable pub validate_command : Option BrowserCommand → Option GoError
validate_command none = some (validation_error "command operation is required")
validate_command (some command) = operation_error command.operation

-- `validateCommands`; the first error is returned.
unfoldable pub validate_commands : List (Option BrowserCommand) → Option GoError
validate_commands [] = none
validate_commands (c ∷ cs) = validate_command c then_check validate_commands cs
