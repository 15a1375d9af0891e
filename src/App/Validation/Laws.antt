-- ===== src/App/Validation/Laws.antt =====
-- What the validators accept.
use browser_automation_byte.Prelude.{
  zero, suc, String, Bool, true, false, ◌≡◌, refl, ◌≢◌, ◌⊎◌, ◌↔◌, Option, none, some, List, [], ◌∷◌,
  All, eq_iff, arith, sym, ap, ◌∙◌, if◌then◌else◌,
}
use mathlib.Core.Option.{some-injective}
use mathlib.Core.Path.{subst}
use browser_automation_byte.Prelude.Int.{ℤ, pos, negsuc}
use browser_automation_byte.Core.Errors.{GoError}
use browser_automation_byte.Core.Commands.{
  Operation, BrowserCommand, Target, SecretRef, navigate, click, fill, set_checked, clear, focus,
  blur, hover, type_text, press, mouse_move, mouse_click, drag, scroll, wait_for_selector,
  extract_text, count_elements, extract_element, submit_form, wait_for_text, wait_for_url,
  wait_for_timeout, wait_for_network_request, get_network_requests, get_attribute, upload_file,
  select_option, evaluate,
}
use browser_automation_byte.App.Validation.Parts.{
  IsAccepted, NamesElement, IsComplete, has_selector_iff, require_selector_iff, require_string_iff,
  validate_secret_refs_iff, then_check_iff, is_present_iff, is_empty_iff,
}
use browser_automation_byte.App.Validation.Checks.{
  validate_get_attribute, validate_upload_file, validate_select_option, validation_error,
  require_selector, require_string, is_empty, validate_secret_refs,
}
use browser_automation_byte.App.Validation.Command.{
  validate_operation, operation_error, validate_command, validate_commands,
}

validate_get_attribute_iff :
    (t : Target) (name : String)
    → (validate_get_attribute t name ≡ none) ↔ (NamesElement t × (name ≢ ""))
validate_get_attribute_iff t name =
    let a = require_selector_iff t "get attribute selector is required" in
    let b = require_string_iff name "get attribute name is required" in
    let both =
      then_check_iff (require_selector t "get attribute selector is required")
        (require_string name "get attribute name is required") in
    (λ h. (a.0 (both.0 h).0, b.0 (both.0 h).1), λ h. both.1 (a.1 h.0, b.1 h.1))

guard_iff : (b : Bool) (e : GoError) → ((if b then some e else none) ≡ none) ↔ (b ≡ false)
guard_iff true e = (λ h. cc, λ h. cc)
guard_iff false e = (λ h. refl, λ h. refl)

validate_upload_file_iff :
    (t : Target) (refs : List (Option SecretRef))
    → (validate_upload_file t refs ≡ none) ↔ (NamesElement t × (refs ≢ []) × All IsComplete refs)
validate_upload_file_iff t refs =
    let a = require_selector_iff t "upload selector is required" in
    let b = guard_iff (is_empty refs) (validation_error "file_secret_refs are required") in
    let some_refs = is_empty_iff refs in
    let c = validate_secret_refs_iff "file_secret_refs" 0 refs in
    let checks = then_check_iff (require_selector t "upload selector is required") _ in
    let later =
      then_check_iff
        (if is_empty refs then some (validation_error "file_secret_refs are required") else none)
        (validate_secret_refs "file_secret_refs" 0 refs) in
    (
      λ h. let (p, q) = checks.0 h in let (r, s) = later.0 q in (a.0 p, some_refs.0 (b.0 r), c.0 s),
      λ h. checks.1 (a.1 h.0, later.1 (b.1 (some_refs.1 h.1), c.1 h.2)),
    )

validate_select_option_iff :
    (t : Target) (values labels : List String) (indexes : List ℤ)
    → (validate_select_option t values labels indexes ≡ none)
      ↔ (NamesElement t × ((values ≢ []) ⊎ (labels ≢ []) ⊎ (indexes ≢ [])))
validate_select_option_iff t values labels indexes =
    let a = require_selector_iff t "select option selector is required" in
    let checks = then_check_iff (require_selector t "select option selector is required") _ in
    let v = is_empty_iff values in
    let l = is_empty_iff labels in
    let i = is_empty_iff indexes in
    (
      λ h. let (p, q) = checks.0 h in (a.0 p, ground (arith, q, v, l, i)),
      λ h. checks.1 (a.1 h.0, ground (arith, h.1, v, l, i)),
    )

-- A browser command passes validation exactly when its operation has what it needs: the text, the
-- element, the point, the positive or non-negative number, or the complete secret references.
pub validate_operation_iff : (op : Operation) → (validate_operation op ≡ none) ↔ IsAccepted op
unfolding validate_operation
validate_operation_iff (navigate url) = require_string_iff url _
validate_operation_iff (type_text text) = require_string_iff text _
validate_operation_iff (press key) = require_string_iff key _
validate_operation_iff (wait_for_text text) = require_string_iff text _
validate_operation_iff (wait_for_url pattern) = require_string_iff pattern _
validate_operation_iff (click t) = require_selector_iff t _
validate_operation_iff (fill t) = require_selector_iff t _
validate_operation_iff (set_checked t) = require_selector_iff t _
validate_operation_iff (clear t) = require_selector_iff t _
validate_operation_iff (focus t) = require_selector_iff t _
validate_operation_iff (blur t) = require_selector_iff t _
validate_operation_iff (hover t) = require_selector_iff t _
validate_operation_iff (wait_for_selector t) = require_selector_iff t _
validate_operation_iff (extract_text t) = require_selector_iff t _
validate_operation_iff (count_elements t) = require_selector_iff t _
validate_operation_iff (extract_element t) = require_selector_iff t _
validate_operation_iff (submit_form t) = require_selector_iff t _
validate_operation_iff (mouse_move point path) = (
  λ h. ground (arith, is_present_iff point, is_empty_iff path),
  λ h. ground (arith, is_present_iff point, is_empty_iff path),
)
validate_operation_iff (mouse_click point) =
    (λ h. ground (arith, is_present_iff point), λ h. ground (arith, is_present_iff point))
validate_operation_iff (drag source target source_point target_point) =
    let a = has_selector_iff source in
    let b = has_selector_iff target in
    (
      λ h. ground (arith, a, b, is_present_iff source_point, is_present_iff target_point),
      λ h. ground (arith, a, b, is_present_iff source_point, is_present_iff target_point),
    )
validate_operation_iff (scroll t dx dy) =
    (λ h. ground (arith, has_selector_iff t), λ h. ground (arith, has_selector_iff t))
validate_operation_iff (wait_for_timeout none) = (λ h. cc, λ h. cc h.1)
validate_operation_iff (wait_for_timeout (some (pos zero))) = (λ h. cc, λ h. ground (arith, h.1))
validate_operation_iff (wait_for_timeout (some (pos (suc n)))) = (λ h. (n, refl), λ h. ground arith)
validate_operation_iff (wait_for_timeout (some (negsuc n))) = (λ h. cc, λ h. cc h.1)
validate_operation_iff (wait_for_network_request none) = (λ h. (0, refl), λ h. refl)
validate_operation_iff (wait_for_network_request (some (pos n))) = (λ h. (n, refl), λ h. refl)
validate_operation_iff (wait_for_network_request (some (negsuc n))) = (λ h. cc, λ h. cc h.1)
validate_operation_iff (get_network_requests (pos n)) = (λ h. (n, refl), λ h. refl)
validate_operation_iff (get_network_requests (negsuc n)) = (λ h. cc, λ h. cc h.1)
validate_operation_iff (get_attribute t name) = validate_get_attribute_iff t name
validate_operation_iff (upload_file t refs) = validate_upload_file_iff t refs
validate_operation_iff (select_option t values labels indexes) =
    validate_select_option_iff t values labels indexes
validate_operation_iff (evaluate script_ref inline) = (
  λ h. ground (arith, eq_iff script_ref "", eq_iff inline ""),
  λ h. ground (arith, eq_iff script_ref "", eq_iff inline ""),
)
validate_operation_iff _ = (λ h. tt, λ h. refl)

-- A command that is there, with an operation that has what it needs.
abbrev pub IsRunnable : Option BrowserCommand → Type 0
IsRunnable c =
    (command : BrowserCommand) × (op : Operation) × (c ≡ some command)
    × (command.operation ≡ some op)
    × IsAccepted op

operation_error_iff :
    (o : Option Operation)
    → (operation_error o ≡ none) ↔ ((op : Operation) × (o ≡ some op) × IsAccepted op)
operation_error_iff none = (λ h. cc, λ h. cc h.1)
operation_error_iff (some op) = (
  λ h. (op, refl, (validate_operation_iff op).0 h),
  λ (o, e, a). (validate_operation_iff op).1 (subst IsAccepted (some-injective _ _ (sym e)) a),
)

validate_command_iff : (c : Option BrowserCommand) → (validate_command c ≡ none) ↔ IsRunnable c
unfolding validate_command
validate_command_iff none = (λ h. cc, λ h. cc h.2)
validate_command_iff (some command) =
    let inner = operation_error_iff command.operation in
    (
      λ h. let (op, e, a) = inner.0 h in (command, op, refl, e, a),
      λ (c, op, same, e, a). inner.1 (op, ap (λ x. x.operation) (some-injective _ _ same) ∙ e, a),
    )

-- A list of commands passes validation exactly when each is there and has an operation that does.
pub validate_commands_iff :
    (cs : List (Option BrowserCommand)) → (validate_commands cs ≡ none) ↔ All IsRunnable cs
unfolding validate_commands
validate_commands_iff [] = (λ h. tt, λ h. refl)
validate_commands_iff (c ∷ cs) =
    let both = then_check_iff (validate_command c) (validate_commands cs) in
    let here = validate_command_iff c in
    let rest = validate_commands_iff cs in
    (λ h. (here.0 (both.0 h).0, rest.0 (both.0 h).1), λ h. both.1 (here.1 h.0, rest.1 h.1))
