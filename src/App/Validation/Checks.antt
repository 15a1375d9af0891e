-- ===== src/App/Validation/Checks.antt =====
-- The checks on the parts of a request: internal/app/task_validation.go, internal/app/selector_validation.go and
-- internal/platform/secretref/secretref.go. A validator returns nil, `none`, or an error.
use Prim.Native.String.{◌++◌ as str_append}
use browser_automation_byte.Prelude.{
  ℕ, ◌+◌, String, Bool, true, false, not, ◌&&◌, ◌||◌, Option, none, some, List, [], ◌∷◌,
  if◌then◌else◌, str_eq, trim_space,
}
use browser_automation_byte.Prelude.Int.{ℤ, is_negative}
use browser_automation_byte.Prelude.Decimal.{itoa}
use browser_automation_byte.Core.Errors.{GoError, plain, new_error, error_text}
use browser_automation_byte.Core.Errors.Code
use browser_automation_byte.Core.Reply.{◌then_check◌}
use browser_automation_byte.Core.Times.{duration}
use browser_automation_byte.Core.Messages.{Profile, TaskInput, get_of}
use browser_automation_byte.Core.Commands.{SecretRef, Selector, Target, Point, Float64, is_zero}

-- `validationError`
abbrev pub validation_error : String → GoError
validation_error message = new_error Code.validation_failed message false

-- `secretref.Configured`, on a reference that may be nil
unfoldable pub configured : Option SecretRef → Bool
configured ref = not (str_eq (trim_space (get_of (λ r. r.secret_id) "" ref)) "")

-- `secretref.Validate`
unfoldable pub validate_secret_ref : Option SecretRef → Option GoError
unfolding configured
validate_secret_ref ref =
    if not (configured ref)
    then some (plain "secret_id is required")
    else if str_eq (trim_space (get_of (λ r. r.provider) "" ref)) ""
    then some (plain "secret provider is required")
    else if str_eq (trim_space (get_of (λ r. r.purpose) "" ref)) ""
    then some (plain "secret purpose is required")
    else none

-- Some candidate of a selector group has a value.
unfoldable pub any_candidate : List (Option Selector) → Bool
any_candidate [] = false
any_candidate (c ∷ cs) =
    if not (str_eq (get_of (λ s. s.value) "" c) "") then true else any_candidate cs

-- `hasSelector`
unfoldable pub has_selector : Target → Bool
unfolding any_candidate
has_selector t =
    if not (str_eq (get_of (λ s. s.value) "" t.selector) "")
    then true
    else any_candidate (get_of (λ g. g.selectors) [] t.selector_group)

-- `requireSelector`
unfoldable pub require_selector : Target → String → Option GoError
unfolding has_selector
require_selector t message = if has_selector t then none else some (validation_error message)

-- `requireString`
unfoldable pub require_string : String → String → Option GoError
require_string value message =
    if not (str_eq value "") then none else some (validation_error message)

abbrev pub is_present {ℓ} : {A : Type ℓ} → Option A → Bool
is_present none = false
is_present (some a) = true

abbrev pub is_empty {ℓ} : {A : Type ℓ} → List A → Bool
is_empty [] = true
is_empty (x ∷ xs) = false

-- `validateProfile`
unfoldable pub validate_profile : Option Profile → Option GoError
unfolding configured validate_secret_ref error_text
validate_profile none = none
validate_profile (some p) =
    let ref = p.storage_state_secret_ref in
    if configured ref then wrap_error (validate_secret_ref ref) else none
  where
    wrap_error : Option GoError → Option GoError
    wrap_error none = none
    wrap_error (some err) =
        some
          (validation_error (str_append "storage_state_secret_ref is invalid: " (error_text err)))

-- `validateTaskInput`
unfoldable pub validate_task_input : Option TaskInput → Option GoError
unfolding duration
validate_task_input none = some (validation_error "input is required")
validate_task_input (some input) =
    if str_eq input.session_id ""
    then some (validation_error "session_id is required")
    else if str_eq input.task_key ""
    then some (validation_error "task_key is required")
    else if is_negative (duration input.timeout)
    then some (validation_error "timeout cannot be negative")
    else none

-- `validateSecretRefs`, from the entry at `index` on
unfoldable pub validate_secret_refs : String → ℕ → List (Option SecretRef) → Option GoError
validate_secret_refs field index [] = none
validate_secret_refs field index (ref ∷ refs) = elim (validate_secret_ref ref) [
  | none ↦ validate_secret_refs field (index + 1) refs
  | some err ↦ some (
      validation_error (
        str_append field (
          str_append "[" (str_append (itoa index) (str_append "] is invalid: " (error_text err))))))
]

-- `validateMouseMove`
abbrev pub validate_mouse_move : Option Point → List (Option Point) → Option GoError
validate_mouse_move point path =
    if not (is_present point) && is_empty path
    then some (validation_error "mouse move point or path is required")
    else none

-- `validateDrag`
abbrev pub validate_drag :
    (source target : Target) (source_point target_point : Option Point) → Option GoError
validate_drag source target source_point target_point =
    let has_source = has_selector source || is_present source_point in
    let has_target = has_selector target || is_present target_point in
    if not has_source || not has_target
    then some (validation_error "drag source and target are required")
    else none

-- `validateScroll`
abbrev pub validate_scroll : Target → (delta_x delta_y : Float64) → Option GoError
validate_scroll t delta_x delta_y =
    if not (has_selector t) && is_zero delta_x && is_zero delta_y
    then some (validation_error "scroll selector or delta is required")
    else none

-- `validateGetAttribute`
abbrev pub validate_get_attribute : Target → String → Option GoError
validate_get_attribute t name =
    require_selector t "get attribute selector is required"
    then_check require_string name "get attribute name is required"

-- `validateUploadFile`
abbrev pub validate_upload_file : Target → List (Option SecretRef) → Option GoError
validate_upload_file t refs =
    require_selector t "upload selector is required"
    then_check (if is_empty refs
        then some (validation_error "file_secret_refs are required")
        else none)
    then_check validate_secret_refs "file_secret_refs" 0 refs

-- `validateSelectOption`
abbrev pub validate_select_option : Target → (values labels : List String) → List ℤ → Option GoError
validate_select_option t values labels indexes =
    require_selector t "select option selector is required"
    then_check (if is_empty values && is_empty labels && is_empty indexes
        then some (validation_error "select option value, label or index is required")
        else none)
