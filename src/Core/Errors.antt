-- ===== src/Core/Errors.antt =====
-- internal/core/types.go: error codes, `Error`, and the error that a response carries.
pub mod Code
pub mod Laws
use browser_automation_byte.Prelude.{
  String, Bool, true, false, Option, none, some, if◌then◌else◌, str_eq,
}
use Prim.Native.String.{◌++◌ as str_append}

-- `type ErrorCode string`; a runtime worker may answer with a code of its own.
abbrev pub ErrorCode : Type 0
ErrorCode = String

-- `type Error struct`
pub record Error : Type 0 where
  pub code : ErrorCode
  pub message : String
  pub retryable : Bool

-- Go's `error` values: a `*core.Error`, an error of another package by its text, an error wrapped
-- by `%w` behind a text, and two errors joined by `errors.Join`.
pub data GoError : Type 0 where
  core : Error → GoError
  plain : String → GoError
  wrapped : String → GoError → GoError
  joined : GoError → GoError → GoError

-- `NewError`
abbrev pub new_error : ErrorCode → String → Bool → GoError
new_error c m r = core (record { code = c; message = m; retryable = r })

-- `(*Error).Error` on a pointer that is not nil
unfoldable pub error_message : Error → String
error_message e =
    if str_eq e.message "" then e.code else str_append e.code (str_append ": " e.message)

-- `err.Error()`
unfoldable pub error_text : GoError → String
unfolding error_message
error_text (core e) = error_message e
error_text (plain s) = s
error_text (wrapped s e) = str_append s (error_text e)
error_text (joined a b) = str_append (error_text a) (str_append "\n" (error_text b))

abbrev or_else : Option Error → Option Error → Option Error
or_else none r = r
or_else (some e) r = some e

-- `errors.As(err, &coreErr)`: the first `*core.Error` of the chain
unfoldable pub errors_as : GoError → Option Error
errors_as (core e) = some e
errors_as (plain s) = none
errors_as (wrapped s e) = errors_as e
errors_as (joined a b) = or_else (errors_as a) (errors_as b)

pub data ProtoErrorCode : Type 0 where
  unspecified validation_failed session_not_found task_not_found : ProtoErrorCode
  artifact_not_found session_already_finalized task_already_finalized : ProtoErrorCode
  capacity_unavailable browser_unavailable proxy_failed navigation_failed : ProtoErrorCode
  script_failed timeout unsupported_operation internal : ProtoErrorCode

-- `BrowserAutomationError`
pub record AutomationError : Type 0 where
  pub code : ProtoErrorCode
  pub message : String
  pub retryable : Bool

-- `ErrorCodeToProto`
unfoldable pub error_code_to_proto : ErrorCode → ProtoErrorCode
error_code_to_proto c =
    if str_eq c Code.validation_failed
    then validation_failed
    else if str_eq c Code.session_not_found
    then session_not_found
    else if str_eq c Code.task_not_found
    then task_not_found
    else if str_eq c Code.artifact_not_found
    then artifact_not_found
    else if str_eq c Code.session_finalized
    then session_already_finalized
    else if str_eq c Code.task_finalized
    then task_already_finalized
    else if str_eq c Code.capacity_unavailable
    then capacity_unavailable
    else if str_eq c Code.browser_unavailable
    then browser_unavailable
    else if str_eq c Code.proxy_failed
    then proxy_failed
    else if str_eq c Code.navigation_failed
    then navigation_failed
    else if str_eq c Code.script_failed
    then script_failed
    else if str_eq c Code.timeout
    then timeout
    else if str_eq c Code.unsupported_operation
    then unsupported_operation
    else if str_eq c Code.internal
    then internal
    else unspecified

abbrev or_internal : Option Error → GoError → Error
or_internal (some e) err = e
or_internal none err = record { code = Code.internal; message = error_text err; retryable = false }

abbrev to_automation_error : Error → AutomationError
to_automation_error e = record {
  code = error_code_to_proto e.code;
  message = e.message;
  retryable = e.retryable;
}

-- `AutomationError`
unfoldable pub automation_error : Option GoError → Option AutomationError
unfolding errors_as error_code_to_proto error_text
automation_error none = none
automation_error (some err) = some (to_automation_error (or_internal (errors_as err) err))
