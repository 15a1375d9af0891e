-- ===== src/App/Service/Helpers.antt =====
-- internal/app/proto_helpers.go, and the guards of session_service.go that only read.
use browser_automation_byte.Prelude.{
  String, Bool, true, false, not, Option, none, some, [], str_eq, ltb, if◌then◌else◌,
}
use browser_automation_byte.Prelude.Int.{is_positive, to_ℕ}
use browser_automation_byte.Core.Errors.{
  GoError, Error, core, new_error, errors_as, error_text, automation_error, AutomationError,
}
use browser_automation_byte.Core.Errors.Code
use browser_automation_byte.Core.Messages.{Profile, BrowserKind}
use browser_automation_byte.Core.Ports.{Capacity}

abbrev has_code : String → Option Error → Bool
has_code c none = false
has_code c (some e) = str_eq e.code c

-- `isSessionNotFound`
unfoldable pub is_session_not_found : GoError → Bool
unfolding errors_as
is_session_not_found err = has_code Code.session_not_found (errors_as err)

-- `isTaskNotFound`
unfoldable pub is_task_not_found : GoError → Bool
unfolding errors_as
is_task_not_found err = has_code Code.task_not_found (errors_as err)

abbrev or_new : Option Error → GoError → String → Error
or_new (some e) err fallback = e
or_new none err fallback = record { code = fallback; message = error_text err; retryable = true }

-- `asCoreError` on an error that is not nil
unfoldable pub as_core_error : GoError → String → Error
unfolding errors_as error_text
as_core_error err fallback = or_new (errors_as err) err fallback

-- `core.AutomationError(asCoreError(err, fallback))`
abbrev pub last_error_of : GoError → String → Option AutomationError
last_error_of err fallback = automation_error (some (core (as_core_error err fallback)))

abbrev pub empty_profile : Profile
empty_profile = record {
  browser_kind = BrowserKind.unspecified;
  locale = "";
  timezone = "";
  user_agent = "";
  viewport = none;
  proxy_ref = "";
  storage_state_secret_ref = none;
  extra_http_headers = [];
  init_scripts = [];
}

-- `cloneProfile`
unfoldable pub clone_profile : Option Profile → Profile
clone_profile none = empty_profile
clone_profile (some p) = p

-- Whether a browser kind is UNSPECIFIED.
abbrev pub is_unspecified : BrowserKind → Bool
is_unspecified BrowserKind.unspecified = true
is_unspecified _ = false

-- `defaultBrowserKind`, given what the runtime says if it says anything
unfoldable pub default_browser_kind : Option BrowserKind → BrowserKind
default_browser_kind none = BrowserKind.chromium
default_browser_kind (some kind) = if not (is_unspecified kind) then kind else BrowserKind.chromium

-- `ensureSessionCapacity`, given the runtime's capacity interface if it has one
module _ {E : Type 0} where
  unfoldable pub ensure_session_capacity : Option (Capacity E) → E → Option GoError
  ensure_session_capacity none e = none
  ensure_session_capacity (some c) e =
      if not (is_positive (c.max_session_count e))
      then none
      else if ltb (c.active_session_count e) (to_ℕ (c.max_session_count e))
      then none
      else some (new_error Code.capacity_unavailable "browser session capacity is exhausted" true)
