-- ===== src/Core/Messages.antt =====
-- The messages of gen/go/browser/automation/v1/browser_automation.pb.go that hold the state:
-- sessions, tasks, their parts, and the filter of a task list. A pointer that may be nil is an
-- `Option`; a map is an association list; a `double` is its 64 bits; a JSON value its bytes.
use browser_automation_byte.Prelude.{ℕ, String, Bool, Option, List, Map}
use browser_automation_byte.Prelude.Int.{ℤ}
use browser_automation_byte.Core.Errors.{AutomationError}
use browser_automation_byte.Core.Times.{Time, Duration}
use browser_automation_byte.Core.Commands.{BrowserCommand, SecretRef, Float64}

-- `BrowserKind`; the last constructor is a number that no constant names, here and below.
pub data BrowserKind : Type 0 where
  unspecified chromium firefox webkit : BrowserKind
  unrecognized : ℕ → BrowserKind

pub data SessionStatus : Type 0 where
  unspecified starting running stopping stopped failed expired : SessionStatus
  unrecognized : ℕ → SessionStatus

pub data TaskStatus : Type 0 where
  unspecified queued running succeeded failed canceled timeout : TaskStatus
  unrecognized : ℕ → TaskStatus

pub data CommandStatus : Type 0 where
  unspecified succeeded failed timeout skipped : CommandStatus
  unrecognized : ℕ → CommandStatus

pub record Viewport : Type 0 where
  pub width : ℤ
  pub height : ℤ
  pub device_scale_factor : Float64
  pub mobile : Bool

-- `BrowserProfile`
pub record Profile : Type 0 where
  pub browser_kind : BrowserKind
  pub locale : String
  pub timezone : String
  pub user_agent : String
  pub viewport : Option Viewport
  pub proxy_ref : String
  pub storage_state_secret_ref : Option SecretRef
  pub extra_http_headers : Map String
  pub init_scripts : List String

pub record ArtifactRef : Type 0 where
  pub artifact_id : String
  pub uri : String
  pub content_type : String
  pub size_bytes : ℤ
  pub purpose : String
  pub expires_at : Option Time

-- `BrowserArtifact`; the kind is its number.
pub record Artifact : Type 0 where
  pub artifact_id : String
  pub kind : ℕ
  pub ref : Option ArtifactRef
  pub content_type : String
  pub size_bytes : ℤ
  pub labels : Map String
  pub created_at : Option Time

pub record Rect : Type 0 where
  pub x : Float64
  pub y : Float64
  pub width : Float64
  pub height : Float64

-- `BrowserCommandResult`
pub record CommandResult : Type 0 where
  pub command_id : String
  pub command_key : String
  pub status : CommandStatus
  pub error : Option AutomationError
  pub text : String
  pub texts : List String
  pub json_value : Option (List ℕ)
  pub artifact : Option Artifact
  pub matched_count : ℤ
  pub current_url : String
  pub attribute_value : String
  pub attributes : Map String
  pub visible : Bool
  pub bounding_box : Option Rect
  pub title : String
  pub secret_ref : Option SecretRef
  pub artifact_ref : Option ArtifactRef
  pub completed_at : Option Time

-- `BrowserSession`
pub record Session : Type 0 where
  pub session_id : String
  pub request_id : String
  pub status : SessionStatus
  pub profile : Option Profile
  pub last_error : Option AutomationError
  pub artifacts : List Artifact
  pub labels : Map String
  pub created_at : Option Time
  pub started_at : Option Time
  pub updated_at : Option Time
  pub stopped_at : Option Time
  pub expires_at : Option Time

pub record SecurityPolicy : Type 0 where
  pub allowed_hosts : List String
  pub allow_file_upload : Bool
  pub allow_cookie_read : Bool
  pub allow_storage_state_read : Bool
  pub allow_main_world_eval : Bool

-- `BrowserTaskInput`
pub record TaskInput : Type 0 where
  pub session_id : String
  pub task_key : String
  pub scenario_key : String
  pub target_url : String
  pub timeout : Option Duration
  pub commands : List (Option BrowserCommand)
  pub security_policy : Option SecurityPolicy
  pub labels : Map String

-- `BrowserTask`
pub record Task : Type 0 where
  pub task_id : String
  pub request_id : String
  pub status : TaskStatus
  pub input : Option TaskInput
  pub last_error : Option AutomationError
  pub artifacts : List Artifact
  pub results : List CommandResult
  pub labels : Map String
  pub created_at : Option Time
  pub started_at : Option Time
  pub updated_at : Option Time
  pub completed_at : Option Time

-- `BrowserTaskFilter`
pub record TaskFilter : Type 0 where
  pub session_id : String
  pub status : TaskStatus
  pub task_key : String
  pub scenario_key : String
  pub label_key : String
  pub label_value : String
  pub created_after : Option Time
  pub created_before : Option Time

pub data ProxyProviderKind : Type 0 where
  unspecified none manual proxy_runtime : ProxyProviderKind
  unrecognized : ℕ → ProxyProviderKind

-- `BrowserProxySelection`
pub record ProxySelection : Type 0 where
  pub provider_kind : ProxyProviderKind
  pub manual_proxy_ref : String
  pub manual_proxy_url : String
  pub proxy_runtime_account_id : String
  pub proxy_runtime_purpose : String

-- A getter of the generated code on a pointer: the field, or its zero value if the pointer is nil.
abbrev pub get_of {ℓ κ} : {A : Type ℓ} {B : Type κ} → (A → B) → B → Option A → B
get_of field default Option.none = default
get_of field default (Option.some a) = field a

-- `GetSessionId`, `GetTaskKey` and `GetScenarioKey` of an input that may be nil
abbrev pub input_session_id : Option TaskInput → String
input_session_id = get_of (λ i. i.session_id) ""

abbrev pub input_task_key : Option TaskInput → String
input_task_key = get_of (λ i. i.task_key) ""

abbrev pub input_scenario_key : Option TaskInput → String
input_scenario_key = get_of (λ i. i.scenario_key) ""

abbrev pub profile_browser_kind : Option Profile → BrowserKind
profile_browser_kind = get_of (λ p. p.browser_kind) BrowserKind.unspecified
