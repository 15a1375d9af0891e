-- ===== src/Core/Commands.antt =====
-- The browser commands of gen/go/browser/automation/v1/browser_automation.pb.go. A command's
-- payload has the fields that the service reads; those that only the worker reads are left out.
use browser_automation_byte.Prelude.{ℕ, ◌^◌, String, Bool, ◌||◌, Option, List, Map, ◌==◌}
use browser_automation_byte.Prelude.Int.{ℤ}
use browser_automation_byte.Core.Times.{Time, Duration}

-- The 64 bits of a `double`.
abbrev pub Float64 : Type 0
Float64 = ℕ

-- `f == 0`, which holds of both zeros.
abbrev pub is_zero : Float64 → Bool
is_zero f = f == 0 || f == 2 ^ 63

pub record SecretRef : Type 0 where
  pub secret_id : String
  pub provider : String
  pub purpose : String
  pub expires_at : Option Time

-- `BrowserSelector`; the kind is its number.
pub record Selector : Type 0 where
  pub kind : ℕ
  pub value : String
  pub role_name : String
  pub exact : Bool
  pub timeout : Option Duration

-- `BrowserSelectorGroup`; an entry may be nil.
pub record SelectorGroup : Type 0 where
  pub selectors : List (Option Selector)
  pub require_all : Bool
  pub timeout : Option Duration

-- `BrowserPoint`
pub record Point : Type 0 where
  pub x : Float64
  pub y : Float64

-- What a command that acts on an element points at.
pub record Target : Type 0 where
  pub selector : Option Selector
  pub selector_group : Option SelectorGroup

-- `BrowserCommand_…`, the operations; a payload is what its getters give, a nil one their zeros.
pub data Operation : Type 0 where
  navigate : (url : String) → Operation
  reload go_back go_forward mouse_down mouse_up : Operation
  get_page_state get_cookies get_storage_state screenshot wait_for_load_state : Operation
  click fill set_checked clear focus blur hover : Target → Operation
  type_text : (text : String) → Operation
  press : (key : String) → Operation
  mouse_move : (point : Option Point) → (path : List (Option Point)) → Operation
  mouse_click : (point : Option Point) → Operation
  drag : (source target : Target) → (source_point target_point : Option Point) → Operation
  scroll : Target → (delta_x delta_y : Float64) → Operation
  wait_for_selector extract_text count_elements extract_element submit_form : Target → Operation
  wait_for_text : (text : String) → Operation
  wait_for_url : (url_pattern : String) → Operation
  wait_for_timeout : Option Duration → Operation
  wait_for_network_request : (timeout : Option Duration) → Operation
  get_network_requests : (limit : ℤ) → Operation
  get_attribute : Target → (name : String) → Operation
  upload_file : Target → (file_secret_refs : List (Option SecretRef)) → Operation
  select_option : Target → (values labels : List String) → (indexes : List ℤ) → Operation
  evaluate : (script_ref inline_expression : String) → Operation

-- `BrowserCommand`; the operation is nil in a command that sets none.
pub record BrowserCommand : Type 0 where
  pub command_id : String
  pub command_key : String
  pub timeout : Option Duration
  pub continue_on_error : Bool
  pub labels : Map String
  pub operation : Option Operation
