-- ===== src/Core/Requests.antt =====
-- The requests and responses of gen/go/browser/automation/v1/browser_automation.pb.go. Responses that
-- have the same fields are one type here; a request's fields that no server reads are left out.
use browser_automation_byte.Prelude.{String, Option, List, Map}
use browser_automation_byte.Prelude.Int.{ℤ}
use browser_automation_byte.Core.Errors.{AutomationError}
use browser_automation_byte.Core.Times.{Duration}
use browser_automation_byte.Core.Messages.{
  Profile, ProxySelection, Task, TaskInput, TaskFilter, CommandResult,
}

pub record StartSessionRequest : Type 0 where
  pub request_id : String
  pub profile : Option Profile
  pub ttl : Option Duration
  pub labels : Map String
  pub proxy : Option ProxySelection

pub record StopSessionRequest : Type 0 where
  pub session_id : String
  pub reason : String

pub record ListSessionsRequest : Type 0 where
  pub page_size : ℤ
  pub page_token : String

-- `StartBrowserTaskRequest` and `ExecuteBrowserCommandsRequest`
pub record TaskRequest : Type 0 where
  pub request_id : String
  pub input : Option TaskInput

pub record ListTasksRequest : Type 0 where
  pub filter : Option TaskFilter
  pub page_size : ℤ
  pub page_token : String

-- `BrowserLiveWebRTCAnswerRequest`
pub record AnswerRequest : Type 0 where
  pub live_view_token : String
  pub offer_sdp : String
  pub offer_type : String

-- The responses that carry one value and an error: those that start, get and stop a session, create a
-- live view, start and get a task
pub record Response (A : Type 0) : Type 0 where
  pub value : Option A
  pub error : Option AutomationError

-- `ListBrowserSessionsResponse` and `ListBrowserTasksResponse`
pub record ListResponse (A : Type 0) : Type 0 where
  pub items : List A
  pub next_page_token : String
  pub error : Option AutomationError

-- `ExecuteBrowserCommandsResponse`
pub record CommandsResponse : Type 0 where
  pub task : Option Task
  pub results : List CommandResult
  pub error : Option AutomationError

-- `BrowserLiveWebRTCAnswerResponse`
pub record AnswerResponse : Type 0 where
  pub answer_sdp : String
  pub answer_type : String
  pub error : Option AutomationError
