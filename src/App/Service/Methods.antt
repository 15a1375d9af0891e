-- ===== src/App/Service/Methods.antt =====
-- internal/app/automation_service.go: `AutomationService`, and its methods as its servers call them.
use browser_automation_byte.Prelude.{String, Option, Map}
use browser_automation_byte.Prelude.Int.{ℤ}
use browser_automation_byte.Core.Times.{Duration}
use browser_automation_byte.Core.Messages.{
  Session, Profile, ProxySelection, Task, TaskInput, TaskFilter,
}
use browser_automation_byte.Core.Ports.{Store, Environment, ListResult}
use browser_automation_byte.App.Service.World.{Act}
use browser_automation_byte.App.Service.Sessions
use browser_automation_byte.App.Service.Lifetime
use browser_automation_byte.App.Service.Tasks
use browser_automation_byte.App.Service.LiveView
use browser_automation_byte.App.Service.LiveView.{Codec, LiveRuntime, Provider}

-- `AutomationService`: the store, the runtime with its optional live view interfaces, the clock, the ids
-- and the proxy controller, and the codec that holds the key of live view tokens.
pub record AutomationService (S E B : Type 0) : Type 0 where
  pub store : Store S
  pub environment : Environment E
  pub codec : Codec B
  pub live : Option LiveRuntime
  pub default_provider : Option Provider

module _ {S E B : Type 0} (service : AutomationService S E B) where
  open service use {store, environment, codec, live, default_provider}

  abbrev pub start_session :
      String
      → Option Profile
      → Duration
      → Map String
      → Option ProxySelection
      → Act S E (Option Session)
  start_session = Sessions.start_browser_session store environment

  abbrev pub get_session : String → Act S E Session
  get_session = Lifetime.get_browser_session store environment

  abbrev pub list_sessions : ℤ → String → Act S E (ListResult Session)
  list_sessions = Lifetime.list_browser_sessions store environment

  abbrev pub stop_session : String → String → Act S E (Option Session)
  stop_session = Lifetime.stop_browser_session store environment

  abbrev pub create_live_view : LiveView.LiveViewRequest → Act S E LiveView.LiveView
  create_live_view = LiveView.create_browser_live_view store environment codec live default_provider

  abbrev pub authorize_live_view : String → Act S E LiveView.LiveView
  authorize_live_view =
      LiveView.authorize_browser_live_view store environment codec live default_provider

  abbrev pub start_task : String → Option TaskInput → Act S E (Option Task)
  start_task = Tasks.start_browser_task store environment

  abbrev pub execute_commands : String → Option TaskInput → Act S E (Option Task)
  execute_commands = Tasks.execute_browser_commands store environment

  abbrev pub get_task : String → Act S E Task
  get_task = Tasks.get_browser_task store environment

  abbrev pub list_tasks : Option TaskFilter → ℤ → String → Act S E (ListResult Task)
  list_tasks = Tasks.list_browser_tasks store environment
