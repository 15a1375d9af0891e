-- ===== src/Adapters/Camoufox/Config.antt =====
-- internal/adapters/runtime/camoufox/config.go: the configuration of the runtime, with its defaults. The
-- directory for artifacts that the operating system offers is a parameter.
use browser_automation_byte.Prelude.{String, Bool, true, false, ◌≡◌, ◌≢◌, refl, List, if◌then◌else◌}
use browser_automation_byte.Prelude.Int.{ℤ, is_negative, is_positive}
use browser_automation_byte.Core.Errors.{plain}
use browser_automation_byte.Core.Reply.{Reply, ok, fail_with, check-ok}
use browser_automation_byte.Core.Times.{Duration}
use browser_automation_byte.Adapters.RuntimeConfig.{
  default_startup_timeout, default_shutdown_timeout, default_task_timeout, or_default, or_duration,
  at_least_one, or_default-filled, or_duration-positive, at_least_one-positive,
}

-- `Config`, without the proxy controller
pub record CamoufoxConfig : Type 0 where
  pub python_path : String
  pub artifacts_dir : String
  pub startup_timeout : Duration
  pub shutdown_timeout : Duration
  pub task_timeout : Duration
  pub headless : Bool
  pub server_port : ℤ
  pub ws_path_prefix : String
  pub extra_env : List String
  pub max_sessions : ℤ

-- The defaults that `normalize` fills in before it checks; the number of sessions is raised between two
-- checks.
unfoldable pub with_defaults : String → CamoufoxConfig → CamoufoxConfig
with_defaults temp_dir c = record c {
  python_path = or_default c.python_path "python3";
  startup_timeout = or_duration c.startup_timeout default_startup_timeout;
  shutdown_timeout = or_duration c.shutdown_timeout default_shutdown_timeout;
  task_timeout = or_duration c.task_timeout default_task_timeout;
  ws_path_prefix = or_default c.ws_path_prefix "browser-session-";
  artifacts_dir = or_default c.artifacts_dir temp_dir;
}

-- The checks of `normalize`
unfoldable pub checked : CamoufoxConfig → Reply CamoufoxConfig
checked c =
    let limited = record c { max_sessions = at_least_one c.max_sessions } in
    if is_negative c.startup_timeout
    then fail_with c (plain "startup timeout cannot be negative")
    else if is_negative c.shutdown_timeout
    then fail_with c (plain "shutdown timeout cannot be negative")
    else if is_negative c.task_timeout
    then fail_with c (plain "task timeout cannot be negative")
    else if is_negative c.server_port
    then fail_with limited (plain "server port cannot be negative")
    else ok limited

-- `normalize`
unfoldable pub normalize : String → CamoufoxConfig → Reply CamoufoxConfig
unfolding with_defaults checked
normalize temp_dir c = checked (with_defaults temp_dir c)

-- A configuration that the runtime can use: its texts and timeouts are set, no timeout and no port is
-- negative, and at least one session is allowed.
pub record IsNormal (c : CamoufoxConfig) : Type 0 where
  pub python_path : c.python_path ≢ ""
  pub ws_path_prefix : c.ws_path_prefix ≢ ""
  pub artifacts_dir : c.artifacts_dir ≢ ""
  pub startup_timeout : is_positive c.startup_timeout ≡ true
  pub shutdown_timeout : is_positive c.shutdown_timeout ≡ true
  pub task_timeout : is_positive c.task_timeout ≡ true
  pub server_port : is_negative c.server_port ≡ false
  pub max_sessions : is_positive c.max_sessions ≡ true

checked-IsNormal :
    (c r : CamoufoxConfig)
    → (c.python_path ≢ "") × (c.ws_path_prefix ≢ "") × (c.artifacts_dir ≢ "")
    → (is_negative c.startup_timeout ≡ false → is_positive c.startup_timeout ≡ true)
    → (is_negative c.shutdown_timeout ≡ false → is_positive c.shutdown_timeout ≡ true)
    → (is_negative c.task_timeout ≡ false → is_positive c.task_timeout ≡ true)
    → checked c ≡ ok r
    → IsNormal r
unfolding checked
checked-IsNormal c r filled startup shutdown task h =
    let (a, after_startup) = check-ok (is_negative c.startup_timeout) c _ h in
    let (b, after_shutdown) = check-ok (is_negative c.shutdown_timeout) c _ after_startup in
    let (d, after_task) = check-ok (is_negative c.task_timeout) c _ after_shutdown in
    let limited = record c { max_sessions = at_least_one c.max_sessions } in
    let (e, after_port) = check-ok (is_negative c.server_port) limited _ after_task in
    let same : limited ≡ r = cc in
    rw (← same) (record {
      python_path = filled.0;
      ws_path_prefix = filled.1;
      artifacts_dir = filled.2;
      startup_timeout = startup a;
      shutdown_timeout = shutdown b;
      task_timeout = task d;
      server_port = e;
      max_sessions = at_least_one-positive c.max_sessions;
    })

-- If the operating system offers a directory for artifacts, a configuration that `normalize` accepts has
-- the program, the prefix, the directory for artifacts and every timeout set, neither a negative timeout
-- nor a negative port, and at least one session.
pub normalize-IsNormal :
    (temp_dir : String) (c r : CamoufoxConfig)
    → temp_dir ≢ ""
    → normalize temp_dir c ≡ ok r
    → IsNormal r
unfolding normalize with_defaults
normalize-IsNormal temp_dir c r offered h =
    checked-IsNormal (with_defaults temp_dir c) r
      (
        or_default-filled c.python_path "python3" (λ e. cc),
        or_default-filled c.ws_path_prefix "browser-session-" (λ e. cc),
        or_default-filled c.artifacts_dir temp_dir offered,
      )
      (or_duration-positive c.startup_timeout default_startup_timeout refl)
      (or_duration-positive c.shutdown_timeout default_shutdown_timeout refl)
      (or_duration-positive c.task_timeout default_task_timeout refl) h
