-- ===== src/Adapters/Cloakbrowser/Config.antt =====
-- internal/adapters/runtime/cloakbrowser/config.go: the configuration of the runtime, with its defaults.
-- The directory for artifacts that the operating system offers is a parameter.
use browser_automation_byte.Prelude.{String, Bool, true, false, ◌≡◌, ◌≢◌, refl, List, if◌then◌else◌}
use browser_automation_byte.Prelude.Int.{ℤ, is_negative, is_positive}
use browser_automation_byte.Core.Errors.{plain}
use browser_automation_byte.Core.Reply.{Reply, ok, fail_with, check-ok}
use browser_automation_byte.Core.Times.{Duration}
use browser_automation_byte.Adapters.RuntimeConfig.{
  default_startup_timeout, default_shutdown_timeout, default_task_timeout, or_default, or_duration,
  at_least_one, or_default-filled, or_duration-positive, at_least_one-positive,
}

-- `Config`, without the proxy controller
pub record CloakConfig : Type 0 where
  pub python_path : String
  pub artifacts_dir : String
  pub startup_timeout : Duration
  pub shutdown_timeout : Duration
  pub task_timeout : Duration
  pub headless : Bool
  pub humanize : Bool
  pub extra_env : List String
  pub max_sessions : ℤ

-- The defaults that `normalize` fills in before its checks
unfoldable pub filled_in : String → CloakConfig → CloakConfig
filled_in temp_dir c = record c {
  python_path = or_default c.python_path "python3";
  startup_timeout = or_duration c.startup_timeout default_startup_timeout;
  shutdown_timeout = or_duration c.shutdown_timeout default_shutdown_timeout;
  task_timeout = or_duration c.task_timeout default_task_timeout;
  artifacts_dir = or_default c.artifacts_dir temp_dir;
}

-- The checks of `normalize`, and the number of sessions that it raises after them
unfoldable pub check_timeouts : CloakConfig → Reply CloakConfig
check_timeouts c =
    if is_negative c.startup_timeout
    then fail_with c (plain "startup timeout cannot be negative")
    else if is_negative c.shutdown_timeout
    then fail_with c (plain "shutdown timeout cannot be negative")
    else if is_negative c.task_timeout
    then fail_with c (plain "task timeout cannot be negative")
    else ok (record c { max_sessions = at_least_one c.max_sessions })

-- `normalize`
unfoldable pub normalize_cloak : String → CloakConfig → Reply CloakConfig
unfolding filled_in check_timeouts
normalize_cloak temp_dir c = check_timeouts (filled_in temp_dir c)

-- A configuration that the runtime can use: its program and its directory are named, every timeout is set and not negative,
-- and at least one session is allowed.
pub record IsNormalCloak (c : CloakConfig) : Type 0 where
  pub python_path : c.python_path ≢ ""
  pub artifacts_dir : c.artifacts_dir ≢ ""
  pub startup_timeout : is_positive c.startup_timeout ≡ true
  pub shutdown_timeout : is_positive c.shutdown_timeout ≡ true
  pub task_timeout : is_positive c.task_timeout ≡ true
  pub max_sessions : is_positive c.max_sessions ≡ true

check_timeouts-IsNormalCloak :
    (c r : CloakConfig)
    → c.python_path ≢ ""
    → c.artifacts_dir ≢ ""
    → (is_negative c.startup_timeout ≡ false → is_positive c.startup_timeout ≡ true)
    → (is_negative c.shutdown_timeout ≡ false → is_positive c.shutdown_timeout ≡ true)
    → (is_negative c.task_timeout ≡ false → is_positive c.task_timeout ≡ true)
    → check_timeouts c ≡ ok r
    → IsNormalCloak r
unfolding check_timeouts
check_timeouts-IsNormalCloak c r named placed startup shutdown task h =
    let (a, after_startup) = check-ok (is_negative c.startup_timeout) c _ h in
    let (b, after_shutdown) = check-ok (is_negative c.shutdown_timeout) c _ after_startup in
    let (d, after_task) = check-ok (is_negative c.task_timeout) c _ after_shutdown in
    let same : record c { max_sessions = at_least_one c.max_sessions } ≡ r = cc in
    rw (← same) (record {
      python_path = named;
      artifacts_dir = placed;
      startup_timeout = startup a;
      shutdown_timeout = shutdown b;
      task_timeout = task d;
      max_sessions = at_least_one-positive c.max_sessions;
    })

-- If the operating system offers a directory for artifacts, a configuration that `normalize` accepts names
-- its program and its directory for artifacts, has every timeout set and none negative, and
-- allows at least one session.
pub normalize_cloak-IsNormalCloak :
    (temp_dir : String) (c r : CloakConfig)
    → temp_dir ≢ ""
    → normalize_cloak temp_dir c ≡ ok r
    → IsNormalCloak r
unfolding normalize_cloak filled_in
normalize_cloak-IsNormalCloak temp_dir c r offered h =
    check_timeouts-IsNormalCloak (filled_in temp_dir c) r
      (or_default-filled c.python_path "python3" (λ e. cc))
      (or_default-filled c.artifacts_dir temp_dir offered)
      (or_duration-positive c.startup_timeout default_startup_timeout refl)
      (or_duration-positive c.shutdown_timeout default_shutdown_timeout refl)
      (or_duration-positive c.task_timeout default_task_timeout refl) h
