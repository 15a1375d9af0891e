-- ===== src/Cmd/Settings.antt =====
-- cmd/browser-automation-service/main.go, loadConfig: the settings of the process. The environment, lower
-- case, Go's quoting of text and the reading of a file are parameters.
use browser_automation_byte.Prelude.{
  ℕ, ◌*◌, String, Bool, true, false, ◌≡◌, Option, List, Map, str_eq, if◌then◌else◌, trim_space,
  arith, not,
}
use browser_automation_byte.Prelude.Int.{ℤ, pos, is_negative, is_positive, as_int32, low_bits}
use Prim.Native.String.{◌++◌ as str_append}
use browser_automation_byte.Core.Errors.{plain}
use browser_automation_byte.Core.Reply.{Reply, ok, fail, fail_with, check-ok}
use browser_automation_byte.Core.Times.{Duration}
use browser_automation_byte.Platform.Env.{
  Env, env_string, string_default, env_bool, env_int, duration_seconds, env_list, json_string_map,
}
use browser_automation_byte.Adapters.Registry.{Registry, get_plugin, is_present}
use browser_automation_byte.Cmd.Capacity.{derive_max_concurrent_sessions, derive-positive}

abbrev seconds : ℕ → Duration
seconds n = pos (n * 1000000000)

-- `config`, without the proxy controller, which `run` sets
pub record ServiceConfig : Type 0 where
  pub listen_addr : String
  pub http_listen_addr : String
  pub web_dir : String
  pub postgres_dsn : String
  pub postgres_max_conns : ℤ
  pub postgres_connect_timeout : Duration
  pub postgres_statement_timeout : Duration
  pub apply_migrations : Bool
  pub migrations_dir : String
  pub shutdown_grace : Duration
  pub webrtc_tcp_listen_addr : String
  pub webrtc_udp_listen_addr : String
  pub webrtc_public_ips : List String
  pub runtime : String
  pub max_concurrent_sessions : ℤ
  pub camoufox_python_path : String
  pub artifacts_dir : String
  pub camoufox_startup_timeout : Duration
  pub camoufox_shutdown_timeout : Duration
  pub camoufox_task_timeout : Duration
  pub camoufox_headless : Bool
  pub camoufox_server_port : ℤ
  pub camoufox_ws_path_prefix : String
  pub camoufox_extra_env : List String
  pub cloak_browser_python_path : String
  pub cloak_browser_startup_timeout : Duration
  pub cloak_browser_shutdown_timeout : Duration
  pub cloak_browser_task_timeout : Duration
  pub cloak_browser_headless : Bool
  pub cloak_browser_humanize : Bool
  pub cloak_browser_extra_env : List String
  pub proxy_refs : Map String
  pub proxy_runtime_base_url : String
  pub proxy_runtime_timeout : Duration
  pub proxy_runtime_purpose : String
  pub proxy_runtime_account_id : String

-- `int32(n)`
abbrev to_int32 : ℤ → ℤ
to_int32 n = as_int32 (low_bits 32 n 1)

-- What the variables say, before any of it is checked
unfoldable pub read_settings : Env → Map String → ServiceConfig
unfolding env_string string_default env_bool env_int duration_seconds env_list
read_settings env proxy_refs = record {
  listen_addr = string_default env "BROWSER_AUTOMATION_LISTEN_ADDR" ":50051";
  http_listen_addr = string_default env "BROWSER_AUTOMATION_HTTP_LISTEN_ADDR" ":8080";
  web_dir = string_default env "BROWSER_AUTOMATION_WEB_DIR" "webui/dist";
  postgres_dsn = env_string env "BROWSER_AUTOMATION_POSTGRES_DSN";
  postgres_max_conns = to_int32 (env_int env "BROWSER_AUTOMATION_POSTGRES_MAX_CONNS" (pos 8));
  postgres_connect_timeout =
      duration_seconds env "BROWSER_AUTOMATION_POSTGRES_CONNECT_TIMEOUT_SECONDS" (seconds 10);
  postgres_statement_timeout =
      duration_seconds env "BROWSER_AUTOMATION_POSTGRES_STATEMENT_TIMEOUT_SECONDS" (seconds 10);
  apply_migrations = env_bool env "BROWSER_AUTOMATION_APPLY_MIGRATIONS" false;
  migrations_dir = string_default env "BROWSER_AUTOMATION_MIGRATIONS_DIR" "migrations";
  shutdown_grace = duration_seconds env "BROWSER_AUTOMATION_SHUTDOWN_GRACE_SECONDS" (seconds 10);
  webrtc_tcp_listen_addr = string_default env "BROWSER_AUTOMATION_WEBRTC_TCP_LISTEN_ADDR" "";
  webrtc_udp_listen_addr = string_default env "BROWSER_AUTOMATION_WEBRTC_UDP_LISTEN_ADDR" ":3478";
  webrtc_public_ips = env_list env "BROWSER_AUTOMATION_WEBRTC_PUBLIC_IPS";
  runtime = env.to_lower (string_default env "BROWSER_AUTOMATION_RUNTIME" "camoufox");
  max_concurrent_sessions = env_int env "BROWSER_AUTOMATION_MAX_CONCURRENT_SESSIONS" (pos 0);
  camoufox_python_path = string_default env "BROWSER_AUTOMATION_CAMOUFOX_PYTHON_PATH" "python3";
  artifacts_dir =
      string_default env "BROWSER_AUTOMATION_ARTIFACTS_DIR" "/tmp/browser-automation-artifacts";
  camoufox_startup_timeout =
      duration_seconds env "BROWSER_AUTOMATION_CAMOUFOX_STARTUP_TIMEOUT_SECONDS" (seconds 30);
  camoufox_shutdown_timeout =
      duration_seconds env "BROWSER_AUTOMATION_CAMOUFOX_SHUTDOWN_TIMEOUT_SECONDS" (seconds 5);
  camoufox_task_timeout =
      duration_seconds env "BROWSER_AUTOMATION_CAMOUFOX_TASK_TIMEOUT_SECONDS" (seconds 120);
  camoufox_headless = env_bool env "BROWSER_AUTOMATION_CAMOUFOX_HEADLESS" true;
  camoufox_server_port = env_int env "BROWSER_AUTOMATION_CAMOUFOX_SERVER_PORT" (pos 0);
  camoufox_ws_path_prefix =
      string_default env "BROWSER_AUTOMATION_CAMOUFOX_WS_PATH_PREFIX" "browser-session-";
  camoufox_extra_env = env_list env "BROWSER_AUTOMATION_CAMOUFOX_EXTRA_ENV";
  cloak_browser_python_path =
      string_default env "BROWSER_AUTOMATION_CLOAK_BROWSER_PYTHON_PATH" "python3";
  cloak_browser_startup_timeout =
      duration_seconds env "BROWSER_AUTOMATION_CLOAK_BROWSER_STARTUP_TIMEOUT_SECONDS" (seconds 30);
  cloak_browser_shutdown_timeout =
      duration_seconds env "BROWSER_AUTOMATION_CLOAK_BROWSER_SHUTDOWN_TIMEOUT_SECONDS" (seconds 5);
  cloak_browser_task_timeout =
      duration_seconds env "BROWSER_AUTOMATION_CLOAK_BROWSER_TASK_TIMEOUT_SECONDS" (seconds 120);
  cloak_browser_headless = env_bool env "BROWSER_AUTOMATION_CLOAK_BROWSER_HEADLESS" true;
  cloak_browser_humanize = env_bool env "BROWSER_AUTOMATION_CLOAK_BROWSER_HUMANIZE" true;
  cloak_browser_extra_env = env_list env "BROWSER_AUTOMATION_CLOAK_BROWSER_EXTRA_ENV";
  proxy_refs = proxy_refs;
  proxy_runtime_base_url = env_string env "BROWSER_AUTOMATION_PROXY_RUNTIME_BASE_URL";
  proxy_runtime_timeout =
      duration_seconds env "BROWSER_AUTOMATION_PROXY_RUNTIME_TIMEOUT_SECONDS" (seconds 10);
  proxy_runtime_purpose =
      string_default env "BROWSER_AUTOMATION_PROXY_RUNTIME_PURPOSE" "browser-automation";
  proxy_runtime_account_id = env_string env "BROWSER_AUTOMATION_PROXY_RUNTIME_ACCOUNT_ID";
}

module _ (env : Env) (read_file : String → Option String) {R : Type 0}
    (registry : Registry ServiceConfig R) where
  -- The checks of `loadConfig`, and the number of sessions that it derives
  unfoldable pub check_settings : ServiceConfig → Reply ServiceConfig
  unfolding get_plugin
  check_settings cfg =
      let sized = record cfg {
        max_concurrent_sessions =
            derive_max_concurrent_sessions read_file cfg.max_concurrent_sessions;
      } in
      if str_eq (trim_space cfg.postgres_dsn) ""
      then fail_with cfg (plain "BROWSER_AUTOMATION_POSTGRES_DSN is required")
      else if not (is_positive cfg.postgres_max_conns)
      then fail_with cfg (plain "BROWSER_AUTOMATION_POSTGRES_MAX_CONNS must be positive")
      else if is_negative cfg.max_concurrent_sessions
      then fail_with cfg (plain "BROWSER_AUTOMATION_MAX_CONCURRENT_SESSIONS cannot be negative")
      else if not (is_present (get_plugin env.to_lower env.quote registry sized.runtime))
      then fail_with sized
          (plain (str_append "unsupported BROWSER_AUTOMATION_RUNTIME " (env.quote sized.runtime)))
      else ok sized

  abbrev with_refs : Reply (Map String) → Reply ServiceConfig
  with_refs (ok refs) = check_settings (read_settings env refs)
  with_refs (fail err) = fail err
  with_refs (fail_with refs err) = fail err

  -- `loadConfig`
  unfoldable pub load_config : Reply ServiceConfig
  unfolding json_string_map read_settings check_settings
  load_config = with_refs (json_string_map env "BROWSER_AUTOMATION_PROXY_REFS_JSON")

  -- A configuration that the process can start with: there is a database to connect to with at least one
  -- connection, at least one session is allowed, and the runtime is registered.
  pub record IsRunnable (cfg : ServiceConfig) : Type 0 where
    pub postgres_dsn : str_eq (trim_space cfg.postgres_dsn) "" ≡ false
    pub postgres_max_conns : is_positive cfg.postgres_max_conns ≡ true
    pub max_concurrent_sessions : is_positive cfg.max_concurrent_sessions ≡ true
    pub runtime : is_present (get_plugin env.to_lower env.quote registry cfg.runtime) ≡ true

  check_settings-IsRunnable : (cfg r : ServiceConfig) → check_settings cfg ≡ ok r → IsRunnable r
  unfolding check_settings
  check_settings-IsRunnable cfg r h =
      let sized = record cfg {
        max_concurrent_sessions =
            derive_max_concurrent_sessions read_file cfg.max_concurrent_sessions;
      } in
      let (dsn, after_dsn) = check-ok (str_eq (trim_space cfg.postgres_dsn) "") cfg _ h in
      let (conns, after_conns) =
        check-ok (not (is_positive cfg.postgres_max_conns)) cfg _ after_dsn in
      let (_, after_limit) = check-ok (is_negative cfg.max_concurrent_sessions) cfg _ after_conns in
      let found = is_present (get_plugin env.to_lower env.quote registry cfg.runtime) in
      let (chosen, after_runtime) = check-ok (not found) sized _ after_limit in
      let same : sized ≡ r = cc in
      rw (← same) (record {
        postgres_dsn = dsn;
        postgres_max_conns = ground arith;
        max_concurrent_sessions = derive-positive read_file cfg.max_concurrent_sessions;
        runtime = ground arith;
      })

  with_refs-IsRunnable :
      (refs : Reply (Map String)) (r : ServiceConfig) → with_refs refs ≡ ok r → IsRunnable r
  with_refs-IsRunnable (ok refs) r h = check_settings-IsRunnable (read_settings env refs) r h
  with_refs-IsRunnable (fail err) r h = cc
  with_refs-IsRunnable (fail_with refs err) r h = cc

  -- If loadConfig gives a configuration without an error, a database is named, at least one connection and
  -- at least one session are allowed, and the runtime is one of the registry.
  pub load_config-IsRunnable : (r : ServiceConfig) → load_config ≡ ok r → IsRunnable r
  unfolding load_config
  load_config-IsRunnable r h =
      with_refs-IsRunnable (json_string_map env "BROWSER_AUTOMATION_PROXY_REFS_JSON") r h
