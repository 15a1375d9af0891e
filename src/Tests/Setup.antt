-- ===== src/Tests/Setup.antt =====
-- The settings of a process, its scripts and its buffers at concrete inputs.
use browser_automation_byte.Prelude.{
  ℕ, ◌↔◌, ◌≡◌, refl, String, true, none, some, Option, List, [], ◌∷◌, lookup, trim_space, str_eq,
  if◌then◌else◌,
}
use browser_automation_byte.Prelude.Decimal.{atoi}
use browser_automation_byte.Prelude.Split.{fields_func}
use browser_automation_byte.Prelude.Int.{pos}
use Prim.Native.String.{◌++◌ as str_append}
use browser_automation_byte.Core.Reply.{ok}
use browser_automation_byte.App.Memory.Sort.{sort}
use browser_automation_byte.Platform.Env.{
  Env, env_string, string_default, env_bool, env_int, duration_seconds, env_list, json_string_map,
}
use browser_automation_byte.Adapters.Registry.{Plugin, Registry, get_plugin}
use browser_automation_byte.Adapters.Camoufox.TailBuffer.{
  new_tail_buffer, write_all, last_of, concat, write_all-last_of,
}
use browser_automation_byte.Adapters.Camoufox.SafeId.{safe_id, safe_runes, IsSafe, safe_id-IsSafe}
use browser_automation_byte.Adapters.Camoufox.Config.{
  CamoufoxConfig, with_defaults, checked, normalize, IsNormal, normalize-IsNormal,
}
use browser_automation_byte.Cmd.Capacity.{
  read_memory_limit_file, cgroup_memory_limit_bytes, derive_max_concurrent_sessions,
}
use browser_automation_byte.Cmd.Settings.{
  ServiceConfig, read_settings, check_settings, load_config, IsRunnable, load_config-IsRunnable,
}
use browser_automation_byte.Cmd.Migrations.{
  Database, apply_files, apply_migrations, IsMigrated, apply_migrations_iff,
}

write_all-last_of_example :
    (write_all ((1 ∷ 2 ∷ []) ∷ (3 ∷ []) ∷ (4 ∷ []) ∷ []) (new_tail_buffer (pos 3))).data_bytes
    ≡ last_of (new_tail_buffer (pos 3)).limit (concat ((1 ∷ 2 ∷ []) ∷ (3 ∷ []) ∷ (4 ∷ []) ∷ []))
write_all-last_of_example = write_all-last_of (pos 3) ((1 ∷ 2 ∷ []) ∷ (3 ∷ []) ∷ (4 ∷ []) ∷ [])

safe_id-IsSafe_example : IsSafe (safe_id "../brsess/1")
safe_id-IsSafe_example = safe_id-IsSafe "../brsess/1"

was_made_safe : safe_id "../brsess/1" ≡ "---brsess-1"
unfolding safe_id safe_runes
was_made_safe = refl

abbrev given : CamoufoxConfig
given = record {
  python_path = "";
  artifacts_dir = "";
  startup_timeout = pos 0;
  shutdown_timeout = pos 7;
  task_timeout = pos 0;
  headless = true;
  server_port = pos 0;
  ws_path_prefix = "";
  extra_env = [];
  max_sessions = pos 0;
}

abbrev normal : CamoufoxConfig
normal = record given {
  python_path = "python3";
  artifacts_dir = "/tmp/artifacts";
  startup_timeout = pos 30000000000;
  task_timeout = pos 120000000000;
  ws_path_prefix = "browser-session-";
  max_sessions = pos 1;
}

was_normalized : normalize "/tmp/artifacts" given ≡ ok normal
unfolding normalize with_defaults checked
was_normalized = refl

normalize-IsNormal_example : IsNormal normal
normalize-IsNormal_example =
    normalize-IsNormal "/tmp/artifacts" given normal (λ e. cc) was_normalized

abbrev getenv : String → String
getenv name =
    if str_eq name "BROWSER_AUTOMATION_POSTGRES_DSN"
    then " postgres://db "
    else if str_eq name "BROWSER_AUTOMATION_POSTGRES_MAX_CONNS"
    then "4294967297"
    else ""

abbrev env : Env
env = record {
  getenv = getenv;
  to_lower = λ text. text;
  quote = λ text. text;
  unmarshal = λ text. ok [];
}

abbrev plugin : Plugin ServiceConfig ℕ
plugin = record { runtime_config_id = "camoufox"; new_runtime = λ cfg. ok 1 }

abbrev registry : Registry ServiceConfig ℕ
registry = record { plugins = ("camoufox", plugin) ∷ []; ids = "camoufox" ∷ [] }

-- Four gibibytes of memory
abbrev read_file : String → Option String
read_file path = some "4294967296"

abbrev loaded : ServiceConfig
loaded = record (read_settings env []) { max_concurrent_sessions = pos 3 }

was_loaded : load_config env read_file registry ≡ ok loaded
unfolding load_config json_string_map read_settings check_settings env_string string_default
    env_bool env_int duration_seconds env_list atoi fields_func get_plugin lookup trim_space
    derive_max_concurrent_sessions cgroup_memory_limit_bytes read_memory_limit_file
was_loaded = refl

load_config-IsRunnable_example : IsRunnable env read_file registry loaded
load_config-IsRunnable_example = load_config-IsRunnable env read_file registry loaded was_loaded

-- A database is the list of the scripts that it has executed, the last one first.
abbrev database : Database (List String)
database = record {
  join = λ dir name. str_append dir name;
  glob = λ pattern. ok ("2.sql" ∷ "1.sql" ∷ []);
  read_file = λ file. ok file;
  acquire = λ d. (none, d);
  exec = λ content d. (none, content ∷ d);
  release_conn = λ d. d;
}

was_migrated : apply_migrations database "migrations/" [] ≡ (none, "2.sql" ∷ "1.sql" ∷ [])
unfolding apply_migrations apply_files sort
was_migrated = refl

apply_migrations_iff_example :
    (apply_migrations database "migrations/" [] ≡ (none, "2.sql" ∷ "1.sql" ∷ []))
    ↔ IsMigrated database "migrations/" [] ("2.sql" ∷ "1.sql" ∷ [])
apply_migrations_iff_example =
    apply_migrations_iff database "migrations/" [] ("2.sql" ∷ "1.sql" ∷ [])
