-- ===== src/Adapters/Registry.antt =====
-- internal/adapters/runtime/runtimeplugin/registry.go: the runtimes that can be chosen, by the id of
-- their configuration. `strings.ToLower` and Go's quoting of text are parameters; a runtime is a
-- value of a type `R`, made from a configuration of a type `C`.
use browser_automation_byte.Prelude.{
  String, Bool, true, false, ◌≡◌, Option, none, some, List, [], ◌∷◌, ◌++◌, Map, lookup, insert,
  lookup-insert, lookup-insert_self, All, str_eq, eq_iff, if◌then◌else◌, arith, trim_space,
}
use Prim.Native.String.{◌++◌ as str_append}
use browser_automation_byte.Core.Errors.{plain, wrapped}
use browser_automation_byte.Core.Reply.{Reply, ok, fail, fail_with}
use browser_automation_byte.App.Memory.Texts.{str_ltb}
use browser_automation_byte.App.Memory.Sort.{sort}

-- `Plugin`: the id of its configuration, and `NewRuntime`.
pub record Plugin (C R : Type 0) : Type 0 where
  pub runtime_config_id : String
  pub new_runtime : C → Reply R

-- `Registry`; its ids are those of the map.
pub record Registry (C R : Type 0) : Type 0 where
  pub plugins : Map (Plugin C R)
  pub ids : List String

-- `normalizeRuntimeID`
abbrev pub normalize_runtime_id : (String → String) → String → String
normalize_runtime_id to_lower value = to_lower (trim_space value)

abbrev pub is_present {ℓ} : {A : Type ℓ} → Option A → Bool
is_present none = false
is_present (some a) = true

abbrev made : {R : Type 0} → String → Reply R → Reply R
made id (ok runtime) = ok runtime
made id (fail err) = fail (wrapped (str_append "configure " (str_append id " runtime: ")) err)
made id (fail_with runtime err) =
    fail (wrapped (str_append "configure " (str_append id " runtime: ")) err)

module _ {C R : Type 0} (to_lower : String → String) (quote : String → String) where
  abbrev pub id_of : Plugin C R → String
  id_of plugin = normalize_runtime_id to_lower plugin.runtime_config_id

  abbrev added : Plugin C R → Registry C R → Registry C R
  added plugin r = record {
    plugins = insert (id_of plugin) plugin r.plugins;
    ids = r.ids ++ (id_of plugin ∷ []);
  }

  -- The loop of `NewRegistry`; the ids are sorted when it ends.
  unfoldable pub register : List (Option (Plugin C R)) → Registry C R → Reply (Registry C R)
  register [] r = ok (record r { ids = sort str_ltb r.ids })
  register (none ∷ plugins) r = fail (plain "browser runtime plugin is required")
  register (some plugin ∷ plugins) r =
      let rest = register plugins (added plugin r) in
      if str_eq (id_of plugin) ""
      then fail (plain "browser runtime plugin id is required")
      else if is_present (lookup (id_of plugin) r.plugins)
      then fail (plain (str_append "duplicate browser runtime plugin " (quote (id_of plugin))))
      else rest

  -- `NewRegistry`
  unfoldable pub new_registry : List (Option (Plugin C R)) → Reply (Registry C R)
  unfolding register
  new_registry plugins = register plugins (record { plugins = []; ids = [] })

  -- `Get` on a registry that is not nil
  unfoldable pub get_plugin : Registry C R → String → Option (Plugin C R)
  get_plugin r id = lookup (normalize_runtime_id to_lower id) r.plugins

  abbrev made_by : String → C → Option (Plugin C R) → Reply R
  made_by id config none = fail (plain (str_append "unsupported browser runtime " (quote id)))
  made_by id config (some plugin) = made id (plugin.new_runtime config)

  -- `NewRuntime`
  unfoldable pub new_runtime : Registry C R → String → C → Reply R
  unfolding get_plugin
  new_runtime r id config = made_by id config (get_plugin r id)

  -- A plugin that is there is found by the id of its configuration.
  pub IsRegistered : Registry C R → Option (Plugin C R) → Type 0
  IsRegistered r none = ⊥
  IsRegistered r (some plugin) = get_plugin r plugin.runtime_config_id ≡ some plugin

  register-keeps :
      (plugins : List (Option (Plugin C R))) (r r' : Registry C R) (k : String) (p : Plugin C R)
      → register plugins r ≡ ok r'
      → lookup k r.plugins ≡ some p
      → lookup k r'.plugins ≡ some p
  unfolding register
  register-keeps [] r r' k p e h =
      let same : record r { ids = sort str_ltb r.ids } ≡ r' = cc in rw (← same) h
  register-keeps (none ∷ plugins) r r' k p e h = cc
  register-keeps (some plugin ∷ plugins) r r' k p e h =
      register-keeps plugins (added plugin r) r' k p (ground arith) (
        ground
          (arith, eq_iff (id_of plugin) k, lookup-insert (id_of plugin) k plugin r.plugins, e, h))

  register-IsRegistered :
      (plugins : List (Option (Plugin C R))) (r r' : Registry C R)
      → register plugins r ≡ ok r'
      → All (IsRegistered r') plugins
  unfolding register IsRegistered get_plugin
  register-IsRegistered [] r r' e = tt
  register-IsRegistered (none ∷ plugins) r r' e = cc
  register-IsRegistered (some plugin ∷ plugins) r r' e =
      let rest : register plugins (added plugin r) ≡ ok r' = ground arith in
      (
        register-keeps plugins (added plugin r) r' (id_of plugin) plugin rest
            (lookup-insert_self (id_of plugin) plugin r.plugins),
        register-IsRegistered plugins (added plugin r) r' rest,
      )

  -- If `NewRegistry` succeeds, every plugin that it was given is there and is found by the id of its
  -- configuration.
  pub new_registry-IsRegistered :
      (plugins : List (Option (Plugin C R))) (r : Registry C R)
      → new_registry plugins ≡ ok r
      → All (IsRegistered r) plugins
  unfolding new_registry
  new_registry-IsRegistered plugins r e =
      register-IsRegistered plugins (record { plugins = []; ids = [] }) r e
