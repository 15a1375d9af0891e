-- ===== src/Tests/Plugins.antt =====
-- The registry of runtimes, with two plugins.
use browser_automation_byte.Prelude.{
  ℕ, String, ◌≡◌, refl, Option, some, List, [], ◌∷◌, All, insert, lookup, trim_space,
}
use browser_automation_byte.Core.Reply.{ok}
use browser_automation_byte.App.Memory.Sort.{sort, insert_sorted}
use browser_automation_byte.Adapters.Registry.{
  Plugin, Registry, IsRegistered, register, new_registry, new_registry-IsRegistered,
}

abbrev same_text : String → String
same_text s = s

abbrev plugin : String → Plugin ℕ ℕ
plugin id = record { runtime_config_id = id; new_runtime = λ n. ok n }

abbrev plugins : List (Option (Plugin ℕ ℕ))
plugins = some (plugin "camoufox") ∷ some (plugin " cloak ") ∷ []

abbrev registry : Registry ℕ ℕ
registry = record {
  plugins = ("camoufox", plugin "camoufox") ∷ ("cloak", plugin " cloak ") ∷ [];
  ids = "camoufox" ∷ "cloak" ∷ [];
}

made : new_registry same_text same_text plugins ≡ ok registry
unfolding new_registry register insert lookup sort insert_sorted trim_space
made = refl

new_registry-IsRegistered_example : All (IsRegistered same_text same_text registry) plugins
new_registry-IsRegistered_example =
    new_registry-IsRegistered same_text same_text plugins registry made
