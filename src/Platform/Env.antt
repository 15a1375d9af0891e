-- ===== src/Platform/Env.antt =====
-- internal/platform/envx/env.go: the settings that stand in environment variables. `os.Getenv`,
-- `strings.ToLower`, Go's quoting of text and `json.Unmarshal` are parameters.
use browser_automation_byte.Prelude.{
  ℕ, String, Bool, true, false, ◌||◌, Option, none, some, List, [], ◌∷◌, Map, insert, str_eq,
  if◌then◌else◌, trim_space, is_space, ◌==◌,
}
use browser_automation_byte.Prelude.Int.{ℤ, as_int64, low_bits}
use browser_automation_byte.Prelude.Decimal.{atoi}
use browser_automation_byte.Prelude.Split.{fields_func}
use Prim.Native.String.{◌++◌ as str_append}
use browser_automation_byte.Core.Errors.{GoError, plain, wrapped}
use browser_automation_byte.Core.Reply.{Reply, ok, fail, fail_with}
use browser_automation_byte.Core.Times.{Duration}

-- What a variable holds, and what Go's library makes of it
pub record Env : Type 0 where
  pub getenv : String → String
  pub to_lower : String → String
  pub quote : String → String
  pub unmarshal : String → Reply (Map String)

abbrev second : ℕ
second = 1000000000

module _ (env : Env) where
  open env use {getenv, to_lower, quote, unmarshal}

  -- `String`
  unfoldable pub env_string : String → String
  env_string name = trim_space (getenv name)

  -- `StringDefault`
  unfoldable pub string_default : String → String → String
  unfolding env_string
  string_default name fallback = if str_eq (env_string name) "" then fallback else env_string name

  -- `Bool`
  unfoldable pub env_bool : String → Bool → Bool
  unfolding env_string
  env_bool name fallback =
      let value = to_lower (env_string name) in
      if str_eq value "1" || str_eq value "true" || str_eq value "yes" || str_eq value "on"
      then true
      else if str_eq value "0" || str_eq value "false" || str_eq value "no" || str_eq value "off"
      then false
      else fallback

  abbrev or_fallback : ℤ → Option ℤ → ℤ
  or_fallback fallback none = fallback
  or_fallback fallback (some value) = value

  -- `Int`; an empty text is no number.
  unfoldable pub env_int : String → ℤ → ℤ
  unfolding env_string atoi
  env_int name fallback =
      if str_eq (env_string name) ""
      then fallback
      else or_fallback fallback (atoi (env_string name))

  abbrev seconds_or : Duration → Option ℤ → Duration
  seconds_or fallback none = fallback
  seconds_or fallback (some seconds) = as_int64 (low_bits 64 seconds second)

  -- `DurationSeconds`; the product wraps.
  unfoldable pub duration_seconds : String → Duration → Duration
  unfolding env_string atoi
  duration_seconds name fallback =
      if str_eq (env_string name) "" then fallback else seconds_or fallback (atoi (env_string name))

  abbrev trimmed_items : List String → List String
  trimmed_items [] = []
  trimmed_items (part ∷ parts) =
      if str_eq (trim_space part) ""
      then trimmed_items parts
      else trim_space part ∷ trimmed_items parts

  -- `List`
  unfoldable pub env_list : String → List String
  unfolding env_string fields_func
  env_list name =
      if str_eq (env_string name) ""
      then []
      else trimmed_items (fields_func (λ c. c == b',' || is_space c) (env_string name))

  -- The loop of `JSONStringMap`, in the order in which it meets the items
  unfoldable pub put_items : String → Map String → Map String → Reply (Map String)
  put_items name [] normalized = ok normalized
  put_items name ((raw_key, raw_item) ∷ items) normalized =
      let key = trim_space raw_key in
      let value = trim_space raw_item in
      let rest = put_items name items (insert key value normalized) in
      if str_eq key ""
      then fail (plain (str_append name " contains an empty key"))
      else if str_eq value ""
      then fail
          (plain (str_append name (str_append " contains an empty value for key " (quote key))))
      else rest

  abbrev json_error : String → GoError → GoError
  json_error name err = wrapped (str_append name " must be a JSON object with string values: ") err

  abbrev with_items : String → Reply (Map String) → Reply (Map String)
  with_items name (ok items) = put_items name items []
  with_items name (fail err) = fail (json_error name err)
  with_items name (fail_with items err) = fail (json_error name err)

  -- `JSONStringMap`; a nil map is an empty one.
  unfoldable pub json_string_map : String → Reply (Map String)
  unfolding env_string put_items
  json_string_map name =
      if str_eq (env_string name) "" then ok [] else with_items name (unmarshal (env_string name))
