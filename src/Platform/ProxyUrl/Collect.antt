-- ===== src/Platform/ProxyUrl/Collect.antt =====
-- `Collect` of internal/platform/proxyurl/proxyurl.go: the proxies that stand in a JSON value, each a
-- line of a text or put together from the fields of an object.
pub mod Laws
use browser_automation_byte.Prelude.{
  ℕ, suc, String, Bool, not, ◌||◌, ◌&&◌, Option, none, some, List, [], ◌∷◌, ◌++◌, str_eq,
  if◌then◌else◌, trim_space, ◌==◌,
}
use browser_automation_byte.Prelude.Int.{ℤ, pos, negsuc}
use browser_automation_byte.Prelude.Decimal.{itoa}
use browser_automation_byte.Prelude.Split.{fields_func}
use Prim.Native.String.{◌++◌ as str_append}
use browser_automation_byte.Core.Commands.{Float64}
use browser_automation_byte.Platform.Urls.{Userinfo, NetUrl}

-- A value of the type `any` that `Collect` looks into; the fields of an object stand in the order in
-- which Go's loop over the map meets them.
mutual
  pub data Json : Type 0 where
    text : String → Json
    float64 : Float64 → Json
    int : ℤ → Json
    array : Items → Json
    object : Fields → Json
    other : Json

  pub data Items : Type 0 where
    no_items : Items
    item : Json → Items → Items

  pub data Fields : Type 0 where
    no_fields : Fields
    field : String → Json → Fields → Fields

-- `value[key]`
unfoldable pub field_of : String → Fields → Option Json
field_of key no_fields = none
field_of key (field k value fields) = if str_eq k key then some value else field_of key fields

-- `strconv.Itoa`
abbrev pub int_text : ℤ → String
int_text (pos n) = itoa n
int_text (negsuc n) = str_append "-" (itoa (suc n))

abbrev is_line_break : ℕ → Bool
is_line_break c = c == 10 || c == 13

abbrev trimmed_lines : List String → List String
trimmed_lines [] = []
trimmed_lines (line ∷ lines) =
    if str_eq (trim_space line) ""
    then trimmed_lines lines
    else trim_space line ∷ trimmed_lines lines

-- `appendLines`: the lines that it appends
unfoldable pub append_lines : String → List String
append_lines raw = trimmed_lines (fields_func is_line_break raw)

-- The text of a field, if it is a text with more than white space in it.
abbrev filled_text : Option Json → Option String
filled_text (some (text raw)) = if str_eq (trim_space raw) "" then none else some raw
filled_text _ = none

abbrev or_next : Option String → Option String → Option String
or_next none next = next
or_next (some raw) next = some raw

-- `net/url`, and Go's `int` of a `float64`
module _ (net : NetUrl) (truncate : Float64 → ℤ) where
  -- One case of `valueString`
  abbrev value_text : Option Json → Option String
  value_text (some (text raw)) = some (trim_space raw)
  value_text (some (float64 x)) = some (int_text (truncate x))
  value_text (some (int z)) = some (int_text z)
  value_text _ = none

  -- `valueString`
  unfoldable pub value_string : Fields → List String → String
  unfolding field_of
  value_string value [] = ""
  value_string value (key ∷ keys) =
      let next = value_string value keys in
      elim (value_text (field_of key value)) [ none ↦ next | some raw ↦ raw ]

  -- `proxyValueFromMap`, when no field holds the whole value
  unfoldable pub proxy_value_from_parts : Fields → String
  unfolding value_string
  proxy_value_from_parts value =
      let host = value_string value ("host" ∷ "hostname" ∷ "ip" ∷ []) in
      let port = value_string value ("port" ∷ []) in
      let username = value_string value ("username" ∷ "user" ∷ []) in
      let password = value_string value ("password" ∷ "pass" ∷ []) in
      let given = value_string value ("protocol" ∷ "scheme" ∷ "type" ∷ []) in
      let protocol = if str_eq given "" then "http" else given in
      let address = str_append host (str_append ":" port) in
      if str_eq host "" || str_eq port ""
      then ""
      else if str_eq username "" && str_eq password ""
      then str_append protocol (str_append "://" address)
      else (let user = net.user_text (record { username = username; password = some password }) in
          str_append protocol (str_append "://" (str_append user (str_append "@" address))))

  -- `proxyValueFromMap`
  unfoldable pub proxy_value_from_map : Fields → String
  unfolding proxy_value_from_parts field_of
  proxy_value_from_map value =
      let whole =
        or_next (filled_text (field_of "proxy" value))
          (or_next (filled_text (field_of "url" value)) (filled_text (field_of "server" value))) in
      elim whole [ some raw ↦ raw | none ↦ proxy_value_from_parts value ]

  -- `collectValue`: the values that it appends, for a value, the items of an array and the fields
  -- of an object
  unfoldable mutual
    unfolding append_lines proxy_value_from_map

    pub collect_value : Json → List String
    collect_value (text raw) = append_lines raw
    collect_value (array items) = collect_items items
    collect_value (object fields) =
        let parts = collect_fields fields in
        if str_eq (proxy_value_from_map fields) ""
        then parts
        else append_lines (proxy_value_from_map fields)
    collect_value _ = []

    pub collect_items : Items → List String
    collect_items no_items = []
    collect_items (item value items) = collect_value value ++ collect_items items

    pub collect_fields : Fields → List String
    collect_fields no_fields = []
    collect_fields (field key value fields) = collect_value value ++ collect_fields fields

  -- `Collect`
  unfoldable pub collect : Json → List String
  unfolding collect_value
  collect value = collect_value value
