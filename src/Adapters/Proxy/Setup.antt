-- ===== src/Adapters/Proxy/Setup.antt =====
-- internal/adapters/proxyplugin/controller.go: how the controller is made from its configuration, with
-- the client of the proxy runtime.
use browser_automation_byte.Prelude.{
  String, ◌||◌, Option, none, some, [], ◌∷◌, Map, insert, str_eq, if◌then◌else◌, trim_space,
}
use Prim.Native.String.{◌++◌ as str_append}
use browser_automation_byte.Core.Errors.{GoError, plain}
use browser_automation_byte.Core.Reply.{Reply, ok, fail, fail_with, error_of, ◌>>=◌}
use browser_automation_byte.Platform.Urls.{NetUrl}
use browser_automation_byte.Platform.ProxyUrl.{parse_proxy, browser_map}
use browser_automation_byte.Adapters.Proxy.{LeaseClient, Controller}
use browser_automation_byte.Adapters.ProxyClient.{
  Transport, Formats, ClientConfig, Client, new_client,
}
use browser_automation_byte.Adapters.ProxyClient.Leasing.{lease_client}

-- `Config`; the references stand in the order in which Go's loop over the map meets them.
pub record ProxyConfig : Type 0 where
  pub manual_refs : Map String
  pub client : ClientConfig

-- `validateProxyValue`
unfoldable pub validate_proxy_value : NetUrl → (String → String) → String → Option GoError
unfolding parse_proxy browser_map
validate_proxy_value net to_lower raw =
    error_of (parse_proxy net to_lower raw "http" >>= browser_map net to_lower)

module _ (validate : String → Option GoError) (quote : String → String) where
  abbrev pub put_valid : String → Option GoError → Reply (Map String) → Reply (Map String)
  put_valid key none rest = rest
  put_valid key (some err) rest =
      fail (plain (str_append "manual proxy ref " (str_append (quote key) " is invalid")))

  -- The loop of `NewController`
  unfoldable pub put_manual_refs : Map String → Map String → Reply (Map String)
  put_manual_refs [] manual = ok manual
  put_manual_refs ((raw_key, raw_value) ∷ refs) manual =
      let key = trim_space raw_key in
      let value = trim_space raw_value in
      let rest = put_manual_refs refs (insert key value manual) in
      if str_eq key "" || str_eq value ""
      then fail (plain "manual proxy refs cannot contain empty key or value")
      else put_valid key (validate value) rest

-- What a controller is made of, besides the client.
module _ {E : Type 0} (transport : Transport E) (formats : Formats)
    (validate : String → Option GoError) (quote : String → String) where
  abbrev pub controller_of : Map String → Option (LeaseClient E) → Controller E
  controller_of manual client = record {
    manual = manual;
    proxy_runtime = client;
    validate_proxy_value = validate;
    quote = quote;
  }

  abbrev pub with_client : Map String → Reply (Option Client) → Reply (Controller E)
  with_client manual (ok none) = ok (controller_of manual none)
  with_client manual (ok (some client)) =
      ok (controller_of manual (some (lease_client transport formats client)))
  with_client manual (fail err) = fail err
  with_client manual (fail_with client err) = fail err

-- `NewController`; it keeps no sessions at first.
unfoldable pub new_controller :
    {E : Type 0}
    → Transport E
    → Formats
    → (String → String)
    → (String → String)
    → ProxyConfig
    → Reply (Controller E)
unfolding validate_proxy_value put_manual_refs new_client
new_controller transport formats to_lower quote cfg =
    let validate = validate_proxy_value formats.net to_lower in
    put_manual_refs validate quote cfg.manual_refs [] >>= (λ manual.
      with_client transport formats validate quote manual (new_client formats cfg.client))
