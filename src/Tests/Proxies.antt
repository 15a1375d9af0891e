-- ===== src/Tests/Proxies.antt =====
-- Proxies: their texts, the client of the proxy runtime with a scripted server, and the controller.
use browser_automation_byte.Prelude.{
  ℕ, suc, ◌+◌, ◌≤◌, String, ◌≡◌, ◌↔◌, ◌⊎◌, refl, none, some, [], ◌∷◌, All, insert, ◌==◌,
  if◌then◌else◌, arith, trim_space,
}
use browser_automation_byte.Prelude.Int.{pos}
use browser_automation_byte.Prelude.Split.{count, split_by, contains}
use Prim.Native.String.{◌++◌ as str_append}
use browser_automation_byte.Core.Reply.{ok, ◌>>=◌}
use browser_automation_byte.Core.Messages.{ProxySelection, ProxyProviderKind}
use browser_automation_byte.Platform.Urls.{NetUrl}
use browser_automation_byte.Platform.ProxyUrl.{normalize_scheme, parse_proxy, browser_map}
use browser_automation_byte.Platform.ProxyUrl.Laws.{parse_proxy-browser_map}
use browser_automation_byte.Platform.ProxyUrl.Collect.{
  Json, text, int, array, object, item, no_items, field, no_fields, collect,
}
use browser_automation_byte.Platform.ProxyUrl.Collect.Laws.{IsLine, collect-IsLine}
use browser_automation_byte.Adapters.Proxy.{Controller, resolve_manual, resolve_legacy}
use browser_automation_byte.Adapters.Proxy.Setup.{ProxyConfig, validate_proxy_value, new_controller}
use browser_automation_byte.Adapters.Proxy.Accepted.{new_controller-IsUsable}
use browser_automation_byte.Adapters.ProxyClient.{
  Endpoint, AcquireResponse, Body, Sent, Decoded, Wake, Transport, Formats, ClientConfig, Client,
  new_client,
}
use browser_automation_byte.Adapters.ProxyClient.Posting.{post, post_payload}
use browser_automation_byte.Adapters.ProxyClient.Leasing.{acquire, IsGivenBack, release-acquired}
use browser_automation_byte.Adapters.ProxyClient.Attempts.{post-calls}
use browser_automation_byte.Adapters.ProxyClient.Success.{Receives, post_iff}

abbrev same_text : String → String
same_text s = s

abbrev pub net : NetUrl
net = record {
  parse = λ s.
      some (record {
        scheme = "http";
        user = none;
        host = s;
        path = "";
        raw_query = "";
        fragment = "";
      });
  hostname = λ host. host;
  url_text = λ url. url.host;
  user_text = λ user. user.username;
  join_host_port = λ host port. str_append host (str_append ":" port);
}

parse_proxy-browser_map_example :
    (parse_proxy net same_text " 10.0.0.1:80:me:key " "" >>= browser_map net same_text)
    ≡ ok (("server", "http://10.0.0.1:80") ∷ ("username", "me") ∷ ("password", "key") ∷ [])
unfolding trim_space count contains normalize_scheme
parse_proxy-browser_map_example =
    parse_proxy-browser_map net same_text " 10.0.0.1:80:me:key " "" "10.0.0.1" "80" "me" "key" refl
      (refl, refl, refl, refl) refl refl refl refl

abbrev proxies : Json
proxies = array (
    item (text "a:1\n b:2")
      (item (object (field "host" (text "h") (field "port" (int (pos 80)) no_fields))) no_items))

collect-IsLine_example : All IsLine (collect net (λ x. pos 0) proxies)
collect-IsLine_example = collect-IsLine net (λ x. pos 0) proxies

-- The state counts the requests; the second one succeeds.
abbrev transport : Transport ℕ
transport = record {
  do_request = λ url payload e. (Sent.response (if e == 0 then 503 else 200) "", suc e);
  ctx_err = λ e. none;
  wait = λ n e. (Wake.elapsed, e);
}

abbrev endpoint : Endpoint
endpoint = record { protocol = ""; host = "h"; port = pos 80; labels = [] }

abbrev acquired_response : AcquireResponse
acquired_response = record { lease_id = " l1 "; lease_egress = endpoint; egress = endpoint }

abbrev formats : Formats
formats = record {
  marshal = λ body. ok "";
  new_request = λ url. none;
  decode_acquired = λ s. Decoded.decoded acquired_response;
  decode_released = λ s. Decoded.at_end;
  net = net;
  to_upper = same_text;
}

abbrev config : ClientConfig
config = record { base_url = "http://p/"; timeout = pos 0; purpose = ""; account_id = " acc" }

abbrev client : Client
client = record {
  account_id = "acc";
  base_url = "http://p";
  timeout = pos 10000000000;
  purpose = "browser-automation";
}

made : new_client formats config ≡ ok (some client)
unfolding new_client trim_space
made = refl

post-calls_example :
    (post transport formats "u" (Body.releasing "l" "a" "p") formats.decode_released tt 0).1 ≤ 0 + 3
post-calls_example =
    post-calls transport (λ e. e) (λ n e. omega arith) (λ url payload e. omega arith) formats "u"
      (Body.releasing "l" "a" "p") formats.decode_released tt 0

post_iff_example :
    ((post transport formats "u" (Body.releasing "l" "a" "p") formats.decode_released tt 0).0
      ≡ ok tt)
    ↔ Receives transport (post_payload transport formats "u" "" formats.decode_released tt) 1 0 tt
post_iff_example =
    post_iff transport formats "u" "" (Body.releasing "l" "a" "p") formats.decode_released tt 0 tt
      refl

leased : (acquire transport formats client "s" "" "" 0).0.1 ≡ none
unfolding acquire trim_space
leased = refl

release-acquired_example :
    let acquired = acquire transport formats client "s" "" "" 0 in
    IsGivenBack transport formats client "s" acquired.0.0 0 acquired.1 7
release-acquired_example =
    release-acquired transport formats config client "s" "" "" 0 7 made leased

abbrev selection : ProxySelection
selection = record {
  provider_kind = ProxyProviderKind.manual;
  manual_proxy_ref = "office";
  manual_proxy_url = "";
  proxy_runtime_account_id = "";
  proxy_runtime_purpose = "";
}

abbrev controller : Controller ℕ
controller = record {
  manual = ("office", "10.0.0.1:80:me:key") ∷ [];
  proxy_runtime = none;
  validate_proxy_value = validate_proxy_value net same_text;
  quote = same_text;
}

abbrev no_client : ClientConfig
no_client = record { base_url = ""; timeout = pos 0; purpose = ""; account_id = "" }

abbrev proxy_config : ProxyConfig
proxy_config = record { manual_refs = (" office ", "10.0.0.1:80:me:key") ∷ []; client = no_client }

set_up : new_controller transport formats same_text same_text proxy_config ≡ ok controller
unfolding new_controller trim_space insert validate_proxy_value contains count split_by
set_up = refl

new_controller-IsUsable_example :
    (((resolve_manual controller selection).proxy.url ≡ "")
      ⊎ (validate_proxy_value net same_text (resolve_manual controller selection).proxy.url ≡ none))
    × (((resolve_legacy controller "x").proxy.url ≡ "")
        ⊎ (validate_proxy_value net same_text (resolve_legacy controller "x").proxy.url ≡ none))
new_controller-IsUsable_example =
    new_controller-IsUsable transport formats same_text same_text proxy_config controller selection
      "x" set_up
