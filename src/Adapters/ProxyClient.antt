-- ===== src/Adapters/ProxyClient.antt =====
-- internal/adapters/proxyplugin/proxy_runtime_client.go and proxy_runtime_http.go: the client that
-- leases proxies from the proxy runtime, and its requests, which it repeats when that may help. What
-- sends a request, waits and knows whether the context is done keeps a state of a type `E`; JSON,
-- `net/url`, `strings.ToUpper` and Go's `http.NewRequest` are parameters.
pub mod Posting
pub mod Leasing
pub mod Attempts
pub mod Success
use browser_automation_byte.Prelude.{
  ℕ, zero, suc, ◌*◌, String, Bool, true, false, not, ◌&&◌, ◌||◌, Option, none, some, [], Map,
  lookup, str_eq, if◌then◌else◌, trim_space, ltb, leb, ◌==◌,
}
use browser_automation_byte.Prelude.Int.{ℤ, pos, is_negative, is_positive, to_ℕ}
use browser_automation_byte.Prelude.Decimal.{itoa}
use browser_automation_byte.Prelude.Split.{trim_right_by}
use Prim.Native.String.{◌++◌ as str_append}
use browser_automation_byte.Core.Errors.{GoError, plain}
use browser_automation_byte.Core.Reply.{Reply, ok, fail, fail_with}
use browser_automation_byte.Platform.Urls.{Url, Userinfo, NetUrl}
use browser_automation_byte.Adapters.Proxy.{SessionProxy, LeaseClient, no_proxy}

-- `proxyRuntimeEndpoint`
pub record Endpoint : Type 0 where
  pub protocol : String
  pub host : String
  pub port : ℤ
  pub labels : Map String

-- `acquireProxyLeaseResponse`
pub record AcquireResponse : Type 0 where
  pub lease_id : String
  pub lease_egress : Endpoint
  pub egress : Endpoint

abbrev no_endpoint : Endpoint
no_endpoint = record { protocol = ""; host = ""; port = pos 0; labels = [] }

abbrev empty_response : AcquireResponse
empty_response = record { lease_id = ""; lease_egress = no_endpoint; egress = no_endpoint }

-- What a request says: the account, the purpose and the session of a lease that is wanted, or the
-- id, the account and the purpose of a lease that is given back.
pub data Body : Type 0 where
  acquiring : String → String → String → Body
  releasing : String → String → String → Body

-- What `http.Client.Do` returns: an error, or the status and the body of a response.
pub data Sent : Type 0 where
  unsent : GoError → Sent
  response : ℕ → String → Sent

-- How the decoding of a body ends: with a value, at the end of the input, or with another error.
pub data Decoded (A : Type 0) : Type 0 where
  decoded : A → Decoded A
  at_end : Decoded A
  malformed : GoError → Decoded A

-- What wakes a wait: the context, or the timer.
pub data Wake : Type 0 where
  canceled elapsed : Wake

-- `http.Client.Do` with a url and a payload, `ctx.Err`, and a wait for the context or a timer that is
-- set in nanoseconds.
pub record Transport (E : Type 0) : Type 0 where
  pub do_request : String → String → E → Sent × E
  pub ctx_err : E → Option GoError
  pub wait : ℕ → E → Wake × E

-- What needs no state: `json.Marshal`, `http.NewRequest` on a url, the decoding of a response's body
-- for each of the two requests, `net/url` and `strings.ToUpper`.
pub record Formats : Type 0 where
  pub marshal : Body → Reply String
  pub new_request : String → Option GoError
  pub decode_acquired : String → Decoded AcquireResponse
  pub decode_released : String → Decoded (Unit {0})
  pub net : NetUrl
  pub to_upper : String → String

-- The part of `Config` that the client is made from; the timeout is in nanoseconds.
pub record ClientConfig : Type 0 where
  pub base_url : String
  pub timeout : ℤ
  pub purpose : String
  pub account_id : String

-- `proxyRuntimeClient`, with the timeout of its HTTP client
pub record Client : Type 0 where
  pub account_id : String
  pub base_url : String
  pub timeout : ℤ
  pub purpose : String

abbrev pub default_proxy_runtime_account_id : String
default_proxy_runtime_account_id = "browser-automation"

abbrev pub default_proxy_runtime_purpose : String
default_proxy_runtime_purpose = "browser-automation"

abbrev pub proxy_runtime_max_attempts : ℕ
proxy_runtime_max_attempts = 3

abbrev pub proxy_runtime_retry_delay : ℕ
proxy_runtime_retry_delay = 150 * 1000000

-- `if value == "" { value = default }`
abbrev pub or_default : String → String → String
or_default value default = if str_eq value "" then default else value

abbrev pub has_no_host : Option Url → Bool
has_no_host none = true
has_no_host (some parsed) = str_eq parsed.scheme "" || str_eq parsed.host ""

-- Ten seconds, if no timeout is set
abbrev pub timeout_or_default : ℤ → ℤ
timeout_or_default (pos zero) = pos (10 * 1000000000)
timeout_or_default timeout = timeout

-- `newProxyRuntimeClient`, with the base url and the timeout as they are used
unfoldable pub new_client_at : Formats → ClientConfig → String → ℤ → Reply (Option Client)
new_client_at formats cfg base_url timeout =
    if str_eq base_url ""
    then ok none
    else if has_no_host (formats.net.parse base_url)
    then fail (plain "proxy-runtime base URL is invalid")
    else if is_negative timeout
    then fail (plain "proxy-runtime timeout cannot be negative")
    else ok (
        some (record {
          account_id = trim_space cfg.account_id;
          base_url = base_url;
          timeout = timeout;
          purpose = or_default (trim_space cfg.purpose) default_proxy_runtime_purpose;
        }))

-- `newProxyRuntimeClient`; it returns no client and no error when no base url is set.
unfoldable pub new_client : Formats → ClientConfig → Reply (Option Client)
unfolding trim_right_by new_client_at
new_client formats cfg =
    new_client_at formats cfg (trim_right_by (λ c. c == b'/') (trim_space cfg.base_url))
      (timeout_or_default cfg.timeout)

-- `retryProxyRuntimeStatus`
unfoldable pub retry_proxy_runtime_status : ℕ → Bool
retry_proxy_runtime_status status = status == 429 || leb 500 status

-- `proxyRuntimeProtocol`
unfoldable pub proxy_runtime_protocol : (String → String) → String → String
proxy_runtime_protocol to_upper value =
    let upper = to_upper (trim_space value) in
    if str_eq upper "PROXY_PROTOCOL_SOCKS5" || str_eq upper "SOCKS5" then "socks5" else "http"

-- `endpoint.Labels[key]`
abbrev label : String → Map String → String
label key labels = elim (lookup key labels) [ none ↦ "" | some value ↦ value ]

-- `endpointURL`
unfoldable pub endpoint_url : Formats → Endpoint → Reply String
unfolding proxy_runtime_protocol
endpoint_url formats endpoint =
    let host = trim_space endpoint.host in
    let username = trim_space (label "proxy_username" endpoint.labels) in
    let password = trim_space (label "proxy_password" endpoint.labels) in
    if str_eq host "" || not (is_positive endpoint.port)
    then fail (plain "proxy-runtime egress endpoint is invalid")
    else ok (
        formats.net.url_text (record {
          scheme = proxy_runtime_protocol formats.to_upper endpoint.protocol;
          user =
              if not (str_eq username "") || not (str_eq password "")
              then some (record { username = username; password = some password })
              else none;
          host = formats.net.join_host_port host (itoa (to_ℕ endpoint.port));
          path = "";
          raw_query = "";
          fragment = "";
        }))
