-- ===== src/Adapters/ProxyClient/Leasing.antt =====
-- internal/adapters/proxyplugin/proxy_runtime_client.go: `acquire` and `release`, what a lease is like,
-- and that exactly what was leased is given back.
use browser_automation_byte.Prelude.{
  String, false, not, ◌||◌, ◌≡◌, ◌≢◌, refl, ap, inl, inr, Option, none, some, str_eq, eq_iff,
  if◌then◌else◌, trim_space, arith, Bool-cases, ◌==◌,
}
use browser_automation_byte.Prelude.Int.{ℤ, is_positive, is_negative}
use browser_automation_byte.Prelude.Split.{trim_right_by}
use browser_automation_byte.Prelude.Trim.{trim_space-trim_space}
use Prim.Native.String.{◌++◌ as str_append}
use browser_automation_byte.Core.Errors.{GoError, plain}
use browser_automation_byte.Core.Reply.{Reply, ok, fail, fail_with, error_of}
use browser_automation_byte.Adapters.Proxy.{SessionProxy, LeaseClient, no_proxy}
use browser_automation_byte.Adapters.ProxyClient.{
  Endpoint, AcquireResponse, acquiring, releasing, Transport, Formats, ClientConfig, Client,
  empty_response, or_default, default_proxy_runtime_account_id, default_proxy_runtime_purpose,
  new_client, new_client_at, has_no_host, timeout_or_default, endpoint_url,
}
use browser_automation_byte.Adapters.ProxyClient.Posting.{post}

abbrev lease_at : String → String → String → Reply String → SessionProxy × Option GoError
lease_at lease_id account_id purpose (ok url) =
    (record { account_id = account_id; lease_id = lease_id; purpose = purpose; url = url }, none)
lease_at lease_id account_id purpose (fail err) = (no_proxy, some err)
lease_at lease_id account_id purpose (fail_with url err) = (no_proxy, some err)

-- The egress of the response, or that of its lease if it has none.
unfoldable pub egress_of : AcquireResponse → Endpoint
egress_of response =
    if str_eq response.egress.host "" || not (is_positive response.egress.port)
    then response.lease_egress
    else response.egress

-- `acquire`, once the response is there
unfoldable pub lease_of :
    Formats → String → String → Reply AcquireResponse → SessionProxy × Option GoError
unfolding endpoint_url egress_of
lease_of formats account_id purpose (ok response) =
    let lease_id = trim_space response.lease_id in
    if str_eq lease_id ""
    then (no_proxy, some (plain "proxy-runtime lease_id is empty"))
    else lease_at lease_id account_id purpose (endpoint_url formats (egress_of response))
lease_of formats account_id purpose (fail err) = (no_proxy, some err)
lease_of formats account_id purpose (fail_with response err) = (no_proxy, some err)

-- The account and the purpose that a lease is asked for.
abbrev account_or_default : Client → String → String
account_or_default client account_id =
    or_default (or_default account_id client.account_id) default_proxy_runtime_account_id

abbrev purpose_or_default : Client → String → String
purpose_or_default client purpose = or_default purpose client.purpose

module _ {E : Type 0} (transport : Transport E) (formats : Formats) (client : Client) where
  -- `acquire`
  unfoldable pub acquire : String → String → String → E → (SessionProxy × Option GoError) × E
  unfolding post lease_of
  acquire session_id account_id purpose e =
      let (reply, after) =
        post transport formats (str_append client.base_url "/leases/acquire")
          (acquiring (account_or_default client account_id) (purpose_or_default client purpose)
            session_id)
          formats.decode_acquired empty_response e in
      (
        lease_of formats (account_or_default client account_id) (purpose_or_default client purpose)
            reply,
        after,
      )

  -- The request of `release`
  unfoldable pub post_release : String → String → String → E → Option GoError × E
  unfolding post
  post_release lease_id account_id purpose e =
      let (reply, after) =
        post transport formats (str_append client.base_url "/leases/release")
          (releasing lease_id account_id purpose) formats.decode_released tt e in
      (error_of reply, after)

  -- `release`
  unfoldable pub release : String → String → String → E → Option GoError × E
  unfolding post_release
  release lease_id account_id purpose e =
      if str_eq (trim_space lease_id) ""
      then (none, e)
      else post_release (trim_space lease_id) (or_default account_id client.account_id)
          (or_default purpose client.purpose) e

  -- The client as the controller uses it.
  abbrev pub lease_client : LeaseClient E
  lease_client = record { acquire = acquire; release = release }

-- A lease that can be given back: it has a trimmed id, an account and a purpose, and its url is that of
-- an endpoint.
pub record IsComplete (formats : Formats) (lease : SessionProxy) : Type 0 where
  pub lease_id_filled : lease.lease_id ≢ ""
  pub lease_id_trimmed : trim_space lease.lease_id ≡ lease.lease_id
  pub account_id_filled : lease.account_id ≢ ""
  pub purpose_filled : lease.purpose ≢ ""
  pub endpoint : Endpoint
  pub url_of_endpoint : endpoint_url formats endpoint ≡ ok lease.url

default-filled : default_proxy_runtime_account_id ≢ ""
default-filled h = cc

or_default-filled : (value default : String) → default ≢ "" → or_default value default ≢ ""
or_default-filled value default h = ground (arith, eq_iff value "")

new_client_at-purpose :
    (formats : Formats) (cfg : ClientConfig) (base_url : String) (timeout : ℤ) (client : Client)
    → new_client_at formats cfg base_url timeout ≡ ok (some client)
    → client.purpose ≢ ""
unfolding new_client_at
new_client_at-purpose formats cfg base_url timeout client h =
    elim (Bool-cases (str_eq base_url "")) [
      | inl e ↦ absurd (ground arith)
      | inr e ↦ elim (Bool-cases (has_no_host (formats.net.parse base_url))) [
        | inl f ↦ absurd (ground arith)
        | inr f ↦ elim (Bool-cases (is_negative timeout)) [
          | inl g ↦ absurd (ground arith)
          | inr g ↦
              let same : or_default (trim_space cfg.purpose) default_proxy_runtime_purpose
                  ≡ client.purpose =
                ground arith in
              rw (← same) (
                or_default-filled (trim_space cfg.purpose) default_proxy_runtime_purpose
                  default-filled)
        ]
      ]
    ]

-- What `newProxyRuntimeClient` makes has a purpose.
new_client-purpose :
    (formats : Formats) (cfg : ClientConfig) (client : Client)
    → new_client formats cfg ≡ ok (some client)
    → client.purpose ≢ ""
unfolding new_client
new_client-purpose formats cfg client h =
    new_client_at-purpose formats cfg (trim_right_by (λ c. c == b'/') (trim_space cfg.base_url))
      (timeout_or_default cfg.timeout) client h

lease_at-IsComplete :
    (formats : Formats) (lease_id account_id purpose : String) (endpoint : Endpoint)
    (url : Reply String)
    → (lease_id ≢ "") × (trim_space lease_id ≡ lease_id)
    → account_id ≢ ""
    → purpose ≢ ""
    → endpoint_url formats endpoint ≡ url
    → (lease_at lease_id account_id purpose url).1 ≡ none
    → IsComplete formats (lease_at lease_id account_id purpose url).0
lease_at-IsComplete formats lease_id account_id purpose endpoint (ok url) i a p u h = record {
  lease_id_filled = i.0;
  lease_id_trimmed = i.1;
  account_id_filled = a;
  purpose_filled = p;
  endpoint = endpoint;
  url_of_endpoint = u;
}
lease_at-IsComplete formats lease_id account_id purpose endpoint (fail err) i a p u h = cc
lease_at-IsComplete formats lease_id account_id purpose endpoint (fail_with url err) i a p u h = cc

module _ (formats : Formats) (account_id purpose : String) where
  abbrev leased : Reply AcquireResponse → SessionProxy × Option GoError
  leased reply = lease_of formats account_id purpose reply

  lease_of-IsComplete :
      (reply : Reply AcquireResponse)
      → account_id ≢ ""
      → purpose ≢ ""
      → (leased reply).1 ≡ none
      → IsComplete formats (leased reply).0
  unfolding lease_of
  lease_of-IsComplete (fail err) a p h = cc
  lease_of-IsComplete (fail_with response err) a p h = cc
  lease_of-IsComplete (ok response) a p h =
      let id = trim_space response.lease_id in
      elim (Bool-cases (str_eq id "")) [
        | inl e ↦ absurd (ground arith)
        | inr e ↦
            let kept : (lease_at id account_id purpose
                  (endpoint_url formats (egress_of response))).1
                ≡ none =
              ground arith in
            rw (e, lease_of)
              (lease_at-IsComplete formats id account_id purpose (egress_of response)
                (endpoint_url formats (egress_of response))
                (ground (arith, eq_iff id ""), trim_space-trim_space response.lease_id) a p refl
                kept)
      ]

  lease_at-fields :
      (lease_id : String) (url : Reply String)
      → (lease_at lease_id account_id purpose url).1 ≡ none
      → let lease = (lease_at lease_id account_id purpose url).0 in
        (lease.lease_id ≡ lease_id) × (lease.account_id ≡ account_id) × (lease.purpose ≡ purpose)
  lease_at-fields lease_id (ok url) h = (refl, refl, refl)
  lease_at-fields lease_id (fail err) h = cc
  lease_at-fields lease_id (fail_with url err) h = cc

  -- A lease comes of a response, and has its id and what it was asked for with.
  lease_of-fields :
      (reply : Reply AcquireResponse)
      → (leased reply).1 ≡ none
      → (response : AcquireResponse) × (reply ≡ ok response)
        × ((leased reply).0.lease_id ≡ trim_space response.lease_id)
        × ((leased reply).0.account_id ≡ account_id)
        × ((leased reply).0.purpose ≡ purpose)
  unfolding lease_of
  lease_of-fields (fail err) h = cc
  lease_of-fields (fail_with response err) h = cc
  lease_of-fields (ok response) h =
      let id = trim_space response.lease_id in
      elim (Bool-cases (str_eq id "")) [
        | inl e ↦ absurd (ground arith)
        | inr e ↦
            let (i, a, p) =
              lease_at-fields id (endpoint_url formats (egress_of response))
                (rw (e, lease_of) at h) in
            rw (e, lease_of) (response, refl, i, a, p)
      ]

module _ {E : Type 0} (transport : Transport E) (formats : Formats) where
  release_complete :
      (client : Client) (lease : SessionProxy) (later : E)
      → IsComplete formats lease
      → release transport formats client lease.lease_id lease.account_id lease.purpose later
        ≡ post_release transport formats client lease.lease_id lease.account_id lease.purpose later
  unfolding release
  release_complete client lease later c =
      let id : str_eq lease.lease_id "" ≡ false =
        ground (arith, eq_iff lease.lease_id "", c.lease_id_filled) in
      let account : str_eq lease.account_id "" ≡ false =
        ground (arith, eq_iff lease.account_id "", c.account_id_filled) in
      let purpose : str_eq lease.purpose "" ≡ false =
        ground (arith, eq_iff lease.purpose "", c.purpose_filled) in
      rw (c.lease_id_trimmed, release) (rw (id) (rw (account) (rw (purpose) refl)))

  -- What a client that `newProxyRuntimeClient` made acquires without an error is a lease with an
  -- account, a purpose and a trimmed id, and its url is that of an endpoint with a host and a port.
  pub acquire-IsComplete :
      (cfg : ClientConfig) (client : Client) (session_id account_id purpose : String) (e : E)
      → new_client formats cfg ≡ ok (some client)
      → let acquired = acquire transport formats client session_id account_id purpose e in
        acquired.0.1 ≡ none → IsComplete formats acquired.0.0
  unfolding acquire
  acquire-IsComplete cfg client session_id account_id purpose e made h =
      lease_of-IsComplete formats (account_or_default client account_id)
        (purpose_or_default client purpose) _
        (or_default-filled (or_default account_id client.account_id)
          default_proxy_runtime_account_id default-filled)
        (or_default-filled purpose client.purpose (new_client-purpose formats cfg client made)) h

  -- How a lease was acquired and is given back: the client asked for it with the lease's account and purpose
  -- and with the session, its id is the trimmed one of the response, and the request to release it has
  -- its id, its account and its purpose.
  pub record IsGivenBack (client : Client) (session_id : String) (lease : SessionProxy)
      (e after later : E) : Type 0 where
    pub response : AcquireResponse
    pub asked :
        post transport formats
          (str_append client.base_url "/leases/acquire")
          (acquiring lease.account_id lease.purpose session_id)
          formats.decode_acquired
          empty_response
          e
        ≡ (ok response, after)
    pub named : lease.lease_id ≡ trim_space response.lease_id
    pub given_back :
        release transport formats client lease.lease_id lease.account_id lease.purpose later ≡ (
          let (reply, done) =
            post transport formats
              (str_append client.base_url "/leases/release")
              (releasing lease.lease_id lease.account_id lease.purpose)
              formats.decode_released
              tt
              later in
          (error_of reply, done))

  -- A lease that a client which `newProxyRuntimeClient` made acquires without an error is given back as it
  -- was acquired: it was asked for with its account, its purpose and the session, its id is that of the
  -- response without white space at its ends, and the request to release it has its id, its account and its
  -- purpose.
  pub release-acquired :
      (cfg : ClientConfig) (client : Client) (session_id account_id purpose : String) (e later : E)
      → new_client formats cfg ≡ ok (some client)
      → let acquired = acquire transport formats client session_id account_id purpose e in
        acquired.0.1 ≡ none → IsGivenBack client session_id acquired.0.0 e acquired.1 later
  unfolding acquire post_release
  release-acquired cfg client session_id account_id purpose e later made h =
      let account = account_or_default client account_id in
      let for_purpose = purpose_or_default client purpose in
      let done =
        post transport formats (str_append client.base_url "/leases/acquire")
          (acquiring account for_purpose session_id) formats.decode_acquired empty_response e in
      let (response, replied, named, same_account, same_purpose) =
        lease_of-fields formats account for_purpose done.0 h in
      let acquired = acquire transport formats client session_id account_id purpose e in
      record {
        response = response;
        asked = rw (same_account) (rw (same_purpose) (ap (λ r. (r, done.1)) replied));
        named = named;
        given_back =
            release_complete client acquired.0.0 later
              (acquire-IsComplete cfg client session_id account_id purpose e made h);
      }
