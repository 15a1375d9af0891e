-- ===== src/Adapters/Proxy.antt =====
-- internal/adapters/proxyplugin/controller.go: which proxy a session gets, and what is remembered
-- of it until it is released. The proxy runtime's client, the check of a proxy url and Go's
-- quoting of text are parameters. A method holds the controller's lock while it reads or writes
-- the sessions, and the client keeps a state of its own.
pub mod Laws
pub mod Setup
pub mod Accepted
use browser_automation_byte.Prelude.{
  String, Bool, true, false, not, Option, none, some, List, [], ◌∷◌, Map, lookup, insert, erase,
  str_eq, if◌then◌else◌, trim_space,
}
use Prim.Native.String.{◌++◌ as str_append}
use browser_automation_byte.Core.Errors.{GoError, plain, wrapped, new_error, error_text}
use browser_automation_byte.Core.Errors.Code
use browser_automation_byte.Core.Messages.{Session, Profile, ProxySelection, ProxyProviderKind}
use browser_automation_byte.Core.Ports.{ProxyController}

-- `sessionProxy`
pub record SessionProxy : Type 0 where
  pub account_id : String
  pub lease_id : String
  pub purpose : String
  pub url : String

abbrev pub no_proxy : SessionProxy
no_proxy = record { account_id = ""; lease_id = ""; purpose = ""; url = "" }

-- What the controller asks of `proxyRuntimeClient`: a lease for a session, an account and a
-- purpose, and the release of a lease, by its id, its account and its purpose.
pub record LeaseClient (E : Type 0) : Type 0 where
  pub acquire : String → String → String → E → (SessionProxy × Option GoError) × E
  pub release : String → String → String → E → Option GoError × E

-- `Controller`: what is fixed when it is made.
pub record Controller (E : Type 0) : Type 0 where
  pub manual : Map String
  pub proxy_runtime : Option (LeaseClient E)
  pub validate_proxy_value : String → Option GoError
  pub quote : String → String

-- What changes: the proxies of the sessions, and what the client keeps.
pub record State (E : Type 0) : Type 0 where
  pub sessions : Map SessionProxy
  pub client : E

-- `(sessionProxy, string, error)`
pub record Resolved : Type 0 where
  pub proxy : SessionProxy
  pub ref : String
  pub error : Option GoError

abbrev resolved : SessionProxy → String → Resolved
resolved proxy ref = record { proxy = proxy; ref = ref; error = none }

abbrev rejected : String → GoError → Resolved
rejected ref err = record { proxy = no_proxy; ref = ref; error = some err }

-- `prepareSessionProxy` reads a session's profile where it has one.
abbrev with_proxy_ref : String → Profile → Session → Session
with_proxy_ref ref profile session = record session {
  profile = some (record profile { proxy_ref = ref });
}

module _ {E : Type 0} (controller : Controller E) where
  open controller use {manual, proxy_runtime, validate_proxy_value, quote}

  abbrev pub configured_or : String → GoError → Option String → Resolved
  configured_or ref err none = rejected ref err
  configured_or ref err (some url) = resolved (record no_proxy { url = url }) ref

  -- `resolveLegacy`
  unfoldable pub resolve_legacy : String → Resolved
  resolve_legacy proxy_ref =
      let ref = trim_space proxy_ref in
      if str_eq ref ""
      then resolved no_proxy ""
      else configured_or ref
          (plain (str_append "proxy_ref " (str_append (quote ref) " is not configured")))
          (lookup ref manual)

  abbrev pub valid_or : String → Option GoError → Resolved
  valid_or url none = resolved (record no_proxy { url = url }) "manual:session"
  valid_or url (some err) = rejected "" err

  -- `resolveManual`
  unfoldable pub resolve_manual : ProxySelection → Resolved
  resolve_manual selection =
      let raw_url = trim_space selection.manual_proxy_url in
      let ref = trim_space selection.manual_proxy_ref in
      if not (str_eq raw_url "")
      then valid_or raw_url (validate_proxy_value raw_url)
      else if str_eq ref ""
      then resolved no_proxy ""
      else configured_or ref
          (plain (str_append "manual proxy " (str_append (quote ref) " is not configured")))
          (lookup ref manual)

  abbrev leased : (SessionProxy × Option GoError) × E → Resolved × E
  leased ((lease, none), e) = (resolved lease (str_append "proxy-runtime:" lease.account_id), e)
  leased ((lease, some err), e) = (rejected "" err, e)

  -- `resolveProxyRuntime`
  unfoldable pub resolve_proxy_runtime : String → ProxySelection → E → Resolved × E
  resolve_proxy_runtime session_id selection e = elim proxy_runtime [
    | none ↦ (rejected "" (plain "proxy-runtime provider is not configured"), e)
    | some c ↦ leased (
        c.acquire session_id (trim_space selection.proxy_runtime_account_id)
          (trim_space selection.proxy_runtime_purpose) e)
  ]

  -- The switch of `resolveSelection`
  unfoldable pub resolve_kind :
      ProxyProviderKind → String → ProxySelection → String → E → Resolved × E
  unfolding resolve_legacy resolve_manual resolve_proxy_runtime
  resolve_kind ProxyProviderKind.unspecified session_id selection legacy e =
      (resolve_legacy legacy, e)
  resolve_kind ProxyProviderKind.none session_id selection legacy e = (resolved no_proxy "", e)
  resolve_kind ProxyProviderKind.manual session_id selection legacy e =
      (resolve_manual selection, e)
  resolve_kind ProxyProviderKind.proxy_runtime session_id selection legacy e =
      resolve_proxy_runtime session_id selection e
  resolve_kind (ProxyProviderKind.unrecognized n) session_id selection legacy e =
      (rejected "" (plain "unsupported proxy provider"), e)

  -- `resolveSelection`
  unfoldable pub resolve_selection : String → Option ProxySelection → String → E → Resolved × E
  unfolding resolve_kind
  resolve_selection session_id none legacy e = (resolve_legacy legacy, e)
  resolve_selection session_id (some selection) legacy e =
      resolve_kind selection.provider_kind session_id selection legacy e

  -- `PrepareSessionProxy`, once the selection is resolved
  unfoldable pub keep_proxy :
      Session → Profile → Resolved → State E → (Session × Option GoError) × State E
  keep_proxy session profile r s = elim r.error [
    | some err ↦ ((session, some (new_error Code.proxy_failed (error_text err) false)), s)
    | none ↦ (
      (with_proxy_ref r.ref profile session, none),
      (if str_eq r.proxy.url ""
          then s
          else record s { sessions = insert session.session_id r.proxy s.sessions }),
    )
  ]

  -- `PrepareSessionProxy`, when the session has an id, given its profile if it has one
  unfoldable pub prepare_profile :
      Option Profile
      → Session
      → Option ProxySelection
      → State E
      → (Session × Option GoError) × State E
  unfolding keep_proxy resolve_selection
  prepare_profile none session selection s = ((session, none), s)
  prepare_profile (some profile) session selection s =
      let (r, e) = resolve_selection session.session_id selection profile.proxy_ref s.client in
      keep_proxy session profile r (record s { client = e })

  -- `PrepareSessionProxy` on a session that is not nil
  unfoldable pub prepare :
      Session → Option ProxySelection → State E → (Session × Option GoError) × State E
  unfolding prepare_profile
  prepare session selection s =
      if str_eq session.session_id ""
      then ((session, some (new_error Code.validation_failed "session is required" false)), s)
      else prepare_profile session.profile session selection s

  abbrev pub state_of : Option SessionProxy → SessionProxy
  state_of none = no_proxy
  state_of (some proxy) = proxy

  -- `ResolveSessionProxy` on a session that is not nil
  unfoldable pub resolve : Session → State E → String
  resolve session s = (state_of (lookup session.session_id s.sessions)).url

  abbrev pub release_lease :
      SessionProxy → Option (LeaseClient E) → State E → Option GoError × State E
  release_lease proxy none s = (none, s)
  release_lease proxy (some c) s =
      if str_eq proxy.lease_id ""
      then (none, s)
      else (let (err, e) = c.release proxy.lease_id proxy.account_id proxy.purpose s.client in
          (err, record s { client = e }))

  -- `ReleaseSessionProxy` on a session that is not nil
  unfoldable pub release : Session → State E → Option GoError × State E
  release session s =
      release_lease (state_of (lookup session.session_id s.sessions)) proxy_runtime
        (record s { sessions = erase session.session_id s.sessions })

  -- The controller as the service's `core.ProxyController`.
  abbrev pub proxy_controller : ProxyController (State E)
  proxy_controller = record { prepare_session_proxy = prepare; release_session_proxy = release }
