-- ===== src/App/Service/Sessions.antt =====
-- internal/app/session_service.go: how a browser session starts and fails. Where the source changes the
-- session through its pointer, the next state of the session is a new value.
use browser_automation_byte.Prelude.{
  ◌*◌, String, false, not, Option, none, some, [], Map, str_eq, if◌then◌else◌,
}
use browser_automation_byte.Prelude.Int.{pos, is_negative, is_positive}
use browser_automation_byte.Core.Errors.{GoError, new_error}
use browser_automation_byte.Core.Errors.Code
use browser_automation_byte.Core.Reply.{Reply, ok, fail, fail_with}
use browser_automation_byte.Core.Times.{Time, Duration, minute, timestamp, is_after}
use browser_automation_byte.Core.Times
use browser_automation_byte.Core.Messages.{
  Session, SessionStatus, Profile, BrowserKind, ProxySelection,
}
use browser_automation_byte.Core.Ports.{Store, Environment}
use browser_automation_byte.App.Validation.Checks.{validate_profile}
use browser_automation_byte.App.Service.World.{
  Act, Call, ◌>>=◌, ◌>>◌, attempt, attempt_only, check, ignore, require, return, raise_with,
  call_env, call_store, succeed,
}
use browser_automation_byte.App.Service.Helpers.{
  is_session_not_found, last_error_of, clone_profile, is_unspecified, default_browser_kind,
  ensure_session_capacity,
}

abbrev pub default_session_ttl : Duration
default_session_ttl = pos (30 * minute)

abbrev pub not_running : GoError
not_running = new_error Code.session_finalized "browser session is not running" false

-- The error for a time to live that is negative, and the one that a session gets.
abbrev pub negative_ttl : Duration → Option GoError
negative_ttl ttl =
    if is_negative ttl
    then some (new_error Code.validation_failed "ttl cannot be negative" false)
    else none

abbrev pub ttl_or_default : Duration → Duration
ttl_or_default ttl = if is_positive ttl then ttl else default_session_ttl

-- A profile that names no browser gets the runtime's.
abbrev pub with_browser_kind : Option BrowserKind → Profile → Profile
with_browser_kind kind profile =
    if is_unspecified profile.browser_kind
    then record profile { browser_kind = default_browser_kind kind }
    else profile

-- The session that is made for a request.
abbrev pub new_session : String → String → Profile → Map String → Time → Duration → Session
new_session session_id request_id profile labels time ttl = record {
  session_id = session_id;
  request_id = request_id;
  status = SessionStatus.starting;
  profile = some profile;
  last_error = none;
  artifacts = [];
  labels = labels;
  created_at = timestamp time;
  started_at = none;
  updated_at = timestamp time;
  stopped_at = none;
  expires_at = timestamp (Times.add time ttl);
}

module _ {S E : Type 0} (store : Store S) (environment : Environment E) where
  open store use {
    create_session, get_session, get_session_by_request_id, list_sessions, update_session,
  }
  open environment use {now, new_id, runtime, proxy}

  -- `s.clock.Now()`
  abbrev pub clock_now : Act S E Time
  clock_now = succeed (call_env now)

  abbrev pub update : Session → Call S E (Option GoError)
  update session = call_store (update_session (some session))

  -- `prepareSessionProxy`
  unfoldable pub prepare_session_proxy :
      Session → Option ProxySelection → Call S E (Session × Option GoError)
  prepare_session_proxy session selection w = elim proxy [
    | none ↦ ((session, none), w)
    | some p ↦ call_env (p.prepare_session_proxy session selection) w
  ]

  -- `releaseSessionProxy`
  unfoldable pub release_session_proxy : Session → Call S E (Option GoError)
  release_session_proxy session w = elim proxy [
    | none ↦ (none, w)
    | some p ↦ call_env (p.release_session_proxy session) w
  ]

  -- What `StartBrowserSession` and `StopBrowserSession` do when a port fails: the session is
  -- stored as failed, its proxy is released, and the port's error is returned with it.
  unfoldable pub fail_session : Session → GoError → String → Act S E (Option Session)
  unfolding release_session_proxy
  fail_session session err fallback = do
    time ← clock_now
    let failed = record session {
      status = SessionStatus.failed;
      last_error = last_error_of err fallback;
      updated_at = timestamp time;
    }
    ignore (release_session_proxy failed)
    ignore (update failed)
    raise_with (some failed) err

  -- The end of `StartBrowserSession`: the runtime has started the session.
  unfoldable pub mark_running : Session → Act S E (Option Session)
  mark_running session = do
    started ← clock_now
    let running = record session {
      status = SessionStatus.running;
      started_at = timestamp started;
      updated_at = timestamp started;
    }
    check (update running)
    return (some running)

  -- `StartBrowserSession` from the point where the session is stored as STARTING.
  unfoldable pub launch_session : Session → Option ProxySelection → Act S E (Option Session)
  unfolding prepare_session_proxy fail_session mark_running
  launch_session session selection =
      attempt (prepare_session_proxy session selection)
        (λ prepared err. fail_session prepared err Code.proxy_failed)
        (λ prepared.
          attempt_only (call_env (runtime.start_session prepared))
            (λ err. fail_session prepared err Code.browser_unavailable) (mark_running prepared))

  -- The request id, or a new one if none is given.
  abbrev pub request_id_or_new : String → Act S E String
  request_id_or_new request_id =
      if str_eq request_id "" then succeed (call_env (new_id "req_")) else return request_id

  -- `StartBrowserSession` from the point where all is checked, on the profile and the time to live it chose
  unfoldable pub create_and_launch :
      String → Profile → Duration → Map String → Option ProxySelection → Act S E (Option Session)
  unfolding launch_session
  create_and_launch request_id profile ttl labels selection = do
    time ← clock_now
    request ← request_id_or_new request_id
    session_id ← succeed (call_env (new_id "brsess_"))
    let session = new_session session_id request profile labels time ttl
    check (call_store (create_session (some session)))
    launch_session session selection

  -- `StartBrowserSession` for a request that has no session yet
  unfoldable pub start_new_session :
      String
      → Option Profile
      → Duration
      → Map String
      → Option ProxySelection
      → Act S E (Option Session)
  unfolding create_and_launch clone_profile default_browser_kind ensure_session_capacity
  start_new_session request_id given_profile given_ttl labels selection = do
    let cloned = clone_profile given_profile
    require (validate_profile (some cloned))
    require (negative_ttl given_ttl)
    check (λ w. (ensure_session_capacity runtime.capacity w.env, w))
    create_and_launch request_id (with_browser_kind runtime.default_browser_kind cloned)
        (ttl_or_default given_ttl) labels selection

  -- What a lookup by request id answers: the session, or a start if there is none.
  abbrev pub existing_or :
      Reply (Option Session) → Act S E (Option Session) → Act S E (Option Session)
  existing_or (ok existing) start w = (ok existing, w)
  existing_or (fail err) start w = if is_session_not_found err then start w else (fail err, w)
  existing_or (fail_with v err) start w =
      if is_session_not_found err then start w else (fail err, w)

  -- `StartBrowserSession`
  unfoldable pub start_browser_session :
      String
      → Option Profile
      → Duration
      → Map String
      → Option ProxySelection
      → Act S E (Option Session)
  unfolding start_new_session is_session_not_found
  start_browser_session request_id profile ttl labels selection w =
      let start = start_new_session request_id profile ttl labels selection in
      if not (str_eq request_id "")
      then existing_or (get_session_by_request_id request_id w.stored) start w
      else start w
