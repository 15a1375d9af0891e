-- ===== src/App/Service/Lifetime.antt =====
-- internal/app/session_service.go: how a browser session is read, expires and is stopped.
use browser_automation_byte.Prelude.{
  String, Bool, true, false, not, ◌||◌, Option, none, some, List, [], ◌∷◌, Map, insert, str_eq,
  if◌then◌else◌,
}
use browser_automation_byte.Prelude.Int.{ℤ}
use browser_automation_byte.Core.Errors.{new_error}
use browser_automation_byte.Core.Errors.Code
use browser_automation_byte.Core.Times.{Time, timestamp, is_after}
use browser_automation_byte.Core.Messages.{Session, SessionStatus}
use browser_automation_byte.Core.Status.{session_status_is_final}
use browser_automation_byte.Core.Ports.{Store, ListResult, Environment}
use browser_automation_byte.App.Service.World.{
  Act, ◌>>=◌, ◌>>◌, attempt_only, check, ignore, return, raise, raise_with, call_env, read_store,
}
use browser_automation_byte.App.Service.Sessions.{
  clock_now, update, release_session_proxy, fail_session,
}

-- `labels["stop_reason"] = reason`, if there is a reason
abbrev pub with_stop_reason : String → Map String → Map String
with_stop_reason reason labels =
    if not (str_eq reason "") then insert "stop_reason" reason labels else labels

abbrev is_due_at : Time → Bool → Option Time → Bool
is_due_at now final none = false
is_due_at now final (some expires) = if not (is_after now expires) || final then false else true

-- Whether a session has passed its expiry, and is not final yet.
unfoldable pub is_due : Time → Session → Bool
unfolding session_status_is_final
is_due now session = is_due_at now (session_status_is_final session.status) session.expires_at

module _ {S E : Type 0} (store : Store S) (environment : Environment E) where
  open store use {get_session, list_sessions}
  open environment use {runtime}

  -- `expireSessionIfNeeded`, once the session is due
  unfoldable pub expire_session : Time → Session → Act S E Session
  unfolding release_session_proxy
  expire_session time session = do
    let expired = record session {
      status = SessionStatus.expired;
      updated_at = timestamp time;
      stopped_at = timestamp time;
    }
    ignore (call_env (runtime.stop_session expired "browser session expired"))
    ignore (release_session_proxy store environment expired)
    check (update store environment expired)
    return expired

  -- `expireSessionIfNeeded`
  unfoldable pub expire_session_if_needed : Option Session → Act S E Session
  unfolding is_due expire_session
  expire_session_if_needed none =
      raise (new_error Code.session_not_found "browser session not found" false)
  expire_session_if_needed (some session) = do
    time ← clock_now store environment
    if is_due time session then expire_session time session else return session

  -- `GetBrowserSession`
  unfoldable pub get_browser_session : String → Act S E Session
  unfolding expire_session_if_needed
  get_browser_session session_id = do
    session ← read_store (get_session session_id)
    expire_session_if_needed (some session)

  -- The loop of `ListBrowserSessions`
  unfoldable pub expire_each : List Session → Act S E (List Session)
  unfolding expire_session_if_needed
  expire_each [] = return []
  expire_each (session ∷ sessions) = do
    current ← expire_session_if_needed (some session)
    rest ← expire_each sessions
    return (current ∷ rest)

  -- `ListBrowserSessions`
  unfoldable pub list_browser_sessions : ℤ → String → Act S E (ListResult Session)
  unfolding expire_each
  list_browser_sessions page_size page_token = do
    result ← read_store (list_sessions page_size page_token)
    current ← expire_each result.items
    return (record result { items = current })

  -- The end of `StopBrowserSession`: the runtime has stopped the session.
  unfoldable pub mark_stopped : Session → String → Act S E (Option Session)
  unfolding release_session_proxy
  mark_stopped session reason = do
    ignore (release_session_proxy store environment session)
    time ← clock_now store environment
    let stopped = record session {
      status = SessionStatus.stopped;
      stopped_at = timestamp time;
      updated_at = timestamp time;
      labels = with_stop_reason reason session.labels;
    }
    check (update store environment stopped)
    return (some stopped)

  -- `StopBrowserSession` on a session that is not final
  unfoldable pub stop_session : Session → String → Act S E (Option Session)
  unfolding fail_session mark_stopped
  stop_session session reason = do
    time ← clock_now store environment
    let stopping = record session { status = SessionStatus.stopping; updated_at = timestamp time }
    check (update store environment stopping)
    attempt_only (call_env (runtime.stop_session stopping reason))
        (λ err. fail_session store environment stopping err Code.browser_unavailable)
        (mark_stopped stopping reason)

  -- `StopBrowserSession`
  unfoldable pub stop_browser_session : String → String → Act S E (Option Session)
  unfolding stop_session session_status_is_final
  stop_browser_session session_id reason = do
    session ← read_store (get_session session_id)
    if session_status_is_final session.status
        then raise_with (some session)
            (new_error Code.session_finalized "browser session already finalized" false)
        else stop_session session reason
