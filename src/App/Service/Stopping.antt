-- ===== src/App/Service/Stopping.antt =====
-- internal/app/session_service.go: what `StopBrowserSession` and `GetBrowserSession` promise.
use mathlib.Core.Path.{subst}
use browser_automation_byte.Prelude.{
  String, true, false, ◌≡◌, refl, sym, ap, ◌∙◌, inl, inr, Option, none, some, Bool-cases,
}
use browser_automation_byte.Core.Errors.{GoError, new_error}
use browser_automation_byte.Core.Errors.Code
use browser_automation_byte.Core.Reply.{ok}
use browser_automation_byte.Core.Times.{timestamp}
use browser_automation_byte.Core.Messages.{Session, SessionStatus}
use browser_automation_byte.Core.Status.{session_status_is_final}
use browser_automation_byte.Core.Ports.{Store, StoreLaws, Environment}
use browser_automation_byte.App.Service.World.{World, call_env}
use browser_automation_byte.App.Service.Helpers.{last_error_of}
use browser_automation_byte.App.Service.Frame.{
  check_passes, decide_passes, release_session_proxy-stored,
}
use browser_automation_byte.App.Service.Ends.{Ends, Ends-ok, resume-Ends, decide-Ends, check-Ends}
use browser_automation_byte.App.Service.Written.{get-update, IsOk}
use browser_automation_byte.App.Service.Sessions.{update, release_session_proxy, fail_session}
use browser_automation_byte.App.Service.Lifetime.{
  with_stop_reason, mark_stopped, stop_session, stop_browser_session,
}

module _ {S E : Type 0} {store : Store S} {IsValid : S → Type 0} (laws : StoreLaws store IsValid)
    (environment : Environment E) where
  open store use {get_session}

  -- A stopped session: it is stored, under the id that was asked for.
  pub record IsStopped (id : String) (v : Option Session) (w : World S E) : Type 0 where
    pub session : Session
    pub returned : v ≡ some session
    pub status : session.status ≡ SessionStatus.stopped
    pub stored : get_session id w.stored ≡ ok session

  -- A session that could not be stopped: it was final, and nothing changed, or the runtime failed,
  -- and the session carries the runtime's error.
  pub data IsNotStopped (id : String) (before : World S E)
      : Option Session → GoError → World S E → Type 0 where
    was_final :
        (session : Session)
        → get_session id before.stored ≡ ok session
        → session_status_is_final session.status ≡ true
        → IsNotStopped id before
            (some session)
            (new_error Code.session_finalized "browser session already finalized" false)
            before
    runtime_failed :
        {w : World S E} (session : Session) (e : GoError)
        → session.session_id ≡ id
        → session.status ≡ SessionStatus.failed
        → session.last_error ≡ last_error_of e Code.browser_unavailable
        → IsNotStopped id before (some session) e w

  mark_stopped-Ends :
      (id : String) (R : Option Session → GoError → World S E → Type 0) (v : Session)
      (reason : String) (w : World S E)
      → v.session_id ≡ id
      → Ends (IsStopped id) R (mark_stopped store environment v reason w)
  unfolding mark_stopped
  mark_stopped-Ends id R v reason w same =
      check-Ends (IsStopped id) R (update store environment _ _) _ (λ w' e. record {
        session = _;
        returned = refl;
        status = refl;
        stored = rw (← same) (get-update laws environment _ _ e);
      })

  pub stop_session-Ends :
      (id : String) (before : World S E) (v : Session) (reason : String) (w : World S E)
      → v.session_id ≡ id
      → Ends (IsStopped id) (IsNotStopped id before) (stop_session store environment v reason w)
  unfolding stop_session fail_session
  stop_session-Ends id before v reason w same =
      let stopping : Session = record v {
        status = SessionStatus.stopping;
        updated_at = timestamp (environment.now w.env).0;
      } in
      let w0 : World S E = record w { env = (environment.now w.env).1 } in
      check-Ends (IsStopped id) (IsNotStopped id before) (update store environment stopping w0) _
        (λ w1 _.
          decide-Ends (IsStopped id) (IsNotStopped id before)
            (call_env (environment.runtime.stop_session stopping reason) w1) _ _
            (λ err w2 _. runtime_failed _ err same refl refl)
            (λ w2 _. mark_stopped-Ends id (IsNotStopped id before) stopping reason w2 same))

  pub stop_browser_session-Ends :
      (id reason : String) (w : World S E)
      → IsValid w.stored
      → Ends (IsStopped id) (IsNotStopped id w) (stop_browser_session store environment id reason w)
  unfolding stop_browser_session
  stop_browser_session-Ends id reason w valid =
      resume-Ends (IsStopped id) (IsNotStopped id w) (get_session id w.stored, w) _
        (λ v w1 e.
          let got : get_session id w.stored ≡ ok v = ap (λ r. r.0) e in
          let same : w ≡ w1 = ap (λ r. r.1) e in
          elim (Bool-cases (session_status_is_final v.status)) [
            | inl final ↦ rw (final, stop_browser_session) (rw (← same) (was_final v got final))
            | inr still ↦
                rw (still, stop_browser_session)
                  (stop_session-Ends id w v reason w1 (laws.get_session-id w.stored id v valid got))
          ])

  mark_stopped_succeeds :
      (v u : Session) (reason : String) (w : World S E)
      → get_session v.session_id w.stored ≡ ok u
      → IsOk (mark_stopped store environment v reason w)
  unfolding mark_stopped
  mark_stopped_succeeds v u reason w stored =
      let released = (release_session_proxy store environment v w).1 in
      let time = (environment.now released.env).0 in
      let w1 : World S E = record released { env = (environment.now released.env).1 } in
      let stopped : Session = record v {
        status = SessionStatus.stopped;
        stopped_at = timestamp time;
        updated_at = timestamp time;
        labels = with_stop_reason reason v.labels;
      } in
      let there : get_session v.session_id released.stored ≡ ok u =
        rw (release_session_proxy-stored store environment v w) stored in
      subst (λ r. IsOk r)
        (sym (
          check_passes (update store environment stopped w1) _
            (laws.update_session_succeeds stopped u released.stored there)))
        (some stopped, (update store environment stopped w1).1, refl)

  pub stop_session_succeeds :
      (v u : Session) (reason : String) (w : World S E)
      → get_session v.session_id w.stored ≡ ok u
      → ((u : Session) (e : E) → (environment.runtime.stop_session u reason e).0 ≡ none)
      → IsOk (stop_session store environment v reason w)
  unfolding stop_session
  stop_session_succeeds v u reason w stored stops =
      let stopping : Session = record v {
        status = SessionStatus.stopping;
        updated_at = timestamp (environment.now w.env).0;
      } in
      let w0 : World S E = record w { env = (environment.now w.env).1 } in
      let r1 = update store environment stopping w0 in
      let r2 = call_env (environment.runtime.stop_session stopping reason) r1.1 in
      let done = laws.update_session_succeeds stopping u w.stored stored in
      subst IsOk (sym (check_passes r1 _ done ∙ decide_passes r2 _ _ (stops stopping r1.1.env))) (
        mark_stopped_succeeds stopping stopping reason r2.1
          (get-update laws environment stopping w0 (ap (λ e. (e, r1.1)) done)))

  stop_browser_session_succeeds :
      (id reason : String) (w : World S E) (v : Session)
      → IsValid w.stored
      → get_session id w.stored ≡ ok v
      → session_status_is_final v.status ≡ false
      → ((u : Session) (e : E) → (environment.runtime.stop_session u reason e).0 ≡ none)
      → IsOk (stop_browser_session store environment id reason w)
  unfolding stop_browser_session
  stop_browser_session_succeeds id reason w v valid stored open_still stops =
      let same : v.session_id ≡ id = laws.get_session-id w.stored id v valid stored in
      rw (stored, stop_browser_session)
        (rw (open_still, stop_browser_session)
          (stop_session_succeeds v v reason w (ap (λ k. get_session k w.stored) same ∙ stored)
            stops))

  -- If the runtime returns no error when it is told to stop a session, then `StopBrowserSession` on a
  -- session that is stored with a status that is not final returns it without an error, and the
  -- returned session is STOPPED and is what is stored under its id.
  pub stop_browser_session_stops :
      (id reason : String) (w : World S E) (v : Session)
      → IsValid w.stored
      → get_session id w.stored ≡ ok v
      → session_status_is_final v.status ≡ false
      → ((u : Session) (e : E) → (environment.runtime.stop_session u reason e).0 ≡ none)
      → (a : Option Session) × (w' : World S E) × (stop_browser_session store environment id reason
            w
          ≡ (ok a, w'))
        × IsStopped id a w'
  stop_browser_session_stops id reason w v valid stored open_still stops =
      let (a, w', e) = stop_browser_session_succeeds id reason w v valid stored open_still stops in
      (
        a,
        w',
        e,
        Ends-ok (IsStopped id) (IsNotStopped id w) (stop_browser_session-Ends id reason w valid) e,
      )
