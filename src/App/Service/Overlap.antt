-- ===== src/App/Service/Overlap.antt =====
-- internal/app/session_service.go: two calls that overlap. The service looks at the status of a session that
-- it has read, and writes the session later without looking again.
use browser_automation_byte.Prelude.{String, false, ◌≡◌, ap, ◌∙◌, Option, none}
use browser_automation_byte.Core.Reply.{ok}
use browser_automation_byte.Core.Messages.{Session, SessionStatus}
use browser_automation_byte.Core.Status.{session_status_is_final}
use browser_automation_byte.Core.Ports.{Store, StoreLaws, Environment}
use browser_automation_byte.App.Service.World.{World}
use browser_automation_byte.App.Service.Ends.{Ends-ok}
use browser_automation_byte.App.Service.Lifetime.{get_browser_session, stop_session}
use browser_automation_byte.App.Service.Reading.{get_browser_session-IsCurrent}
use browser_automation_byte.App.Service.Stopping.{
  IsStopped, IsNotStopped, stop_session-Ends, stop_session_succeeds,
}

module _ {S E : Type 0} {store : Store S} {IsValid : S → Type 0} (laws : StoreLaws store IsValid)
    (environment : Environment E) where
  -- On a valid store, if `StopBrowserSession` has read a session that is not final, and before it goes on
  -- `GetBrowserSession` finds the session past its expiry and stores it as EXPIRED, then the rest of
  -- `StopBrowserSession` succeeds when the runtime returns no error for a stop, and the session that was
  -- EXPIRED is stored as STOPPED.
  pub stop_session-expired :
      (id reason : String) (w w' : World S E) (v x : Session)
      → IsValid w.stored
      → store.get_session id w.stored ≡ ok v
      → session_status_is_final v.status ≡ false
      → get_browser_session store environment id w ≡ (ok x, w')
      → x.status ≡ SessionStatus.expired
      → ((u : Session) (e : E) → (environment.runtime.stop_session u reason e).0 ≡ none)
      → (store.get_session id w'.stored ≡ ok x)
        × ((a : Option Session) × (w'' : World S E) × (stop_session store environment v reason w'
              ≡ (ok a, w''))
            × IsStopped laws environment id a w'')
  stop_session-expired id reason w w' v x valid read open_still expires expired stops =
      let same : v.session_id ≡ id = laws.get_session-id w.stored id v valid read in
      let stored : store.get_session id w'.stored ≡ ok x =
        (get_browser_session-IsCurrent laws environment id w w' x valid expires).stored in
      let (a, w'', e) =
        stop_session_succeeds laws environment v x reason w'
          (ap (λ k. store.get_session k w'.stored) same ∙ stored) stops in
      (
        stored,
        (
          a,
          w'',
          e,
          Ends-ok (IsStopped laws environment id) (IsNotStopped laws environment id w')
              (stop_session-Ends laws environment id w' v reason w' same) e,
        ),
      )
