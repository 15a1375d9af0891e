-- ===== src/App/Service/Invariants.antt =====
-- internal/app/session_service.go, task_service.go: which properties of the store every method of
-- the service keeps.
use mathlib.Core.Path.{subst}
use browser_automation_byte.Prelude.{String, false, ◌≡◌, refl, sym, ap, Option, none, some, All}
use browser_automation_byte.Prelude.Int.{ℤ}
use browser_automation_byte.Core.Errors.{GoError}
use browser_automation_byte.Core.Errors.Code
use browser_automation_byte.Core.Reply.{ok}
use browser_automation_byte.Core.Messages.{Session, Task, ProxySelection}
use browser_automation_byte.Core.Status.{session_status_is_final}
use browser_automation_byte.Core.Ports.{Store, ListResult, Environment, KeepsSession}
use browser_automation_byte.App.Service.World.{World, call_env}
use browser_automation_byte.App.Service.Frame.{
  decide-keeps, choose-keeps, check-keeps, release_session_proxy-stored,
  prepare_session_proxy-stored, prepare_session_proxy-keeps,
}
use browser_automation_byte.App.Service.Sessions.{
  update, prepare_session_proxy, fail_session, mark_running, launch_session,
}

module _ {S : Type 0} (store : Store S) (P : S → Type 0) where
  open store use {
    create_session, get_session, list_sessions, update_session, create_task, update_task,
  }

  -- The session under an id may be written without breaking `P`.
  abbrev pub IsWritable : String → Type 0
  IsWritable id = (v : Session) (s : S) → v.session_id ≡ id → P s → P (update_session (some v) s).1

  -- What makes `P` an invariant of the service: creating keeps it, a session that was just created or that is
  -- read with a status that is not final may be written, and tasks do not matter to it.
  pub record IsInvariant : Type 0 where
    pub creates : (v : Session) (s : S) → P s → P (create_session (some v) s).1
    pub created :
        (v : Session) (s : S) → P s → (create_session (some v) s).0 ≡ none → IsWritable v.session_id
    pub read :
        (k : String) (v : Session) (s : S)
        → P s
        → get_session k s ≡ ok v
        → session_status_is_final v.status ≡ false
        → IsWritable v.session_id
    pub listed :
        (page_size : ℤ) (page_token : String) (r : ListResult Session) (s : S)
        → P s
        → list_sessions page_size page_token s ≡ ok r
        → All (λ v. session_status_is_final v.status ≡ false → IsWritable v.session_id) r.items
    pub creates_task : (t : Option Task) (s : S) → P s → P (create_task t s).1
    pub updates_task : (t : Option Task) (s : S) → P s → P (update_task t s).1

module _ {S E : Type 0} (store : Store S) (environment : Environment E) (P : S → Type 0) where
  pub fail_session-keeps :
      (v : Session) (err : GoError) (code : String) (w : World S E)
      → IsWritable store P v.session_id
      → P w.stored
      → P (fail_session store environment v err code w).1.stored
  unfolding fail_session
  fail_session-keeps v err code w writable h =
      writable _ _ refl (rw (release_session_proxy-stored store environment _ _) h)

  pub mark_running-keeps :
      (v : Session) (w : World S E)
      → IsWritable store P v.session_id
      → P w.stored
      → P (mark_running store environment v w).1.stored
  unfolding mark_running
  mark_running-keeps v w writable h =
      check-keeps P (update store environment _ _) _ (writable _ _ refl h) (λ w' e h'. h')

  pub launch_session-keeps :
      (v : Session) (selection : Option ProxySelection) (w : World S E)
      → KeepsSession environment.proxy
      → IsWritable store P v.session_id
      → P w.stored
      → P (launch_session store environment v selection w).1.stored
  unfolding launch_session
  launch_session-keeps v selection w keeps writable h =
      let prepared = (prepare_session_proxy store environment v selection w).0.0 in
      let writable' : IsWritable store P prepared.session_id =
        subst (IsWritable store P)
          (sym (
            ap (λ u. u.session_id)
              (prepare_session_proxy-keeps store environment v selection w keeps)))
          writable in
      choose-keeps P (prepare_session_proxy store environment v selection w) _ _
        (rw (prepare_session_proxy-stored store environment v selection w) h)
        (λ err w' h'. fail_session-keeps prepared err Code.proxy_failed w' writable' h')
        (λ w' h'.
          decide-keeps P (call_env (environment.runtime.start_session prepared) w') _ _ h'
            (λ err w'' h''.
              fail_session-keeps prepared err Code.browser_unavailable w'' writable' h'')
            (λ w'' h''. mark_running-keeps prepared w'' writable' h''))
