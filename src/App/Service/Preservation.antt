-- ===== src/App/Service/Preservation.antt =====
-- internal/app/session_service.go, task_service.go: each method keeps the invariants of the store.
use browser_automation_byte.Prelude.{
  String, true, false, not, ◌≡◌, refl, ap, inl, inr, Option, some, List, [], ◌∷◌, Map, str_eq,
  arith, Bool-cases, All,
}
use browser_automation_byte.Prelude.Int.{ℤ}
use browser_automation_byte.Core.Errors.Code
use browser_automation_byte.Core.Reply.{Reply, ok, fail, fail_with}
use browser_automation_byte.Core.Times.{Time, Duration, timestamp}
use browser_automation_byte.Core.Messages.{Session, SessionStatus, Profile, ProxySelection}
use browser_automation_byte.Core.Status.{session_status_is_final}
use browser_automation_byte.Core.Ports.{Store, Environment, KeepsSession}
use browser_automation_byte.App.Service.World.{World, Act, call_store, call_env}
use browser_automation_byte.App.Validation.Checks.{validate_profile}
use browser_automation_byte.App.Service.Helpers.{clone_profile, ensure_session_capacity}
use browser_automation_byte.App.Service.Frame.{
  if-keeps, resume-keeps, decide-keeps, check-keeps, release_session_proxy-stored,
}
use browser_automation_byte.App.Service.Invariants.{
  IsWritable, IsInvariant, fail_session-keeps, launch_session-keeps,
}
use browser_automation_byte.App.Service.Sessions.{
  update, fail_session, launch_session, create_and_launch, start_new_session, start_browser_session,
}
use browser_automation_byte.App.Service.Sessions
use browser_automation_byte.App.Service.Lifetime.{
  is_due, expire_session, expire_session_if_needed, get_browser_session, expire_each,
  list_browser_sessions, mark_stopped, stop_session, stop_browser_session,
}

module _ {S E : Type 0} (store : Store S) (environment : Environment E) (P : S → Type 0) where
  existing_or-keeps :
      (r : Reply (Option Session)) (start : Act S E (Option Session)) (w : World S E)
      → P w.stored
      → P (start w).1.stored
      → P (Sessions.existing_or store environment r start w).1.stored
  existing_or-keeps (ok v) start w h k = h
  existing_or-keeps (fail e) start w h k = ground arith
  existing_or-keeps (fail_with v e) start w h k = ground arith

module _ {S E : Type 0} {store : Store S} {P : S → Type 0} (invariant : IsInvariant store P)
    (environment : Environment E) where
  pub request_id_or_new-keeps :
      (request_id : String) (w : World S E)
      → P w.stored
      → P (Sessions.request_id_or_new store environment request_id w).1.stored
  request_id_or_new-keeps request_id w h = elim (Bool-cases (str_eq request_id "")) [
    | inl e ↦ rw e h
    | inr e ↦ rw e h
  ]

  create_and_launch-keeps :
      (request_id : String) (profile : Profile) (ttl : Duration) (labels : Map String)
      (selection : Option ProxySelection) (w : World S E)
      → KeepsSession environment.proxy
      → P w.stored
      → P (create_and_launch store environment request_id profile ttl labels selection w).1.stored
  unfolding create_and_launch
  create_and_launch-keeps request_id profile ttl labels selection w keeps h =
      let time = (environment.now w.env).0 in
      let w1 : World S E = record w { env = (environment.now w.env).1 } in
      resume-keeps P (Sessions.request_id_or_new store environment request_id w1) _
        (request_id_or_new-keeps request_id w1 h)
        (λ request w2 _ h2.
          let session =
            Sessions.new_session (environment.new_id "brsess_" w2.env).0 request profile labels time
              ttl in
          let w3 : World S E = record w2 { env = (environment.new_id "brsess_" w2.env).1 } in
          check-keeps P (call_store (store.create_session (some session)) w3) _
            (invariant.creates session w2.stored h2)
            (λ w4 e h4.
              launch_session-keeps store environment P session selection w4 keeps
                (invariant.created session w2.stored h2 (ap (λ r. r.0) e)) h4))

  start_new_session-keeps :
      (request_id : String) (profile : Option Profile) (ttl : Duration) (labels : Map String)
      (selection : Option ProxySelection) (w : World S E)
      → KeepsSession environment.proxy
      → P w.stored
      → P (start_new_session store environment request_id profile ttl labels selection w).1.stored
  unfolding start_new_session
  start_new_session-keeps request_id profile ttl labels selection w keeps h =
      check-keeps P {B = Option Session} (validate_profile (some (clone_profile profile)), w) _ h
        (λ w1 _ h1.
          check-keeps P {B = Option Session} (Sessions.negative_ttl ttl, w1) _ h1
            (λ w2 _ h2.
              check-keeps P {B = Option Session}
                (ensure_session_capacity environment.runtime.capacity w2.env, w2) _ h2
                (λ w3 _ h3.
                  create_and_launch-keeps request_id
                    (Sessions.with_browser_kind environment.runtime.default_browser_kind
                      (clone_profile profile))
                    (Sessions.ttl_or_default ttl) labels selection w3 keeps h3)))

  pub start_browser_session-keeps :
      (request_id : String) (profile : Option Profile) (ttl : Duration) (labels : Map String)
      (selection : Option ProxySelection) (w : World S E)
      → KeepsSession environment.proxy
      → P w.stored
      → P
          (start_browser_session store environment request_id profile ttl labels selection
            w).1.stored
  unfolding start_browser_session
  start_browser_session-keeps request_id profile ttl labels selection w keeps h =
      let started = start_new_session-keeps request_id profile ttl labels selection w keeps h in
      if-keeps P (not (str_eq request_id "")) _ _
        (existing_or-keeps store environment P (store.get_session_by_request_id request_id w.stored)
          _ w h started)
        started

  expire_session-keeps :
      (time : Time) (v : Session) (w : World S E)
      → IsWritable store P v.session_id
      → P w.stored
      → P (expire_session store environment time v w).1.stored
  unfolding expire_session
  expire_session-keeps time v w writable h =
      check-keeps P (update store environment _ _) _
        (writable _ _ refl (rw (release_session_proxy-stored store environment _ _) h))
        (λ w1 e h1. h1)

  is_due-final :
      (time : Time) (v : Session) → is_due time v ≡ true → session_status_is_final v.status ≡ false
  unfolding is_due
  is_due-final time v h = ground arith

  expire_session_if_needed-keeps :
      (v : Session) (w : World S E)
      → (session_status_is_final v.status ≡ false → IsWritable store P v.session_id)
      → P w.stored
      → P (expire_session_if_needed store environment (some v) w).1.stored
  unfolding expire_session_if_needed
  expire_session_if_needed-keeps v w writable h =
      let time = (environment.now w.env).0 in
      elim (Bool-cases (is_due time v)) [
        | inl e ↦
            rw (e, expire_session_if_needed)
              (expire_session-keeps time v _ (writable (is_due-final time v e)) h)
        | inr e ↦ rw (e, expire_session_if_needed) h
      ]

  mark_stopped-keeps :
      (v : Session) (reason : String) (w : World S E)
      → IsWritable store P v.session_id
      → P w.stored
      → P (mark_stopped store environment v reason w).1.stored
  unfolding mark_stopped
  mark_stopped-keeps v reason w writable h =
      check-keeps P (update store environment _ _) _
        (writable _ _ refl (rw (release_session_proxy-stored store environment _ _) h))
        (λ w1 e h1. h1)

  stop_session-keeps :
      (v : Session) (reason : String) (w : World S E)
      → IsWritable store P v.session_id
      → P w.stored
      → P (stop_session store environment v reason w).1.stored
  unfolding stop_session
  stop_session-keeps v reason w writable h =
      let stopping : Session = record v {
        status = SessionStatus.stopping;
        updated_at = timestamp (environment.now w.env).0;
      } in
      check-keeps P (update store environment stopping _) _ (writable stopping _ refl h) (λ w1 e h1.
        decide-keeps P (call_env (environment.runtime.stop_session stopping reason) w1) _ _ h1
          (λ err w2 h2.
            fail_session-keeps store environment P stopping err Code.browser_unavailable w2 writable
              h2)
          (λ w2 h2. mark_stopped-keeps stopping reason w2 writable h2))

  pub stop_browser_session-keeps :
      (id reason : String) (w : World S E)
      → P w.stored
      → P (stop_browser_session store environment id reason w).1.stored
  unfolding stop_browser_session
  stop_browser_session-keeps id reason w h =
      resume-keeps P (store.get_session id w.stored, w) _ h
        (λ v w1 e h1. elim (Bool-cases (session_status_is_final v.status)) [
          | inl final ↦ rw (final, stop_browser_session) h1
          | inr open_still ↦
              rw (open_still, stop_browser_session)
                (stop_session-keeps v reason w1
                  (invariant.read id v w.stored h (ap (λ r. r.0) e) open_still) h1)
        ])

  pub get_browser_session-keeps :
      (id : String) (w : World S E)
      → P w.stored
      → P (get_browser_session store environment id w).1.stored
  unfolding get_browser_session
  get_browser_session-keeps id w h =
      resume-keeps P (store.get_session id w.stored, w) _ h
        (λ v w1 e h1.
          expire_session_if_needed-keeps v w1
            (λ f. invariant.read id v w.stored h (ap (λ r. r.0) e) f) h1)

  expire_each-keeps :
      (vs : List Session) (w : World S E)
      → All (λ v. session_status_is_final v.status ≡ false → IsWritable store P v.session_id) vs
      → P w.stored
      → P (expire_each store environment vs w).1.stored
  unfolding expire_each
  expire_each-keeps [] w a h = h
  expire_each-keeps (v ∷ vs) w a h =
      resume-keeps P (expire_session_if_needed store environment (some v) w) _
        (expire_session_if_needed-keeps v w a.0 h)
        (λ current w1 _ h1.
          resume-keeps P (expire_each store environment vs w1) _ (expire_each-keeps vs w1 a.1 h1)
            (λ rest w2 _ h2. h2))

  pub list_browser_sessions-keeps :
      (size : ℤ) (token : String) (w : World S E)
      → P w.stored
      → P (list_browser_sessions store environment size token w).1.stored
  unfolding list_browser_sessions
  list_browser_sessions-keeps size token w h =
      resume-keeps P (store.list_sessions size token w.stored, w) _ h
        (λ r w1 e h1.
          resume-keeps P (expire_each store environment r.items w1) _
            (expire_each-keeps r.items w1
              (invariant.listed size token r w.stored h (ap (λ q. q.0) e)) h1)
            (λ current w2 _ h2. h2))
