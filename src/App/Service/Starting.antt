-- ===== src/App/Service/Starting.antt =====
-- internal/app/session_service.go: what `StartBrowserSession` promises.
use browser_automation_byte.Prelude.{
  String, false, not, ◌≡◌, ◌≢◌, refl, sym, ap, ◌∙◌, ◌⊎◌, inl, inr, Option, some, Map, str_eq,
  eq_iff, arith, Bool-cases,
}
use browser_automation_byte.Core.Errors.{GoError}
use browser_automation_byte.Core.Errors.Code
use browser_automation_byte.Core.Reply.{Reply, ok, fail, fail_with}
use browser_automation_byte.Core.Times.{Duration}
use browser_automation_byte.Core.Messages.{Session, SessionStatus, Profile, ProxySelection}
use browser_automation_byte.Core.Ports.{Store, StoreLaws, Environment, KeepsSession}
use browser_automation_byte.App.Validation.Checks.{validate_profile}
use browser_automation_byte.App.Service.World.{World, Act, call_env, call_store}
use browser_automation_byte.App.Service.Helpers.{
  last_error_of, clone_profile, ensure_session_capacity,
}
use browser_automation_byte.App.Service.Frame.{prepare_session_proxy-keeps}
use browser_automation_byte.App.Service.Ends.{
  Ends, Ends-ok, map-Ends, if-Ends, resume-Ends, decide-Ends, choose-Ends, check-Ends,
}
use browser_automation_byte.App.Service.Written.{get-update, request-update, empty-cases}
use browser_automation_byte.App.Service.Sessions.{
  update, prepare_session_proxy, fail_session, mark_running, launch_session, new_session,
  request_id_or_new, with_browser_kind, negative_ttl, ttl_or_default, create_and_launch,
  existing_or, start_new_session, start_browser_session,
}

module _ {S E : Type 0} (store : Store S) (environment : Environment E) where
  -- A request id that is given is used.
  pub request_id_or_new-given :
      (r : String) (w w' : World S E) (request : String)
      → request_id_or_new store environment r w ≡ (ok request, w')
      → r ≢ ""
      → request ≡ r
  request_id_or_new-given r w w' request e given = elim (Bool-cases (str_eq r "")) [
    | inl empty ↦ absurd (given (ground (arith, eq_iff r "")))
    | inr other ↦ let same : ok r ≡ ok request = ap (λ x. x.0) (rw other at e) in cc
  ]

module _ {S E : Type 0} {store : Store S} {IsValid : S → Type 0} (laws : StoreLaws store IsValid)
    (environment : Environment E) where
  open store use {get_session, get_session_by_request_id}

  -- A session that was started for a request id: it is running, and stored under its id and, if the
  -- request id is not empty, under that.
  pub record IsStarted (r : String) (v : Option Session) (w : World S E) : Type 0 where
    pub session : Session
    pub returned : v ≡ some session
    pub status : session.status ≡ SessionStatus.running
    pub stored : get_session session.session_id w.stored ≡ ok session
    pub indexed : (r ≡ "") ⊎ (get_session_by_request_id r w.stored ≡ ok (some session))

  -- A session that failed to start carries the error of the proxy or of the runtime.
  pub record IsFailed (v : Option Session) (e : GoError) (w : World S E) : Type 0 where
    pub session : Session
    pub returned : v ≡ some session
    pub status : session.status ≡ SessionStatus.failed
    pub error :
        (session.last_error ≡ last_error_of e Code.proxy_failed)
        ⊎ (session.last_error ≡ last_error_of e Code.browser_unavailable)

  abbrev pub StartEnds : String → Reply (Option Session) × World S E → Type 0
  StartEnds r = Ends (IsStarted r) IsFailed

  mark_running-Ends :
      (r : String) (v : Session) (w : World S E)
      → (r ≢ "" → v.request_id ≡ r)
      → StartEnds r (mark_running store environment v w)
  unfolding mark_running
  mark_running-Ends r v w same =
      check-Ends (IsStarted r) IsFailed (update store environment _ _) _ (λ w' e. record {
        session = _;
        returned = refl;
        status = refl;
        stored = get-update laws environment _ _ e;
        indexed = elim (empty-cases r) [
          | inl empty ↦ inl empty
          | inr given ↦ inr (
              rw (← same given)
                (request-update laws environment _ _ (λ h. given (sym (same given) ∙ h)) e))
        ];
      })

  launch_session-Ends :
      (r : String) (v : Session) (selection : Option ProxySelection) (w : World S E)
      → KeepsSession environment.proxy
      → (r ≢ "" → v.request_id ≡ r)
      → StartEnds r (launch_session store environment v selection w)
  unfolding launch_session fail_session
  launch_session-Ends r v selection w keeps same =
      let prepared = (prepare_session_proxy store environment v selection w).0.0 in
      let kept : prepared.request_id ≡ v.request_id =
        ap (λ u. u.request_id)
          (prepare_session_proxy-keeps store environment v selection w keeps) in
      choose-Ends (IsStarted r) IsFailed (prepare_session_proxy store environment v selection w) _ _
        (λ e w1. record { session = _; returned = refl; status = refl; error = inl refl })
        (λ w1.
          decide-Ends (IsStarted r) IsFailed
            (call_env (environment.runtime.start_session prepared) w1) _ _
            (λ e w2 _. record { session = _; returned = refl; status = refl; error = inr refl })
            (λ w2 _. mark_running-Ends r prepared w2 (λ given. kept ∙ same given)))

  create_and_launch-Ends :
      (r : String) (profile : Profile) (ttl : Duration) (labels : Map String)
      (selection : Option ProxySelection) (w : World S E)
      → KeepsSession environment.proxy
      → StartEnds r (create_and_launch store environment r profile ttl labels selection w)
  unfolding create_and_launch
  create_and_launch-Ends r profile ttl labels selection w keeps =
      let time = (environment.now w.env).0 in
      let w1 : World S E = record w { env = (environment.now w.env).1 } in
      resume-Ends (IsStarted r) IsFailed (request_id_or_new store environment r w1) _
        (λ request w2 e.
          let session =
            new_session (environment.new_id "brsess_" w2.env).0 request profile labels time ttl in
          let w3 : World S E = record w2 { env = (environment.new_id "brsess_" w2.env).1 } in
          check-Ends (IsStarted r) IsFailed (call_store (store.create_session (some session)) w3) _
            (λ w4 _.
              launch_session-Ends r session selection w4 keeps
                (λ given. request_id_or_new-given store environment r w1 w2 request e given)))

  -- When `StartBrowserSession` starts a session for a request id, a session that it returns without an
  -- error is RUNNING, is stored under its id and is found by the request id if that is not empty; one that
  -- it returns with an error is FAILED and carries that error.
  pub start_new_session-Ends :
      (r : String) (profile : Option Profile) (ttl : Duration) (labels : Map String)
      (selection : Option ProxySelection) (w : World S E)
      → KeepsSession environment.proxy
      → StartEnds r (start_new_session store environment r profile ttl labels selection w)
  unfolding start_new_session
  start_new_session-Ends r profile ttl labels selection w keeps =
      check-Ends (IsStarted r) IsFailed (validate_profile (some (clone_profile profile)), w) _
        (λ w1 _.
          check-Ends (IsStarted r) IsFailed (negative_ttl ttl, w1) _
            (λ w2 _.
              check-Ends (IsStarted r) IsFailed
                (ensure_session_capacity environment.runtime.capacity w2.env, w2) _
                (λ w3 _.
                  create_and_launch-Ends r
                    (with_browser_kind environment.runtime.default_browser_kind
                      (clone_profile profile))
                    (ttl_or_default ttl) labels selection w3 keeps)))

  -- What is found by the request id `r`, if that is not empty.
  IsFound : String → Option Session → World S E → Type 0
  IsFound r v w = r ≢ "" → get_session_by_request_id r w.stored ≡ ok v

  abbrev AnyError : Option Session → GoError → World S E → Type 0
  AnyError v e w = Unit

  existing_or-Ends :
      (r : String) (found : Reply (Option Session)) (start : Act S E (Option Session))
      (w : World S E)
      → get_session_by_request_id r w.stored ≡ found
      → Ends (IsFound r) AnyError (start w)
      → Ends (IsFound r) AnyError (existing_or store environment found start w)
  unfolding IsFound
  existing_or-Ends r (ok v) start w e h = λ given. e
  existing_or-Ends r (fail err) start w e h = ground arith
  existing_or-Ends r (fail_with v err) start w e h = ground arith

  start_browser_session-Ends :
      (r : String) (profile : Option Profile) (ttl : Duration) (labels : Map String)
      (selection : Option ProxySelection) (w : World S E)
      → KeepsSession environment.proxy
      → Ends
          (IsFound r)
          AnyError
          (start_browser_session store environment r profile ttl labels selection w)
  unfolding start_browser_session IsFound
  start_browser_session-Ends r profile ttl labels selection w keeps =
      let started : Ends (IsFound r) AnyError
          (start_new_session store environment r profile ttl labels selection w) =
        map-Ends (start_new_session store environment r profile ttl labels selection w)
          (λ v w' h given.
            rw h.returned (elim h.indexed [ inl empty ↦ absurd (given empty) | inr found ↦ found ]))
          (λ v e w' h. tt) (start_new_session-Ends r profile ttl labels selection w keeps) in
      if-Ends (IsFound r) AnyError (not (str_eq r "")) _ _
        (existing_or-Ends r (get_session_by_request_id r w.stored) _ w refl started) started

  -- If `StartBrowserSession` returns a session without an error for a request id that is not empty, then
  -- a second call with that request id, whatever its other arguments are, returns the same session and
  -- changes nothing.
  pub start_browser_session-again :
      (r : String) (profile profile' : Option Profile) (ttl ttl' : Duration)
      (labels labels' : Map String) (selection selection' : Option ProxySelection)
      (w w' : World S E) (v : Option Session)
      → KeepsSession environment.proxy
      → r ≢ ""
      → start_browser_session store environment r profile ttl labels selection w ≡ (ok v, w')
      → start_browser_session store environment r profile' ttl' labels' selection' w' ≡ (ok v, w')
  unfolding start_browser_session IsFound
  start_browser_session-again r profile profile' ttl ttl' labels labels' selection selection' w w' v
        keeps given e =
      let ends = start_browser_session-Ends r profile ttl labels selection w keeps in
      let found : get_session_by_request_id r w'.stored ≡ ok v =
        Ends-ok (IsFound r) AnyError ends e given in
      let other : str_eq r "" ≡ false = ground (arith, eq_iff r "", given) in
      rw (other, start_browser_session) (rw found refl)
