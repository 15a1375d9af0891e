-- ===== src/App/Service/Reading.antt =====
-- internal/app/session_service.go: what `GetBrowserSession` promises.
use browser_automation_byte.Prelude.{
  String, false, ◌≡◌, refl, ap, ◌⊎◌, ◌≤◌, inl, inr, none, some, Option-cases, arith, Bool-cases,
}
use browser_automation_byte.Core.Errors.{GoError}
use browser_automation_byte.Core.Reply.{ok}
use browser_automation_byte.Core.Times.{Time}
use browser_automation_byte.Core.Messages.{Session}
use browser_automation_byte.Core.Status.{
  session_status_is_final, IsFinal, session_status_is_final_iff,
}
use browser_automation_byte.Core.Ports.{Store, StoreLaws, Environment}
use browser_automation_byte.App.Service.World.{World}
use browser_automation_byte.App.Service.Ends.{Ends, Ends-ok, resume-Ends, check-Ends}
use browser_automation_byte.App.Service.Written.{get-update}
use browser_automation_byte.App.Service.Sessions.{update}
use browser_automation_byte.App.Service.Lifetime.{
  is_due, expire_session, expire_session_if_needed, get_browser_session,
}

module _ {S E : Type 0} {store : Store S} {IsValid : S → Type 0} (laws : StoreLaws store IsValid)
    (environment : Environment E) where
  open store use {get_session}

  -- A session that is not past its expiry: it is STOPPED, FAILED or EXPIRED, or it has no expiry, or the
  -- time is not after the expiry.
  pub IsInTime : Time → Session → Type 0
  IsInTime time v =
      IsFinal v.status
      ⊎ ((v.expires_at ≡ none) ⊎ ((expiry : Time) × (v.expires_at ≡ some expiry) × (time ≤ expiry)))

  -- A session that is read at a time: it is what is stored under the id, and it is not past its expiry.
  pub record IsCurrent (id : String) (time : Time) (v : Session) (w : World S E) : Type 0 where
    pub stored : get_session id w.stored ≡ ok v
    pub in_time : IsInTime time v

  abbrev pub Never : Session → GoError → World S E → Type 0
  Never v e w = ⊥

  early-IsInTime : (time : Time) (v : Session) → is_due time v ≡ false → IsInTime time v
  unfolding is_due IsInTime
  early-IsInTime time v h = elim (Bool-cases (session_status_is_final v.status)) [
    | inl final ↦ inl ((session_status_is_final_iff v.status).0 final)
    | inr open_still ↦ elim (Option-cases v.expires_at) [
      | inl e ↦ inr (inl e)
      | inr (expiry, e) ↦ inr (inr (expiry, e, ground (arith, rw e at h)))
    ]
  ]

  expire_session-Ends :
      (id : String) (time : Time) (v : Session) (w : World S E)
      → v.session_id ≡ id
      → Ends (IsCurrent id time) Never (expire_session store environment time v w)
  unfolding expire_session IsInTime
  expire_session-Ends id time v w same =
      check-Ends (IsCurrent id time) Never (update store environment _ _) _ (λ w' e. record {
        stored = rw (← same) (get-update laws environment _ _ e);
        in_time = inl (inr (inr refl));
      })

  expire_session_if_needed-Ends :
      (id : String) (v : Session) (w : World S E)
      → get_session id w.stored ≡ ok v
      → v.session_id ≡ id
      → Ends
          (IsCurrent id (environment.now w.env).0)
          Never
          (expire_session_if_needed store environment (some v) w)
  unfolding expire_session_if_needed
  expire_session_if_needed-Ends id v w stored same =
      let time = (environment.now w.env).0 in
      elim (Bool-cases (is_due time v)) [
        | inl due ↦ rw (due, expire_session_if_needed) (expire_session-Ends id time v _ same)
        | inr early ↦
            rw (early, expire_session_if_needed)
              (record { stored = stored; in_time = early-IsInTime time v early })
      ]

  get_browser_session-Ends :
      (id : String) (w : World S E)
      → IsValid w.stored
      → Ends
          (IsCurrent id (environment.now w.env).0)
          Never
          (get_browser_session store environment id w)
  unfolding get_browser_session
  get_browser_session-Ends id w valid =
      resume-Ends (IsCurrent id (environment.now w.env).0) Never (get_session id w.stored, w) _
        (λ v w1 e.
          let got : get_session id w.stored ≡ ok v = ap (λ r. r.0) e in
          let same : w ≡ w1 = ap (λ r. r.1) e in
          rw (← same) (
            expire_session_if_needed-Ends id v w got (laws.get_session-id w.stored id v valid got)))

  -- A session that `GetBrowserSession` returns without an error, on a store that is valid, is what is
  -- then stored under the id, and the time that was read is not after its expiry, unless it has none or
  -- is STOPPED, FAILED or EXPIRED.
  pub get_browser_session-IsCurrent :
      (id : String) (w w' : World S E) (v : Session)
      → IsValid w.stored
      → get_browser_session store environment id w ≡ (ok v, w')
      → IsCurrent id (environment.now w.env).0 v w'
  get_browser_session-IsCurrent id w w' v valid e =
      Ends-ok (IsCurrent id (environment.now w.env).0) Never (get_browser_session-Ends id w valid) e
