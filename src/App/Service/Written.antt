-- ===== src/App/Service/Written.antt =====
-- internal/app/session_service.go: a session that the service has stored is read back.
use browser_automation_byte.Prelude.{
  String, ◌≡◌, ◌≢◌, refl, ap, ◌∙◌, none, some, ◌⊎◌, inl, inr, Bool-cases, arith, eq_iff, str_eq,
  eq_refl,
}
use browser_automation_byte.Core.Reply.{Reply, ok}
use browser_automation_byte.Core.Messages.{Session}
use browser_automation_byte.Core.Ports.{Store, StoreLaws, Environment}
use browser_automation_byte.App.Service.World.{World}
use browser_automation_byte.App.Service.Sessions.{update}

-- A call that returns a value and no error.
abbrev pub IsOk : {S E A : Type 0} → Reply A × World S E → Type 0
IsOk {S} {E} {A} r = (a : A) × (w : World S E) × (r ≡ (ok a, w))

pub empty-cases : (r : String) → (r ≡ "") ⊎ (r ≢ "")
empty-cases r = elim (Bool-cases (str_eq r "")) [
  | inl empty ↦ inl (ground (arith, eq_iff r ""))
  | inr given ↦ inr (λ e. ground (arith, eq_iff r ""))
]

module _ {S E : Type 0} {store : Store S} {IsValid : S → Type 0} (laws : StoreLaws store IsValid)
    (environment : Environment E) where
  open store use {get_session, get_session_by_request_id}

  -- What was stored without an error is read back.
  pub get-update :
      (v : Session) (w : World S E) {w' : World S E}
      → update store environment v w ≡ (none, w')
      → get_session v.session_id w'.stored ≡ ok v
  get-update v w {w'} e =
      let done : (store.update_session (some v) w.stored).0 ≡ none = ap (λ r. r.0) e in
      let there : (store.update_session (some v) w.stored).1 ≡ w'.stored = ap (λ r. r.1.stored) e in
      rw (← there)
        (laws.get-update_session v w.stored v.session_id done ∙ rw (eq_refl v.session_id) refl)

  -- It is found by its request id.
  pub request-update :
      (v : Session) (w : World S E) {w' : World S E}
      → v.request_id ≢ ""
      → update store environment v w ≡ (none, w')
      → get_session_by_request_id v.request_id w'.stored ≡ ok (some v)
  request-update v w {w'} given e =
      let done : (store.update_session (some v) w.stored).0 ≡ none = ap (λ r. r.0) e in
      let there : (store.update_session (some v) w.stored).1 ≡ w'.stored = ap (λ r. r.1.stored) e in
      rw (← there) (laws.request-update_session v w.stored given done)
