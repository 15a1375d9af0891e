-- ===== src/App/Service/Final.antt =====
-- internal/app/session_service.go, task_service.go: what no call of the service's methods changes.
use browser_automation_byte.Prelude.{
  String, true, false, ◌≡◌, sym, ap, ◌∙◌, ◌≢◌, inl, inr, some, List, [], ◌∷◌, eq_iff, arith, Option,
  Option-cases, All,
}
use browser_automation_byte.Core.Reply.{ok}
use browser_automation_byte.Core.Messages.{Session}
use browser_automation_byte.Core.Status.{
  session_status_is_final, IsFinal, session_status_is_final_iff,
}
use browser_automation_byte.Core.Ports.{Store, StoreLaws, KeepsSession}
use browser_automation_byte.App.Service.World.{World}
use browser_automation_byte.App.Service.Invariants.{IsInvariant, IsWritable}
use browser_automation_byte.App.Service.Frames.{LiveFrames}
use browser_automation_byte.App.Service.Methods.{AutomationService}
use browser_automation_byte.App.Service.Runs.{Reaches, run-keeps}

module _ {S : Type 0} {store : Store S} {IsValid : S → Type 0}
    (laws : StoreLaws store IsValid) where
  open store use {update_session, create_session}

  valid-IsInvariant : IsInvariant store IsValid
  valid-IsInvariant = record {
    creates = λ v s h. laws.create_session-IsValid (some v) s h;
    created = λ v s h e u t same k. laws.update_session-IsValid (some u) t k;
    read = λ k v s h e f u t same j. laws.update_session-IsValid (some u) t j;
    listed = λ size token r s h e. all_writable r.items;
    creates_task = laws.create_task-IsValid;
    updates_task = laws.update_task-IsValid;
  }
    where
      all_writable :
          (vs : List Session)
          → All
              (λ v.
                session_status_is_final v.status ≡ false
                → (u : Session) (s : S) → u.session_id ≡ v.session_id
                → IsValid s
                → IsValid (update_session (some u) s).1)
              vs
      all_writable [] = tt
      all_writable (v ∷ vs) =
          (λ f u s same h. laws.update_session-IsValid (some u) s h, all_writable vs)

  -- The store is valid, and holds `x` under `k`.
  Holds : String → Session → S → Type 0
  Holds k x s = IsValid s × (store.get_session k s ≡ ok x)

  update-Holds :
      (k : String) (x u : Session) (s : S)
      → u.session_id ≢ k
      → Holds k x s
      → Holds k x (update_session (some u) s).1
  unfolding Holds
  update-Holds k x u s n h = (
    laws.update_session-IsValid (some u) s h.0,
    elim (Option-cases (update_session (some u) s).0) [
      | inl done ↦
          laws.get-update_session u s k done ∙ ground (arith, eq_iff u.session_id k, n, h.1)
      | inr (e, failed) ↦ ap (store.get_session k) (laws.update_session_failed u s e failed) ∙ h.1
    ],
  )

  create-Holds :
      (k : String) (x u : Session) (s : S) → Holds k x s → Holds k x (create_session (some u) s).1
  unfolding Holds
  create-Holds k x u s h = (
    laws.create_session-IsValid (some u) s h.0,
    elim (Option-cases (create_session (some u) s).0) [
      | inl done ↦
          let apart : u.session_id ≢ k =
            (λ same. laws.create_session_fresh u x s done (rw same h.1)) in
          laws.get-create_session u s k done ∙ ground (arith, eq_iff u.session_id k, apart, h.1)
      | inr (e, failed) ↦ ap (store.get_session k) (laws.create_session_failed u s e failed) ∙ h.1
    ],
  )

  final-IsInvariant :
      (k : String) (x : Session)
      → session_status_is_final x.status ≡ true
      → IsInvariant store (Holds k x)
  unfolding Holds
  final-IsInvariant k x final = record {
    creates = λ v s h. create-Holds k x v s h;
    created = λ v s h e u t same j.
        update-Holds k x u t (λ own. laws.create_session_fresh v x s e (rw (sym same ∙ own) h.1)) j;
    read = λ i v s h e f u t same j.
        update-Holds k x u t (λ own. reading i v s h e f (sym same ∙ own)) j;
    listed = λ size token r s h e.
        all_writable s h r.items (laws.list_sessions-stored size token r s h.0 e);
    creates_task =
        λ t s h. (laws.create_task-IsValid t s h.0, laws.session-create_task t s k ∙ h.1);
    updates_task =
        λ t s h. (laws.update_task-IsValid t s h.0, laws.session-update_task t s k ∙ h.1);
  }
    where
      reading :
          (i : String) (v : Session) (s : S)
          → Holds k x s
          → store.get_session i s ≡ ok v
          → session_status_is_final v.status ≡ false
          → v.session_id ≢ k
      reading i v s h e f own =
          let at : i ≡ k = sym (laws.get_session-id s i v h.0 e) ∙ own in
          let got : store.get_session k s ≡ ok v = rw (← at) e in
          let same : ok v ≡ ok x = sym got ∙ h.1 in cc

      all_writable :
          (s : S)
          → Holds k x s
          → (vs : List Session)
          → All (λ v. (w : Session) → store.get_session v.session_id s ≡ ok w → w ≡ v) vs
          → All
              (λ v.
                session_status_is_final v.status ≡ false
                → IsWritable store (Holds k x) v.session_id)
              vs
      all_writable s h [] stored = tt
      all_writable s h (v ∷ vs) stored = (
        λ f u t same j.
            update-Holds k x u t
              (λ own.
                let at : x ≡ v = stored.0 x (rw (sym same ∙ own) h.1) in
                let now_final : session_status_is_final v.status ≡ true = rw (← at) final in cc)
              j,
        all_writable s h vs stored.1,
      )

module _ {S E B F I : Type 0} (service : AutomationService S E B)
    (frames : Option (LiveFrames E F I)) {IsValid : S → Type 0}
    (laws : StoreLaws service.store IsValid) (keeps : KeepsSession service.environment.proxy) where
  open service use {store}

  -- If a store is valid, it is valid after any calls of the service's methods.
  pub run-IsValid :
      (w w' : World S E) → Reaches service frames w w' → IsValid w.stored → IsValid w'.stored
  run-IsValid = run-keeps service frames (valid-IsInvariant laws) keeps

  -- Over a valid store that keeps its laws, and with a proxy controller that changes only a session's
  -- profile, a stored session that is STOPPED, FAILED or EXPIRED is stored unchanged after any calls of the service's
  -- methods that run one after the other: those on sessions, on tasks and on live views.
  pub final-run :
      (w w' : World S E) (k : String) (x : Session)
      → IsValid w.stored
      → store.get_session k w.stored ≡ ok x
      → IsFinal x.status
      → Reaches service frames w w'
      → store.get_session k w'.stored ≡ ok x
  unfolding Holds
  final-run w w' k x valid stored final run =
      let same = (session_status_is_final_iff x.status).1 final in
      (run-keeps service frames (final-IsInvariant laws k x same) keeps w w' run (valid, stored)).1
