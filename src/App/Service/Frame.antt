-- ===== src/App/Service/Frame.antt =====
-- internal/app/session_service.go: how the calls of a method change the store. A property of the
-- store that each write keeps is kept by the shapes that the methods are made of.
use browser_automation_byte.Prelude.{
  Bool, true, false, if◌then◌else◌, ◌≡◌, refl, Option, none, some, Option-cases, inl, inr,
}
use browser_automation_byte.Core.Errors.{GoError}
use browser_automation_byte.Core.Reply.{Reply, ok, fail, fail_with}
use browser_automation_byte.Core.Messages.{Session, ProxySelection}
use browser_automation_byte.Core.Ports.{Store, Environment, KeepsSession}
use browser_automation_byte.App.Service.World.{World, Act, ◌>>◌, check, resume, decide, choose}
use browser_automation_byte.App.Service.Sessions.{prepare_session_proxy, release_session_proxy}

module _ {S E : Type 0} (P : S → Type 0) where
  pub resume-keeps :
      {A B : Type 0} (r : Reply A × World S E) (f : A → Act S E B)
      → P r.1.stored
      → ((a : A) (w : World S E) → r ≡ (ok a, w) → P w.stored → P (f a w).1.stored)
      → P (resume r f).1.stored
  resume-keeps (ok a, w) f h k = k a w refl h
  resume-keeps (fail e, w) f h k = h
  resume-keeps (fail_with a e, w) f h k = h

  pub if-keeps :
      {A : Type 0} (b : Bool) (x y : Reply A × World S E)
      → P x.1.stored
      → P y.1.stored
      → P (if b then x else y).1.stored
  if-keeps true x y h k = h
  if-keeps false x y h k = k

  pub decide-keeps :
      {B : Type 0} (r : Option GoError × World S E) (on_error : GoError → Act S E B)
      (rest : Act S E B)
      → P r.1.stored
      → ((e : GoError) (w : World S E) → P w.stored → P (on_error e w).1.stored)
      → ((w : World S E) → P w.stored → P (rest w).1.stored)
      → P (decide r on_error rest).1.stored
  decide-keeps (none, w) on_error rest h j k = k w h
  decide-keeps (some e, w) on_error rest h j k = j e w h

  pub choose-keeps :
      {A B : Type 0} (r : (A × Option GoError) × World S E) (on_error : A → GoError → Act S E B)
      (rest : A → Act S E B)
      → P r.1.stored
      → ((e : GoError) (w : World S E) → P w.stored → P (on_error r.0.0 e w).1.stored)
      → ((w : World S E) → P w.stored → P (rest r.0.0 w).1.stored)
      → P (choose r on_error rest).1.stored
  choose-keeps ((a, none), w) on_error rest h j k = k w h
  choose-keeps ((a, some e), w) on_error rest h j k = j e w h

  -- A call whose error is returned, before more code.
  pub check-keeps :
      {B : Type 0} (r : Option GoError × World S E) (rest : Act S E B)
      → P r.1.stored
      → ((w : World S E) → r ≡ (none, w) → P w.stored → P (rest w).1.stored)
      → P ((check (λ _. r) >> rest) r.1).1.stored
  check-keeps (none, w) rest h k = k w refl h
  check-keeps (some e, w) rest h k = h

-- Calls that return no error.
module _ {S E B : Type 0} where
  pub check_passes :
      (r : Option GoError × World S E) (rest : Act S E B)
      → r.0 ≡ none
      → (check (λ _. r) >> rest) r.1 ≡ rest r.1
  check_passes (none, w) rest h = refl
  check_passes (some e, w) rest h = cc

  pub decide_passes :
      (r : Option GoError × World S E) (on_error : GoError → Act S E B) (rest : Act S E B)
      → r.0 ≡ none
      → decide r on_error rest ≡ rest r.1
  decide_passes (none, w) on_error rest h = refl
  decide_passes (some e, w) on_error rest h = cc

module _ {S E : Type 0} (store : Store S) (environment : Environment E) where
  open environment use {proxy}

  pub release_session_proxy-stored :
      (v : Session) (w : World S E)
      → (release_session_proxy store environment v w).1.stored ≡ w.stored
  unfolding release_session_proxy
  release_session_proxy-stored v w = elim (Option-cases proxy) [
    | inl e ↦ rw (e, release_session_proxy) refl
    | inr (p, e) ↦ rw (e, release_session_proxy) refl
  ]

  pub prepare_session_proxy-stored :
      (v : Session) (selection : Option ProxySelection) (w : World S E)
      → (prepare_session_proxy store environment v selection w).1.stored ≡ w.stored
  unfolding prepare_session_proxy
  prepare_session_proxy-stored v selection w = elim (Option-cases proxy) [
    | inl e ↦ rw (e, prepare_session_proxy) refl
    | inr (p, e) ↦ rw (e, prepare_session_proxy) refl
  ]

  pub prepare_session_proxy-keeps :
      (v : Session) (selection : Option ProxySelection) (w : World S E)
      → KeepsSession proxy
      → let v' = (prepare_session_proxy store environment v selection w).0.0 in
        v' ≡ record v { profile = v'.profile }
  unfolding prepare_session_proxy
  prepare_session_proxy-keeps v selection w keeps = elim (Option-cases proxy) [
    | inl e ↦ rw (e, prepare_session_proxy) refl
    | inr (p, e) ↦ rw (e, prepare_session_proxy) ((rw e at keeps) v selection w.env)
  ]
