-- ===== src/Adapters/Proxy/Laws.antt =====
-- internal/adapters/proxyplugin/controller.go: what the service may rely on.
use browser_automation_byte.Prelude.{
  ◌≡◌, ◌≢◌, inl, inr, refl, ap, ◌∙◌, Option, none, some, lookup, erase, lookup-insert, lookup-erase,
  str_eq, eq_iff, if◌then◌else◌, arith, Bool-cases, Option-cases,
}
use browser_automation_byte.Core.Messages.{Session, Profile, ProxySelection}
use browser_automation_byte.Core.Ports.{KeepsSession}
use browser_automation_byte.Adapters.Proxy.{
  SessionProxy, LeaseClient, Controller, State, Resolved, keep_proxy, prepare_profile, prepare,
  resolve, release, resolve_selection, proxy_controller, release_lease, state_of,
}

module _ {E : Type 0} (controller : Controller E) where
  keep_proxy-keeps :
      (v : Session) (profile : Profile) (r : Resolved) (s : State E)
      → let v' = (keep_proxy controller v profile r s).0.0 in v' ≡ record v { profile = v'.profile }
  unfolding keep_proxy
  keep_proxy-keeps v profile r s = elim (Option-cases r.error) [
    | inl e ↦ rw (e, keep_proxy) refl
    | inr (err, e) ↦ rw (e, keep_proxy) refl
  ]

  prepare_profile-keeps :
      (profile : Option Profile) (v : Session) (selection : Option ProxySelection) (s : State E)
      → let v' = (prepare_profile controller profile v selection s).0.0 in
        v' ≡ record v { profile = v'.profile }
  unfolding prepare_profile
  prepare_profile-keeps none v selection s = refl
  prepare_profile-keeps (some profile) v selection s =
      let (r, e) = resolve_selection controller v.session_id selection profile.proxy_ref s.client in
      keep_proxy-keeps v profile r (record s { client = e })

  -- To prepare a session's proxy changes nothing of the session but its profile.
  pub controller-KeepsSession : KeepsSession (some (proxy_controller controller))
  unfolding prepare
  controller-KeepsSession v selection s = elim (Bool-cases (str_eq v.session_id "")) [
    | inl e ↦ rw (e, prepare) refl
    | inr e ↦ rw (e, prepare) (prepare_profile-keeps v.profile v selection s)
  ]

  release_lease-sessions :
      (proxy : SessionProxy) (c : Option (LeaseClient E)) (s : State E)
      → (release_lease controller proxy c s).1.sessions ≡ s.sessions
  release_lease-sessions proxy none s = refl
  release_lease-sessions proxy (some c) s = ground arith

  -- After `ReleaseSessionProxy`, whether or not the lease could be given back, no proxy is kept for
  -- the session, and the proxy of every session with another id is what it was.
  pub release-resolve :
      (v u : Session) (s : State E)
      → resolve controller u (release controller v s).1
        ≡ (if str_eq v.session_id u.session_id then "" else resolve controller u s)
  unfolding release resolve
  release-resolve v u s =
      let left =
        release_lease-sessions (state_of controller (lookup v.session_id s.sessions))
          controller.proxy_runtime (record s { sessions = erase v.session_id s.sessions }) in
      ap (λ m. (state_of controller (lookup u.session_id m)).url) left
      ∙ (ground (arith, lookup-erase v.session_id u.session_id s.sessions))

  keep_proxy-other :
      (v u : Session) (profile : Profile) (r : Resolved) (s : State E)
      → v.session_id ≢ u.session_id
      → lookup u.session_id (keep_proxy controller v profile r s).1.sessions
        ≡ lookup u.session_id s.sessions
  unfolding keep_proxy
  keep_proxy-other v u profile r s n = ground (
    arith,
    eq_iff v.session_id u.session_id,
    lookup-insert v.session_id u.session_id r.proxy s.sessions,
  )

  prepare_profile-other :
      (profile : Option Profile) (v u : Session) (selection : Option ProxySelection) (s : State E)
      → v.session_id ≢ u.session_id
      → lookup u.session_id (prepare_profile controller profile v selection s).1.sessions
        ≡ lookup u.session_id s.sessions
  unfolding prepare_profile
  prepare_profile-other none v u selection s n = refl
  prepare_profile-other (some profile) v u selection s n =
      let (r, e) = resolve_selection controller v.session_id selection profile.proxy_ref s.client in
      keep_proxy-other v u profile r (record s { client = e }) n

  -- `PrepareSessionProxy` of one session leaves the proxy of every session with another id as it was.
  pub prepare-resolve :
      (v u : Session) (selection : Option ProxySelection) (s : State E)
      → v.session_id ≢ u.session_id
      → resolve controller u (prepare controller v selection s).1 ≡ resolve controller u s
  unfolding prepare resolve
  prepare-resolve v u selection s n = elim (Bool-cases (str_eq v.session_id "")) [
    | inl e ↦ rw (e, prepare) refl
    | inr e ↦
        rw (e, prepare)
          (ap (λ o. (state_of controller o).url)
            (prepare_profile-other v.profile v u selection s n))
  ]
