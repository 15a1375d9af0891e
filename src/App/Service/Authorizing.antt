-- ===== src/App/Service/Authorizing.antt =====
-- internal/app/live_view_service.go: whom a live view token lets in.
use mathlib.Core.Path.{subst}
use Prim.Native.Char.{code}
use Prim.Native.String.{◌++◌ as str_append}
use text.Mathlib.TextLemmas.{nil-append, cons-append}
use text.Mathlib.TextEquality.{Char-path}
use browser_automation_byte.Prelude.{
  String, true, false, ◌≡◌, ◌≤◌, ◌==◌, refl, sym, inl, inr, Bool-cases, Option-cases, ap, ◌∙◌,
  Option, none, some, arith, trim_space,
}
use browser_automation_byte.Core.Errors.{GoError}
use browser_automation_byte.Core.Reply.{ok}
use browser_automation_byte.Core.Messages.{Session, SessionStatus}
use browser_automation_byte.Core.Times.{Time}
use browser_automation_byte.Core.Status.{is_running}
use browser_automation_byte.Core.Ports.{Store, StoreLaws, Environment}
use browser_automation_byte.App.Service.World.{World}
use browser_automation_byte.App.Service.Ends.{Ends, Ends-ok, resume-Ends, check-Ends}
use browser_automation_byte.App.Service.Reading.{get_browser_session-IsCurrent}
use browser_automation_byte.App.Service.Lifetime.{get_browser_session}
use browser_automation_byte.App.Service.LiveView.{
  LiveView, Codec, LiveRuntime, Provider, cut, verified, verify_parts, verify_live_view, is_expired,
  is_supported, expired_error, running_error, support_error, authorize_browser_live_view,
}

-- The parts of a text that is cut, with a dot between them, are the text.
cut-parts :
    (s before after : String)
    → cut s ≡ some (before, after)
    → s ≡ str_append before (str_append "." after)
unfolding cut
cut-parts String.[] before after h = cc
cut-parts (String.◌∷◌ c s) before after h = elim (Bool-cases (code c == 0x2E)) [
  | inl e ↦
      let empty : "" ≡ before = ground arith in
      let rest : s ≡ after = ground arith in
      let dot : c ≡ "." = Char-path c "." (ground arith) in
      let joined : str_append "" (str_append "." after) ≡ String.◌∷◌ "." after =
        nil-append (str_append "." after)
        ∙ (cons-append "." "" after ∙ ap (String.◌∷◌ ".") (nil-append after)) in
      rw (← empty) (ap (λ d. String.◌∷◌ d s) dot ∙ (ap (String.◌∷◌ ".") rest ∙ sym joined))
  | inr e ↦ elim (Option-cases (cut s)) [
    | inl f ↦ absurd (ground arith)
    | inr ((first, rest), f) ↦
        let in_front : String.◌∷◌ c first ≡ before = ground arith in
        let behind : rest ≡ after = ground arith in
        rw (← in_front) (
          ap (String.◌∷◌ c) (cut-parts s first after (f ∙ ap (λ t. some (first, t)) behind))
          ∙ sym (cons-append c first (str_append "." after)))
  ]
]

module _ {B : Type 0} (codec : Codec B) where
  -- A view and its token: the token is a payload and a signature with a dot between them, the signature is
  -- that of the payload under the service's key, and the payload's bytes are those of the view.
  pub record IsSigned (token : String) (view : LiveView) : Type 0 where
    pub payload_part : String
    pub signature_part : String
    pub parts : trim_space token ≡ str_append payload_part (str_append "." signature_part)
    pub payload : B
    pub given : B
    pub decoded_payload : codec.decode payload_part ≡ some payload
    pub decoded_signature : codec.decode signature_part ≡ some given
    pub matches : codec.equal given (codec.signature payload) ≡ true
    pub unmarshaled : codec.unmarshal payload ≡ some view

  -- What `verifyLiveView` finds out of the decoded parts
  record IsVerified (payload_bytes given_bytes : Option B) (view : LiveView) : Type 0 where
    pub payload : B
    pub given : B
    pub decoded_payload : payload_bytes ≡ some payload
    pub decoded_signature : given_bytes ≡ some given
    pub matches : codec.equal given (codec.signature payload) ≡ true
    pub unmarshaled : codec.unmarshal payload ≡ some view

  verified-IsVerified :
      (payload given : Option B) (view : LiveView)
      → verified codec payload given ≡ ok view
      → IsVerified payload given view
  verified-IsVerified none given view h = cc
  verified-IsVerified (some payload) none view h = cc
  verified-IsVerified (some payload) (some given) view h = record {
    payload = payload;
    given = given;
    decoded_payload = refl;
    decoded_signature = refl;
    matches = ground arith;
    unmarshaled = ground arith;
  }

  verify_parts-IsSigned :
      (token : String) (parts : Option (String × String)) (view : LiveView)
      → cut (trim_space token) ≡ parts
      → verify_parts codec parts ≡ ok view
      → IsSigned token view
  verify_parts-IsSigned token none view e h = cc
  verify_parts-IsSigned token (some (payload_part, signature_part)) view e h =
      let v =
        verified-IsVerified (codec.decode payload_part) (codec.decode signature_part) view
          (ground arith) in
      record {
        payload_part = payload_part;
        signature_part = signature_part;
        parts = cut-parts (trim_space token) payload_part signature_part e;
        payload = v.payload;
        given = v.given;
        decoded_payload = v.decoded_payload;
        decoded_signature = v.decoded_signature;
        matches = v.matches;
        unmarshaled = v.unmarshaled;
      }

  -- A token is taken only if its signature is that of its payload, and the view is the payload's.
  pub verify_live_view-IsSigned :
      (token : String) (view : LiveView)
      → verify_live_view codec token ≡ ok view
      → IsSigned token view
  unfolding verify_live_view
  verify_live_view-IsSigned token view h =
      verify_parts-IsSigned token (cut (trim_space token)) view refl h

not_expired :
    (now : Time) (expires_at : Option Time)
    → is_expired now expires_at ≡ false
    → (expiry : Time) × (expires_at ≡ some expiry) × (now ≤ expiry)
not_expired now none h = cc
not_expired now (some expiry) h = (expiry, refl, ground arith)

is_running-running : (s : SessionStatus) → is_running s ≡ true → s ≡ SessionStatus.running
is_running-running SessionStatus.running h = refl
is_running-running _ h = cc

module _ {S E B : Type 0} {store : Store S} {IsValid : S → Type 0} (laws : StoreLaws store IsValid)
    (environment : Environment E) (codec : Codec B) (live : Option LiveRuntime)
    (default_provider : Option Provider) where
  -- What is known of a view that was authorized by a token: the token is the view's, signed under the
  -- service's key, the view has an expiry that the time that was read is not after, its session is stored
  -- as RUNNING, and the runtime supports its provider.
  pub record IsAuthorized (token : String) (before : World S E) (view : LiveView) (w : World S E)
      : Type 0 where
    pub signed : IsSigned codec token view
    pub expiry : Time
    pub expires : view.expires_at ≡ some expiry
    pub in_time : (environment.now before.env).0 ≤ expiry
    pub session : Session
    pub stored : store.get_session view.session_id w.stored ≡ ok session
    pub running : session.status ≡ SessionStatus.running
    pub supported : is_supported live view.provider ≡ true

  abbrev Never : LiveView → GoError → World S E → Type 0
  Never v e w = ⊥

  authorize-Ends :
      (token : String) (w : World S E)
      → IsValid w.stored
      → Ends
          (IsAuthorized token w)
          Never
          (authorize_browser_live_view store environment codec live default_provider token w)
  unfolding authorize_browser_live_view
  authorize-Ends token w valid =
      resume-Ends (IsAuthorized token w) Never (verify_live_view codec token, w) _
        (λ view w1 e1.
          let w2 : World S E = record w1 { env = (environment.now w1.env).1 } in
          let late =
            expired_error store environment codec live default_provider (environment.now w1.env).0
              view in
          check-Ends (IsAuthorized token w) Never (late, w2) _
            (λ w3 e3.
              resume-Ends (IsAuthorized token w) Never
                (get_browser_session store environment view.session_id w3) _
                (λ session w4 e4.
                  let stopped =
                    running_error store environment codec live default_provider session in
                  check-Ends (IsAuthorized token w) Never (stopped, w4) _
                    (λ w5 e5.
                      let lacking =
                        support_error store environment codec live default_provider view.provider in
                      check-Ends (IsAuthorized token w) Never (lacking, w5) _
                        (λ w6 e6.
                          let same : w ≡ w1 = ap (λ r. r.1) e1 in
                          let valid3 =
                            subst (λ x. IsValid x.stored) (ap (λ r. r.1) e3)
                              (subst (λ x. IsValid x.stored) same valid) in
                          let current =
                            get_browser_session-IsCurrent laws environment view.session_id w3 w4
                              session valid3 e4 in
                          let signed : verify_live_view codec token ≡ ok view = ap (λ r. r.0) e1 in
                          let in_time : is_expired (environment.now w1.env).0 view.expires_at
                              ≡ false =
                            ground (arith, ap (λ r. r.0) e3) in
                          let running : is_running session.status ≡ true =
                            ground (arith, ap (λ r. r.0) e5) in
                          let supported : is_supported live view.provider ≡ true =
                            ground (arith, ap (λ r. r.0) e6) in
                          let (expiry, expires, early) =
                            not_expired (environment.now w1.env).0 view.expires_at in_time in
                          record {
                            signed = verify_live_view-IsSigned codec token view signed;
                            expiry = expiry;
                            expires = expires;
                            in_time = rw same early;
                            session = session;
                            stored = rw (← (ap (λ r. r.1) e5 ∙ ap (λ r. r.1) e6)) current.stored;
                            running = is_running-running session.status running;
                            supported = supported;
                          })))))

  -- A view that `AuthorizeBrowserLiveView` returns without an error, on a store that is valid, is the one
  -- whose bytes the token carries with their signature under the service's key; it has an expiry that the
  -- time that was read is not after, belongs to a session that is stored as RUNNING, and has a provider that
  -- the runtime supports.
  pub authorize-IsAuthorized :
      (token : String) (w w' : World S E) (view : LiveView)
      → IsValid w.stored
      → authorize_browser_live_view store environment codec live default_provider token w
        ≡ (ok view, w')
      → IsAuthorized token w view w'
  authorize-IsAuthorized token w w' view valid e =
      Ends-ok (IsAuthorized token w) Never (authorize-Ends token w valid) e
