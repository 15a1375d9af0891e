-- ===== src/Adapters/ProxyClient/Success.antt =====
-- internal/adapters/proxyplugin/proxy_runtime_http.go: the requests that succeed, as a relation.
use browser_automation_byte.Prelude.{
  ℕ, zero, suc, ◌+◌, String, Bool, true, false, ◌≡◌, ◌≢◌, ◌↔◌, ◌⊎◌, refl, sym, ap, ◌∙◌, inl, inr,
  Option, none, some, if◌then◌else◌, ◌==◌, arith,
}
use browser_automation_byte.Core.Errors.{GoError}
use browser_automation_byte.Core.Reply.{Reply, ok, fail}
use browser_automation_byte.Adapters.ProxyClient.{
  Body, Decoded, Transport, Formats, proxy_runtime_max_attempts,
}
use browser_automation_byte.Adapters.ProxyClient.Posting.{
  Attempted, failed, answered, wait_proxy_runtime_retry, post_payload, after_wait, after_attempt,
  post_from, post,
}

Attempted-cases :
    {E A : Type 0} (tried : Attempted A × E)
    → ((v : A) × (e : E) × (tried ≡ (answered v, e)))
      ⊎ ((retry : Bool) × (err : GoError) × (e : E) × (tried ≡ (failed retry err, e)))
Attempted-cases (answered v, e) = inl (v, e, refl)
Attempted-cases (failed retry err, e) = inr (retry, err, e, refl)

Waited-cases :
    {E : Type 0} (waited : Option GoError × E)
    → ((e : E) × (waited ≡ (none, e))) ⊎ ((err : GoError) × (e : E) × (waited ≡ (some err, e)))
Waited-cases (none, e) = inl (e, refl)
Waited-cases (some err, e) = inr (err, e, refl)

-- From the attempt of a number on, a request receives a value: at once, or after an attempt that failed
-- in a way that is worth a repetition, was not the last one, and was followed by a wait that the
-- context did not end.
pub data Receives {E A : Type 0} (transport : Transport E) (request : E → Attempted A × E)
    : ℕ → E → A → Type 0 where
  at_once :
      {n : ℕ} {e after : E} {v : A}
      → request e ≡ (answered v, after)
      → Receives transport request n e v
  later :
      {n : ℕ} {e after again : E} {v : A} {err : GoError}
      → request e ≡ (failed true err, after)
      → n ≢ proxy_runtime_max_attempts
      → wait_proxy_runtime_retry transport n after ≡ (none, again)
      → Receives transport request (suc n) again v
      → Receives transport request n e v

module _ {E A : Type 0} (transport : Transport E) (empty : A) (request : E → Attempted A × E) where
  -- The loop of `post` from an attempt of a number that is not above the limit
  abbrev from : ℕ → ℕ → Option GoError → E → Reply A × E
  from = post_from transport empty request

  abbrev next : ℕ → ℕ → Option GoError → E → Reply A × E
  next left attempt = from left (suc attempt)

  after_attempt-Receives :
      (left attempt : ℕ) (retry : Bool) (err : GoError) (e after : E) (v : A)
      → suc left + attempt ≡ 4
      → request e ≡ (failed retry err, after)
      → ((again : E)
          → (next left attempt (some err) again).0 ≡ ok v
          → (left ≢ 0)
          → Receives transport request (suc attempt) again v)
      → (after_attempt transport attempt (failed retry err, after) (next left attempt)).0 ≡ ok v
      → Receives transport request attempt e v
  after_attempt-Receives left attempt false err e after v n r more h = cc
  after_attempt-Receives left attempt true err e after v n r more h =
      let not_last : attempt ≢ 3 = λ l. absurd (ground arith) in
      let test : (attempt == 3) ≡ false = ground arith in
      let waited_for : (after_wait transport (wait_proxy_runtime_retry transport attempt after)
            (next left attempt (some err))).0
          ≡ ok v =
        ap
          (λ b.
            (if b
              then (fail err, after)
              else after_wait transport (wait_proxy_runtime_retry transport attempt after)
                  (next left attempt (some err))).0)
          (sym test)
        ∙ h in
      elim (Waited-cases (wait_proxy_runtime_retry transport attempt after)) [
        | inl (again, w) ↦ later r not_last w (
            more again
              (ap (λ x. (after_wait transport x (next left attempt (some err))).0) (sym w)
                ∙ waited_for)
              (omega arith))
        | inr (stop, again, w) ↦
            let k : fail stop ≡ ok v =
              ap (λ x. (after_wait transport x (next left attempt (some err))).0) (sym w)
              ∙ waited_for in
            absurd cc
      ]

  post_from-step :
      (left attempt : ℕ) (last : Option GoError) (e : E) (v : A)
      → suc left + attempt ≡ 4
      → ((err : GoError) (again : E)
          → (next left attempt (some err) again).0 ≡ ok v
          → (left ≢ 0)
          → Receives transport request (suc attempt) again v)
      → (from (suc left) attempt last e).0 ≡ ok v
      → Receives transport request attempt e v
  unfolding post_from
  post_from-step left attempt last e v n more h = elim (Attempted-cases (request e)) [
    | inl (w, after, r) ↦
        let k : ok w ≡ ok v =
          ap (λ x. (after_attempt transport attempt x (next left attempt)).0) (sym r) ∙ h in
        let same : w ≡ v = cc in at_once {after = after} (rw (← same) r)
    | inr (retry, err, after, r) ↦
        after_attempt-Receives left attempt retry err e after v n r (more err)
          (ap (λ x. (after_attempt transport attempt x (next left attempt)).0) (sym r) ∙ h)
  ]

  post_from-Receives :
      (left attempt : ℕ) (last : Option GoError) (e : E) (v : A)
      → suc left + attempt ≡ 4
      → (from (suc left) attempt last e).0 ≡ ok v
      → Receives transport request attempt e v
  post_from-Receives zero attempt last e v n h =
      post_from-step zero attempt last e v n (λ err again k l. absurd (l refl)) h
  post_from-Receives (suc left) attempt last e v n h =
      post_from-step (suc left) attempt last e v n
        (λ err again k l. post_from-Receives left (suc attempt) (some err) again v (omega arith) k)
        h

  Receives-post_from :
      (left attempt : ℕ) (last : Option GoError) (e : E) (v : A)
      → suc left + attempt ≡ 4
      → Receives transport request attempt e v
      → (from (suc left) attempt last e).0 ≡ ok v
  unfolding post_from
  Receives-post_from left attempt last e v n (at_once r) = rw (r, post_from) refl
  Receives-post_from zero attempt last e v n (later r l w more) = absurd (l (omega arith))
  Receives-post_from (suc left) attempt last e v n (later {again = again} {err = err} r l w more) =
      let test : (attempt == 3) ≡ false = ground arith in
      rw (r, post_from)
        (rw (test)
          (rw (w) (Receives-post_from left (suc attempt) (some err) again v (omega arith) more)))

module _ {E A : Type 0} (transport : Transport E) where
  -- `post` of a body that can be encoded gives a value exactly if one of at most three requests
  -- receives it, and each one before failed in a way that is worth a repetition and was followed by a
  -- wait that the context did not end.
  pub post_iff :
      (formats : Formats) (url payload : String) (body : Body) (decode : String → Decoded A)
      (empty : A) (e : E) (v : A)
      → formats.marshal body ≡ ok payload
      → ((post transport formats url body decode empty e).0 ≡ ok v)
        ↔ Receives transport (post_payload transport formats url payload decode empty) 1 e v
  unfolding post
  post_iff formats url payload body decode empty e v m =
      let request = post_payload transport formats url payload decode empty in
      rw (m, post)
        (
          post_from-Receives transport empty request 2 1 none e v refl,
          Receives-post_from transport empty request 2 1 none e v refl,
        )
