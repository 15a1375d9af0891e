-- ===== src/Adapters/ProxyClient/Attempts.antt =====
-- internal/adapters/proxyplugin/proxy_runtime_http.go: how many requests are made, and when they
-- succeed.
use browser_automation_byte.Prelude.{
  ℕ, zero, suc, ◌+◌, ◌*◌, ◌≤◌, String, not, ◌||◌, ◌≡◌, refl, inl, inr, Option, none, some, ◌==◌,
  arith, Bool-cases, Option-cases,
}
use browser_automation_byte.Core.Errors.{GoError}
use browser_automation_byte.Core.Reply.{Reply, ok, fail, fail_with}
use browser_automation_byte.Adapters.ProxyClient.{
  Body, Sent, Decoded, Wake, canceled, elapsed, Transport, Formats, proxy_runtime_max_attempts,
  proxy_runtime_retry_delay,
}
use browser_automation_byte.Adapters.ProxyClient.Posting.{
  woken, Attempted, failed, answered, wait_proxy_runtime_retry, read_response, post_payload,
  after_wait, after_attempt, post_from, with_payload, post,
}

module _ {E : Type 0} (transport : Transport E) (calls : E → ℕ) where
  open transport use {wait}

  woken-state : (waking : Wake × E) → (woken transport waking).1 ≡ waking.1
  woken-state (canceled, e) = refl
  woken-state (elapsed, e) = refl

  wait-calls :
      ((n : ℕ) (e : E) → calls (wait n e).1 ≤ calls e)
      → (attempt : ℕ) (e : E) → calls (wait_proxy_runtime_retry transport attempt e).1 ≤ calls e
  unfolding wait_proxy_runtime_retry
  wait-calls w attempt e =
      rw (woken-state (wait (attempt * proxy_runtime_retry_delay) e))
        (w (attempt * proxy_runtime_retry_delay) e)

module _ {E A : Type 0} (transport : Transport E) (calls : E → ℕ) where
  open transport use {do_request, wait}

  read_response-state :
      (decode : String → Decoded A) (empty : A) (sent : Sent × E)
      → (read_response transport decode empty sent).1 ≡ sent.1
  unfolding read_response
  read_response-state decode empty (Sent.unsent err, e) = refl
  read_response-state decode empty (Sent.response status body, e) = ground arith

  post_payload-calls :
      (formats : Formats) (url payload : String) (decode : String → Decoded A) (empty : A) (e : E)
      → calls (do_request url payload e).1 ≤ suc (calls e)
      → calls (post_payload transport formats url payload decode empty e).1 ≤ suc (calls e)
  unfolding post_payload
  post_payload-calls formats url payload decode empty e h =
      elim (Option-cases (formats.new_request url)) [
        | inl f ↦
            rw (f, post_payload)
              (rw (read_response-state decode empty (do_request url payload e)) h)
        | inr (err, f) ↦ rw (f, post_payload) (omega arith)
      ]

  after_wait-calls :
      (waited : Option GoError × E) (next : E → Reply A × E) (n : ℕ)
      → ((e : E) → calls (next e).1 ≤ calls e + n)
      → calls (after_wait transport waited next).1 ≤ calls waited.1 + n
  after_wait-calls (none, e) next n h = h e
  after_wait-calls (some err, e) next n h = omega arith

  after_attempt-calls :
      ((n : ℕ) (e : E) → calls (wait n e).1 ≤ calls e)
      → (attempt : ℕ) (tried : Attempted A × E) (next : Option GoError → E → Reply A × E) (n : ℕ)
      → ((err : Option GoError) (e : E) → calls (next err e).1 ≤ calls e + n)
      → calls (after_attempt transport attempt tried next).1 ≤ calls tried.1 + n
  after_attempt-calls w attempt (answered value, e) next n h = omega arith
  after_attempt-calls w attempt (failed retry err, e) next n h =
      elim (Bool-cases (not retry || attempt == proxy_runtime_max_attempts)) [
        | inl f ↦ rw (f) (omega arith)
        | inr f ↦ rw (f) (
            omega (
              arith,
              wait-calls transport calls w attempt e,
              after_wait-calls (wait_proxy_runtime_retry transport attempt e) (next (some err)) n
                  (h (some err)),
            ))
      ]

  post_from-calls :
      ((n : ℕ) (e : E) → calls (wait n e).1 ≤ calls e)
      → (empty : A) (request : E → Attempted A × E)
      → ((e : E) → calls (request e).1 ≤ suc (calls e))
      → (left attempt : ℕ) (last : Option GoError) (e : E)
      → calls (post_from transport empty request left attempt last e).1 ≤ calls e + left
  unfolding post_from
  post_from-calls w empty request r zero attempt last e = omega arith
  post_from-calls w empty request r (suc left) attempt last e = omega (
    arith,
    r e,
    after_attempt-calls w attempt (request e) (post_from transport empty request left (suc attempt))
        left (post_from-calls w empty request r left (suc attempt)),
  )

  with_payload-calls :
      (e : E) (payload : Reply String) (next : String → Reply A × E) (n : ℕ)
      → ((s : String) → calls (next s).1 ≤ calls e + n)
      → calls (with_payload transport e payload next).1 ≤ calls e + n
  with_payload-calls e (ok payload) next n h = h payload
  with_payload-calls e (fail err) next n h = omega arith
  with_payload-calls e (fail_with payload err) next n h = omega arith

  -- If sending counts as one request and waiting as none, `post` ends after three requests at most.
  pub post-calls :
      ((n : ℕ) (e : E) → calls (wait n e).1 ≤ calls e)
      → ((url payload : String) (e : E) → calls (do_request url payload e).1 ≤ suc (calls e))
      → (formats : Formats) (url : String) (body : Body) (decode : String → Decoded A) (empty : A)
        (e : E)
      → calls (post transport formats url body decode empty e).1 ≤ calls e + 3
  unfolding post
  post-calls w d formats url body decode empty e =
      with_payload-calls e (formats.marshal body) _ 3 (λ payload.
        post_from-calls w empty (post_payload transport formats url payload decode empty)
          (λ e. post_payload-calls formats url payload decode empty e (d url payload e)) 3 1 none e)
