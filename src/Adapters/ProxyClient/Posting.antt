-- ===== src/Adapters/ProxyClient/Posting.antt =====
-- internal/adapters/proxyplugin/proxy_runtime_http.go: a request, and its repetition.
use browser_automation_byte.Prelude.{
  ℕ, zero, suc, ◌*◌, String, Bool, true, false, not, ◌||◌, Option, none, some, if◌then◌else◌, ltb,
  leb, ◌==◌,
}
use browser_automation_byte.Prelude.Decimal.{itoa}
use Prim.Native.String.{◌++◌ as str_append}
use browser_automation_byte.Core.Errors.{GoError, plain}
use browser_automation_byte.Core.Reply.{Reply, ok, fail, fail_with}
use browser_automation_byte.Adapters.ProxyClient.{
  Body, Sent, unsent, response, Decoded, decoded, at_end, malformed, Wake, canceled, elapsed,
  Transport, Formats, proxy_runtime_max_attempts, proxy_runtime_retry_delay,
  retry_proxy_runtime_status,
}

-- How one request ends: with an error, which may be worth another request, or with a value.
pub data Attempted (A : Type 0) : Type 0 where
  failed : Bool → GoError → Attempted A
  answered : A → Attempted A

module _ {E : Type 0} (transport : Transport E) where
  open transport use {ctx_err, wait}

  abbrev pub woken : Wake × E → Option GoError × E
  woken (canceled, e) = (ctx_err e, e)
  woken (elapsed, e) = (none, e)

  -- `waitProxyRuntimeRetry`
  unfoldable pub wait_proxy_runtime_retry : ℕ → E → Option GoError × E
  wait_proxy_runtime_retry attempt e = woken (wait (attempt * proxy_runtime_retry_delay) e)

module _ {E A : Type 0} (transport : Transport E) where
  open transport use {do_request, ctx_err}

  -- `json.Decoder.Decode` into a value that is `empty` at first; the end of the input is no error.
  abbrev decode_into : A → Decoded A → Attempted A
  decode_into empty (decoded value) = answered value
  decode_into empty at_end = answered empty
  decode_into empty (malformed err) = failed false err

  abbrev give_up_if_done : Option GoError → GoError → Attempted A
  give_up_if_done (some done) err = failed false done
  give_up_if_done none err = failed true err

  -- `postPayload`, once the request is sent
  unfoldable pub read_response : (String → Decoded A) → A → Sent × E → Attempted A × E
  unfolding retry_proxy_runtime_status
  read_response decode empty (unsent err, e) = (give_up_if_done (ctx_err e) err, e)
  read_response decode empty (response status body, e) =
      if ltb status 200 || leb 300 status
      then (
        failed (retry_proxy_runtime_status status)
            (plain (str_append "proxy-runtime request failed with status " (itoa status))),
        e,
      )
      else (decode_into empty (decode body), e)

  -- `postPayload`
  unfoldable pub post_payload :
      Formats → String → String → (String → Decoded A) → A → E → Attempted A × E
  unfolding read_response
  post_payload formats url payload decode empty e = elim (formats.new_request url) [
    | some err ↦ (failed false err, e)
    | none ↦ read_response decode empty (do_request url payload e)
  ]

  abbrev pub after_wait : Option GoError × E → (E → Reply A × E) → Reply A × E
  after_wait (none, e) next = next e
  after_wait (some err, e) next = (fail err, e)

  abbrev pub after_attempt : ℕ → Attempted A × E → (Option GoError → E → Reply A × E) → Reply A × E
  after_attempt attempt (answered value, e) next = (ok value, e)
  after_attempt attempt (failed retry err, e) next =
      if not retry || attempt == proxy_runtime_max_attempts
      then (fail err, e)
      else after_wait (wait_proxy_runtime_retry transport attempt e) (next (some err))

  -- `return lastErr` behind the loop of `post`
  abbrev behind_loop : A → Option GoError → Reply A
  behind_loop empty none = ok empty
  behind_loop empty (some err) = fail err

  -- The loop of `post`, with the request that it repeats, from an attempt's number on, when `left`
  -- more attempts may follow.
  unfoldable pub post_from :
      A → (E → Attempted A × E) → (left attempt : ℕ) → Option GoError → E → Reply A × E
  unfolding wait_proxy_runtime_retry
  post_from empty request zero attempt last_err e = (behind_loop empty last_err, e)
  post_from empty request (suc left) attempt last_err e =
      after_attempt attempt (request e) (post_from empty request left (suc attempt))

  abbrev pub with_payload : E → Reply String → (String → Reply A × E) → Reply A × E
  with_payload e (ok payload) next = next payload
  with_payload e (fail err) next = (fail err, e)
  with_payload e (fail_with payload err) next = (fail err, e)

  -- `post` with the url of the path
  unfoldable pub post : Formats → String → Body → (String → Decoded A) → A → E → Reply A × E
  unfolding post_from post_payload
  post formats url body decode empty e = with_payload e (formats.marshal body) (λ payload.
      post_from empty (post_payload formats url payload decode empty) proxy_runtime_max_attempts 1
        none e)
