-- ===== src/Adapters/Camoufox.antt =====
-- internal/adapters/runtime/camoufox/runtime_core.go: the browsers that the runtime keeps. A method
-- holds the lock for a part of its time only: `StartSession` looks at the map, starts a browser
-- without the lock, and looks at the map again before it keeps the browser. Each part under the lock
-- is one step here, and what other calls do in between is a sequence of such steps. A kept browser,
-- with its server and its worker, is a value of a type `H`.
pub mod TailBuffer
pub mod SafeId
pub mod Config
use browser_automation_byte.Prelude.{
  ℕ, ◌≤◌, String, Bool, true, false, not, ◌≡◌, refl, ◌∙◌, Option, none, some, List, [], ◌∷◌, Map,
  lookup, insert, erase, length, lookup-insert, lookup-erase, length-insert, length-erase-le, leb,
  str_eq, eq_iff, if◌then◌else◌, arith,
}
use browser_automation_byte.Core.Errors.{GoError, new_error}
use browser_automation_byte.Core.Errors.Code
use browser_automation_byte.Core.Messages.{Session, BrowserKind, profile_browser_kind}

-- `Runtime`: `MaxSessions` of its configuration, and the map of the sessions' browsers.
pub record CamoufoxRuntime (H : Type 0) : Type 0 where
  pub max_sessions : ℕ
  pub sessions : Map H

abbrev is_firefox : BrowserKind → Bool
is_firefox BrowserKind.firefox = true
is_firefox _ = false

abbrev exhausted : GoError
exhausted = new_error Code.capacity_unavailable "browser session capacity is exhausted" true

abbrev wrong_kind : GoError
wrong_kind =
    new_error Code.unsupported_operation "camoufox runtime supports firefox browser kind" false

-- How the first part of `StartSession` ends: it returns an error or nil, or it starts a browser.
pub data Admission : Type 0 where
  returned : Option GoError → Admission
  launching : Admission

-- How the last part ends: the new browser is kept, or it is stopped again and the method returns.
pub data Commitment : Type 0 where
  kept : Commitment
  discarded : Option GoError → Commitment

abbrev is_present {ℓ} : {A : Type ℓ} → Option A → Bool
is_present none = false
is_present (some a) = true

module _ {H : Type 0} where
  -- `ActiveSessionCount`
  unfoldable pub active_session_count : CamoufoxRuntime H → ℕ
  active_session_count r = length r.sessions

  -- `StartSession` on a session that is not nil, up to the end of the first part under the lock
  unfoldable pub admit : Session → CamoufoxRuntime H → Admission
  admit session r =
      if not (is_firefox (profile_browser_kind session.profile))
      then returned (some wrong_kind)
      else if is_present (lookup session.session_id r.sessions)
      then returned none
      else if leb r.max_sessions (length r.sessions)
      then returned (some exhausted)
      else launching

  -- The last part of `StartSession`, under the lock, with the browser that was started
  unfoldable pub commit : Session → H → CamoufoxRuntime H → Commitment × CamoufoxRuntime H
  commit session browser r =
      if is_present (lookup session.session_id r.sessions)
      then (discarded none, r)
      else if leb r.max_sessions (length r.sessions)
      then (discarded (some exhausted), r)
      else (kept, record r { sessions = insert session.session_id browser r.sessions })

  -- The part of `StopSession` under the lock: the browser that is to be stopped, if there is one
  unfoldable pub take_session : Session → CamoufoxRuntime H → Option H × CamoufoxRuntime H
  take_session session r = (
    lookup session.session_id r.sessions,
    record r { sessions = erase session.session_id r.sessions },
  )

  -- The part of `Shutdown` under the lock
  unfoldable pub take_all : CamoufoxRuntime H → Map H × CamoufoxRuntime H
  take_all r = (r.sessions, record r { sessions = [] })

-- A part of some call that runs under the lock.
pub data Move (H : Type 0) : Type 0 where
  commits : Session → H → Move H
  stops : Session → Move H
  shuts_down : Move H

module _ {H : Type 0} where
  unfoldable pub move : Move H → CamoufoxRuntime H → CamoufoxRuntime H
  unfolding commit take_session take_all
  move (commits session browser) r = (commit session browser r).1
  move (stops session) r = (take_session session r).1
  move shuts_down r = (take_all r).1

  -- Some parts, one after the other, of any calls that run at the same time.
  unfoldable pub run : List (Move H) → CamoufoxRuntime H → CamoufoxRuntime H
  unfolding move
  run [] r = r
  run (m ∷ ms) r = run ms (move m r)

  -- The map is not above the limit.
  IsBounded : CamoufoxRuntime H → Type 0
  IsBounded r = length r.sessions ≤ r.max_sessions

  move-IsBounded : (m : Move H) (r : CamoufoxRuntime H) → IsBounded r → IsBounded (move m r)
  unfolding move IsBounded
  move-IsBounded (commits session browser) r h =
      ground (arith, length-insert session.session_id browser r.sessions)
  move-IsBounded (stops session) r h = omega (arith, length-erase-le session.session_id r.sessions)
  move-IsBounded shuts_down r h = omega arith

  run-IsBounded : (ms : List (Move H)) (r : CamoufoxRuntime H) → IsBounded r → IsBounded (run ms r)
  unfolding run
  run-IsBounded [] r h = h
  run-IsBounded (m ∷ ms) r h = run-IsBounded ms (move m r) (move-IsBounded m r h)

  move-max : (m : Move H) (r : CamoufoxRuntime H) → (move m r).max_sessions ≡ r.max_sessions
  unfolding move
  move-max (commits session browser) r = ground arith
  move-max (stops session) r = refl
  move-max shuts_down r = refl

  run-max : (ms : List (Move H)) (r : CamoufoxRuntime H) → (run ms r).max_sessions ≡ r.max_sessions
  unfolding run
  run-max [] r = refl
  run-max (m ∷ ms) r = run-max ms (move m r) ∙ move-max m r

  -- However starts, stops and shutdowns interleave, the runtime never keeps more browsers than its
  -- limit, if it did not at first, and the limit does not change.
  pub run-active_session_count :
      (ms : List (Move H)) (r : CamoufoxRuntime H)
      → active_session_count r ≤ r.max_sessions
      → active_session_count (run ms r) ≤ r.max_sessions
  unfolding active_session_count IsBounded
  run-active_session_count ms r h = omega (arith, run-IsBounded ms r h, run-max ms r)

  -- A start never replaces a browser that is kept, for its own session or for another.
  pub commit-keeps :
      (session : Session) (browser other : H) (id : String) (r : CamoufoxRuntime H)
      → lookup id r.sessions ≡ some other
      → lookup id (commit session browser r).1.sessions ≡ some other
  unfolding commit
  commit-keeps session browser other id r h = ground (
    arith,
    eq_iff session.session_id id,
    lookup-insert session.session_id id browser r.sessions,
    h,
  )

  -- A stop takes the browser of its session, if one is kept, and leaves every other.
  pub take_session-lookup :
      (session : Session) (id : String) (r : CamoufoxRuntime H)
      → ((take_session session r).0 ≡ lookup session.session_id r.sessions)
        × (lookup id (take_session session r).1.sessions
            ≡ (if str_eq session.session_id id then none else lookup id r.sessions))
  unfolding take_session
  take_session-lookup session id r = (refl, lookup-erase session.session_id id r.sessions)
