-- ===== src/App/Service/LiveView.antt =====
-- internal/app/live_view_service.go: live views of a session, and the signed tokens that stand for
-- them. The encoding of messages, base64 and the keyed hash are parameters, `Codec`; the runtime's
-- live view interface is an `Option`.
use browser_automation_byte.Prelude.{
  ℕ, ◌*◌, ◌==◌, String, Bool, true, false, not, ◌||◌, Option, none, some, str_eq, if◌then◌else◌,
  trim_space,
}
use browser_automation_byte.Prelude.Int.{ℤ, pos, is_negative, is_positive}
use Prim.Native.Char.{code}
use Prim.Native.String.{◌++◌ as str_append}
use browser_automation_byte.Core.Errors.{GoError, new_error}
use browser_automation_byte.Core.Errors.Code
use browser_automation_byte.Core.Reply.{Reply, ok, fail}
use browser_automation_byte.Core.Times.{Time, Duration, minute, timestamp, duration, is_after}
use browser_automation_byte.Core.Times
use browser_automation_byte.Core.Messages.{Session}
use browser_automation_byte.Core.Status.{is_running}
use browser_automation_byte.Core.Ports.{Store, Environment}
use browser_automation_byte.App.Service.World.{Act, ◌>>=◌, ◌>>◌, require, return, call_env, succeed}
use browser_automation_byte.App.Service.Sessions.{clock_now, not_running}
use browser_automation_byte.App.Service.Lifetime.{get_browser_session}

-- `BrowserLiveViewProvider`, by its number: UNSPECIFIED is 0 and CDP is 1.
abbrev pub Provider : Type 0
Provider = ℕ

abbrev cdp : Provider
cdp = 1

pub record LiveView : Type 0 where
  pub live_view_id : String
  pub session_id : String
  pub provider : Provider
  pub url : String
  pub websocket_url : String
  pub webrtc_url : String
  pub control_enabled : Bool
  pub max_width : ℤ
  pub max_height : ℤ
  pub created_at : Option Time
  pub expires_at : Option Time

-- `CreateBrowserLiveViewRequest`
pub record LiveViewRequest : Type 0 where
  pub session_id : String
  pub provider : Provider
  pub ttl : Option Duration
  pub control_enabled : Bool
  pub max_width : ℤ
  pub max_height : ℤ

-- What turns a view into the parts of a token and back: `proto.Marshal` and `Unmarshal`,
-- `base64.RawURLEncoding`, and the HMAC of a payload under the service's key.
pub record Codec (B : Type 0) : Type 0 where
  pub marshal : LiveView → Reply B
  pub unmarshal : B → Option LiveView
  pub encode : B → String
  pub decode : String → Option B
  pub signature : B → B
  pub equal : B → B → Bool

-- What the service asks of the runtime's live views: `SupportsLiveViewProvider`.
pub record LiveRuntime : Type 0 where
  pub supports : Provider → Bool

-- `strings.Cut(token, ".")`, when there is a dot
unfoldable pub cut : String → Option (String × String)
cut String.[] = none
cut (String.◌∷◌ c s) = let rest = cut s in if code c == 0x2E then some ("", s) else behind rest
  where
    behind : Option (String × String) → Option (String × String)
    behind none = none
    behind (some (before, after)) = some (String.◌∷◌ c before, after)

abbrev invalid_token : GoError
invalid_token = new_error Code.validation_failed "browser live view token is invalid" false

abbrev unsupported : GoError
unsupported =
    new_error Code.unsupported_operation
      "browser live view provider is not supported by active runtime" false

-- `normalizedDimension`
unfoldable pub normalized_dimension : ℤ → ℤ → ℤ
normalized_dimension value fallback = if not (is_positive value) then fallback else value

-- `defaultLiveViewProvider`, given what the runtime says if it says anything
unfoldable pub default_live_view_provider : Option Provider → Provider
default_live_view_provider none = cdp
default_live_view_provider (some provider) = if not (provider == 0) then provider else cdp

-- `!ok || !liveRuntime.SupportsLiveViewProvider(provider)`, negated
abbrev pub is_supported : Option LiveRuntime → Provider → Bool
is_supported none provider = false
is_supported (some live) provider = live.supports provider

module _ {B : Type 0} (codec : Codec B) where
  open codec use {marshal, unmarshal, encode, decode, signature, equal}

  abbrev signed : Reply B → Reply String
  signed (ok payload) =
      ok (str_append (encode payload) (str_append "." (encode (signature payload))))
  signed (fail err) = fail err
  signed (Reply.fail_with payload err) = fail err

  -- `signLiveView`
  unfoldable pub sign_live_view : LiveView → Reply String
  sign_live_view view = signed (marshal view)

  abbrev view_or : Option LiveView → Reply LiveView
  view_or none = fail invalid_token
  view_or (some view) = ok view

  abbrev pub verified : Option B → Option B → Reply LiveView
  verified none signature_part = fail invalid_token
  verified (some payload) none = fail invalid_token
  verified (some payload) (some given) =
      if not (equal given (signature payload))
      then fail invalid_token
      else view_or (unmarshal payload)

  abbrev pub verify_parts : Option (String × String) → Reply LiveView
  verify_parts none = fail invalid_token
  verify_parts (some (payload_part, signature_part)) =
      if str_eq payload_part "" || str_eq signature_part ""
      then fail invalid_token
      else verified (decode payload_part) (decode signature_part)

  -- `verifyLiveView`
  unfoldable pub verify_live_view : String → Reply LiveView
  unfolding cut
  verify_live_view token = verify_parts (cut (trim_space token))

-- Whether a view can still be used.
abbrev pub is_expired : Time → Option Time → Bool
is_expired now none = true
is_expired now (some expires) = is_after now expires

module _ {S E B : Type 0} (store : Store S) (environment : Environment E) (codec : Codec B)
    (live : Option LiveRuntime) (default_provider : Option Provider) where
  open environment use {new_id}

  abbrev pub expired_error : Time → LiveView → Option GoError
  expired_error now view =
      if is_expired now view.expires_at
      then some (new_error Code.validation_failed "browser live view expired" false)
      else none

  abbrev pub running_error : Session → Option GoError
  running_error session = if not (is_running session.status) then some not_running else none

  abbrev pub support_error : Provider → Option GoError
  support_error provider = if not (is_supported live provider) then some unsupported else none

  -- `AuthorizeBrowserLiveView`
  unfoldable pub authorize_browser_live_view : String → Act S E LiveView
  unfolding verify_live_view
  authorize_browser_live_view token = do
    view ← (λ w. (verify_live_view codec token, w))
    now ← clock_now store environment
    require (expired_error now view)
    session ← get_browser_session store environment view.session_id
    require (running_error session)
    require (support_error view.provider)
    return view

  abbrev pub blank_error : String → Option GoError
  blank_error id =
      if str_eq (trim_space id) ""
      then some (new_error Code.validation_failed "session_id is required" false)
      else none

  abbrev pub negative_error : Duration → Option GoError
  negative_error ttl =
      if is_negative ttl
      then some (new_error Code.validation_failed "ttl cannot be negative" false)
      else none

  abbrev pub chosen : Provider → Provider
  chosen provider = if provider == 0 then default_live_view_provider default_provider else provider

  -- `CreateBrowserLiveView` on a request that is not nil
  unfoldable pub create_browser_live_view : LiveViewRequest → Act S E LiveView
  unfolding sign_live_view default_live_view_provider normalized_dimension
  create_browser_live_view request = do
    require (blank_error request.session_id)
    session ← get_browser_session store environment request.session_id
    require (running_error session)
    let provider = chosen request.provider
    require (support_error provider)
    let given = duration request.ttl
    require (negative_error given)
    let ttl = if is_positive given then given else pos (10 * minute)
    now ← clock_now store environment
    live_view_id ← succeed (call_env (new_id "brlive_"))
    let view : LiveView = record {
      live_view_id = live_view_id;
      session_id = session.session_id;
      provider = provider;
      url = "";
      websocket_url = "";
      webrtc_url = "";
      control_enabled = request.control_enabled;
      max_width = normalized_dimension request.max_width (pos 1280);
      max_height = normalized_dimension request.max_height (pos 900);
      created_at = timestamp now;
      expires_at = timestamp (Times.add now ttl);
    }
    token ← (λ w. (sign_live_view codec view, w))
    return (record view {
      url = str_append "/live/" token;
      websocket_url = str_append "/ws/browser-automation/live/" token;
      webrtc_url = str_append "/api/browser-automation/live/" (str_append token "/webrtc/answer");
    })
