-- ===== src/Adapters/Http/Live.antt =====
-- internal/adapters/http/server.go and live_webrtc.go: the loops that send the frames of a live view over
-- a WebSocket or a WebRTC data channel, and those that take the inputs that come back. What a `select`
-- waits for is a list of events in the order in which they come. Proto JSON, the connection and the
-- channel are parameters.
use browser_automation_byte.Prelude.{
  ℕ, suc, String, Bool, not, Option, none, some, List, [], ◌∷◌, ◌++◌, if◌then◌else◌,
}
use browser_automation_byte.Core.Errors.{GoError, plain, AutomationError, automation_error}
use browser_automation_byte.Core.Reply.{Reply, ok, fail, fail_with, error_of, value_of}
use browser_automation_byte.App.Service.LiveView.{LiveView}
use browser_automation_byte.App.Service.Frames.{LiveFrames, capture_live_frame, dispatch_live_input}

-- `BrowserLiveServerMessage`
pub record ServerMessage (F : Type 0) : Type 0 where
  pub frame : Option F
  pub error : Option AutomationError

-- What wakes a loop: the context is done or the other side has ended, or it is time for a frame.
pub data LiveEvent : Type 0 where
  ended : LiveEvent
  tick : LiveEvent

-- A connection: `protojsonx.Marshal`, the sending of a text, whether it is open, and the reading of a
-- client's message, of which the input may be missing.
pub record Connection (E F I : Type 0) : Type 0 where
  pub marshal : ServerMessage F → Reply String
  pub send : String → E → Option GoError × E
  pub is_open : E → Bool
  pub unmarshal : String → Option (Option I)

abbrev pub message_of : {F : Type 0} → Reply F → ServerMessage F
message_of reply = record { frame = value_of reply; error = automation_error (error_of reply) }

module _ {E F I : Type 0} (live : Option (LiveFrames E F I)) (connection : Connection E F I)
    (view : LiveView) where
  open connection use {marshal, send, is_open, unmarshal}

  -- `writeWebSocketProto`: the error, if any, and the message if it was sent
  abbrev pub sent_message :
      ServerMessage F → Option GoError × E → (Option GoError × List (ServerMessage F)) × E
  sent_message message (none, e) = ((none, message ∷ []), e)
  sent_message message (some err, e) = ((some err, []), e)

  abbrev pub send_marshaled :
      ServerMessage F → Reply String → E → (Option GoError × List (ServerMessage F)) × E
  send_marshaled message (ok data_text) e = sent_message message (send data_text e)
  send_marshaled message (fail err) e = ((some err, []), e)
  send_marshaled message (fail_with data_text err) e = ((some err, []), e)

  unfoldable pub write_proto_message :
      ServerMessage F → E → (Option GoError × List (ServerMessage F)) × E
  write_proto_message message e = send_marshaled message (marshal message) e

  abbrev pub first_error : Option GoError → Option GoError → Option GoError
  first_error none next = next
  first_error (some err) next = some err

  -- A frame of the WebSocket loop: the error that ends the loop, if any, and what was sent
  unfoldable pub write_frame : ℕ → E → (Option GoError × List (ServerMessage F)) × E
  unfolding capture_live_frame write_proto_message automation_error
  write_frame sequence e =
      let (reply, captured) = capture_live_frame live view sequence e in
      let ((err, messages), after) = write_proto_message (message_of reply) captured in
      ((first_error err (error_of reply), messages), after)

  -- `sendWebRTCFrame`
  unfoldable pub send_webrtc_frame : ℕ → E → (Option GoError × List (ServerMessage F)) × E
  unfolding write_frame
  send_webrtc_frame sequence e =
      let frame = write_frame sequence e in
      if not (is_open e) then ((some (plain "data channel closed"), []), e) else frame

  abbrev pub next_frame :
      (Option GoError × List (ServerMessage F)) × E
      → (E → List (ServerMessage F) × E)
      → List (ServerMessage F) × E
  next_frame ((some err, messages), e) rest = (messages, e)
  next_frame ((none, messages), e) rest = let (more, after) = rest e in (messages ++ more, after)

  -- A loop over the events, with the number of the last frame: what it sends
  unfoldable pub pump :
      (ℕ → E → (Option GoError × List (ServerMessage F)) × E)
      → List LiveEvent
      → ℕ
      → E
      → List (ServerMessage F) × E
  pump frame [] sequence e = ([], e)
  pump frame (ended ∷ events) sequence e = ([], e)
  pump frame (tick ∷ events) sequence e =
      next_frame (frame (suc sequence) e) (pump frame events (suc sequence))

  -- The loop of `serveLiveWebSocket`
  unfoldable pub serve_frames : List LiveEvent → E → List (ServerMessage F) × E
  unfolding pump write_frame
  serve_frames events e = pump write_frame events 0 e

  -- `pumpWebRTCFrames`
  unfoldable pub pump_webrtc_frames : List LiveEvent → E → List (ServerMessage F) × E
  unfolding pump send_webrtc_frame
  pump_webrtc_frames events e = pump send_webrtc_frame events 0 e

  abbrev pub dispatched : Option (Option I) → E → E
  dispatched none e = e
  dispatched (some none) e = e
  dispatched (some (some event)) e = (dispatch_live_input live view event e).1

  -- `dispatchWebRTCInput`; its errors are logged.
  unfoldable pub dispatch_input : String → E → E
  unfolding dispatch_live_input
  dispatch_input data_text e = dispatched (unmarshal data_text) e

  -- The loop of `readLiveMessages`, over the messages that come until the reading fails
  unfoldable pub read_live_messages : List String → E → E
  unfolding dispatch_input
  read_live_messages [] e = e
  read_live_messages (data_text ∷ messages) e =
      read_live_messages messages (dispatch_input data_text e)
