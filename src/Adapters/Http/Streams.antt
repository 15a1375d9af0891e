-- ===== src/Adapters/Http/Streams.antt =====
-- internal/adapters/http/server.go and live_webrtc.go: what is sent of a live view, and what a client of
-- a read-only view can do.
use browser_automation_byte.Prelude.{
  ℕ, suc, String, false, ◌≡◌, refl, ap, ◌∙◌, Option, none, some, List, [], ◌∷◌, Bool-cases, inl,
  inr,
}
use browser_automation_byte.Core.Errors.{GoError, automation_error}
use browser_automation_byte.Core.Reply.{Reply, ok, fail, fail_with, error_of}
use browser_automation_byte.App.Service.LiveView.{LiveView}
use browser_automation_byte.App.Service.Frames.{LiveFrames, capture_live_frame, dispatch_live_input}
use browser_automation_byte.Adapters.Http.Live.{
  ServerMessage, LiveEvent, ended, tick, Connection, message_of, send_marshaled, sent_message,
  write_frame, send_webrtc_frame, next_frame, first_error, pump, serve_frames, pump_webrtc_frames,
  dispatched, read_live_messages,
}

module _ {F : Type 0} where
  -- Only the last message may carry an error.
  pub data ErrorsLast : List (ServerMessage F) → Type 0 where
    empty : ErrorsLast []
    last : (message : ServerMessage F) → ErrorsLast (message ∷ [])
    more :
        {message : ServerMessage F} {messages : List (ServerMessage F)}
        → message.error ≡ none
        → ErrorsLast messages
        → ErrorsLast (message ∷ messages)

  -- How a frame ends: the loop stops, or one message without an error was sent.
  data FrameEnds : Option GoError × List (ServerMessage F) → Type 0 where
    unsent : {err : GoError} → FrameEnds (some err, [])
    stopped : {err : GoError} (message : ServerMessage F) → FrameEnds (some err, message ∷ [])
    went_on : {message : ServerMessage F} → message.error ≡ none → FrameEnds (none, message ∷ [])

module _ {E F I : Type 0} (live : Option (LiveFrames E F I)) (connection : Connection E F I)
    (view : LiveView) where
  dispatched-read_only :
      view.control_enabled ≡ false
      → (input : Option (Option I)) (e : E) → dispatched live connection view input e ≡ e
  unfolding dispatch_live_input
  dispatched-read_only r none e = refl
  dispatched-read_only r (some none) e = refl
  dispatched-read_only r (some (some event)) e = rw (r, dispatch_live_input) refl

  -- Whatever a client of a view without control sends, over a WebSocket or a data channel, reaches
  -- nothing: the state stays as it was.
  pub read_live_messages-read_only :
      view.control_enabled ≡ false
      → (messages : List String) (e : E) → read_live_messages live connection view messages e ≡ e
  unfolding read_live_messages
  read_live_messages-read_only r [] e = refl
  read_live_messages-read_only r (data_text ∷ messages) e =
      ap (read_live_messages live connection view messages)
        (dispatched-read_only r (connection.unmarshal data_text) e)
      ∙ read_live_messages-read_only r messages e

  sent_message-FrameEnds :
      (reply : Reply F) (sent : Option GoError × E)
      → let ((err, messages), e) = sent_message live connection view (message_of reply) sent in
        FrameEnds (first_error live connection view err (error_of reply), messages)
  unfolding automation_error
  sent_message-FrameEnds (ok frame) (none, e) = went_on refl
  sent_message-FrameEnds (fail err) (none, e) = stopped (message_of {F = F} (fail err))
  sent_message-FrameEnds (fail_with frame err) (none, e) =
      stopped (message_of (fail_with frame err))
  sent_message-FrameEnds reply (some err, e) = unsent

  send_marshaled-FrameEnds :
      (reply : Reply F) (data_text : Reply String) (e : E)
      → let ((err, messages), e) =
          send_marshaled live connection view (message_of reply) data_text e in
        FrameEnds (first_error live connection view err (error_of reply), messages)
  send_marshaled-FrameEnds reply (ok data_text) e =
      sent_message-FrameEnds reply (connection.send data_text e)
  send_marshaled-FrameEnds reply (fail err) e = unsent
  send_marshaled-FrameEnds reply (fail_with data_text err) e = unsent

  write_frame-FrameEnds :
      (sequence : ℕ) (e : E) → FrameEnds (write_frame live connection view sequence e).0
  unfolding write_frame
  write_frame-FrameEnds sequence e =
      let (reply, captured) = capture_live_frame live view sequence e in
      send_marshaled-FrameEnds reply (connection.marshal (message_of reply)) captured

  send_webrtc_frame-FrameEnds :
      (sequence : ℕ) (e : E) → FrameEnds (send_webrtc_frame live connection view sequence e).0
  unfolding send_webrtc_frame
  send_webrtc_frame-FrameEnds sequence e = elim (Bool-cases (connection.is_open e)) [
    | inl o ↦ rw (o, send_webrtc_frame) (write_frame-FrameEnds sequence e)
    | inr o ↦ rw (o, send_webrtc_frame) unsent
  ]

  next_frame-ErrorsLast :
      (framed : (Option GoError × List (ServerMessage F)) × E)
      (rest : E → List (ServerMessage F) × E)
      → FrameEnds framed.0
      → ((e : E) → ErrorsLast (rest e).0)
      → ErrorsLast (next_frame live connection view framed rest).0
  next_frame-ErrorsLast (framed, e) rest unsent r = empty
  next_frame-ErrorsLast (framed, e) rest (stopped message) r = last message
  next_frame-ErrorsLast (framed, e) rest (went_on h) r = more h (r e)

  pump-ErrorsLast :
      (frame : ℕ → E → (Option GoError × List (ServerMessage F)) × E)
      → ((sequence : ℕ) (e : E) → FrameEnds (frame sequence e).0)
      → (events : List LiveEvent) (sequence : ℕ) (e : E)
      → ErrorsLast (pump live connection view frame events sequence e).0
  unfolding pump
  pump-ErrorsLast frame f [] sequence e = empty
  pump-ErrorsLast frame f (ended ∷ events) sequence e = empty
  pump-ErrorsLast frame f (tick ∷ events) sequence e =
      next_frame-ErrorsLast (frame (suc sequence) e)
        (pump live connection view frame events (suc sequence)) (f (suc sequence) e)
        (pump-ErrorsLast frame f events (suc sequence))

  -- Over a WebSocket and over a data channel, a message with an error is the last one that is sent: a
  -- frame that cannot be captured ends the loop.
  pub frames-ErrorsLast :
      (events : List LiveEvent) (e : E)
      → ErrorsLast (serve_frames live connection view events e).0
        × ErrorsLast (pump_webrtc_frames live connection view events e).0
  unfolding serve_frames pump_webrtc_frames
  frames-ErrorsLast events e = (
    pump-ErrorsLast (write_frame live connection view) write_frame-FrameEnds events 0 e,
    pump-ErrorsLast (send_webrtc_frame live connection view) send_webrtc_frame-FrameEnds events 0 e,
  )
