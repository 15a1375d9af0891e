-- ===== src/Adapters/Worker.antt =====
-- internal/adapters/runtime/camoufox/runtime_worker.go, runtime_session.go and worker_response.go: a task
-- is written to the worker's standard input, and a line is read from its standard output. The lines that
-- nobody has read and the exit that nobody has received are the state of a worker. JSON is a parameter.
pub mod Stopping
pub mod Laws
use browser_automation_byte.Prelude.{
  ℕ, String, Bool, true, false, not, ◌≡◌, refl, Option, none, some, List, [], ◌∷◌, ◌++◌, str_eq,
  if◌then◌else◌, trim_space,
}
use browser_automation_byte.Prelude.Int.{ℤ, is_positive}
use Prim.Native.String.{◌++◌ as str_append}
use browser_automation_byte.Core.Errors.{ErrorCode, Error, GoError, core, new_error, error_text}
use browser_automation_byte.Core.Errors.Code
use browser_automation_byte.Core.Reply.{Reply, ok, fail, fail_with, ◌>>=◌}
use browser_automation_byte.Core.Times.{Duration, duration}
use browser_automation_byte.Core.Messages.{Task, CommandResult, Artifact}
use browser_automation_byte.Core.Ports.{TaskExecutionResult}

-- What a running worker is to its reader: the lines that wait on its standard output, whether the output
-- is at its end behind them, the value of its exit, if that waits in the channel, whether the value was
-- received before, and what was written to its standard error.
pub record Pipe : Type 0 where
  pub lines : List String
  pub closed : Bool
  pub done : Option (Option GoError)
  pub received : Bool
  pub stderr : String

-- What a `select` takes first, if it is there; the timer ends the wait otherwise.
pub data Wakes : Type 0 where
  line_first end_first exit_first timer_first : Wakes
  context_first : GoError → Wakes

-- `workerResponseEnvelope`, with the raw messages as texts
pub record Envelope : Type 0 where
  pub kind : String
  pub task_id : String
  pub results : List String
  pub artifacts : List String
  pub error : Option Error

-- `decodedWorkerResponse`
pub record DecodedResponse : Type 0 where
  pub results : List CommandResult
  pub artifacts : List Artifact
  pub error : Option Error

-- `json.Unmarshal` of an envelope, and proto JSON
pub record WorkerCodec : Type 0 where
  pub marshal_task : Task → Reply String
  pub envelope : String → Reply Envelope
  pub command_result : String → Reply CommandResult
  pub artifact : String → Reply Artifact

abbrev unavailable : String → GoError
unavailable message = new_error Code.browser_unavailable message true

abbrev with_error : String → Option GoError → String
with_error prefix none = prefix
with_error prefix (some err) = str_append prefix (str_append "; " (error_text err))

-- `failureMessage`, without a standard output
unfoldable pub failure_message : String → Option GoError → String → String
unfolding error_text
failure_message prefix err stderr =
    if str_eq (trim_space stderr) ""
    then with_error prefix err
    else str_append (with_error prefix err) (str_append "; stderr: " (trim_space stderr))

abbrev timed_out : Pipe → Reply String × Pipe
timed_out pipe = (
  fail (new_error Code.timeout (failure_message "camoufox worker timed out" none pipe.stderr) true),
  pipe,
)

abbrev take_line : Pipe → List String → Reply String × Pipe
take_line pipe [] = timed_out pipe
take_line pipe (line ∷ lines) = (ok line, record pipe { lines = lines })

abbrev take_exit : Pipe → Option (Option GoError) → Reply String × Pipe
take_exit pipe none = timed_out pipe
take_exit pipe (some err) = (
  fail (unavailable (failure_message "camoufox worker exited" err pipe.stderr)),
  record pipe { done = none; received = true },
)

abbrev take_end : Pipe → List String → Bool → Reply String × Pipe
take_end pipe [] true =
    (fail (unavailable (failure_message "camoufox worker stdout closed" none pipe.stderr)), pipe)
take_end pipe lines closed = timed_out pipe

-- `readLine`
unfoldable pub read_line : Wakes → Pipe → Reply String × Pipe
unfolding failure_message
read_line line_first pipe = take_line pipe pipe.lines
read_line end_first pipe = take_end pipe pipe.lines pipe.closed
read_line exit_first pipe = take_exit pipe pipe.done
read_line timer_first pipe = timed_out pipe
read_line (context_first err) pipe = (fail (new_error Code.timeout (error_text err) true), pipe)

-- `taskTimeout`
unfoldable pub task_timeout : Option Task → Duration → Duration
task_timeout none fallback = fallback
task_timeout (some task) fallback = elim task.input [
  | none ↦ fallback
  | some input ↦ (if is_positive (duration input.timeout) then duration input.timeout else fallback)
]

-- The loops of `decodeWorkerResponse`
abbrev decode_each : {A : Type 0} → String → (String → Reply A) → List String → Reply (List A)
decode_each message decode [] = ok []
decode_each message decode (raw ∷ raws) = elim (decode raw) [
  | ok value ↦ decode_each message decode raws >>= (λ values. ok (value ∷ values))
  | fail err ↦ fail (unavailable (str_append message (error_text err)))
  | fail_with value err ↦ fail (unavailable (str_append message (error_text err)))
]

module _ (codec : WorkerCodec) where
  abbrev decode_envelope : Reply Envelope → Reply DecodedResponse
  decode_envelope (fail err) =
      fail (unavailable (str_append "camoufox worker response is invalid: " (error_text err)))
  decode_envelope (fail_with envelope err) =
      fail (unavailable (str_append "camoufox worker response is invalid: " (error_text err)))
  decode_envelope (ok envelope) =
      let decoded =
        decode_each "camoufox command result is invalid: " codec.command_result envelope.results
        >>= (λ results.
            decode_each "camoufox artifact is invalid: " codec.artifact envelope.artifacts
            >>= (λ artifacts.
                ok
                  (record { results = results; artifacts = artifacts; error = envelope.error }))) in
      if not (str_eq envelope.kind "task_result")
      then fail (unavailable "camoufox worker response type is invalid")
      else decoded

  -- `decodeWorkerResponse`
  unfoldable pub decode_worker_response : String → Reply DecodedResponse
  decode_worker_response line = decode_envelope (codec.envelope line)

  abbrev no_result : TaskExecutionResult
  no_result = record { results = []; artifacts = [] }

  abbrev error_of_worker : Option Error → Option GoError
  error_of_worker none = none
  error_of_worker (some err) = some (core err)

  -- The end of `executeTask`: what a response says
  abbrev pub result_of : Reply DecodedResponse → TaskExecutionResult × Option GoError
  result_of (fail err) = (no_result, some err)
  result_of (fail_with response err) = (no_result, some err)
  result_of (ok response) = (
    record { results = response.results; artifacts = response.artifacts },
    error_of_worker response.error,
  )

  abbrev pub result_of_line : Reply String × Pipe → (TaskExecutionResult × Option GoError) × Pipe
  result_of_line (ok line, pipe) = (result_of (decode_worker_response line), pipe)
  result_of_line (fail err, pipe) = ((no_result, some err), pipe)
  result_of_line (fail_with line err, pipe) = ((no_result, some err), pipe)

  abbrev pub after_write :
      Option GoError → List String → Wakes → Pipe → (TaskExecutionResult × Option GoError) × Pipe
  after_write (some err) printed wakes pipe = (
    (
      no_result,
      some (unavailable (failure_message "camoufox worker write failed" (some err) pipe.stderr)),
    ),
    pipe,
  )
  after_write none printed wakes pipe =
      result_of_line (read_line wakes (record pipe { lines = pipe.lines ++ printed }))

  -- `executeTask`, with the error of the write, the lines that the worker prints until the wait ends, and
  -- what ends the wait
  unfoldable pub execute_task :
      Task
      → Option GoError
      → List String
      → Wakes
      → Pipe
      → (TaskExecutionResult × Option GoError) × Pipe
  unfolding read_line decode_worker_response
  execute_task task write printed wakes pipe = elim (codec.marshal_task task) [
    | ok request ↦ after_write write printed wakes pipe
    | fail err ↦ ((no_result, some (new_error Code.internal (error_text err) false)), pipe)
    | fail_with request err ↦
        ((no_result, some (new_error Code.internal (error_text err) false)), pipe)
  ]
