-- ===== src/App/Service/Executing.antt =====
-- internal/app/task_service.go: what `ExecuteBrowserCommands` promises.
use browser_automation_byte.Prelude.{
  String, true, false, not, ◌≡◌, ◌≢◌, refl, sym, ap, ◌∙◌, ◌⊎◌, inl, inr, Option, none, some, str_eq,
  eq_iff, eq_refl, arith, Bool-cases, if◌then◌else◌,
}
use browser_automation_byte.Core.Errors.{GoError}
use browser_automation_byte.Core.Errors.Code
use browser_automation_byte.Core.Reply.{Reply, ok, fail, fail_with}
use browser_automation_byte.Core.Times.{timestamp}
use browser_automation_byte.Core.Messages.{Session, Task, TaskInput, TaskStatus}
use browser_automation_byte.Core.Status.{is_running}
use browser_automation_byte.Core.Ports.{Store, StoreLaws, Environment, TaskExecutionResult}
use browser_automation_byte.App.Validation.Checks.{validate_task_input}
use browser_automation_byte.App.Validation.Command.{validate_commands}
use browser_automation_byte.App.Service.World.{World, Act, call_store}
use browser_automation_byte.App.Service.Helpers.{last_error_of, is_task_not_found}
use browser_automation_byte.App.Service.Ends.{
  Ends, Ends-ok, map-Ends, if-Ends, resume-Ends, check-Ends,
}
use browser_automation_byte.App.Service.Written.{empty-cases}
use browser_automation_byte.App.Service.Sessions.{request_id_or_new}
use browser_automation_byte.App.Service.Starting.{request_id_or_new-given}
use browser_automation_byte.App.Service.Lifetime.{get_browser_session}
use browser_automation_byte.App.Service.Tasks.{
  new_task, running_error, no_commands, with_default_key, existing_or, complete, execute,
  create_and_execute, execute_new_task, execute_browser_commands,
}

module _ {S E : Type 0} {store : Store S} {IsValid : S → Type 0} (laws : StoreLaws store IsValid)
    (environment : Environment E) where
  open store use {get_task, get_task_by_request_id}

  -- A task that was run for a request id: it succeeded, and is stored under its id and, if the
  -- request id is not empty, under that.
  pub record IsExecuted (r : String) (v : Option Task) (w : World S E) : Type 0 where
    pub task : Task
    pub returned : v ≡ some task
    pub status : task.status ≡ TaskStatus.succeeded
    pub stored : get_task task.task_id w.stored ≡ ok task
    pub indexed : (r ≡ "") ⊎ (get_task_by_request_id r w.stored ≡ ok (some task))

  -- A task that failed carries the runtime's error.
  pub record IsFailedTask (v : Option Task) (e : GoError) (w : World S E) : Type 0 where
    pub task : Task
    pub returned : v ≡ some task
    pub status : task.status ≡ TaskStatus.failed
    pub error : task.last_error ≡ last_error_of e Code.browser_unavailable

  -- What must hold before the runtime is called: the commands are all valid and there are some, and the
  -- session, as `GetBrowserSession` returns it, is running.
  pub record IsAllowed (given : TaskInput) (w : World S E) : Type 0 where
    pub some_commands : no_commands (with_default_key given) ≡ none
    pub valid_commands : validate_commands (with_default_key given).commands ≡ none
    pub session : Session
    pub after_read : World S E
    pub read :
        get_browser_session store environment (with_default_key given).session_id w
        ≡ (ok session, after_read)
    pub running : is_running session.status ≡ true

  get-update_task :
      (v : Task) (w : World S E) {w' : World S E}
      → call_store (store.update_task (some v)) w ≡ (none, w')
      → get_task v.task_id w'.stored ≡ ok v
  get-update_task v w {w'} e =
      let done : (store.update_task (some v) w.stored).0 ≡ none = ap (λ r. r.0) e in
      let there : (store.update_task (some v) w.stored).1 ≡ w'.stored = ap (λ r. r.1.stored) e in
      rw (← there) (laws.get-update_task v w.stored v.task_id done ∙ rw (eq_refl v.task_id) refl)

  request-update_task :
      (v : Task) (w : World S E) {w' : World S E}
      → v.request_id ≢ ""
      → call_store (store.update_task (some v)) w ≡ (none, w')
      → get_task_by_request_id v.request_id w'.stored ≡ ok (some v)
  request-update_task v w {w'} given e =
      let done : (store.update_task (some v) w.stored).0 ≡ none = ap (λ r. r.0) e in
      let there : (store.update_task (some v) w.stored).1 ≡ w'.stored = ap (λ r. r.1.stored) e in
      rw (← there) (laws.request-update_task v w.stored given done)

  complete-Ends :
      (r : String) (task : Task) (outcome : TaskExecutionResult × Option GoError) (w : World S E)
      → (r ≢ "" → task.request_id ≡ r)
      → Ends (IsExecuted r) IsFailedTask (complete store environment task outcome w)
  unfolding complete
  complete-Ends r task (result, some err) w same = record {
    task = _;
    returned = refl;
    status = refl;
    error = refl;
  }
  complete-Ends r task (result, none) w same =
      let time = (environment.now w.env).0 in
      let w1 : World S E = record w { env = (environment.now w.env).1 } in
      let succeeded : Task = record task {
        results = result.results;
        artifacts = result.artifacts;
        updated_at = timestamp time;
        completed_at = timestamp time;
        status = TaskStatus.succeeded;
      } in
      check-Ends (IsExecuted r) IsFailedTask (call_store (store.update_task (some succeeded)) w1) _
        (λ w' e. record {
          task = succeeded;
          returned = refl;
          status = refl;
          stored = get-update_task succeeded w1 e;
          indexed = elim (empty-cases r) [
            | inl empty ↦ inl empty
            | inr given ↦ inr (
                rw (← same given)
                  (request-update_task succeeded w1 (λ h. given (sym (same given) ∙ h)) e))
          ];
        })

  create_and_execute-Ends :
      (r : String) (input : TaskInput) (w : World S E)
      → Ends (IsExecuted r) IsFailedTask (create_and_execute store environment r input w)
  unfolding create_and_execute execute
  create_and_execute-Ends r input w =
      let time = (environment.now w.env).0 in
      let w1 : World S E = record w { env = (environment.now w.env).1 } in
      resume-Ends (IsExecuted r) IsFailedTask (request_id_or_new store environment r w1) _
        (λ request w2 e.
          let task =
            new_task (environment.new_id "brtask_" w2.env).0 request TaskStatus.running input time
              (timestamp time) in
          let w3 : World S E = record w2 { env = (environment.new_id "brtask_" w2.env).1 } in
          check-Ends (IsExecuted r) IsFailedTask (call_store (store.create_task (some task)) w3) _
            (λ w4 _.
              complete-Ends r task _ _
                (λ given. request_id_or_new-given store environment r w1 w2 request e given)))

  -- How a run ends that was allowed.
  abbrev pub Succeeds : String → TaskInput → World S E → Option Task → World S E → Type 0
  Succeeds r given w v w' = IsExecuted r v w' × IsAllowed given w

  abbrev pub Fails : TaskInput → World S E → Option Task → GoError → World S E → Type 0
  Fails given w v e w' = IsFailedTask v e w' × IsAllowed given w

  -- When `ExecuteBrowserCommands` runs a task that is not stored yet, a task that it returns
  -- without an error SUCCEEDED, is stored under its id and is found by the request id if that is not
  -- empty; one that it returns with an error FAILED and carries that error. Both are returned only
  -- if there are commands, all are valid, and the session is RUNNING when it is read.
  pub execute_new_task-Ends :
      (r : String) (given : TaskInput) (w : World S E)
      → Ends
          (Succeeds r given w)
          (Fails given w)
          (execute_new_task store environment r (some given) w)
  unfolding execute_new_task
  execute_new_task-Ends r given w =
      let input = with_default_key given in
      check-Ends (Succeeds r given w) (Fails given w) (validate_task_input (some input), w) _
        (λ w1 e1.
          check-Ends (Succeeds r given w) (Fails given w) (no_commands input, w1) _
            (λ w2 e2.
              check-Ends (Succeeds r given w) (Fails given w) (validate_commands input.commands, w2)
                _
                (λ w3 e3.
                  resume-Ends (Succeeds r given w) (Fails given w)
                    (get_browser_session store environment input.session_id w3) _
                    (λ session w4 e4.
                      check-Ends (Succeeds r given w) (Fails given w) (running_error session, w4) _
                        (λ w5 e5.
                          let unchanged : w ≡ w3 =
                            ap (λ x. x.1) e1 ∙ ap (λ x. x.1) e2 ∙ ap (λ x. x.1) e3 in
                          let is_running_now : is_running session.status ≡ true =
                            ground (arith, ap (λ x. x.0) e5) in
                          let allowed : IsAllowed given w = record {
                            some_commands = ap (λ x. x.0) e2;
                            valid_commands = ap (λ x. x.0) e3;
                            session = session;
                            after_read = w4;
                            read = rw unchanged e4;
                            running = is_running_now;
                          } in
                          map-Ends (create_and_execute store environment r input w5)
                            (λ v w' h. (h, allowed)) (λ v e w' h. (h, allowed))
                            (create_and_execute-Ends r input w5))))))

  -- A task that was stored under the request id before: nothing is done for it.
  pub IsReplayed : String → World S E → Option Task → World S E → Type 0
  IsReplayed r w v w' = (r ≢ "") × (get_task_by_request_id r w.stored ≡ ok v) × (w' ≡ w)

  -- How `ExecuteBrowserCommands` returns a task without an error.
  abbrev pub Answers : String → TaskInput → World S E → Option Task → World S E → Type 0
  Answers r given w v w' = IsReplayed r w v w' ⊎ Succeeds r given w v w'

  existing_or-Answers :
      (r : String) (given : TaskInput) (found : Reply (Option Task)) (start : Act S E (Option Task))
      (w : World S E)
      → get_task_by_request_id r w.stored ≡ found
      → Ends (Answers r given w) (Fails given w) (start w)
      → r ≢ ""
      → Ends (Answers r given w) (Fails given w) (existing_or found start w)
  unfolding IsReplayed
  existing_or-Answers r given (ok v) start w e h filled = inl (filled, e, refl)
  existing_or-Answers r given (fail err) start w e h filled =
      if-Ends (Answers r given w) (Fails given w) (is_task_not_found err) _ _ h tt
  existing_or-Answers r given (fail_with v err) start w e h filled =
      if-Ends (Answers r given w) (Fails given w) (is_task_not_found err) _ _ h tt

  not_empty-Answers :
      (r : String) (given : TaskInput) (x y : Reply (Option Task) × World S E) (w : World S E)
      → (r ≢ "" → Ends (Answers r given w) (Fails given w) x)
      → Ends (Answers r given w) (Fails given w) y
      → Ends (Answers r given w) (Fails given w) (if not (str_eq r "") then x else y)
  not_empty-Answers r given x y w h k = elim (Bool-cases (str_eq r "")) [
    | inl e ↦ rw (e) k
    | inr e ↦ rw (e) (h (ground (arith, eq_iff r "")))
  ]

  -- A task that `ExecuteBrowserCommands` returns for an input, without an error, is the one that was stored
  -- under the request id before, and nothing is changed; or it SUCCEEDED, is stored under its id and is found by the
  -- request id if that is not empty. A task that it returns with an error FAILED and carries that error.
  -- A task that SUCCEEDED now or FAILED was run only if there are commands, all are valid, and the session
  -- is RUNNING when it is read.
  pub execute_browser_commands-Answers :
      (r : String) (given : TaskInput) (w : World S E)
      → Ends
          (Answers r given w)
          (Fails given w)
          (execute_browser_commands store environment r (some given) w)
  unfolding execute_browser_commands
  execute_browser_commands-Answers r given w =
      let run : Ends (Answers r given w) (Fails given w)
          (execute_new_task store environment r (some given) w) =
        map-Ends (execute_new_task store environment r (some given) w) (λ v w' h. inr h)
          (λ v e w' h. h) (execute_new_task-Ends r given w) in
      not_empty-Answers r given _ _ w
        (existing_or-Answers r given (get_task_by_request_id r w.stored) _ w refl run) run

  -- What is found by the request id `r`, if that is not empty.
  IsFound : String → Option Task → World S E → Type 0
  IsFound r v w = r ≢ "" → get_task_by_request_id r w.stored ≡ ok v

  abbrev AnyError : Option Task → GoError → World S E → Type 0
  AnyError v e w = Unit

  existing_or-Ends :
      (r : String) (found : Reply (Option Task)) (start : Act S E (Option Task)) (w : World S E)
      → get_task_by_request_id r w.stored ≡ found
      → Ends (IsFound r) AnyError (start w)
      → Ends (IsFound r) AnyError (existing_or found start w)
  unfolding IsFound
  existing_or-Ends r (ok v) start w e h = λ given. e
  existing_or-Ends r (fail err) start w e h = ground arith
  existing_or-Ends r (fail_with v err) start w e h = ground arith

  new_task-IsFound :
      (r : String) (input : Option TaskInput) (w : World S E)
      → Ends (IsFound r) AnyError (execute_new_task store environment r input w)
  unfolding IsFound execute_new_task
  new_task-IsFound r none w = tt
  new_task-IsFound r (some input) w =
      map-Ends (execute_new_task store environment r (some input) w)
        (λ v w' h given.
          rw h.0.returned
            (elim h.0.indexed [ inl empty ↦ absurd (given empty) | inr found ↦ found ]))
        (λ v e w' h. tt) (execute_new_task-Ends r input w)

  execute_browser_commands-Ends :
      (r : String) (input : Option TaskInput) (w : World S E)
      → Ends (IsFound r) AnyError (execute_browser_commands store environment r input w)
  unfolding execute_browser_commands
  execute_browser_commands-Ends r input w =
      if-Ends (IsFound r) AnyError (not (str_eq r "")) _ _
        (existing_or-Ends r (get_task_by_request_id r w.stored) _ w refl
          (new_task-IsFound r input w))
        (new_task-IsFound r input w)

  -- If `ExecuteBrowserCommands` returns a task without an error for a request id that is not empty,
  -- then a second call with that request id, whatever its input is, returns the same task and
  -- changes nothing: the commands are not run again.
  pub execute_browser_commands-again :
      (r : String) (input input' : Option TaskInput) (w w' : World S E) (v : Option Task)
      → r ≢ ""
      → execute_browser_commands store environment r input w ≡ (ok v, w')
      → execute_browser_commands store environment r input' w' ≡ (ok v, w')
  unfolding execute_browser_commands IsFound
  execute_browser_commands-again r input input' w w' v given e =
      let found : get_task_by_request_id r w'.stored ≡ ok v =
        Ends-ok (IsFound r) AnyError (execute_browser_commands-Ends r input w) e given in
      let other : str_eq r "" ≡ false = ground (arith, eq_iff r "", given) in
      rw (other, execute_browser_commands) (rw found refl)
