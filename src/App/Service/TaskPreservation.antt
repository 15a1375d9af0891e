-- ===== src/App/Service/TaskPreservation.antt =====
-- internal/app/task_service.go: the methods on tasks keep the invariants of the store.
use browser_automation_byte.Prelude.{String, not, Option, none, some, str_eq, arith}
use browser_automation_byte.Core.Errors.{GoError}
use browser_automation_byte.Core.Reply.{Reply, ok, fail, fail_with}
use browser_automation_byte.Core.Times.{timestamp}
use browser_automation_byte.Core.Messages.{Task, TaskInput, TaskStatus}
use browser_automation_byte.Core.Ports.{Store, Environment, TaskExecutionResult}
use browser_automation_byte.App.Validation.Checks.{validate_task_input}
use browser_automation_byte.App.Validation.Command.{validate_commands}
use browser_automation_byte.App.Service.World.{
  World, Act, ◌>>=◌, ◌>>◌, require, call_store, call_env,
}
use browser_automation_byte.App.Service.Frame.{if-keeps, resume-keeps, decide-keeps, check-keeps}
use browser_automation_byte.App.Service.Invariants.{IsInvariant}
use browser_automation_byte.App.Service.Preservation.{
  request_id_or_new-keeps, get_browser_session-keeps,
}
use browser_automation_byte.App.Service.Sessions.{request_id_or_new}
use browser_automation_byte.App.Service.Lifetime.{get_browser_session}
use browser_automation_byte.App.Service.Tasks.{
  new_task, running_error, no_commands, with_default_key, existing_or, enqueue, create_queued,
  start_new_task, start_browser_task, complete, execute, create_and_execute, execute_new_task,
  execute_browser_commands,
}

module _ {S E : Type 0} (P : S → Type 0) where
  existing_or-keeps :
      (r : Reply (Option Task)) (start : Act S E (Option Task)) (w : World S E)
      → P w.stored
      → P (start w).1.stored
      → P (existing_or r start w).1.stored
  existing_or-keeps (ok v) start w h k = h
  existing_or-keeps (fail e) start w h k = ground arith
  existing_or-keeps (fail_with v e) start w h k = ground arith

module _ {S E : Type 0} {store : Store S} {P : S → Type 0} (invariant : IsInvariant store P)
    (environment : Environment E) where
  enqueue-keeps :
      (task : Task) (w : World S E) → P w.stored → P (enqueue store environment task w).1.stored
  unfolding enqueue
  enqueue-keeps task w h =
      decide-keeps P (call_env (environment.runtime.enqueue_task task) w) _ _ h
        (λ err w1 h1. invariant.updates_task _ _ h1) (λ w1 h1. h1)

  complete-keeps :
      (task : Task) (outcome : TaskExecutionResult × Option GoError) (w : World S E)
      → P w.stored
      → P (complete store environment task outcome w).1.stored
  unfolding complete
  complete-keeps task (result, none) w h =
      check-keeps P (call_store (store.update_task _) _) _ (invariant.updates_task _ _ h)
        (λ w1 _ h1. h1)
  complete-keeps task (result, some err) w h = invariant.updates_task _ _ h

  execute-keeps :
      (task : Task) (w : World S E) → P w.stored → P (execute store environment task w).1.stored
  unfolding execute
  execute-keeps task w h = complete-keeps task _ _ h

  create_queued-keeps :
      (request_id : String) (input : TaskInput) (w : World S E)
      → P w.stored
      → P (create_queued store environment request_id input w).1.stored
  unfolding create_queued
  create_queued-keeps request_id input w h =
      let time = (environment.now w.env).0 in
      let w1 : World S E = record w { env = (environment.now w.env).1 } in
      resume-keeps P (request_id_or_new store environment request_id w1) _
        (request_id_or_new-keeps invariant environment request_id w1 h)
        (λ request w2 _ h2.
          let task =
            new_task (environment.new_id "brtask_" w2.env).0 request TaskStatus.queued input time
              none in
          let w3 : World S E = record w2 { env = (environment.new_id "brtask_" w2.env).1 } in
          check-keeps P (call_store (store.create_task (some task)) w3) _
            (invariant.creates_task (some task) w2.stored h2) (λ w4 _ h4. enqueue-keeps task w4 h4))

  create_and_execute-keeps :
      (request_id : String) (input : TaskInput) (w : World S E)
      → P w.stored
      → P (create_and_execute store environment request_id input w).1.stored
  unfolding create_and_execute
  create_and_execute-keeps request_id input w h =
      let time = (environment.now w.env).0 in
      let w1 : World S E = record w { env = (environment.now w.env).1 } in
      resume-keeps P (request_id_or_new store environment request_id w1) _
        (request_id_or_new-keeps invariant environment request_id w1 h)
        (λ request w2 _ h2.
          let task =
            new_task (environment.new_id "brtask_" w2.env).0 request TaskStatus.running input time
              (timestamp time) in
          let w3 : World S E = record w2 { env = (environment.new_id "brtask_" w2.env).1 } in
          check-keeps P (call_store (store.create_task (some task)) w3) _
            (invariant.creates_task (some task) w2.stored h2) (λ w4 _ h4. execute-keeps task w4 h4))

  -- The two methods read the session in the same way.
  on_running-keeps :
      (id : String) (rest : Act S E (Option Task)) (w : World S E)
      → P w.stored
      → ((w' : World S E) → P w'.stored → P (rest w').1.stored)
      → P
          ((get_browser_session store environment id >>= λ session.
              require (running_error session) >> rest)
            w).1.stored
  on_running-keeps id rest w h k =
      resume-keeps P (get_browser_session store environment id w) _
        (get_browser_session-keeps invariant environment id w h)
        (λ session w1 _ h1. check-keeps P (running_error session, w1) rest h1 (λ w2 _ h2. k w2 h2))

  start_new_task-keeps :
      (request_id : String) (input : Option TaskInput) (w : World S E)
      → P w.stored
      → P (start_new_task store environment request_id input w).1.stored
  unfolding start_new_task
  start_new_task-keeps request_id none w h = h
  start_new_task-keeps request_id (some input) w h =
      check-keeps P {B = Option Task} (validate_task_input (some input), w) _ h
        (λ w1 _ h1.
          on_running-keeps input.session_id (create_queued store environment request_id input) w1 h1
            (create_queued-keeps request_id input))

  execute_new_task-keeps :
      (request_id : String) (input : Option TaskInput) (w : World S E)
      → P w.stored
      → P (execute_new_task store environment request_id input w).1.stored
  unfolding execute_new_task
  execute_new_task-keeps request_id none w h = h
  execute_new_task-keeps request_id (some given) w h =
      let input = with_default_key given in
      check-keeps P {B = Option Task} (validate_task_input (some input), w) _ h
        (λ w1 _ h1.
          check-keeps P {B = Option Task} (no_commands input, w1) _ h1
            (λ w2 _ h2.
              check-keeps P {B = Option Task} (validate_commands input.commands, w2) _ h2
                (λ w3 _ h3.
                  on_running-keeps input.session_id
                    (create_and_execute store environment request_id input) w3 h3
                    (create_and_execute-keeps request_id input))))

  pub start_browser_task-keeps :
      (request_id : String) (input : Option TaskInput) (w : World S E)
      → P w.stored
      → P (start_browser_task store environment request_id input w).1.stored
  unfolding start_browser_task
  start_browser_task-keeps request_id input w h =
      let started = start_new_task-keeps request_id input w h in
      if-keeps P (not (str_eq request_id "")) _ _
        (existing_or-keeps P (store.get_task_by_request_id request_id w.stored) _ w h started)
        started

  pub execute_browser_commands-keeps :
      (request_id : String) (input : Option TaskInput) (w : World S E)
      → P w.stored
      → P (execute_browser_commands store environment request_id input w).1.stored
  unfolding execute_browser_commands
  execute_browser_commands-keeps request_id input w h =
      let started = execute_new_task-keeps request_id input w h in
      if-keeps P (not (str_eq request_id "")) _ _
        (existing_or-keeps P (store.get_task_by_request_id request_id w.stored) _ w h started)
        started
