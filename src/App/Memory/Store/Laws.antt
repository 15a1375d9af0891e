-- ===== src/App/Memory/Store/Laws.antt =====
-- The memory store keeps the laws that the service relies on.
use browser_automation_byte.Prelude.{true, refl, ap, some}
use browser_automation_byte.Core.Ports.{StoreLaws}
use browser_automation_byte.App.Memory.Table.Contract
use browser_automation_byte.App.Memory.Table.Invariant.{
  IsConsistent, create-IsConsistent, update-IsConsistent,
}
use browser_automation_byte.App.Memory.Listed.{list-stored}
use browser_automation_byte.App.Memory.Store.{
  MemoryStore, session_entity, task_entity, memory_store, create_session, get_session,
  get_session_by_request_id, list_sessions, update_session, create_task, get_task,
  get_task_by_request_id, update_task,
}

pub record IsConsistentStore (s : MemoryStore) : Type 0 where
  pub sessions : IsConsistent session_entity s.sessions
  pub tasks : IsConsistent task_entity s.tasks

-- The store of sessions and tasks in memory does what the automation service asks of a store.
pub memory_store-StoreLaws : StoreLaws memory_store IsConsistentStore
unfolding create_session get_session get_session_by_request_id list_sessions update_session
    create_task get_task get_task_by_request_id update_task
memory_store-StoreLaws = record {
  create_session_failed = λ v s e h.
      ap (λ t. record s { sessions = t })
        (Contract.create_failed session_entity (some v) s.sessions e h);
  create_session_fresh = λ v w s h. Contract.create_fresh session_entity v w s.sessions h;
  get-create_session = λ v s k h. Contract.get-create session_entity v s.sessions k h;
  update_session_failed = λ v s e h.
      ap (λ t. record s { sessions = t })
        (Contract.update_failed session_entity (some v) s.sessions e h);
  get-update_session = λ v s k h. Contract.get-update session_entity v s.sessions k h;
  update_session_succeeds = λ v w s h. Contract.update_succeeds session_entity v w s.sessions h;
  request-update_session =
      λ v s n h. Contract.get_by_request_id-update_self session_entity v s.sessions n h;
  session-create_task = λ t s k. refl;
  session-update_task = λ t s k. refl;
  get-update_task = λ v s k h. Contract.get-update task_entity v s.tasks k h;
  request-update_task = λ v s n h. Contract.get_by_request_id-update_self task_entity v s.tasks n h;
  get_session-id = λ s k v c h. Contract.id-get session_entity s.sessions k v c.sessions h;
  list_sessions-stored = λ size token r s c h.
      list-stored session_entity (λ v. true) size token r s.sessions c.sessions h;
  create_session-IsValid = λ v s c. record {
    sessions = create-IsConsistent session_entity v s.sessions c.sessions;
    tasks = c.tasks;
  };
  update_session-IsValid = λ v s c. record {
    sessions = update-IsConsistent session_entity v s.sessions c.sessions;
    tasks = c.tasks;
  };
  create_task-IsValid = λ v s c. record {
    sessions = c.sessions;
    tasks = create-IsConsistent task_entity v s.tasks c.tasks;
  };
  update_task-IsValid = λ v s c. record {
    sessions = c.sessions;
    tasks = update-IsConsistent task_entity v s.tasks c.tasks;
  };
}
