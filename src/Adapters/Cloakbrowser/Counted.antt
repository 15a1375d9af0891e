-- ===== src/Adapters/Cloakbrowser/Counted.antt =====
-- internal/adapters/runtime/cloakbrowser/runtime_core.go: how each step changes the number of the workers
-- that were started, of those that were stopped, and of the sessions that are kept.
use browser_automation_byte.Prelude.{
  ℕ, suc, ◌+◌, String, ◌≡◌, refl, inl, inr, Option, none, some, [], ◌∷◌, Map, lookup, insert, erase,
  length, leb, eq_iff, arith, Bool-cases, Option-cases, HasDistinctKeys, insert-HasDistinctKeys,
  erase-HasDistinctKeys,
}
use browser_automation_byte.Core.Errors.{GoError}
use browser_automation_byte.Core.Reply.{Reply, ok, fail, fail_with}
use browser_automation_byte.Core.Messages.{Session}
use browser_automation_byte.Adapters.Cloakbrowser.{
  Outside, CloakRuntime, Launch, returned, started, begin_worker, commit, take_worker, finish_stop,
  take_workers, worker_started, proxy_resolved, dir_made, discard,
}

length-insert_new :
    {V : Type 0} (k : String) (v : V) (m : Map V)
    → lookup k m ≡ none
    → length (insert k v m) ≡ suc (length m)
unfolding insert lookup
length-insert_new k v [] h = refl
length-insert_new k v ((i, w) ∷ m) h = ground (arith, length-insert_new k v m)

length-erase_fresh :
    {V : Type 0} (k : String) (m : Map V) → lookup k m ≡ none → length (erase k m) ≡ length m
unfolding erase lookup
length-erase_fresh k [] h = refl
length-erase_fresh k ((i, w) ∷ m) h = ground (arith, length-erase_fresh k m)

length-erase_kept :
    {V : Type 0} (k : String) (v : V) (m : Map V)
    → HasDistinctKeys m
    → lookup k m ≡ some v
    → suc (length (erase k m)) ≡ length m
unfolding erase lookup
length-erase_kept k v [] d h = cc
length-erase_kept k v ((i, w) ∷ m) d h =
    ground (arith, eq_iff i k, length-erase_fresh k m, length-erase_kept k v m)

-- What the runtime calls, with a count of the workers that were started and of the stops of workers
pub record Ledger (E : Type 0) : Type 0 where
  pub inner : E
  pub started_workers : ℕ
  pub stopped_workers : ℕ

abbrev pub count_started : {H : Type 0} → Reply H → ℕ → ℕ
count_started (ok worker) n = suc n
count_started (fail err) n = n
count_started (fail_with worker err) n = n

abbrev after_call : {A E : Type 0} → Ledger E → A × E → A × Ledger E
after_call l (a, e) = (a, record l { inner = e })

-- The same calls, counted: each start that succeeds and each stop adds one.
abbrev pub counted : {H E : Type 0} → Outside H E → Outside H (Ledger E)
counted port = record {
  make_artifacts_dir = λ l. after_call l (port.make_artifacts_dir l.inner);
  resolve_session_proxy = λ v l. after_call l (port.resolve_session_proxy v l.inner);
  release_session_proxy = λ v l. after_call l (port.release_session_proxy v l.inner);
  start_worker = λ v url l. (
    (port.start_worker v url l.inner).0,
    record l {
      inner = (port.start_worker v url l.inner).1;
      started_workers = count_started (port.start_worker v url l.inner).0 l.started_workers;
    },
  );
  stop_worker = λ h l. (
    (port.stop_worker h l.inner).0,
    record l { inner = (port.stop_worker h l.inner).1; stopped_workers = suc l.stopped_workers },
  );
  execute_task = λ h t l. after_call l (port.execute_task h t l.inner);
}

-- One for a worker that was taken, none for a session that had none
abbrev pub pending : {H : Type 0} → Session × Option H → ℕ
pending (session, none) = 0
pending (session, some worker) = 1

module _ {H E : Type 0} (port : Outside H E) where
  -- No key stands twice, and each worker that was started was stopped, is in the map, or is one of some
  -- others.
  pub record IsCounted (others : ℕ) (r : CloakRuntime H (Ledger E)) : Type 0 where
    pub distinct : HasDistinctKeys r.sessions
    pub accounted :
        r.outside.started_workers ≡ r.outside.stopped_workers + (length r.sessions + others)

  discard-IsCounted :
      (session : Session) (worker : H) (r : CloakRuntime H (Ledger E)) (others : ℕ)
      → IsCounted (suc others) r
      → IsCounted others (discard (counted port) session worker r)
  discard-IsCounted session worker r others i = record {
    distinct = i.distinct;
    accounted = omega (arith, i.accounted);
  }

  pub commit-IsCounted :
      (session : Session) (worker : H) (r : CloakRuntime H (Ledger E)) (others : ℕ)
      → IsCounted (suc others) r
      → IsCounted others (commit (counted port) session worker r).1
  unfolding commit
  commit-IsCounted session worker r others i =
      elim (Option-cases (lookup session.session_id r.sessions)) [
        | inr (h, e) ↦ rw (e, commit) (discard-IsCounted session worker r others i)
        | inl e ↦ elim (Bool-cases (leb r.max_sessions (length r.sessions))) [
          | inl f ↦ rw (e, commit) (rw (f) (discard-IsCounted session worker r others i))
          | inr f ↦
              rw (e, commit)
                (rw (f) (record {
                  distinct = insert-HasDistinctKeys session.session_id worker r.sessions i.distinct;
                  accounted = omega (
                    arith,
                    i.accounted,
                    length-insert_new session.session_id worker r.sessions e,
                  );
                }))
        ]
      ]

  -- A start that has a worker has brought one more.
  unfoldable pub IsLaunched : ℕ → Launch H × CloakRuntime H (Ledger E) → Type 0
  IsLaunched others (returned err, r) = IsCounted others r
  IsLaunched others (started worker, r) = IsCounted (suc others) r

  worker_started-IsLaunched :
      (session : Session) (r : CloakRuntime H (Ledger E)) (others : ℕ) (reply : Reply H) (e : E)
      (l : Ledger E)
      → HasDistinctKeys r.sessions
      → l.started_workers ≡ l.stopped_workers + (length r.sessions + others)
      → IsLaunched others (
          worker_started (counted port) session r (
            reply,
            record l { inner = e; started_workers = count_started reply l.started_workers },
          ))
  unfolding IsLaunched
  worker_started-IsLaunched session r others (ok worker) e l d m = record {
    distinct = d;
    accounted = omega (arith, m);
  }
  worker_started-IsLaunched session r others (fail err) e l d m = record {
    distinct = d;
    accounted = omega (arith, m);
  }
  worker_started-IsLaunched session r others (fail_with worker err) e l d m = record {
    distinct = d;
    accounted = omega (arith, m);
  }

  proxy_resolved-IsLaunched :
      (session : Session) (r : CloakRuntime H (Ledger E)) (others : ℕ) (x : Reply String × Ledger E)
      → HasDistinctKeys r.sessions
      → x.1.started_workers ≡ x.1.stopped_workers + (length r.sessions + others)
      → IsLaunched others (proxy_resolved (counted port) session r x)
  unfolding IsLaunched
  proxy_resolved-IsLaunched session r others (ok url, l) d m =
      worker_started-IsLaunched session r others (port.start_worker session url l.inner).0
        (port.start_worker session url l.inner).1 l d m
  proxy_resolved-IsLaunched session r others (fail err, l) d m = record {
    distinct = d;
    accounted = m;
  }
  proxy_resolved-IsLaunched session r others (fail_with url err, l) d m = record {
    distinct = d;
    accounted = m;
  }

  dir_made-IsLaunched :
      (session : Session) (r : CloakRuntime H (Ledger E)) (others : ℕ)
      (x : Option GoError × Ledger E)
      → HasDistinctKeys r.sessions
      → x.1.started_workers ≡ x.1.stopped_workers + (length r.sessions + others)
      → IsLaunched others (dir_made (counted port) session r x)
  unfolding IsLaunched
  dir_made-IsLaunched session r others (none, l) d m =
      proxy_resolved-IsLaunched session r others
        (after_call l (port.resolve_session_proxy session l.inner)) d m
  dir_made-IsLaunched session r others (some err, l) d m = record { distinct = d; accounted = m }

  pub begin_worker-IsLaunched :
      (session : Session) (r : CloakRuntime H (Ledger E)) (others : ℕ)
      → IsCounted others r
      → IsLaunched others (begin_worker (counted port) session r)
  unfolding begin_worker
  begin_worker-IsLaunched session r others i =
      dir_made-IsLaunched session r others
        (after_call r.outside (port.make_artifacts_dir r.outside.inner)) i.distinct i.accounted

  pub take_worker-IsCounted :
      (session : Session) (r : CloakRuntime H (Ledger E)) (others : ℕ)
      → IsCounted others r
      → let taken = take_worker (counted port) session r in
        IsCounted (pending (session, taken.0) + others) taken.1
  unfolding take_worker
  take_worker-IsCounted session r others i =
      let id = session.session_id in
      elim (Option-cases (lookup id r.sessions)) [
        | inl e ↦
            rw (e, take_worker)
              (record {
                distinct = erase-HasDistinctKeys id r.sessions i.distinct;
                accounted = omega (arith, i.accounted, length-erase_fresh id r.sessions e);
              })
        | inr (h, e) ↦
            rw (e, take_worker)
              (record {
                distinct = erase-HasDistinctKeys id r.sessions i.distinct;
                accounted =
                    omega (arith, i.accounted, length-erase_kept id h r.sessions i.distinct e);
              })
      ]

  pub finish_stop-IsCounted :
      (session : Session) (o : Option H) (r : CloakRuntime H (Ledger E)) (others : ℕ)
      → IsCounted (pending (session, o) + others) r
      → IsCounted others (finish_stop (counted port) session o r).1
  unfolding finish_stop
  finish_stop-IsCounted session none r others i = record {
    distinct = i.distinct;
    accounted = omega (arith, i.accounted);
  }
  finish_stop-IsCounted session (some worker) r others i = record {
    distinct = i.distinct;
    accounted = omega (arith, i.accounted);
  }

  pub take_workers-IsCounted :
      (r : CloakRuntime H (Ledger E)) (others : ℕ)
      → IsCounted others r
      → IsCounted (length r.sessions + others) (take_workers (counted port) r).1
  unfolding take_workers
  take_workers-IsCounted r others i = record {
    distinct = tt;
    accounted = omega (arith, i.accounted);
  }
