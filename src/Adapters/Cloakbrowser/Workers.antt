-- ===== src/Adapters/Cloakbrowser/Workers.antt =====
-- internal/adapters/runtime/cloakbrowser/runtime_core.go: no worker is lost. Each worker that was started is
-- kept for a session, is on its way to be kept or to be stopped, or was stopped, however the steps of
-- starts, stops and shutdowns come one after the other.
use browser_automation_byte.Prelude.{
  ℕ, suc, ◌+◌, ◌≡◌, refl, Option, none, some, List, [], ◌∷◌, ◌++◌, Map, length, arith,
}
use browser_automation_byte.Core.Errors.{GoError}
use browser_automation_byte.Core.Messages.{Session}
use browser_automation_byte.Adapters.Cloakbrowser.{
  Outside, CloakRuntime, Launch, returned, started, look, begin_worker, take_worker, take_workers,
  cloak_session_count,
}
use browser_automation_byte.Adapters.Cloakbrowser.Steps.{
  Running, Step, looks, begins, commits, takes, takes_all, finishes, with_look, with_launch,
  with_admitted, with_started, with_taken, pick, pick-length, total, pick-total, all_taken, step,
  run, at_rest,
}
use browser_automation_byte.Adapters.Cloakbrowser.Counted.{
  Ledger, counted, pending, IsCounted, IsLaunched, commit-IsCounted, begin_worker-IsLaunched,
  take_worker-IsCounted, finish_stop-IsCounted, take_workers-IsCounted,
}

module _ {H E : Type 0} (port : Outside H E) where
  -- The workers of starts and of stops that have not ended
  abbrev under_way : Running H (Ledger E) → ℕ
  under_way s = length s.starting + total pending s.stopping

  -- Every worker that was started was stopped, is in the map, or belongs to a call that has not ended.
  IsAccounted : Running H (Ledger E) → Type 0
  IsAccounted s = IsCounted port (under_way s) s.runtime

  with_look-IsAccounted :
      (session : Session) (o : Option (Option GoError)) (s : Running H (Ledger E))
      → IsAccounted s
      → IsAccounted (with_look (counted port) session o s)
  unfolding IsAccounted
  with_look-IsAccounted session (some err) s i = i
  with_look-IsAccounted session none s i = i

  with_launch-IsAccounted :
      (session : Session) (admitted : List Session) (l : Launch H × CloakRuntime H (Ledger E))
      (s : Running H (Ledger E))
      → IsLaunched port (under_way s) l
      → IsAccounted (with_launch (counted port) session admitted l s)
  unfolding IsLaunched IsAccounted
  with_launch-IsAccounted session admitted (returned err, r) s i = i
  with_launch-IsAccounted session admitted (started worker, r) s i =
      let moved : suc (under_way s) ≡ suc (length s.starting) + total pending s.stopping =
        omega arith in
      rw (moved) at i

  with_admitted-IsAccounted :
      (o : Option (Session × List Session)) (s : Running H (Ledger E))
      → IsAccounted s
      → IsAccounted (with_admitted (counted port) o s)
  unfolding IsAccounted
  with_admitted-IsAccounted none s i = i
  with_admitted-IsAccounted (some (session, admitted)) s i =
      with_launch-IsAccounted session admitted (begin_worker (counted port) session s.runtime) s
        (begin_worker-IsLaunched port session s.runtime (under_way s) i)

  with_started-IsAccounted :
      (o : Option ((Session × H) × List (Session × H))) (s : Running H (Ledger E))
      → ((x : Session × H) (xs : List (Session × H))
          → o ≡ some (x, xs)
          → length s.starting ≡ suc (length xs))
      → IsAccounted s
      → IsAccounted (with_started (counted port) o s)
  unfolding IsAccounted
  with_started-IsAccounted none s h i = i
  with_started-IsAccounted (some ((session, worker), starting)) s h i =
      let moved : under_way s ≡ suc (length starting + total pending s.stopping) =
        omega (arith, h (session, worker) starting refl) in
      commit-IsCounted port session worker s.runtime (length starting + total pending s.stopping)
        (rw (moved) at i)

  with_taken-IsAccounted :
      (o : Option ((Session × Option H) × List (Session × Option H))) (s : Running H (Ledger E))
      → ((x : Session × Option H) (xs : List (Session × Option H))
          → o ≡ some (x, xs)
          → total pending s.stopping ≡ pending x + total pending xs)
      → IsAccounted s
      → IsAccounted (with_taken (counted port) o s)
  unfolding IsAccounted
  with_taken-IsAccounted none s h i = i
  with_taken-IsAccounted (some ((session, worker), stopping)) s h i =
      let moved : under_way s
          ≡ pending (session, worker) + (length s.starting + total pending stopping) =
        omega (arith, h (session, worker) stopping refl) in
      finish_stop-IsCounted port session worker s.runtime
        (length s.starting + total pending stopping) (rw (moved) at i)

  total-all_taken :
      (workers : Map H) (others : List (Session × Option H))
      → total pending (all_taken workers ++ others) ≡ length workers + total pending others
  total-all_taken [] others = omega arith
  total-all_taken ((id, worker) ∷ workers) others = omega (arith, total-all_taken workers others)

  step-IsAccounted :
      (x : Step) (s : Running H (Ledger E)) → IsAccounted s → IsAccounted (step (counted port) x s)
  unfolding step IsAccounted take_workers
  step-IsAccounted (looks session) s i =
      with_look-IsAccounted session (look (counted port) session s.runtime) s i
  step-IsAccounted (begins k) s i = with_admitted-IsAccounted (pick k s.admitted) s i
  step-IsAccounted (commits k) s i =
      with_started-IsAccounted (pick k s.starting) s (pick-length k s.starting) i
  step-IsAccounted (takes session) s i =
      let taken : Session × Option H =
        (session, (take_worker (counted port) session s.runtime).0) in
      let moved : pending taken + under_way s
          ≡ length s.starting + (pending taken + total pending s.stopping) =
        omega arith in
      rw (moved) at (take_worker-IsCounted port session s.runtime (under_way s) i)
  step-IsAccounted takes_all s i =
      let moved : length s.runtime.sessions + under_way s
          ≡ length s.starting + total pending (all_taken s.runtime.sessions ++ s.stopping) =
        omega (arith, total-all_taken s.runtime.sessions s.stopping) in
      rw (moved) at (take_workers-IsCounted port s.runtime (under_way s) i)
  step-IsAccounted (finishes k) s i =
      with_taken-IsAccounted (pick k s.stopping) s (pick-total pending k s.stopping) i

  run-IsAccounted :
      (xs : List Step) (s : Running H (Ledger E))
      → IsAccounted s
      → IsAccounted (run (counted port) xs s)
  unfolding run
  run-IsAccounted [] s i = i
  run-IsAccounted (x ∷ xs) s i =
      run-IsAccounted xs (step (counted port) x s) (step-IsAccounted x s i)

  -- However the steps of starts, stops and shutdowns interleave, from a runtime without sessions on, and
  -- whatever starting and stopping a worker does: the workers that were started are as many as the stops of
  -- workers, the sessions that are kept, the starts that have a worker and have not ended, and the stops
  -- that have taken a worker and have not ended.
  pub run-accounted :
      (xs : List Step) (max : ℕ) (e : E)
      → let s = run (counted port) xs (
          at_rest (counted port) (record {
            max_sessions = max;
            sessions = [];
            outside = record { inner = e; started_workers = 0; stopped_workers = 0 };
          })) in
        s.runtime.outside.started_workers
        ≡ s.runtime.outside.stopped_workers
          + (cloak_session_count (counted port) s.runtime
              + (length s.starting + total pending s.stopping))
  unfolding cloak_session_count IsAccounted
  run-accounted xs max e =
      (run-IsAccounted xs _ (record { distinct = tt; accounted = refl })).accounted
