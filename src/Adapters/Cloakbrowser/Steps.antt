-- ===== src/Adapters/Cloakbrowser/Steps.antt =====
-- internal/adapters/runtime/cloakbrowser/runtime_core.go: calls that run at the same time, as a sequence of
-- their steps.
use browser_automation_byte.Prelude.{
  ℕ, zero, suc, ◌+◌, ◌≡◌, refl, Option, none, some, List, [], ◌∷◌, ◌++◌, Map, length, arith,
}
use browser_automation_byte.Core.Errors.{GoError}
use browser_automation_byte.Core.Messages.{Session}
use browser_automation_byte.Adapters.Cloakbrowser.{
  Outside, CloakRuntime, Launch, returned, started, look, begin_worker, commit, launch,
  start_session, take_worker, finish_stop, looked, stop_session, take_workers, stop_each, shutdown,
  committed, session_of_id,
}

-- The runtime, the sessions whose start has looked at the map, the workers of starts that have not ended,
-- and the sessions of stops and shutdowns that have not ended, with the workers that were taken
pub record Running (H E : Type 0) : Type 0 where
  pub runtime : CloakRuntime H E
  pub admitted : List Session
  pub starting : List (Session × H)
  pub stopping : List (Session × Option H)

-- A step of some call: a start looks at the map, a start begins a worker, by its place among those that have
-- looked, a start that has a worker ends, a stop takes a worker, a shutdown takes all, and a worker that was
-- taken is stopped
pub data Step : Type 0 where
  looks : Session → Step
  begins commits : ℕ → Step
  takes : Session → Step
  takes_all : Step
  finishes : ℕ → Step

module _ {A : Type 0} where
  abbrev put_back : A → Option (A × List A) → Option (A × List A)
  put_back x none = none
  put_back x (some (y, ys)) = some (y, x ∷ ys)

  unfoldable pub pick : ℕ → List A → Option (A × List A)
  pick k [] = none
  pick zero (x ∷ xs) = some (x, xs)
  pick (suc k) (x ∷ xs) = put_back x (pick k xs)

  put_back-length :
      (x : A) (o : Option (A × List A)) (n : ℕ)
      → ((y : A) (ys : List A) → o ≡ some (y, ys) → n ≡ suc (length ys))
      → (y : A) (ys : List A) → put_back x o ≡ some (y, ys)
      → suc n ≡ suc (length ys)
  put_back-length x none n h y ys e = cc
  put_back-length x (some (z, zs)) n h y ys e =
      let same : x ∷ zs ≡ ys = cc in rw (← same) (omega (arith, h z zs refl))

  pub pick-length :
      (k : ℕ) (xs : List A) (y : A) (ys : List A)
      → pick k xs ≡ some (y, ys)
      → length xs ≡ suc (length ys)
  unfolding pick
  pick-length zero [] y ys e = cc
  pick-length (suc k) [] y ys e = cc
  pick-length zero (x ∷ xs) y ys e = let same : xs ≡ ys = cc in rw (same) refl
  pick-length (suc k) (x ∷ xs) y ys e =
      put_back-length x (pick k xs) (length xs) (pick-length k xs) y ys e

  -- The sum of a number of each element
  abbrev pub total : (A → ℕ) → List A → ℕ
  total f [] = 0
  total f (x ∷ xs) = f x + total f xs

  put_back-total :
      (f : A → ℕ) (x : A) (o : Option (A × List A)) (n : ℕ)
      → ((y : A) (ys : List A) → o ≡ some (y, ys) → n ≡ f y + total f ys)
      → (y : A) (ys : List A) → put_back x o ≡ some (y, ys)
      → f x + n ≡ f y + total f ys
  put_back-total f x none n h y ys e = cc
  put_back-total f x (some (z, zs)) n h y ys e =
      let same : x ∷ zs ≡ ys = cc in
      let at : z ≡ y = cc in rw (← same) (rw (← at) (omega (arith, h z zs refl)))

  pub pick-total :
      (f : A → ℕ) (k : ℕ) (xs : List A) (y : A) (ys : List A)
      → pick k xs ≡ some (y, ys)
      → total f xs ≡ f y + total f ys
  unfolding pick
  pick-total f zero [] y ys e = cc
  pick-total f (suc k) [] y ys e = cc
  pick-total f zero (x ∷ xs) y ys e =
      let same : xs ≡ ys = cc in let at : x ≡ y = cc in rw (same) (rw (at) refl)
  pick-total f (suc k) (x ∷ xs) y ys e =
      put_back-total f x (pick k xs) (total f xs) (pick-total f k xs) y ys e

-- The sessions of a shutdown, each with its worker
abbrev pub all_taken : {H : Type 0} → Map H → List (Session × Option H)
all_taken [] = []
all_taken ((id, worker) ∷ workers) = (session_of_id id, some worker) ∷ all_taken workers

module _ {H E : Type 0} (port : Outside H E) where
  abbrev pub with_look : Session → Option (Option GoError) → Running H E → Running H E
  with_look session (some err) s = s
  with_look session none s = record s { admitted = session ∷ s.admitted }

  abbrev pub with_launch :
      Session → List Session → Launch H × CloakRuntime H E → Running H E → Running H E
  with_launch session admitted (returned err, r) s = record s { runtime = r; admitted = admitted }
  with_launch session admitted (started worker, r) s = record s {
    runtime = r;
    admitted = admitted;
    starting = (session, worker) ∷ s.starting;
  }

  abbrev pub with_admitted : Option (Session × List Session) → Running H E → Running H E
  with_admitted none s = s
  with_admitted (some (session, admitted)) s =
      with_launch session admitted (begin_worker port session s.runtime) s

  abbrev pub with_started : Option ((Session × H) × List (Session × H)) → Running H E → Running H E
  with_started none s = s
  with_started (some ((session, worker), starting)) s = record s {
    runtime = (commit port session worker s.runtime).1;
    starting = starting;
  }

  abbrev pub with_taken :
      Option ((Session × Option H) × List (Session × Option H)) → Running H E → Running H E
  with_taken none s = s
  with_taken (some ((session, worker), stopping)) s = record s {
    runtime = (finish_stop port session worker s.runtime).1;
    stopping = stopping;
  }

  unfoldable pub step : Step → Running H E → Running H E
  unfolding pick look begin_worker commit take_worker take_workers finish_stop
  step (looks session) s = with_look session (look port session s.runtime) s
  step (begins k) s = with_admitted (pick k s.admitted) s
  step (commits k) s = with_started (pick k s.starting) s
  step (takes session) s = record s {
    runtime = (take_worker port session s.runtime).1;
    stopping = (session, (take_worker port session s.runtime).0) ∷ s.stopping;
  }
  step takes_all s = record s {
    runtime = (take_workers port s.runtime).1;
    stopping = all_taken (take_workers port s.runtime).0 ++ s.stopping;
  }
  step (finishes k) s = with_taken (pick k s.stopping) s

  unfoldable pub run : List Step → Running H E → Running H E
  unfolding step
  run [] s = s
  run (x ∷ xs) s = run xs (step x s)

  -- The runtime when no call is under way
  abbrev pub at_rest : CloakRuntime H E → Running H E
  at_rest r = record { runtime = r; admitted = []; starting = []; stopping = [] }

  -- A start without other calls in between is its three steps.
  start_session-run :
      (session : Session) (r : CloakRuntime H E)
      → (run (looks session ∷ begins 0 ∷ commits 0 ∷ []) (at_rest r)).runtime
        ≡ (start_session port session r).1
  unfolding run start_session step pick launch
  start_session-run session r = looked_lem (look port session r)
    where
      begun_lem :
          (l : Launch H × CloakRuntime H E)
          → (step
              (commits 0)
              (with_launch session [] l (record (at_rest r) { admitted = session ∷ [] }))).runtime
            ≡ (committed port session l).1
      begun_lem (returned err, r') = refl
      begun_lem (started worker, r') = refl

      looked_lem :
          (o : Option (Option GoError))
          → (step (commits 0) (step (begins 0) (with_look session o (at_rest r)))).runtime
            ≡ (committed port session (looked port session o r)).1
      looked_lem (some err) = refl
      looked_lem none = begun_lem (begin_worker port session r)

  -- A stop without other calls in between is its two steps.
  stop_session-run :
      (session : Session) (r : CloakRuntime H E)
      → (run (takes session ∷ finishes 0 ∷ []) (at_rest r)).runtime
        ≡ (stop_session port session r).1
  unfolding run stop_session step pick
  stop_session-run session r = refl

  abbrev finishes_each : Map H → List Step
  finishes_each [] = []
  finishes_each (worker ∷ workers) = finishes 0 ∷ finishes_each workers

  finishes_each-run :
      (workers : Map H) (result : Option GoError) (r : CloakRuntime H E)
      → (run
          (finishes_each workers)
          (record (at_rest r) { stopping = all_taken workers ++ [] })).runtime
        ≡ record r { outside = (stop_each port workers result r.outside).1 }
  unfolding run step pick stop_each finish_stop
  finishes_each-run [] result r = refl
  finishes_each-run ((id, worker) ∷ workers) result r =
      finishes_each-run workers _ (finish_stop port (session_of_id id) (some worker) r).1

  -- A shutdown without other calls in between takes all workers and stops each.
  shutdown-run :
      (r : CloakRuntime H E)
      → (run (takes_all ∷ finishes_each r.sessions) (at_rest r)).runtime ≡ (shutdown port r).1
  unfolding run shutdown step take_workers
  shutdown-run r = finishes_each-run r.sessions none (record r { sessions = [] })
