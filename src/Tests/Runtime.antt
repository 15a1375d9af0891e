-- ===== src/Tests/Runtime.antt =====
-- The camoufox runtime's map of browsers, with numbers for browsers.
use browser_automation_byte.Prelude.{ℕ, ◌≤◌, [], ◌∷◌, arith}
use browser_automation_byte.Core.Messages.{Session}
use browser_automation_byte.Adapters.Camoufox.{
  CamoufoxRuntime, Move, active_session_count, run, run-active_session_count,
}
use browser_automation_byte.Tests.Service.{running}

abbrev one_browser : CamoufoxRuntime ℕ
one_browser = record { max_sessions = 1; sessions = ("brsess_", 7) ∷ [] }

abbrev neighbour : Session
neighbour = record running { session_id = "other" }

run-active_session_count_example :
    active_session_count (
      run
        (Move.commits neighbour 8 ∷ Move.stops running ∷ Move.commits neighbour 9 ∷ [])
        one_browser)
    ≤ 1
unfolding active_session_count
run-active_session_count_example =
    run-active_session_count
      (Move.commits neighbour 8 ∷ Move.stops running ∷ Move.commits neighbour 9 ∷ []) one_browser
      (omega arith)
