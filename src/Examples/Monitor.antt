-- ===== src/Examples/Monitor.antt =====
-- A short life of the monitor.
use jitterentropy_analysis_d.Prelude.{ℕ, true, false, List, [], ◌∷◌, ◌≡◌, refl}
use jitterentropy_analysis_d.Prelude.Int.{pos, negsuc}
use jitterentropy_analysis_d.Double.{whole}
use jitterentropy_analysis_d.Monitor.{Tick, blank_monitor, recent_history_snapshot}
use jitterentropy_analysis_d.Monitor.Account.{
  Op, latency, attempt, clear, set, blank_account, run, account_run,
}
use jitterentropy_analysis_d.Monitor.Tracks.{Tracks, run_lem, recent_history_lem}

abbrev at : ℕ → Tick
at n = record { counter = n; frequency = 1 }

-- Two reads, the second one fails; a clear; and one more.
abbrev life : List (Tick × Op ℕ)
life =
    (at 1, set true)
    ∷ (at 2, latency 40)
    ∷ (at 3, attempt (at 4) true 32 2 (pos 0))
    ∷ (at 5, attempt (at 6) false 8 1 (negsuc 1005))
    ∷ (at 7, clear)
    ∷ (at 8, latency 50)
    ∷ (at 9, attempt (at 10) true 16 3 (pos 0))
    ∷ []

run_lem_example : Tracks {F = ℕ} (account_run life blank_account) (run life blank_monitor)
run_lem_example = run_lem refl life

recent_history_lem_example :
    (recent_history_snapshot (at 11) 5 (run life blank_monitor)).0
    ≡ record { timestamp_seconds = 9; byte_count = 16; duration_seconds = 3 } ∷ []
unfolding account_run
recent_history_lem_example = recent_history_lem refl life (at 11) 5
