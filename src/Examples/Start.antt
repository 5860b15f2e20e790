-- ===== src/Examples/Start.antt =====
-- A server that takes three attempts.
use seismic_trace_resumable.Prelude.{ℕ, ◌+◌, ◌*◌, Bool, arith, ◌==◌}
use seismic_trace_resumable.Startup.{wait_for_database}
use seismic_trace_resumable.Startup.Waits.{Outcome, wait_for_database-Outcome}

abbrev ticks : ℕ → ℕ
ticks n = 10 + n * 2

abbrev third : ℕ → Bool
third n = n == 2

wait_for_database-Outcome_example :
    Outcome ticks third 2 0 (10 + 60 * 2) (wait_for_database ticks third 10 2 60)
wait_for_database-Outcome_example =
    wait_for_database-Outcome ticks third 2 10 60
      (record { begins = omega arith; sleeps = λ n. omega arith })
