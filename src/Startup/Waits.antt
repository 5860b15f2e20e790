-- ===== src/Startup/Waits.antt =====
-- The wait for the database ends.
use seismic_trace_resumable.Prelude.{
  ℕ, zero, suc, ◌+◌, ◌*◌, ◌≤◌, ◌<◌, ◌≡◌, inl, inr, le-or-lt, Bool, true, false, Bool-cases, Option,
  some, lt→ltb, le→ltb, arith,
}
use seismic_trace_resumable.Startup.{Waited, reached, timed_out, wait_until, wait_for_database}

module _ (clock : ℕ → ℕ) (connects : ℕ → Bool) (second : ℕ) where
  -- `time.monotonic` does not go back, and `time.sleep(1.0)` between two turns takes a second at least.
  pub record IsClock (start : ℕ) : Type 0 where
    pub begins : start ≤ clock 0
    pub sleeps : (n : ℕ) → clock n + second ≤ clock (suc n)

  -- No attempt of these turns succeeds.
  abbrev pub AllFail : ℕ → ℕ → Type 0
  AllFail zero turn = Unit
  AllFail (suc n) turn = (connects turn ≡ false) × AllFail n (suc turn)

  -- The first answered attempt, before the deadline; or the deadline has passed, and no attempt was
  -- answered until then.
  pub data Outcome (turn deadline : ℕ) : Option Waited → Type 0 where
    first_answer :
        (n at : ℕ)
        → at ≡ turn + n
        → AllFail n turn
        → connects at ≡ true
        → clock at < deadline
        → Outcome turn deadline (some (reached at))
    no_answer :
        (n at : ℕ)
        → at ≡ turn + n
        → AllFail n turn
        → deadline ≤ clock at
        → Outcome turn deadline (some timed_out)

  module _ (sleeps : (n : ℕ) → clock n + second ≤ clock (suc n)) (deadline : ℕ) where
    later :
        (turn : ℕ) (r : Option Waited)
        → connects turn ≡ false
        → Outcome (suc turn) deadline r
        → Outcome turn deadline r
    later turn r failed (first_answer n at here fails answered early) =
        first_answer (suc n) at (omega (arith, here)) (failed, fails) answered early
    later turn r failed (no_answer n at here fails late) =
        no_answer (suc n) at (omega (arith, here)) (failed, fails) late

    wait_until-Outcome :
        (turns turn : ℕ)
        → deadline ≤ clock turn + turns * second
        → Outcome turn deadline (wait_until clock connects (suc turns) turn deadline)
    unfolding wait_until
    wait_until-Outcome zero turn enough =
        let late : deadline ≤ clock turn = omega (arith, enough) in
        rw (le→ltb (clock turn) deadline late) (no_answer 0 turn (omega arith) tt late)
    wait_until-Outcome (suc turns) turn enough = elim (le-or-lt deadline (clock turn)) [
      | inl late ↦ rw (le→ltb (clock turn) deadline late) (no_answer 0 turn (omega arith) tt late)
      | inr early ↦ rw (lt→ltb (clock turn) deadline early) (elim (Bool-cases (connects turn)) [
        | inl answered ↦ rw answered (first_answer 0 turn (omega arith) tt answered early)
        | inr failed ↦ rw failed (
            later turn (wait_until clock connects (suc turns) (suc turn) deadline) failed
              (wait_until-Outcome turns (suc turn) (omega (arith, enough, sleeps turn))))
      ])
    ]

  -- The wait ends: within as many turns as the timeout has seconds, and one, it is answered at the first
  -- attempt that succeeds before the deadline, or raises after the deadline with no attempt answered.
  pub wait_for_database-Outcome :
      (start timeout : ℕ)
      → IsClock start
      → Outcome 0 (start + timeout * second) (wait_for_database clock connects start second timeout)
  unfolding wait_for_database
  wait_for_database-Outcome start timeout is_clock =
      let e : timeout + 1 ≡ suc timeout = omega arith in
      rw e (
        wait_until-Outcome is_clock.sleeps (start + timeout * second) timeout 0
          (omega (arith, is_clock.begins)))
