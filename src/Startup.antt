-- ===== src/Startup.antt =====
-- What runs before the first request: `_database_url` of app/config.py and `wait_for_database` of
-- app/database.py. The environment, the clock and whether an attempt to connect succeeds are
-- parameters; the table creation of `init_db` is SQLAlchemy's.
pub mod Waits
use seismic_trace_resumable.Prelude.{
  ℕ, zero, suc, ◌+◌, ◌*◌, Text, Bool, codes, Option, none, some, [], ◌++◌, ltb, if◌then◌else◌,
}
use seismic_trace_resumable.Http.Strings.{is_empty}

module _ (getenv : Text → Option Text) where
  -- `os.getenv(name, default)`
  getenv_or : Text → Text → Text
  getenv_or name default = elim (getenv name) [ none ↦ default | some value ↦ value ]

  composed_url : Text
  unfolding getenv_or
  composed_url =
      codes "postgresql+psycopg://"
      ++ getenv_or (codes "POSTGRES_USER") (codes "seis")
      ++ codes ":"
      ++ getenv_or (codes "POSTGRES_PASSWORD") (codes "seis")
      ++ codes "@"
      ++ getenv_or (codes "POSTGRES_HOST") (codes "db")
      ++ codes ":"
      ++ getenv_or (codes "POSTGRES_PORT") (codes "5432")
      ++ codes "/"
      ++ getenv_or (codes "POSTGRES_DB") (codes "seis")

  -- An empty DATABASE_URL counts as none.
  unfoldable pub database_url : Text
  unfolding composed_url
  database_url = elim (getenv (codes "DATABASE_URL")) [
    | none ↦ composed_url
    | some url ↦ if is_empty url then composed_url else url
  ]

-- How the wait ends: the attempt that was answered, or the error after the deadline.
pub data Waited : Type 0 where
  reached : ℕ → Waited
  timed_out : Waited

-- The clock as the loop reads it at its `n`-th turn, and whether the `n`-th attempt succeeds.
module _ (clock : ℕ → ℕ) (connects : ℕ → Bool) where
  -- The loop from a turn on; `none` is a loop that has not ended within the turns given.
  unfoldable pub wait_until : ℕ → ℕ → ℕ → Option Waited
  wait_until zero turn deadline = none
  wait_until (suc turns) turn deadline =
      let rest = wait_until turns (suc turn) deadline in
      if ltb (clock turn) deadline
      then (if connects turn then some (reached turn) else rest)
      else some timed_out

  -- `start` is the reading from which the deadline is reckoned, `second` the clock's ticks in a second.
  unfoldable pub wait_for_database : ℕ → ℕ → ℕ → Option Waited
  wait_for_database start second timeout = wait_until (timeout + 1) 0 (start + timeout * second)
