-- ===== src/History.antt =====
-- The service over time: each request of app/main.py that changes a session runs to its end before
-- the next one to that session starts (the row lock), so what the database goes through is a
-- sequence of whole requests of any clients, in any order, each with its own clock and its own luck
-- with the audit flush. Compactions come in with `Lives`.
pub mod Reached
pub mod Uploads
pub mod RoundTrip
pub mod Lives
pub mod Comparisons
pub mod Truths
pub mod Terms
pub mod Retry
pub mod Race
pub mod Interleaved
pub mod Widths
use seismic_trace_resumable.Prelude.{ℕ, ◌≡◌, Text, Bytes, [], none}
use seismic_trace_resumable.Prelude.Int.{ℤ}
use seismic_trace_resumable.Hashlib.{Hashlib}
use seismic_trace_resumable.Storage.{Db, get_session, stored_comparison}
use seismic_trace_resumable.Tx.{serve}
use seismic_trace_resumable.Audit.{Env}
use seismic_trace_resumable.Upload.Session.{create_session}
use seismic_trace_resumable.Upload.Put.{put_chunk}
use seismic_trace_resumable.Compare.Record.{create_comparison}

-- The tables after `init_db`.
abbrev pub empty_db : Db
empty_db = record { sessions = []; chunks = []; audit_events = []; comparisons = [] }

pub data Request : Type 0 where
  -- POST /sessions; the identifier is the `uuid.uuid4()` that the request draws.
  create : (id : Text) (total : ℕ) (whole : Text) → Request
  -- PUT /sessions/{session_id}/chunks
  put : (id : Text) (start count : ℤ) (chunk_digest : Text) (payload : Bytes) → Request
  -- POST /comparisons, with the identifier that the request draws.
  compare : (id baseline_id candidate_id : Text) → Request

-- A drawn identifier is of no row yet.
abbrev pub IsPossible : Db → Request → Type 0
IsPossible db (create id total whole) = get_session db id ≡ none
IsPossible db (put id start count d payload) = Unit
IsPossible db (compare id baseline_id candidate_id) = stored_comparison db id ≡ none

module _ (H : Hashlib) where
  -- The database after a request.
  abbrev pub after : Env → Request → Db → Db
  after env (create id total whole) db = (serve (create_session H env id total whole) db).1
  after env (put id start count d payload) db =
      (serve (put_chunk H env id start count d payload) db).1
  after env (compare id baseline_id candidate_id) db =
      (serve (create_comparison H env id baseline_id candidate_id) db).1

  pub data Steps (db : Db) : Db → Type 0 where
    here : Steps db db
    next :
        {db' : Db}
        → Steps db db'
        → (env : Env) (request : Request) → IsPossible db' request
        → Steps db (after env request db')
