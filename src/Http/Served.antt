-- ===== src/Http/Served.antt =====
-- The service as its clients see it: every route of app/main.py as one call, checks of the body
-- included, and the databases that sequences of calls lead to. What the database does with a LIMIT
-- below zero and with `SELECT 1`, and the settings, are parameters.
pub mod Quiet
pub mod Lives
pub mod RoundTrip
pub mod Retry
pub mod Resume
use seismic_trace_resumable.Prelude.{ℕ, ◌≡◌, Text, Bytes, Option, none, some, List}
use seismic_trace_resumable.Prelude.Int.{ℤ}
use seismic_trace_resumable.Hashlib.{Hashlib}
use seismic_trace_resumable.Model.{UploadSession}
use seismic_trace_resumable.Errors.{Argument}
use seismic_trace_resumable.Storage.{Db, get_session, stored_comparison}
use seismic_trace_resumable.Tx.{Action, serve}
use seismic_trace_resumable.Audit.{Env}
use seismic_trace_resumable.Http.Content.{download_content}
use seismic_trace_resumable.Http.Uploads.{upload_request}
use seismic_trace_resumable.Http.Sessions.{
  session_create, post_session, list_sessions, show_session, list_chunks,
}
use seismic_trace_resumable.Http.Archives.{
  health, audit_trail, compact_request, compact_session, comparison_create, post_comparison,
  show_comparison,
}

-- `digit_limit` is the number of digits that `int` converts.
pub record Server : Type 0 where
  pub max_chunk_bytes : ℕ
  pub digit_limit : ℕ
  pub negative : Action (List UploadSession)
  pub select_one : Action (Unit {0})

pub data Read : Type 0 where
  read_health : Read
  read_sessions : (status : Option Text) (limit offset : ℤ) → Read
  read_session : (id : Text) → Read
  read_chunks : (id : Text) → Read
  read_audit : (id : Text) → Read
  read_content : (id : Text) (range_values : List Text) → Read
  read_comparison : (id : Text) → Read

pub data Call : Type 0 where
  -- The identifier is the one that `uuid.uuid4()` draws.
  register : (id : Text) (total_bytes : ℤ) (whole_sha256 : Text) → Call
  upload : (id : Text) (start count : ℤ) (sha256 : Text) (blocks : List Bytes) → Call
  repack : (id : Text) (target : Argument) → Call
  contrast : (id baseline_id candidate_id : Text) → Call
  reads : Read → Call

-- A drawn identifier is of no row yet.
abbrev pub IsDrawn : Db → Call → Type 0
IsDrawn db (register id total_bytes whole_sha256) = get_session db id ≡ none
IsDrawn db (upload id start count sha256 blocks) = Unit
IsDrawn db (repack id target) = Unit
IsDrawn db (contrast id baseline_id candidate_id) = stored_comparison db id ≡ none
IsDrawn db (reads r) = Unit

module _ (H : Hashlib) (server : Server) where
  -- The database after a GET.
  abbrev pub after_read : Read → Db → Db
  after_read read_health db = (serve (health server.select_one) db).1
  after_read (read_sessions status limit offset) db =
      (serve (list_sessions server.negative status limit offset) db).1
  after_read (read_session id) db = (serve (show_session id) db).1
  after_read (read_chunks id) db = (serve (list_chunks id) db).1
  after_read (read_audit id) db = (serve (audit_trail id) db).1
  after_read (read_content id range_values) db =
      (serve (download_content H server.digit_limit id range_values) db).1
  after_read (read_comparison id) db = (serve (show_comparison id) db).1

  -- The database after a call. A body that does not validate reaches no route.
  abbrev pub after_call : Env → Call → Db → Db
  after_call env (register id total_bytes whole_sha256) db =
      elim (session_create total_bytes whole_sha256) [
        | none ↦ db
        | some payload ↦ (serve (post_session H env id payload) db).1
      ]
  after_call env (upload id start count sha256 blocks) db =
      (serve (upload_request H env server.max_chunk_bytes id start count sha256 blocks) db).1
  after_call env (repack id target) db = elim (compact_request target) [
    | none ↦ db
    | some target_chunk_bytes ↦ (serve (compact_session H env id target_chunk_bytes) db).1
  ]
  after_call env (contrast id baseline_id candidate_id) db =
      elim (comparison_create baseline_id candidate_id) [
        | none ↦ db
        | some payload ↦ (serve (post_comparison H env id payload) db).1
      ]
  after_call env (reads r) db = after_read r db

  pub data Served (db : Db) : Db → Type 0 where
    opens : Served db db
    calls :
        {db' : Db}
        → Served db db'
        → (env : Env) (call : Call) → IsDrawn db' call
        → Served db (after_call env call db')
