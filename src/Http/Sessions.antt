-- ===== src/Http/Sessions.antt =====
-- The routes of app/main.py that register, list and show sessions and their chunks.
pub mod Listing
pub mod Among
use seismic_trace_resumable.Prelude.{
  ℕ, zero, suc, min, Text, Bool, true, false, codes, ◌=?◌, Option, none, some, List, [], ◌∷◌, map,
  take, drop, keep_if, leb, ◌==◌, if◌then◌else◌,
}
use seismic_trace_resumable.Prelude.Int.{ℤ, pos, negsuc}
use seismic_trace_resumable.Hashlib.{Hashlib}
use seismic_trace_resumable.Model.{
  UploadSession, AuditEvent, Comparison, Status, active, sealed, failed,
}
use seismic_trace_resumable.Errors.{
  upload_error, Argument, integer, boolean, other, session_not_found, invalid_status,
}
use seismic_trace_resumable.Storage.{Db, get_session, chunks_of}
use seismic_trace_resumable.Tx.{Action, pure, raise, query, or_raise, ◌>>=◌}
use seismic_trace_resumable.Audit.{Env, get_audit_trail}
use seismic_trace_resumable.Upload.Session.{create_session}
use seismic_trace_resumable.Compact.Layout.{Span, layout_of}
use seismic_trace_resumable.Compact.{CompactResult, compact_sealed}
use seismic_trace_resumable.Compare.Record.{create_comparison, get_comparison}
use seismic_trace_resumable.Http.Responses.{SessionResponse, session_to_response}
use seismic_trace_resumable.Http.Digests.{validate_sha256}

pub record SessionCreate : Type 0 where
  pub total_bytes : ℕ
  pub whole_sha256 : Text

-- The schema's checks of a body; `none` is a validation error.
unfoldable pub session_create : ℤ → Text → Option SessionCreate
session_create (negsuc n) whole_sha256 = none
session_create (pos total_bytes) whole_sha256 = elim (validate_sha256 whole_sha256) [
  | none ↦ none
  | some digest ↦ some (record { total_bytes = total_bytes; whole_sha256 = digest })
]

-- POST /sessions
unfoldable pub post_session : Hashlib → Env → Text → SessionCreate → Action SessionResponse
post_session H env id payload = do
  session ← create_session H env id payload.total_bytes payload.whole_sha256
  pure (session_to_response session)

abbrev pub status_name : Status → Text
status_name active = codes "active"
status_name sealed = codes "sealed"
status_name failed = codes "failed"

insert_newest : UploadSession → List UploadSession → List UploadSession
insert_newest u [] = u ∷ []
insert_newest u (v ∷ vs) =
    if leb v.created_at u.created_at then u ∷ v ∷ vs else v ∷ insert_newest u vs

-- ORDER BY created_at DESC. Rows of the same time come as the database has them.
newest_first : List UploadSession → List UploadSession
unfolding insert_newest
newest_first [] = []
newest_first (u ∷ us) = insert_newest u (newest_first us)

-- `status not in ("active", "sealed", "failed")`, turned about.
abbrev pub is_status : Text → Bool
is_status name =
    if name =? codes "active"
    then true
    else if name =? codes "sealed"
    then true
    else name =? codes "failed"

abbrev pub max_page : ℕ
max_page = 1000

-- `max(offset, 0)`
abbrev pub page_start : ℤ → ℕ
page_start (pos n) = n
page_start (negsuc n) = 0

-- The rows that the filter keeps.
unfoldable pub selected : Option Text → Db → List UploadSession
unfolding newest_first
selected none db = newest_first db.sessions
selected (some name) db = newest_first (keep_if (λ u. status_name u.status =? name) db.sessions)

-- LIMIT min(limit, 1000) OFFSET max(offset, 0). `negative` is what the database does with a LIMIT below
-- zero; PostgreSQL refuses it.
unfoldable pub page_of :
    Action (List UploadSession) → Option Text → ℤ → ℤ → Action (List UploadSession)
page_of negative name (pos limit) offset =
    query (λ db. take (min limit max_page) (drop (page_start offset) (selected name db)))
page_of negative name (negsuc n) offset = negative

unfoldable pub checked_page :
    Action (List UploadSession) → Option Text → ℤ → ℤ → Action (List UploadSession)
unfolding page_of
checked_page negative none limit offset = page_of negative none limit offset
checked_page negative (some name) limit offset =
    if is_status name
    then page_of negative (some name) limit offset
    else raise (upload_error 422 invalid_status)

-- GET /sessions
unfoldable pub list_sessions :
    Action (List UploadSession) → Option Text → ℤ → ℤ → Action (List SessionResponse)
unfolding checked_page
list_sessions negative status limit offset = do
  rows ← checked_page negative status limit offset
  pure (map session_to_response rows)

-- GET /sessions/{session_id}
unfoldable pub show_session : Text → Action SessionResponse
show_session session_id = do
  found ← query (λ db. get_session db session_id)
  session ← or_raise (upload_error 404 session_not_found) found
  pure (session_to_response session)

pub record ChunkList : Type 0 where
  pub id : Text
  pub status : Status
  pub confirmed_offset : ℕ
  pub total_bytes : ℕ
  pub chunks : List Span

-- GET /sessions/{session_id}/chunks
unfoldable pub list_chunks : Text → Action ChunkList
list_chunks session_id = do
  found ← query (λ db. get_session db session_id)
  session ← or_raise (upload_error 404 session_not_found) found
  rows ← query (λ db. chunks_of db session_id)
  pure (record {
    id = session_id;
    status = session.status;
    confirmed_offset = session.confirmed_offset;
    total_bytes = session.total_bytes;
    chunks = layout_of rows;
  })
