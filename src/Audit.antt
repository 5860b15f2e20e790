-- ===== src/Audit.antt =====
-- The audit trail of app/service.py: `_next_audit_sequence`, `_add_audit`, `get_audit_trail`.
pub mod Laws
pub mod Trail
pub mod Numbers
use seismic_trace_resumable.Prelude.{ℕ, ◌+◌, Text, Bool, true, false, Option, none, some, List, map}
use seismic_trace_resumable.Model.{UploadSession, AuditEvent, Event}
use seismic_trace_resumable.Errors.{upload_error, session_not_found, audit_write_failed}
use seismic_trace_resumable.Storage.{Db, get_session, audit_of, max_sequence, insert_audit}
use seismic_trace_resumable.Tx.{Action, pure, raise, query, or_raise, modify, rollback, ◌>>=◌, ◌>>◌}

-- What a request takes from outside: the clock, and whether the database refuses the flush of an
-- audit row for a reason of its own.
pub record Env : Type 0 where
  pub now : ℕ
  pub refuses_audit : Bool

unfoldable pub next_audit_sequence : Db → Text → ℕ
next_audit_sequence db session_id = max_sequence (audit_of db session_id) + 1

-- `db.flush()` with the new row pending.
flush_audit : Env → AuditEvent → Db → Option Db
flush_audit env row db = elim env.refuses_audit [ true ↦ none | false ↦ insert_audit row db ]

written : Option Db → Action (Unit {0})
written none = do rollback; raise (upload_error 500 audit_write_failed)
written (some db) = modify (λ _. db)

unfoldable pub add_audit :
    Env → UploadSession → Event → ℕ → Text → Option ℕ → Option ℕ → Option ℕ → Action (Unit {0})
unfolding next_audit_sequence flush_audit written
add_audit env session event total_bytes whole_sha256 target_chunk_bytes chunks_before chunks_after =
    do
      sequence ← query (λ db. next_audit_sequence db session.id)
      let row : AuditEvent = record {
        session_id = session.id;
        sequence = sequence;
        event = event;
        occurred_at = env.now;
        total_bytes = total_bytes;
        whole_sha256 = whole_sha256;
        target_chunk_bytes = target_chunk_bytes;
        chunks_before = chunks_before;
        chunks_after = chunks_after;
      }
      flushed ← query (flush_audit env row)
      written flushed

-- The fields of a row that an answer shows.
pub record AuditSnapshot : Type 0 where
  pub sequence : ℕ
  pub event : Event
  pub occurred_at : ℕ
  pub total_bytes : ℕ
  pub whole_sha256 : Text
  pub target_chunk_bytes : Option ℕ
  pub chunks_before : Option ℕ
  pub chunks_after : Option ℕ

abbrev pub audit_to_dict : AuditEvent → AuditSnapshot
audit_to_dict row = record {
  sequence = row.sequence;
  event = row.event;
  occurred_at = row.occurred_at;
  total_bytes = row.total_bytes;
  whole_sha256 = row.whole_sha256;
  target_chunk_bytes = row.target_chunk_bytes;
  chunks_before = row.chunks_before;
  chunks_after = row.chunks_after;
}

unfoldable pub get_audit_trail : Text → Action (List AuditSnapshot)
get_audit_trail session_id = do
  found ← query (λ db. get_session db session_id)
  or_raise (upload_error 404 session_not_found) found
  rows ← query (λ db. audit_of db session_id)
  pure (map audit_to_dict rows)
