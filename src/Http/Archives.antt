-- ===== src/Http/Archives.antt =====
-- The routes of app/main.py on sealed archives, the audit trail, compaction and comparisons, and the
-- health check, with the request checks of app/schemas.py.
pub mod Told
use seismic_trace_resumable.Prelude.{ℕ, zero, suc, Text, codes, Option, none, some, [], ◌∷◌, map}
use seismic_trace_resumable.Prelude.Int.{pos, negsuc}
use seismic_trace_resumable.Hashlib.{Hashlib}
use seismic_trace_resumable.Errors.{Argument, integer, boolean, other}
use seismic_trace_resumable.Tx.{Action, pure, ◌>>=◌, ◌>>◌}
use seismic_trace_resumable.Audit.{Env, get_audit_trail}
use seismic_trace_resumable.Compact.{compact_sealed}
use seismic_trace_resumable.Compare.Record.{create_comparison, get_comparison}
use seismic_trace_resumable.Http.Responses.{
  CompactResponse, compact_response, AuditTrailResponse, audit_event_response, ComparisonResponse,
  comparison_to_response,
}

-- GET /health. `select_one` is the statement `SELECT 1`, as the database answers it.
unfoldable pub health : Action (Unit {0}) → Action Text
health select_one = do select_one; pure (codes "ok")

-- GET /sessions/{session_id}/audit
unfoldable pub audit_trail : Text → Action AuditTrailResponse
audit_trail session_id = do
  events ← get_audit_trail session_id
  pure (record { id = session_id; events = map audit_event_response events })

-- The schema's check of a target: a strict integer above zero.
unfoldable pub compact_request : Argument → Option ℕ
compact_request (integer (pos zero)) = none
compact_request (integer (pos (suc n))) = some (suc n)
compact_request (integer (negsuc n)) = none
compact_request (boolean b) = none
compact_request (other t) = none

-- POST /sessions/{session_id}/compact
unfoldable pub compact_session : Hashlib → Env → Text → ℕ → Action CompactResponse
compact_session H env session_id target_chunk_bytes = do
  result ← compact_sealed H env session_id (integer (pos target_chunk_bytes))
  pure (compact_response result)

-- The schema's check of the two identifiers.
unfoldable pub comparison_create : Text → Text → Option (Text × Text)
comparison_create [] candidate_session_id = none
comparison_create (c ∷ cs) [] = none
comparison_create (c ∷ cs) (d ∷ ds) = some (c ∷ cs, d ∷ ds)

-- POST /comparisons
unfoldable pub post_comparison : Hashlib → Env → Text → Text × Text → Action ComparisonResponse
post_comparison H env id (baseline_session_id, candidate_session_id) = do
  row ← create_comparison H env id baseline_session_id candidate_session_id
  pure (comparison_to_response row)

-- GET /comparisons/{comparison_id}
unfoldable pub show_comparison : Text → Action ComparisonResponse
show_comparison comparison_id = do
  row ← get_comparison comparison_id
  pure (comparison_to_response row)
