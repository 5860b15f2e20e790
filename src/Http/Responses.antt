-- ===== src/Http/Responses.antt =====
-- What the routes of app/main.py answer with: the response classes of app/schemas.py and how a route
-- fills them from what the service gives. A `Literal` of states or events is the type of them.
use seismic_trace_resumable.Prelude.{ℕ, Text, Bool, Option, List, map}
use seismic_trace_resumable.Model.{UploadSession, Comparison, Status, Event, Conclusion}
use seismic_trace_resumable.Audit.{AuditSnapshot}
use seismic_trace_resumable.Upload.Replay.{Ack}
use seismic_trace_resumable.Compact.Layout.{Span}
use seismic_trace_resumable.Compact.{CompactResult}

pub record SessionResponse : Type 0 where
  pub id : Text
  pub total_bytes : ℕ
  pub whole_sha256 : Text
  pub confirmed_offset : ℕ
  pub status : Status
  pub computed_sha256 : Option Text
  pub failure_reason : Option Text

abbrev pub session_to_response : UploadSession → SessionResponse
session_to_response session = record {
  id = session.id;
  total_bytes = session.total_bytes;
  whole_sha256 = session.whole_sha256;
  confirmed_offset = session.confirmed_offset;
  status = session.status;
  computed_sha256 = session.computed_sha256;
  failure_reason = session.failure_reason;
}

pub record ChunkAck : Type 0 where
  pub id : Text
  pub status : Status
  pub start_offset : ℕ
  pub length : ℕ
  pub chunk_sha256 : Text
  pub confirmed_offset : ℕ
  pub expected_offset : ℕ
  pub total_bytes : ℕ
  pub idempotent_replay : Bool

-- `ChunkAck(**ack)`
abbrev pub chunk_ack : Ack → ChunkAck
chunk_ack ack = record {
  id = ack.id;
  status = ack.status;
  start_offset = ack.start_offset;
  length = ack.length;
  chunk_sha256 = ack.chunk_sha256;
  confirmed_offset = ack.confirmed_offset;
  expected_offset = ack.expected_offset;
  total_bytes = ack.total_bytes;
  idempotent_replay = ack.idempotent_replay;
}

pub record ChunkInfo : Type 0 where
  pub start_offset : ℕ
  pub end_offset : ℕ
  pub length : ℕ
  pub sha256 : Text

abbrev pub chunk_info : Span → ChunkInfo
chunk_info span = record {
  start_offset = span.start_offset;
  end_offset = span.end_offset;
  length = span.length;
  sha256 = span.sha256;
}

-- The status of every result is `SEALED`, the one that the class takes.
pub record CompactResponse : Type 0 where
  pub id : Text
  pub status : Status
  pub target_chunk_bytes : ℕ
  pub chunks_before : ℕ
  pub chunks_after : ℕ
  pub total_bytes_before : ℕ
  pub total_bytes_after : ℕ
  pub whole_sha256 : Text
  pub chunks : List ChunkInfo

-- `CompactResponse(**result)`
abbrev pub compact_response : CompactResult → CompactResponse
compact_response result = record {
  id = result.id;
  status = result.status;
  target_chunk_bytes = result.target_chunk_bytes;
  chunks_before = result.chunks_before;
  chunks_after = result.chunks_after;
  total_bytes_before = result.total_bytes_before;
  total_bytes_after = result.total_bytes_after;
  whole_sha256 = result.whole_sha256;
  chunks = map chunk_info result.chunks;
}

pub record AuditEventResponse : Type 0 where
  pub sequence : ℕ
  pub event : Event
  pub occurred_at : ℕ
  pub total_bytes : ℕ
  pub whole_sha256 : Text
  pub target_chunk_bytes : Option ℕ
  pub chunks_before : Option ℕ
  pub chunks_after : Option ℕ

abbrev pub audit_event_response : AuditSnapshot → AuditEventResponse
audit_event_response snapshot = record {
  sequence = snapshot.sequence;
  event = snapshot.event;
  occurred_at = snapshot.occurred_at;
  total_bytes = snapshot.total_bytes;
  whole_sha256 = snapshot.whole_sha256;
  target_chunk_bytes = snapshot.target_chunk_bytes;
  chunks_before = snapshot.chunks_before;
  chunks_after = snapshot.chunks_after;
}

pub record AuditTrailResponse : Type 0 where
  pub id : Text
  pub events : List AuditEventResponse

pub record ComparisonResponse : Type 0 where
  pub id : Text
  pub baseline_session_id : Text
  pub candidate_session_id : Text
  pub baseline_total_bytes : ℕ
  pub baseline_whole_sha256 : Text
  pub candidate_total_bytes : ℕ
  pub candidate_whole_sha256 : Text
  pub common_prefix_bytes : ℕ
  pub first_difference_offset : Option ℕ
  pub conclusion : Conclusion
  pub created_at : ℕ

abbrev pub comparison_to_response : Comparison → ComparisonResponse
comparison_to_response row = record {
  id = row.id;
  baseline_session_id = row.baseline_session_id;
  candidate_session_id = row.candidate_session_id;
  baseline_total_bytes = row.baseline_total_bytes;
  baseline_whole_sha256 = row.baseline_whole_sha256;
  candidate_total_bytes = row.candidate_total_bytes;
  candidate_whole_sha256 = row.candidate_whole_sha256;
  common_prefix_bytes = row.common_prefix_bytes;
  first_difference_offset = row.first_difference_offset;
  conclusion = row.conclusion;
  created_at = row.created_at;
}
