-- ===== src/Model.antt =====
-- The rows of app/models.py. A declared `BigInteger` that the code only fills with lengths and
-- offsets is a natural number; a text is its code points. The columns `updated_at` of a session
-- and `created_at` of a chunk are left out: no code reads them.
use seismic_trace_resumable.Prelude.{ℕ, Text, Bytes, Option, Bool, true, false}

-- The lifecycle of an upload session.
pub data Status : Type 0 where
  active sealed failed : Status

pub record UploadSession : Type 0 where
  pub id : Text
  pub total_bytes : ℕ
  pub whole_sha256 : Text
  pub confirmed_offset : ℕ
  pub status : Status
  pub computed_sha256 : Option Text
  pub failure_reason : Option Text
  pub created_at : ℕ

-- `payload` is the column `data`.
pub record Chunk : Type 0 where
  pub session_id : Text
  pub start_offset : ℕ
  pub end_offset : ℕ
  pub length : ℕ
  pub sha256 : Text
  pub payload : Bytes

pub data Event : Type 0 where
  audit_sealed audit_compacted : Event

pub record AuditEvent : Type 0 where
  pub session_id : Text
  pub sequence : ℕ
  pub event : Event
  pub occurred_at : ℕ
  pub total_bytes : ℕ
  pub whole_sha256 : Text
  pub target_chunk_bytes : Option ℕ
  pub chunks_before : Option ℕ
  pub chunks_after : Option ℕ

pub data Conclusion : Type 0 where
  identical content_differs length_differs : Conclusion

pub record Comparison : Type 0 where
  pub id : Text
  pub baseline_session_id : Text
  pub candidate_session_id : Text
  pub baseline_total_bytes : ℕ
  pub baseline_whole_sha256 : Text
  pub candidate_total_bytes : ℕ
  pub candidate_whole_sha256 : Text
  pub common_prefix_bytes : ℕ
  pub first_difference_offset : Option ℕ
  pub conclusion : Conclusion
  pub created_at : ℕ

-- `session.status == ACTIVE` and its like.
abbrev pub is_active : Status → Bool
is_active active = true
is_active sealed = false
is_active failed = false

abbrev pub is_sealed : Status → Bool
is_sealed active = false
is_sealed sealed = true
is_sealed failed = false

abbrev pub is_failed : Status → Bool
is_failed active = false
is_failed sealed = false
is_failed failed = true
