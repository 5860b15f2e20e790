-- ===== src/Upload/Replay.antt =====
-- `_ack`, `_stale_offset_error` and `_terminal_replay` of app/service.py.
use seismic_trace_resumable.Prelude.{
  ℕ, ◌+◌, Text, Bytes, ◌=?◌, Bool, true, false, ◌&&◌, Option, none, some, ltb, leb, ◌==◌,
  if◌then◌else◌,
}
use seismic_trace_resumable.Prelude.Int.{pos}
use seismic_trace_resumable.Model.{UploadSession, Status, is_active, is_failed}
use seismic_trace_resumable.Errors.{
  UploadError, upload_error, computed, stale_offset, session_failed_terminal,
  sealed_content_conflict, session_sealed,
}
use seismic_trace_resumable.Tx.{Action, pure, raise, query, ◌>>=◌}
use seismic_trace_resumable.Upload.Archive.{archived_bytes}

pub record Ack : Type 0 where
  pub id : Text
  pub status : Status
  pub start_offset : ℕ
  pub length : ℕ
  pub chunk_sha256 : Text
  pub confirmed_offset : ℕ
  pub expected_offset : ℕ
  pub total_bytes : ℕ
  pub idempotent_replay : Bool

unfoldable pub ack : UploadSession → ℕ → ℕ → Text → Bool → Ack
ack session start length chunk_digest idempotent_replay = record {
  id = session.id;
  status = session.status;
  start_offset = start;
  length = length;
  chunk_sha256 = chunk_digest;
  confirmed_offset = session.confirmed_offset;
  expected_offset =
      if is_active session.status then session.confirmed_offset else session.total_bytes;
  total_bytes = session.total_bytes;
  idempotent_replay = idempotent_replay;
}

unfoldable pub stale_offset_error : UploadSession → ℕ → UploadError
stale_offset_error session start = record (upload_error 409 stale_offset) {
  offset = some (pos start);
  expected_offset = some session.confirmed_offset;
}

-- `archived is not None and archived == payload`
abbrev pub matches : Option Bytes → Bytes → Bool
matches none payload = false
matches (some archived) payload = archived =? payload

unfoldable pub terminal_error : UploadSession → ℕ → ℕ → UploadError
terminal_error session start length =
    if is_failed session.status
    then record (upload_error 409 session_failed_terminal) {
      expected_offset = some session.confirmed_offset;
      expected_digest = some session.whole_sha256;
      details = computed session.computed_sha256;
    }
    else record (upload_error 409 (
        if leb (start + length) session.confirmed_offset
        then sealed_content_conflict
        else session_sealed)) {
          offset = some (pos start);
          expected_offset = some session.total_bytes;
        }

-- Whether the range is inside an archive that is complete; `0 <= start` holds of a natural number.
abbrev pub is_archived : UploadSession → ℕ → ℕ → Bool
is_archived session start end =
    ltb start end
    && leb end session.confirmed_offset
    && session.confirmed_offset == session.total_bytes

unfoldable pub terminal_replay : UploadSession → ℕ → ℕ → Text → Bytes → Action Ack
unfolding ack
terminal_replay session start length chunk_digest payload = do
  archived ← query (λ db. archived_bytes db session.id start (start + length))
  if is_archived session start (start + length) && matches archived payload
      then pure (ack session start length chunk_digest true)
      else raise (terminal_error session start length)
