-- ===== src/Upload/Put.antt =====
-- `put_chunk` of app/service.py, in the order of its checks.
pub mod Accept
pub mod Stored
pub mod Branches
pub mod Request
pub mod Effect
pub mod Held
pub mod Confirmed
pub mod Conflict
pub mod Keeps
pub mod Isolation
use seismic_trace_resumable.Prelude.{
  ℕ, ◌+◌, Text, Bytes, ◌=?◌, Bool, true, false, not, ◌&&◌, none, some, length, ltb, leb, ◌==◌,
  if◌then◌else◌,
}
use seismic_trace_resumable.Prelude.Int.{ℤ, pos, negsuc}
use seismic_trace_resumable.Hashlib.{Hashlib, digest}
use seismic_trace_resumable.Model.{UploadSession, Chunk, is_active, is_failed}
use seismic_trace_resumable.Errors.{
  UploadError, upload_error, at_length, lengths, bounds, invalid_offset, invalid_length,
  length_mismatch, chunk_digest_mismatch, chunk_beyond_total, whole_digest_mismatch,
}
use seismic_trace_resumable.Storage.{put_session, insert_chunk}
use seismic_trace_resumable.Tx.{
  Action, pure, raise, raise_if, query, modify, commit, rollback, ◌>>=◌, ◌>>◌, ok,
}
use seismic_trace_resumable.Audit.{Env}
use seismic_trace_resumable.Upload.Archive.{archived_bytes}
use seismic_trace_resumable.Upload.Session.{get_locked_session}
use seismic_trace_resumable.Upload.Finalize.{verify_and_finalize}
use seismic_trace_resumable.Upload.Replay.{Ack, ack, matches, stale_offset_error, terminal_replay}

-- `start < 0`, then `declared_length < 0`.
unfoldable pub non_negative : ℤ → ℤ → Action (ℕ × ℕ)
non_negative (negsuc n) length =
    raise (record (upload_error 422 invalid_offset) { offset = some (negsuc n) })
non_negative (pos start) (negsuc n) = raise (record (upload_error 422 invalid_length) {
  offset = some (pos start);
  details = at_length (negsuc n);
})
non_negative (pos start) (pos length) = pure (start, length)

abbrev pub new_chunk : UploadSession → ℕ → ℕ → Text → Bytes → Chunk
new_chunk session start declared_length chunk_digest payload = record {
  session_id = session.id;
  start_offset = start;
  end_offset = start + declared_length;
  length = declared_length;
  sha256 = chunk_digest;
  payload = payload;
}

-- `db.flush()` with the new chunk pending: the answer says whether the database took it.
unfoldable pub flush_chunk : Chunk → Action Bool
flush_chunk c t = elim (insert_chunk c t.working) [
  | none ↦ (ok false, t)
  | some db ↦ (ok true, record t { working = db })
]

abbrev pub length_error : ℕ → ℕ → Bytes → UploadError
length_error start declared_length payload = record (upload_error 422 length_mismatch) {
  offset = some (pos start);
  details = lengths declared_length (length payload);
}

abbrev pub beyond_error : UploadSession → ℕ → ℕ → UploadError
beyond_error session start declared_length = record (upload_error 416 chunk_beyond_total) {
  offset = some (pos start);
  expected_offset = some session.confirmed_offset;
  details = bounds (start + declared_length) session.total_bytes;
}

module _ (H : Hashlib) where
  abbrev pub digest_error : ℕ → Text → Bytes → UploadError
  digest_error start chunk_digest payload = record (upload_error 400 chunk_digest_mismatch) {
    offset = some (pos start);
    digest = some chunk_digest;
    expected_digest = some (digest H payload);
  }

  unfoldable pub check_payload : UploadSession → ℕ → ℕ → Text → Bytes → Action (Unit {0})
  check_payload session start declared_length chunk_digest payload = do
    raise_if (not (length payload == declared_length)) (length_error start declared_length payload)
    raise_if (not (digest H payload =? chunk_digest)) (digest_error start chunk_digest payload)
    raise_if (ltb session.total_bytes (start + declared_length))
        (beyond_error session start declared_length)

module _ (H : Hashlib) (env : Env) where
  -- After an IntegrityError: idempotent, if the bytes are there.
  unfoldable pub duplicate : Text → ℕ → ℕ → Text → Bytes → Action Ack
  duplicate session_id start declared_length chunk_digest payload = do
    rollback
    session ← get_locked_session session_id
    archived ← query (λ db. archived_bytes db session_id start (start + declared_length))
    if matches archived payload
        then pure (ack session start declared_length chunk_digest true)
        else raise (stale_offset_error session start)

  unfoldable pub finalize_at_end : UploadSession → Action UploadSession
  finalize_at_end session =
      if session.confirmed_offset == session.total_bytes
      then verify_and_finalize H env session
      else pure session

  -- The new chunk is stored: move the checkpoint, settle a complete package, and commit.
  unfoldable pub accept : UploadSession → ℕ → ℕ → Text → Action Ack
  accept session start declared_length chunk_digest = do
    let end = start + declared_length
    let moved : UploadSession = record session { confirmed_offset = end }
    modify (put_session moved)
    settled ← finalize_at_end moved
    commit
    raise_if (end == session.total_bytes && is_failed settled.status)
        (record (upload_error 422 whole_digest_mismatch) {
          offset = some (pos settled.total_bytes);
          digest = some settled.whole_sha256;
          expected_digest = settled.computed_sha256;
        })
    pure (ack settled start declared_length chunk_digest false)

  unfoldable pub forward : UploadSession → ℕ → ℕ → Text → Bytes → Action Ack
  forward session start declared_length chunk_digest payload = do
    taken ← flush_chunk (new_chunk session start declared_length chunk_digest payload)
    if taken
        then accept session start declared_length chunk_digest
        else duplicate session.id start declared_length chunk_digest payload

  unfoldable pub stale : UploadSession → ℕ → ℕ → Text → Bytes → Action Ack
  stale session start declared_length chunk_digest payload = do
    archived ← query (λ db. archived_bytes db session.id start (start + declared_length))
    if leb (start + declared_length) session.confirmed_offset && matches archived payload
        then (do commit; pure (ack session start declared_length chunk_digest true))
        else raise (stale_offset_error session start)

  unfoldable pub put_active : UploadSession → ℕ → ℕ → Text → Bytes → Action Ack
  put_active session start declared_length chunk_digest payload =
      let confirmed = session.confirmed_offset in
      let end = start + declared_length in
      if start == confirmed && ltb confirmed end
      then forward session start declared_length chunk_digest payload
      else if start == confirmed && end == confirmed
      then (do commit; pure (ack session start 0 chunk_digest true))
      else stale session start declared_length chunk_digest payload

  unfoldable pub put_chunk : Text → ℤ → ℤ → Text → Bytes → Action Ack
  put_chunk session_id start declared_length chunk_digest payload = do
    session ← get_locked_session session_id
    (start, declared_length) ← non_negative start declared_length
    check_payload H session start declared_length chunk_digest payload
    if is_active session.status
        then put_active session start declared_length chunk_digest payload
        else (do
          ack ← terminal_replay session start declared_length chunk_digest payload
          commit
          pure ack)
