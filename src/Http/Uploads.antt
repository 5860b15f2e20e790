-- ===== src/Http/Uploads.antt =====
-- `_chunk_payload` and `upload_chunk` of app/main.py, PUT /sessions/{session_id}/chunks. The body comes in
-- blocks, as the server hands them on; `max_chunk_bytes` is MAX_CHUNK_BYTES of app/config.py.
pub mod Checks
pub mod Accepts
use seismic_trace_resumable.Prelude.{
  ℕ, Text, Bytes, Bool, not, none, some, List, [], ◌∷◌, ◌++◌, length, ltb, if◌then◌else◌,
}
use seismic_trace_resumable.Prelude.Int.{ℤ, pos}
use seismic_trace_resumable.Hashlib.{Hashlib}
use seismic_trace_resumable.Errors.{
  UploadError, upload_error, received_limit, chunk_too_large, invalid_digest,
}
use seismic_trace_resumable.Tx.{Action, Result, ok, err, pure, raise, raise_if, ◌>>=◌, ◌>>◌}
use seismic_trace_resumable.Audit.{Env}
use seismic_trace_resumable.Upload.Put.{non_negative, put_chunk}
use seismic_trace_resumable.Http.Responses.{ChunkAck, chunk_ack}
use seismic_trace_resumable.Http.Strings.{lower}
use seismic_trace_resumable.Http.Digests.{is_sha256_query}

abbrev pub body_error : ℕ → ℕ → UploadError
body_error max_chunk_bytes received = record (upload_error 413 chunk_too_large) {
  details = received_limit received max_chunk_bytes;
}

-- The loop over the blocks, with the bytes that it has.
unfoldable pub chunk_payload : ℕ → Bytes → List Bytes → Result Bytes
chunk_payload max_chunk_bytes payload [] = ok payload
chunk_payload max_chunk_bytes payload (block ∷ blocks) =
    let rest = chunk_payload max_chunk_bytes (payload ++ block) blocks in
    if ltb max_chunk_bytes (length (payload ++ block))
    then err (body_error max_chunk_bytes (length (payload ++ block)))
    else rest

module _ (H : Hashlib) (env : Env) (max_chunk_bytes : ℕ) where
  unfoldable pub upload_chunk : Text → ℤ → ℤ → Text → Bytes → Action ChunkAck
  upload_chunk session_id start length sha256 payload = do
    raise_if (not (is_sha256_query sha256))
        (record (upload_error 422 invalid_digest) { offset = some start; digest = some sha256 })
    checked ← non_negative start length
    raise_if (ltb max_chunk_bytes checked.1)
        (record (upload_error 413 chunk_too_large) { offset = some (pos checked.0) })
    ack ← put_chunk H env session_id (pos checked.0) (pos checked.1) (lower sha256) payload
    pure (chunk_ack ack)

  with_payload : Text → ℤ → ℤ → Text → Result Bytes → Action ChunkAck
  with_payload session_id start length sha256 (err e) = raise e
  with_payload session_id start length sha256 (ok payload) =
      upload_chunk session_id start length sha256 payload

  -- The request: the body is read before the endpoint runs.
  unfoldable pub upload_request : Text → ℤ → ℤ → Text → List Bytes → Action ChunkAck
  unfolding with_payload
  upload_request session_id start length sha256 blocks =
      with_payload session_id start length sha256 (chunk_payload max_chunk_bytes [] blocks)
