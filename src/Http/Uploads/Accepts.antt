-- ===== src/Http/Uploads/Accepts.antt =====
-- The upload requests that reach the service.
use seismic_trace_resumable.Prelude.{
  joined, ℕ, ◌≤◌, ◌≡◌, inl, inr, refl, true, ◌∙◌, Text, Bytes, List, [], length, le→ltb, arith,
}
use seismic_trace_resumable.Prelude.Int.{pos}
use seismic_trace_resumable.Hashlib.{Hashlib}
use seismic_trace_resumable.Storage.{Db}
use seismic_trace_resumable.Tx.{ok, serve, pure, ◌>>=◌}
use seismic_trace_resumable.Audit.{Env}
use seismic_trace_resumable.Upload.Put.{non_negative, put_chunk}
use seismic_trace_resumable.Http.Responses.{chunk_ack}
use seismic_trace_resumable.Http.Strings.{lower}
use seismic_trace_resumable.Http.Digests.{is_sha256_query}
use seismic_trace_resumable.Http.Digests.Normal.{IsDigest, is_sha256_query-IsDigest}
use seismic_trace_resumable.Http.Uploads.{chunk_payload, upload_chunk, with_payload, upload_request}
use seismic_trace_resumable.Http.Uploads.Checks.{chunk_payload_lem}

-- A body that fits is read whole, in whatever blocks it comes.
chunk_payload-fits :
    (limit : ℕ) (blocks : List Bytes)
    → length (joined blocks) ≤ limit
    → chunk_payload limit [] blocks ≡ ok (joined blocks)
chunk_payload-fits limit blocks fits = elim (chunk_payload_lem limit blocks) [
  | inl (_, read) ↦ read
  | inr (received, above, within, _) ↦ absurd (omega arith)
]

-- A request with natural numbers, a digest by its form, and a length and a body within the limit is
-- answered by the service's upload of the whole body under the digest in lower case.
pub upload_request_complete :
    (H : Hashlib) (env : Env) (limit : ℕ) (db : Db) (id : Text) (start count : ℕ) (sha256 : Text)
    (blocks : List Bytes)
    → is_sha256_query sha256 ≡ true
    → count ≤ limit
    → length (joined blocks) ≤ limit
    → serve (upload_request H env limit id (pos start) (pos count) sha256 blocks) db
      ≡ serve
          (put_chunk H env id (pos start) (pos count) (lower sha256) (joined blocks) >>= λ ack.
            pure (chunk_ack ack))
          db
unfolding upload_request with_payload upload_chunk non_negative
upload_request_complete H env limit db id start count sha256 blocks hex capped fits =
    rw (chunk_payload-fits limit blocks fits, hex, le→ltb limit count capped) refl

-- The same for the digest of the body, in its normal form.
pub upload_request-IsDigest :
    (H : Hashlib) (env : Env) (limit : ℕ) (db : Db) (id : Text) (start : ℕ) (d : Text)
    (blocks : List Bytes)
    → IsDigest d
    → length (joined blocks) ≤ limit
    → serve (upload_request H env limit id (pos start) (pos (length (joined blocks))) d blocks) db
      ≡ serve
          (put_chunk H env id (pos start) (pos (length (joined blocks))) d (joined blocks)
            >>= λ ack. pure (chunk_ack ack))
          db
upload_request-IsDigest H env limit db id start d blocks normal fits =
    let (hex, plain) = is_sha256_query-IsDigest d normal in
    upload_request_complete H env limit db id start (length (joined blocks)) d blocks hex fits fits
    ∙ rw plain refl
