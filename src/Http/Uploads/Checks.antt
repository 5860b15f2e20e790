-- ===== src/Http/Uploads/Checks.antt =====
-- What the route lets through to the service.
use seismic_trace_resumable.Prelude.{
  joined, ℕ, ◌≤◌, ◌<◌, ◌≡◌, ◌⊎◌, inl, inr, le-or-lt, refl, Text, Bytes, true, Bool-cases, List, [],
  ◌∷◌, ◌++◌, append-nil, append_assoc, length, length-append, le→ltb, lt→ltb, arith,
}
use seismic_trace_resumable.Prelude.Int.{ℤ, pos, negsuc}
use seismic_trace_resumable.Hashlib.{Hashlib}
use seismic_trace_resumable.Errors.{UploadError}
use seismic_trace_resumable.Storage.{Db}
use seismic_trace_resumable.Tx.{Result, ok, err, serve, pure, ◌>>=◌}
use seismic_trace_resumable.Audit.{Env}
use seismic_trace_resumable.Upload.Put.{non_negative, put_chunk}
use seismic_trace_resumable.Http.Responses.{ChunkAck, chunk_ack}
use seismic_trace_resumable.Http.Strings.{lower}
use seismic_trace_resumable.Http.Digests.{is_sha256_query}
use seismic_trace_resumable.Http.Digests.Form.{IsHexText, is_sha256_query-IsHexText}
use seismic_trace_resumable.Http.Uploads.{
  body_error, chunk_payload, upload_chunk, with_payload, upload_request,
}

-- The body is read to its end, or left when it has become too long.
abbrev Received : ℕ → Bytes → Result Bytes → Type 0
Received limit body answer =
    ((length body ≤ limit) × (answer ≡ ok body))
    ⊎ ((received : ℕ) × (limit < received)
        × (received ≤ length body)
        × (answer ≡ err (body_error limit received)))

chunk_payload-from :
    (limit : ℕ) (payload : Bytes) (blocks : List Bytes)
    → length payload ≤ limit
    → Received limit (payload ++ joined blocks) (chunk_payload limit payload blocks)
unfolding chunk_payload
chunk_payload-from limit payload [] h = rw append-nil (inl (h, refl))
chunk_payload-from limit payload (block ∷ blocks) h =
    elim (le-or-lt (length (payload ++ block)) limit) [
      | inl fits ↦
          rw
            (
              le→ltb limit (length (payload ++ block)) fits,
              ← append_assoc payload block (joined blocks),
            )
            (chunk_payload-from limit (payload ++ block) blocks fits)
      | inr long ↦ rw (lt→ltb limit (length (payload ++ block)) long) (
          inr (
            length (payload ++ block),
            long,
            omega (
              arith,
              length-append payload (block ++ joined blocks),
              length-append block (joined blocks),
              length-append payload block,
            ),
            refl,
          ))
    ]

-- The body of an upload, in whatever blocks it comes, is taken whole when it has at most the limit's
-- bytes; otherwise reading stops with 413 at a number of bytes above the limit.
pub chunk_payload_lem :
    (limit : ℕ) (blocks : List Bytes)
    → Received limit (joined blocks) (chunk_payload limit [] blocks)
chunk_payload_lem limit blocks = chunk_payload-from limit [] blocks (omega arith)

module _ (H : Hashlib) (env : Env) (limit : ℕ) (db : Db) (id : Text) (start count : ℤ)
    (sha256 : Text) where
  -- The service's upload, with checked arguments.
  pub record IsPassed (payload : Bytes) (answer : Result ChunkAck × Db) : Type 0 where
    pub first : ℕ
    pub declared : ℕ
    pub at : start ≡ pos first
    pub counted : count ≡ pos declared
    pub capped : declared ≤ limit
    pub matched : is_sha256_query sha256 ≡ true
    pub hexadecimal : IsHexText 64 sha256
    pub stored :
        answer
        ≡ serve
            (put_chunk H env id (pos first) (pos declared) (lower sha256) payload >>= λ ack.
              pure (chunk_ack ack))
            db

  abbrev pub Passes : Bytes → Result ChunkAck × Db → Type 0
  Passes payload answer = ((e : UploadError) × (answer ≡ (err e, db))) ⊎ IsPassed payload answer

module _ (H : Hashlib) (env : Env) (limit : ℕ) (db : Db) (id : Text) (sha256 : Text) where
  well_named :
      (payload : Bytes) (start count : ℤ)
      → is_sha256_query sha256 ≡ true
      → Passes H env limit db id start count sha256 payload
          (serve (upload_chunk H env limit id start count sha256 payload) db)
  unfolding upload_chunk non_negative
  well_named payload (negsuc n) count hex = rw hex (inl (_, refl))
  well_named payload (pos first) (negsuc n) hex = rw hex (inl (_, refl))
  well_named payload (pos first) (pos declared) hex = elim (le-or-lt declared limit) [
    | inr long ↦ rw (hex, lt→ltb limit declared long) (inl (_, refl))
    | inl capped ↦ inr (record {
      first = first;
      declared = declared;
      at = refl;
      counted = refl;
      capped = capped;
      matched = hex;
      hexadecimal = is_sha256_query-IsHexText sha256 hex;
      stored = rw (hex, le→ltb limit declared capped) refl;
    })
  ]

  upload_chunk-cases :
      (payload : Bytes) (start count : ℤ)
      → Passes H env limit db id start count sha256 payload
          (serve (upload_chunk H env limit id start count sha256 payload) db)
  unfolding upload_chunk
  upload_chunk-cases payload start count = elim (Bool-cases (is_sha256_query sha256)) [
    | inr malformed ↦ rw malformed (inl (_, refl))
    | inl hex ↦ well_named payload start count hex
  ]

  -- An upload request is turned away with nothing stored, or it is the service's upload of the whole
  -- body under the digest in lower case; then offset and length are not negative, the digest is
  -- sixty-four hexadecimal digits, with a line feed behind them or none, and neither the declared
  -- length nor the body is longer than the limit.
  pub upload_request-cases :
      (start count : ℤ) (blocks : List Bytes)
      → ((e : UploadError) × (serve (upload_request H env limit id start count sha256 blocks) db
            ≡ (err e, db)))
        ⊎ ((length (joined blocks) ≤ limit)
            × IsPassed H env limit db id start count sha256
                (joined blocks)
                (serve (upload_request H env limit id start count sha256 blocks) db))
  unfolding upload_request with_payload
  upload_request-cases start count blocks = elim (chunk_payload_lem limit blocks) [
    | inr (received, above, read, left) ↦ rw left (inl (_, refl))
    | inl (fits, read) ↦ rw read (elim (upload_chunk-cases (joined blocks) start count) [
      | inl refused ↦ inl refused
      | inr passed ↦ inr (fits, passed)
    ])
  ]
