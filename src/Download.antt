-- ===== src/Download.antt =====
-- `verified_sealed_bytes` of app/service.py: a read of a sealed archive checks all of it first.
pub mod Verified
pub mod Sealed
use seismic_trace_resumable.Prelude.{
  ℕ, ◌+◌, ◌-◌, min, max, Text, Bytes, ◌=?◌, Bool, not, ◌&&◌, ◌||◌, none, some, List, [], ◌∷◌, ◌++◌,
  length, ltb, ◌==◌, if◌then◌else◌,
}
use seismic_trace_resumable.Prelude.Int.{pos, slice}
use seismic_trace_resumable.Hashlib.{Hashlib, digest}
use seismic_trace_resumable.Model.{UploadSession, Chunk}
use seismic_trace_resumable.Errors.{UploadError, upload_error, sealed_integrity_error}
use seismic_trace_resumable.Storage.{chunks_of}
use seismic_trace_resumable.Tx.{Action, Result, ok, err, pure, raise, raise_if, query, ◌>>=◌, ◌>>◌}

abbrev pub integrity_error : UploadError
integrity_error = upload_error 500 sealed_integrity_error

-- `chunk.length != chunk.end_offset - chunk.start_offset or len(chunk.data) != chunk.length`
abbrev pub is_inconsistent : Chunk → Bool
is_inconsistent c =
    not (c.start_offset + c.length == c.end_offset) || not (length c.payload == c.length)

-- The part of a chunk that lies in [begin, end).
unfoldable pub part : ℕ → ℕ → Chunk → Bytes
part begin end c =
    if ltb c.start_offset end && ltb begin c.end_offset
    then slice (max begin c.start_offset - c.start_offset)
        (pos (min end c.end_offset - c.start_offset)) c.payload
    else []

module _ (H : Hashlib) where
  pub record Walked : Type 0 where
    pub cursor : ℕ
    pub hasher : H.Hasher
    pub out : Bytes

  -- The checks of one chunk: continuity, length, digest.
  chunk_error : ℕ → Chunk → Result (Unit {0})
  chunk_error cursor c =
      if not (c.start_offset == cursor)
      then err (record integrity_error { expected_offset = some cursor })
      else if is_inconsistent c
      then err (record integrity_error { offset = some (pos c.start_offset) })
      else if not (digest H c.payload =? c.sha256)
      then err (record integrity_error {
        offset = some (pos c.start_offset);
        expected_digest = some c.sha256;
      })
      else ok tt

  unfoldable pub verified_walk : ℕ → ℕ → List Chunk → Walked → Result Walked
  unfolding chunk_error
  verified_walk begin end [] at = ok at
  verified_walk begin end (c ∷ cs) at =
      let rest = verified_walk begin end cs (record {
        cursor = c.end_offset;
        hasher = H.update at.hasher c.payload;
        out = at.out ++ part begin end c;
      }) in
      elim (chunk_error at.cursor c) [ err e ↦ err e | ok _ ↦ rest ]

  unfoldable pub released : UploadSession → Result Walked → Action Bytes
  released session (err e) = raise e
  released session (ok at) = do
    raise_if (not (at.cursor == session.total_bytes)) (record integrity_error {
      offset = some (pos at.cursor);
      expected_offset = some session.total_bytes;
    })
    raise_if (not (H.hexdigest at.hasher =? session.whole_sha256))
        (record integrity_error { expected_digest = some session.whole_sha256 })
    pure at.out

  unfoldable pub verified_sealed_bytes : UploadSession → ℕ → ℕ → Action Bytes
  unfolding released
  verified_sealed_bytes session begin end = do
    chunks ← query (λ db. chunks_of db session.id)
    released session
        (verified_walk begin end chunks (record { cursor = 0; hasher = H.sha256 []; out = [] }))
