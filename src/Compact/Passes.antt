-- ===== src/Compact/Passes.antt =====
-- The two passes of `compact_sealed` of app/service.py over the chunks of a package: the bytes that it
-- reads, and the rows that it has written.
pub mod Chains
use seismic_trace_resumable.Prelude.{
  ℕ, zero, suc, ◌+◌, ◌-◌, min, Text, Bytes, ◌=?◌, Bool, true, false, not, ◌&&◌, ◌||◌, none, some,
  List, [], ◌∷◌, ◌++◌, map, length, ltb, ◌==◌, if◌then◌else◌,
}
use seismic_trace_resumable.Prelude.Int.{ℤ, pos, negsuc, slice}
use seismic_trace_resumable.Hashlib.{Hashlib, digest}
use seismic_trace_resumable.Model.{UploadSession, Chunk, Event, is_sealed}
use seismic_trace_resumable.Errors.{
  UploadError, upload_error, Argument, integer, boolean, other, at_target, in_status, at_length,
  invalid_target_chunk_bytes, compaction_state_conflict, compaction_integrity_error, unhandled,
}
use seismic_trace_resumable.Storage.{Db, chunks_of, delete_chunks, insert_chunks}
use seismic_trace_resumable.Tx.{
  Action, Result, ok, err, pure, raise, raise_if, query, modify, commit, ◌>>=◌, ◌>>◌,
}
use seismic_trace_resumable.Audit.{Env, add_audit}
use seismic_trace_resumable.Upload.Session.{get_locked_session}

abbrev pub compaction_error : UploadError
compaction_error = upload_error 500 compaction_integrity_error

module _ (H : Hashlib) where
  pub record Gathered : Type 0 where
    pub cursor : ℕ
    pub hasher : H.Hasher
    pub buffer : Bytes

  -- The first pass: the archive's bytes in offset order.
  unfoldable pub gather : List Chunk → Gathered → Result Gathered
  gather [] at = ok at
  gather (c ∷ cs) at =
      let rest = gather cs (record {
        cursor = c.end_offset;
        hasher = H.update at.hasher c.payload;
        buffer = at.buffer ++ c.payload;
      }) in
      if not (c.start_offset == at.cursor)
      then err (record compaction_error { expected_offset = some at.cursor })
      else rest

  unfoldable pub gathered : UploadSession → Result Gathered → Action Gathered
  gathered session (err e) = raise e
  gathered session (ok at) = do
    raise_if
        (not (at.cursor == session.total_bytes) || not (length at.buffer == session.total_bytes))
        (record compaction_error {
          offset = some (pos at.cursor);
          expected_offset = some session.total_bytes;
        })
    raise_if (not (H.hexdigest at.hasher =? session.whole_sha256)) (record compaction_error {
      digest = some session.whole_sha256;
      expected_digest = some (H.hexdigest at.hasher);
    })
    pure at

  pub record Verified : Type 0 where
    pub cursor : ℕ
    pub hasher : H.Hasher
    pub total_bytes_after : ℕ

  new_chunk_error : ℕ → ℕ → Chunk → Result (Unit {0})
  new_chunk_error target cursor c =
      if not (c.start_offset == cursor)
      then err (record compaction_error { expected_offset = some cursor })
      else if ltb target c.length
      then err (record compaction_error {
        offset = some (pos c.start_offset);
        details = at_length (pos c.length);
      })
      else if not (digest H c.payload =? c.sha256)
      then err (record compaction_error {
        offset = some (pos c.start_offset);
        expected_digest = some c.sha256;
      })
      else ok tt

  -- The second pass, over the rows that have just been written.
  unfoldable pub verify_layout : ℕ → List Chunk → Verified → Result Verified
  unfolding new_chunk_error
  verify_layout target [] at = ok at
  verify_layout target (c ∷ cs) at =
      let rest = verify_layout target cs (record {
        cursor = c.end_offset;
        hasher = H.update at.hasher c.payload;
        total_bytes_after = at.total_bytes_after + c.length;
      }) in
      elim (new_chunk_error target at.cursor c) [ err e ↦ err e | ok _ ↦ rest ]

  unfoldable pub verified : UploadSession → Result Verified → Action Verified
  verified session (err e) = raise e
  verified session (ok at) = do
    raise_if (not (at.cursor == session.total_bytes)) (record compaction_error {
      offset = some (pos at.cursor);
      expected_offset = some session.total_bytes;
    })
    raise_if (not (H.hexdigest at.hasher =? session.whole_sha256)) (record compaction_error {
      digest = some session.whole_sha256;
      expected_digest = some (H.hexdigest at.hasher);
    })
    pure at
