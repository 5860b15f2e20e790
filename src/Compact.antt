-- ===== src/Compact.antt =====
-- `_planned_spans`, `compact_sealed` and `_compact_result` of app/service.py: the chunks of a sealed
-- package are cut anew, in one transaction.
pub mod Layout
pub mod Passes
pub mod Sealed
pub mod Effect
pub mod Requests
pub mod Preserves
pub mod Deterministic
pub mod Atomic
use seismic_trace_resumable.Prelude.{
  ℕ, zero, suc, ◌+◌, ◌-◌, min, Text, Bytes, ◌=?◌, Bool, true, false, not, ◌&&◌, ◌||◌, none, some,
  List, [], ◌∷◌, ◌++◌, map, length, ltb, ◌==◌, if◌then◌else◌,
}
use seismic_trace_resumable.Prelude.Int.{ℤ, pos, negsuc, slice}
use seismic_trace_resumable.Hashlib.{Hashlib, digest}
use seismic_trace_resumable.Model.{UploadSession, Chunk, Status, sealed, Event, is_sealed}
use seismic_trace_resumable.Errors.{
  UploadError, upload_error, Argument, integer, boolean, other, at_target, in_status, at_length,
  invalid_target_chunk_bytes, compaction_state_conflict, compaction_integrity_error, unhandled,
}
use seismic_trace_resumable.Storage.{Db, chunks_of, delete_chunks, insert_chunks}
use seismic_trace_resumable.Tx.{
  Action, Result, ok, err, pure, raise, raise_if, query, modify, commit, ◌>>=◌, ◌>>◌,
}
use seismic_trace_resumable.Audit.{Env, add_audit}
use seismic_trace_resumable.Upload.Session.{get_locked_session}
use seismic_trace_resumable.Compact.Layout.{
  Span, layout_of, same_layout, total_length, planned_spans, planned_rows,
}
use seismic_trace_resumable.Compact.Passes.{
  Gathered, gather, gathered, Verified, verify_layout, verified,
}

pub record CompactResult : Type 0 where
  pub id : Text
  pub status : Status
  pub target_chunk_bytes : ℕ
  pub chunks_before : ℕ
  pub chunks_after : ℕ
  pub total_bytes_before : ℕ
  pub total_bytes_after : ℕ
  pub whole_sha256 : Text
  pub chunks : List Span

-- `except UploadError: db.rollback(); raise`, and the same for any other exception.
abbrev pub rolled_back : {A : Type 0} → Action A → Action A
rolled_back m t =
    let (r, t') = m t in
    elim r [ ok a ↦ (ok a, t') | err e ↦ (err e, record t' { working = t'.committed }) ]

-- `isinstance(…, bool)`, not an `int`, or not positive.
unfoldable pub positive : Argument → Action ℕ
positive (integer (pos (suc n))) = pure (suc n)
positive argument =
    raise (record (upload_error 422 invalid_target_chunk_bytes) { details = at_target argument })

module _ (H : Hashlib) where
  -- `db.flush()` with the new rows pending. No handler of the service takes an IntegrityError here.
  flush_rows : List Chunk → Action (Unit {0})
  flush_rows rows t = elim (insert_chunks rows t.working) [
    | none ↦ (err (upload_error 500 unhandled), t)
    | some db ↦ (ok tt, record t { working = db })
  ]

  module _ (env : Env) (session : UploadSession) (target : ℕ) where
    -- The layout is the target's already: only the audit row is written.
    keep_layout : List Chunk → List Span → Text → Action CompactResult
    keep_layout old_chunks new_layout whole_digest = do
      add_audit env session Event.audit_compacted session.total_bytes whole_digest (some target)
          (some (length old_chunks)) (some (length new_layout))
      commit
      pure (record {
        id = session.id;
        status = sealed;
        target_chunk_bytes = target;
        chunks_before = length old_chunks;
        chunks_after = length new_layout;
        total_bytes_before = total_length old_chunks;
        total_bytes_after = session.total_bytes;
        whole_sha256 = whole_digest;
        chunks = new_layout;
      })

    rewrite_layout : Text → List Chunk → List Chunk → Action CompactResult
    unfolding flush_rows verified
    rewrite_layout session_id old_chunks new_rows = do
      modify (delete_chunks session_id)
      flush_rows new_rows
      verify_chunks ← query (λ db. chunks_of db session_id)
      at ← verified H session (
          verify_layout H target verify_chunks
            (record { cursor = 0; hasher = H.sha256 []; total_bytes_after = 0 }))
      add_audit env session Event.audit_compacted session.total_bytes (H.hexdigest at.hasher)
          (some target) (some (length old_chunks)) (some (length verify_chunks))
      commit
      pure (record {
        id = session.id;
        status = sealed;
        target_chunk_bytes = target;
        chunks_before = length old_chunks;
        chunks_after = length verify_chunks;
        total_bytes_before = total_length old_chunks;
        total_bytes_after = at.total_bytes_after;
        whole_sha256 = H.hexdigest at.hasher;
        chunks = layout_of verify_chunks;
      })

    -- What stands under the `try`.
    unfoldable pub repack : Text → Action CompactResult
    unfolding gathered keep_layout rewrite_layout
    repack session_id = do
      old_chunks ← query (λ db. chunks_of db session_id)
      at ←
          gathered H session
            (gather H old_chunks (record { cursor = 0; hasher = H.sha256 []; buffer = [] }))
      let new_rows : List Chunk =
          planned_rows H session_id at.buffer (planned_spans session.total_bytes target)
      if same_layout (layout_of old_chunks) (layout_of new_rows)
          then keep_layout old_chunks (layout_of new_rows) (H.hexdigest at.hasher)
          else rewrite_layout session_id old_chunks new_rows

  unfoldable pub compact_sealed : Env → Text → Argument → Action CompactResult
  compact_sealed env session_id target_chunk_bytes = do
    target ← positive target_chunk_bytes
    session ← get_locked_session session_id
    raise_if (not (is_sealed session.status)) (record (upload_error 409 compaction_state_conflict) {
      expected_offset = some session.confirmed_offset;
      details = in_status session.status;
    })
    rolled_back (repack env session target session_id)
