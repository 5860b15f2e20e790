-- ===== src/Upload/Finalize.antt =====
-- `_verify_and_finalize` of app/service.py: the whole digest is recomputed from the stored chunks,
-- and the session is sealed or fails.
pub mod Digest
use seismic_trace_resumable.Prelude.{
  ℕ, Text, codes, ◌=?◌, Option, none, some, List, [], ◌∷◌, ◌==◌, if◌then◌else◌,
}
use seismic_trace_resumable.Hashlib.{Hashlib}
use seismic_trace_resumable.Model.{UploadSession, Chunk, sealed, failed, Event}
use seismic_trace_resumable.Storage.{chunks_of, put_session}
use seismic_trace_resumable.Tx.{Action, pure, query, modify, ◌>>=◌, ◌>>◌}
use seismic_trace_resumable.Audit.{Env, add_audit}

abbrev pub mismatch_reason : Text
mismatch_reason = codes "whole package SHA-256 mismatch after all bytes were received"

abbrev pub discontinuous_reason : Text
discontinuous_reason = codes "stored chunks are discontinuous or incomplete at finalization"

module _ (H : Hashlib) where
  -- The loop over the chunks. `none` is the break, or a last chunk that ends elsewhere.
  unfoldable pub recompute : List Chunk → ℕ → H.Hasher → ℕ → Option Text
  recompute [] cursor hasher total = if cursor == total then some (H.hexdigest hasher) else none
  recompute (c ∷ cs) cursor hasher total =
      let rest = recompute cs c.end_offset (H.update hasher c.payload) total in
      if c.start_offset == cursor then rest else none

  seal : Env → UploadSession → Text → Action UploadSession
  seal env session computed = do
    let sealed_session : UploadSession = record session {
      status = sealed;
      confirmed_offset = session.total_bytes;
      computed_sha256 = some computed;
      failure_reason = none;
    }
    modify (put_session sealed_session)
    add_audit env sealed_session Event.audit_sealed session.total_bytes computed none none none
    pure sealed_session

  fail : UploadSession → Option Text → Text → Action UploadSession
  fail session computed reason = do
    let failed_session : UploadSession = record session {
      status = failed;
      computed_sha256 = computed;
      failure_reason = some reason;
    }
    modify (put_session failed_session)
    pure failed_session

  settle : Env → UploadSession → Option Text → Action UploadSession
  settle env session none = fail session none discontinuous_reason
  settle env session (some computed) =
      if computed =? session.whole_sha256
      then seal env session computed
      else fail session (some computed) mismatch_reason

  -- The session comes back with the attributes that the method assigns.
  unfoldable pub verify_and_finalize : Env → UploadSession → Action UploadSession
  unfolding settle seal fail
  verify_and_finalize env session = do
    chunks ← query (λ db. chunks_of db session.id)
    settle env session (recompute chunks 0 (H.sha256 []) session.total_bytes)
