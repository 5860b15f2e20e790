-- ===== src/Upload/Session.antt =====
-- `create_session` and `_get_locked_session` of app/service.py. The row lock makes the requests on
-- one session run one after the other, so a request is one step here; the new identifier is an
-- argument, since `uuid.uuid4` makes it. The histories take `create_session`: a length that the column
-- does not hold adds no step to them, since its request leaves the database as it is.
pub mod Creates
pub mod Isolation
pub mod Columns
use seismic_trace_resumable.Prelude.{
  ℕ, ◌^◌, Text, Bool, ltb, codes, ◌=?◌, none, some, [], ◌==◌, if◌then◌else◌,
}
use seismic_trace_resumable.Hashlib.{Hashlib, digest}
use seismic_trace_resumable.Model.{UploadSession, active, sealed, failed, Event}
use seismic_trace_resumable.Errors.{
  upload_error, session_not_found, whole_digest_mismatch, unhandled,
}
use seismic_trace_resumable.Storage.{get_session, put_session}
use seismic_trace_resumable.Tx.{
  Action, pure, raise, query, or_raise, modify, commit, rollback, ◌>>=◌, ◌>>◌,
}
use seismic_trace_resumable.Audit.{Env, add_audit}

unfoldable pub get_locked_session : Text → Action UploadSession
get_locked_session session_id = do
  found ← query (λ db. get_session db session_id)
  or_raise (upload_error 404 session_not_found) found

-- A BigInteger column holds what is below 2 ^ 63.
abbrev pub fits_column : ℕ → Bool
fits_column n = ltb n (2 ^ 63)

abbrev pub empty_reason : Text
empty_reason =
    codes
      "zero-length package metadata inconsistent: whole_sha256 does not match SHA-256 of empty payload"

module _ (H : Hashlib) (env : Env) where
  abbrev pub empty_sha256 : Text
  empty_sha256 = digest H []

  -- A package of no bytes is complete at once: sealed if its digest is right, failed if not.
  unfoldable pub settle_empty : UploadSession → Action (Unit {0})
  settle_empty session =
      if session.whole_sha256 =? empty_sha256
      then (do
        let born_sealed : UploadSession = record session {
          status = sealed;
          confirmed_offset = 0;
          computed_sha256 = some empty_sha256;
        }
        modify (put_session born_sealed)
        add_audit env born_sealed Event.audit_sealed 0 empty_sha256 none none none)
      else (do
        modify (
            put_session (record session {
              status = failed;
              computed_sha256 = some empty_sha256;
              failure_reason = some empty_reason;
            }))
        commit
        raise (record (upload_error 422 whole_digest_mismatch) {
          digest = some session.whole_sha256;
          expected_digest = some empty_sha256;
        }))

  unfoldable pub create_session : Text → ℕ → Text → Action UploadSession
  create_session id total_bytes whole_sha256 = do
    let session : UploadSession = record {
      id = id;
      total_bytes = total_bytes;
      whole_sha256 = whole_sha256;
      confirmed_offset = 0;
      status = active;
      computed_sha256 = none;
      failure_reason = none;
      created_at = env.now;
    }
    modify (put_session session)
    (if total_bytes == 0 then settle_empty session else pure tt)
    commit
    get_locked_session id

  -- `create_session` with the width of the column total_bytes. What it does not hold is refused when the
  -- row is flushed, at the commit: nothing of the transaction is kept, and no handler catches the error.
  unfoldable pub create_session_in_columns : Text → ℕ → Text → Action UploadSession
  create_session_in_columns id total_bytes whole_sha256 =
      if fits_column total_bytes
      then create_session id total_bytes whole_sha256
      else (do rollback; raise (upload_error 500 unhandled))
