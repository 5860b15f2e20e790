-- ===== src/Upload/Session/Columns.antt =====
-- Registering a session whose length the column holds, or does not.
use seismic_trace_resumable.Prelude.{
  ℕ, ◌≤◌, ◌<◌, ◌≡◌, ◌≢◌, Bool, ==_iff, =?_iff, refl, Text, some, Bool-cases, inl, inr, true, false,
  [], ◌^◌, arith, ◌=?◌, ◌==◌, if◌then◌else◌,
}
use seismic_trace_resumable.Hashlib.{Hashlib, digest}
use seismic_trace_resumable.Errors.{
  upload_error, unhandled, audit_write_failed, whole_digest_mismatch,
}
use seismic_trace_resumable.Model.{UploadSession}
use seismic_trace_resumable.Storage.{Db}
use seismic_trace_resumable.Tx.{Result, ok, err, serve}
use seismic_trace_resumable.Audit.{Env}
use seismic_trace_resumable.Upload.Session.{create_session_in_columns, fits_column}
use seismic_trace_resumable.Upload.Session.Creates.{
  new_session, new_db, born_sealed, born_sealed_db, born_failed_db, create_session_lem,
}

module _ (H : Hashlib) (env : Env) (db : Db) (id : Text) where
  -- What registering a package of `total` bytes with a digest must come to.
  pub data Registered (total : ℕ) (whole : Text) : Result UploadSession × Db → Type 0 where
    too_long : 2 ^ 63 ≤ total → Registered total whole (err (upload_error 500 unhandled), db)
    opened :
        0 < total
        → total < 2 ^ 63
        → Registered total whole
            (ok (new_session H env db id total whole), new_db H env db id total whole)
    complete :
        total ≡ 0
        → whole ≡ digest H []
        → env.refuses_audit ≡ false
        → Registered total whole
            (ok (born_sealed H env db id total whole), born_sealed_db H env db id total whole)
    unaudited :
        total ≡ 0
        → whole ≡ digest H []
        → env.refuses_audit ≡ true
        → Registered total whole (err (upload_error 500 audit_write_failed), db)
    mismatched :
        total ≡ 0
        → whole ≢ digest H []
        → Registered total whole (
          err (record (upload_error 422 whole_digest_mismatch) {
            digest = some whole;
            expected_digest = some (digest H []);
          }),
          born_failed_db H env db id total whole,
        )

  -- With the right digest of no bytes all hangs on the flush of the audit row.
  by_flush :
      {total : ℕ} {whole : Text}
      → total ≡ 0
      → whole ≡ digest H []
      → (refused : Bool) → env.refuses_audit ≡ refused
      → Registered total whole (
          if refused
          then (err (upload_error 500 audit_write_failed), db)
          else (ok (born_sealed H env db id total whole), born_sealed_db H env db id total whole))
  by_flush empty same true e = unaudited empty same e
  by_flush empty same false e = complete empty same e

  -- All outcomes of registering a package. A length of 2 ^ 63 or more, which the column does not hold,
  -- is answered with a plain 500 and nothing is stored; a shorter package of some bytes is registered
  -- active. One of no bytes is sealed at once with its audit row when its digest is the one of no
  -- bytes, or nothing is stored when that row is refused; with another digest it is stored as failed
  -- and the answer is 422.
  pub create_session_in_columns_lem :
      (total : ℕ) (whole : Text)
      → Registered total whole (serve (create_session_in_columns H env id total whole) db)
  unfolding create_session_in_columns
  create_session_in_columns_lem total whole = elim (Bool-cases (fits_column total)) [
    | inr long ↦ rw long (too_long (ground arith))
    | inl fits ↦
        rw (fits, create_session_lem H env db id total whole)
          (elim (Bool-cases (total == 0)) [
            | inr some_bytes ↦ rw some_bytes (opened (ground arith) (ground arith))
            | inl no_bytes ↦ rw no_bytes (elim (Bool-cases (whole =? digest H [])) [
              | inr differ ↦ rw differ (mismatched (ground arith) (ground arith))
              | inl same ↦ rw same (
                  by_flush ((==_iff total 0).0 no_bytes) ((=?_iff whole (digest H [])).0 same)
                    env.refuses_audit refl)
            ])
          ])
  ]
