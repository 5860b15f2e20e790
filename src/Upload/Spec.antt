-- ===== src/Upload/Spec.antt =====
-- The upload protocol as its documentation tells it, with no rows and no offsets in the store: a
-- package is a length, a digest, the bytes received so far and a status.
pub mod Refinement
pub mod Receive
use seismic_trace_resumable.Prelude.{
  ℕ, ◌+◌, Text, Bytes, ◌=?◌, Bool, true, false, ◌&&◌, Option, none, some, ◌++◌, length, window, ltb,
  leb, ◌==◌, if◌then◌else◌,
}
use seismic_trace_resumable.Model.{UploadSession, Status, active, sealed, failed}
use seismic_trace_resumable.Errors.{
  Code, stale_offset, whole_digest_mismatch, audit_write_failed, sealed_content_conflict,
  session_failed_terminal,
}
use seismic_trace_resumable.Storage.{Db, get_session, chunks_of}
use seismic_trace_resumable.Tx.{Result, ok, err}
use seismic_trace_resumable.Layout.{contents}
use seismic_trace_resumable.Upload.Replay.{Ack}

pub record Package : Type 0 where
  pub total : ℕ
  pub whole : Text
  pub bytes : Bytes
  pub status : Status

-- What a client learns from the answer.
pub data Verdict : Type 0 where
  stored replayed stale mismatch rolled_back conflict closed other : Verdict

module _ (hash : Bytes → Text) (refuses_audit : Bool) where
  -- A package whose last byte has come: `before` is what it was without it.
  complete : Package → Package → Package × Verdict
  complete before p =
      if hash p.bytes =? p.whole
      then (if refuses_audit then (before, rolled_back) else (record p { status = sealed }, stored))
      else (record p { status = failed }, mismatch)

  -- The bytes go to the end of a package that is active.
  append : Package → Bytes → Package × Verdict
  unfolding complete
  append p payload =
      let longer : Package = record p { bytes = p.bytes ++ payload } in
      if length longer.bytes == p.total then complete p longer else (longer, stored)

  -- The package has these bytes at `start`.
  abbrev has_at : Package → ℕ → Bytes → Bool
  has_at p start payload =
      leb (start + length payload) (length p.bytes)
      && (window start (length payload) p.bytes =? payload)

  receive_open : Package → ℕ → Bytes → Package × Verdict
  unfolding append
  receive_open p start payload =
      if start == length p.bytes
      then (if ltb 0 (length payload) then append p payload else (p, replayed))
      else if has_at p start payload
      then (p, replayed)
      else (p, stale)

  receive_closed : Package → ℕ → Bytes → Verdict → Package × Verdict
  receive_closed p start payload verdict =
      if ltb 0 (length payload) && has_at p start payload then (p, replayed) else (p, verdict)

  unfoldable pub receive : Package → ℕ → Bytes → Package × Verdict
  unfolding receive_open receive_closed
  receive p start payload = elim p.status [
    | active ↦ receive_open p start payload
    | sealed ↦ receive_closed p start payload conflict
    | failed ↦ receive_closed p start payload closed
  ]

-- The package that the rows of a session stand for.
abbrev pub package_of : Db → UploadSession → Package
package_of db u = record {
  total = u.total_bytes;
  whole = u.whole_sha256;
  bytes = contents (chunks_of db u.id);
  status = u.status;
}

unfoldable pub view : Db → Text → Option Package
view db id = elim (get_session db id) [ none ↦ none | some u ↦ some (package_of db u) ]

abbrev code_verdict : Code → Verdict
code_verdict stale_offset = stale
code_verdict whole_digest_mismatch = mismatch
code_verdict audit_write_failed = rolled_back
code_verdict sealed_content_conflict = conflict
code_verdict session_failed_terminal = closed
code_verdict _ = other

abbrev pub verdict_of : Result Ack → Verdict
verdict_of (ok ack) = if ack.idempotent_replay then replayed else stored
verdict_of (err e) = code_verdict e.code
