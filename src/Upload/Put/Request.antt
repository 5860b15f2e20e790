-- ===== src/Upload/Put/Request.antt =====
-- The whole request: what is turned away before anything is stored, and what goes on to which rule.
use seismic_trace_resumable.Prelude.{
  ℕ, ◌+◌, ◌≡◌, ◌≢◌, ◌⊎◌, inl, inr, refl, ap, ◌∙◌, Text, Bytes, ◌=?◌, ◌&&◌, Option-cases, some, true,
  length, window, arith, ltb, if◌then◌else◌,
}
use seismic_trace_resumable.Prelude.Int.{ℤ, pos, negsuc}
use seismic_trace_resumable.Hashlib.{Hashlib}
use seismic_trace_resumable.Model.{UploadSession, active}
use seismic_trace_resumable.Errors.{
  UploadError, upload_error, invalid_offset, invalid_length, at_length, session_not_found,
}
use seismic_trace_resumable.Storage.{Db, get_session, chunks_of}
use seismic_trace_resumable.Tx.{ok, err, opened}
use seismic_trace_resumable.Audit.{Env}
use seismic_trace_resumable.Layout.{contents, Tiles}
use seismic_trace_resumable.Upload.Archive.{archived_bytes}
use seismic_trace_resumable.Upload.Archive.Reads.{archived_bytes-Tiles}
use seismic_trace_resumable.Upload.Session.{get_locked_session}
use seismic_trace_resumable.Upload.Replay.{ack, terminal_error, terminal_replay}
use seismic_trace_resumable.Upload.Put.{non_negative, put_active, put_chunk}
use seismic_trace_resumable.Upload.Put.Branches.{IsChecked, check_payload-cases, check_payload-ok}

module _ (H : Hashlib) (env : Env) (db : Db) (id : Text) (d : Text) (payload : Bytes) where
  -- A checked request on an active session.
  pub put_chunk-active :
      (u : UploadSession) (start n : ℕ)
      → get_session db id ≡ some u
      → u.status ≡ active
      → IsChecked H u start n d payload
      → put_chunk H env id (pos start) (pos n) d payload (opened db)
        ≡ put_active H env u start n d payload (opened db)
  unfolding put_chunk get_locked_session non_negative
  put_chunk-active u start n found open_session c =
      ground (arith, check_payload-ok H u start n d payload (opened db) c)

  -- A checked request on a session that is not active and has all its bytes, gapless: it is a replay if
  -- it is not empty and its bytes are the stored ones, an error otherwise, and nothing is written.
  pub put_chunk-terminal :
      (u : UploadSession) (start n : ℕ)
      → get_session db id ≡ some u
      → u.id ≡ id
      → u.status ≢ active
      → u.confirmed_offset ≡ u.total_bytes
      → Tiles H 0 (chunks_of db u.id) u.confirmed_offset
      → IsChecked H u start n d payload
      → put_chunk H env id (pos start) (pos n) d payload (opened db) ≡ (
          if ltb 0 n && (window start n (contents (chunks_of db u.id)) =? payload)
          then (ok (ack u start n d true), opened db)
          else (err (terminal_error u start n), opened db))
  unfolding put_chunk get_locked_session non_negative terminal_replay ack
  put_chunk-terminal u start n found named closed full tiles c =
      ground (arith, check_payload-ok H u start n d payload (opened db) c, archived)
    where
      archived :
          archived_bytes db u.id start (start + n)
          ≡ some (window start n (contents (chunks_of db u.id)))
      archived =
          archived_bytes-Tiles H db u.id start (start + n) tiles (omega arith)
            (omega (arith, c.fits))
          ∙ ap (λ (k : ℕ). some (window start k (contents (chunks_of db u.id)))) (omega arith)

  -- A request either is turned away with nothing written, or names a session and passes its checks.
  pub record IsHeard (start length : ℤ) : Type 0 where
    pub session : UploadSession
    pub at : ℕ
    pub count : ℕ
    pub found : get_session db id ≡ some session
    pub starts : start ≡ pos at
    pub counts : length ≡ pos count
    pub checked : IsChecked H session at count d payload

  abbrev pub TurnedAway : ℤ → ℤ → Type 0
  TurnedAway start length =
      (e : UploadError) × (put_chunk H env id start length d payload (opened db)
        ≡ (err e, opened db))

  pub put_chunk-cases : (start length : ℤ) → TurnedAway start length ⊎ IsHeard start length
  unfolding put_chunk get_locked_session non_negative
  put_chunk-cases start length = elim (Option-cases (get_session db id)) [
    | inl missing ↦ inl (upload_error 404 session_not_found, ground arith)
    | inr (u, found) ↦ known u found start length
  ]
    where
      known :
          (u : UploadSession)
          → get_session db id ≡ some u
          → (start length : ℤ) → TurnedAway start length ⊎ IsHeard start length
      known u found (negsuc k) length =
          inl (record (upload_error 422 invalid_offset) { offset = some (negsuc k) }, ground arith)
      known u found (pos start) (negsuc k) = inl (
        record (upload_error 422 invalid_length) {
          offset = some (pos start);
          details = at_length (negsuc k);
        },
        ground arith,
      )
      known u found (pos start) (pos n) =
          elim (check_payload-cases H u start n d payload (opened db)) [
            | inr (e, refused) ↦ inl (e, ground arith)
            | inl (passed, checked) ↦ inr (record {
              session = u;
              at = start;
              count = n;
              found = found;
              starts = refl;
              counts = refl;
              checked = checked;
            })
          ]
