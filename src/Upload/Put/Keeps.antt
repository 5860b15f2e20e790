-- ===== src/Upload/Put/Keeps.antt =====
-- What no PUT of a chunk breaks: the invariant, the stored bytes, a finished session, and the rule
-- that an error changes nothing unless it closes the session.
use seismic_trace_resumable.Prelude.{
  ◌≡◌, ◌≢◌, sym, ap, ◌∙◌, Text, Bytes, ◌++◌, List, [], ◌∷◌, append-nil, text_dec,
}
use seismic_trace_resumable.Prelude.Int.{ℤ}
use seismic_trace_resumable.Hashlib.{Hashlib, IsLawful}
use seismic_trace_resumable.Model.{UploadSession, Chunk}
use seismic_trace_resumable.Errors.{UploadError, whole_digest_mismatch}
use seismic_trace_resumable.Storage.{Db, chunks_of}
use seismic_trace_resumable.Tx.{Result, err, serve}
use seismic_trace_resumable.Audit.{Env}
use seismic_trace_resumable.Invariant.{IsWellFormed, SameElsewhere}
use seismic_trace_resumable.Upload.Replay.{Ack}
use seismic_trace_resumable.Upload.Put.{put_chunk}
use seismic_trace_resumable.Upload.Put.Stored.{
  moved_rows, failed_rows, sealed_rows, moved_db-SameElsewhere, failed_db-SameElsewhere,
  sealed_db-SameElsewhere, moved_db-IsWellFormed, failed_db-IsWellFormed, sealed_db-IsWellFormed,
}
use seismic_trace_resumable.Upload.Put.Effect.{
  Effect, unchanged, stored, sealing, failing, put_chunk-Effect,
}

err-injective : {e e' : UploadError} → ◌≡◌ {A = Result Ack} (err e) (err e') → e ≡ e'
err-injective h = cc

module _ (H : Hashlib) (env : Env) (L : IsLawful H) (db : Db) (w : IsWellFormed H db) where
  Effect-IsWellFormed :
      (id : Text) (payload : Bytes) (r : Result Ack) (db' : Db)
      → Effect H env db id payload r db'
      → IsWellFormed H db'
  Effect-IsWellFormed id payload r db' (unchanged e) = rw e w
  Effect-IsWellFormed id payload r db' (stored u n x room e _ _) =
      rw e (
        moved_db-IsWellFormed H env db u n payload L w x.found x.still_open x.filled x.nonempty
          room)
  Effect-IsWellFormed id payload r db' (sealing u n x full same e _ _) = rw e (
      sealed_db-IsWellFormed H env db u n payload L w x.found x.still_open x.filled x.nonempty full
        same)
  Effect-IsWellFormed id payload r db' (failing u n x full differ e _ _ _) = rw e (
      failed_db-IsWellFormed H env db u n payload L w x.found x.still_open x.filled x.nonempty full
        differ)

  -- Whatever the request, a well-formed database stays well formed.
  pub put_chunk-IsWellFormed :
      (id : Text) (start count : ℤ) (d : Text) (payload : Bytes)
      → IsWellFormed H (serve (put_chunk H env id start count d payload) db).1
  put_chunk-IsWellFormed id start count d payload =
      Effect-IsWellFormed id payload _ _ (put_chunk-Effect H env L db w id start count d payload)

  Effect-error :
      (id : Text) (payload : Bytes) (r : Result Ack) (db' : Db) (e : UploadError)
      → Effect H env db id payload r db'
      → r ≡ err e
      → e.code ≢ whole_digest_mismatch
      → db' ≡ db
  Effect-error id payload r db' e (unchanged same) failed_so other = same
  Effect-error id payload r db' e (stored u n x room _ a answered) failed_so other = cc
  Effect-error id payload r db' e (sealing u n x full same _ a answered) failed_so other = cc
  Effect-error id payload r db' e (failing u n x full differ _ e' answered closing) failed_so
        other =
      let this : ◌≡◌ {A = Result Ack} (err e) (err e') = cc in
      absurd (other (ap (λ (x : UploadError). x.code) (err-injective this) ∙ closing))

  -- An error leaves the database as it was, unless it is the one that closes the session.
  pub put_chunk-error :
      (id : Text) (start count : ℤ) (d : Text) (payload : Bytes) (e : UploadError)
      → (serve (put_chunk H env id start count d payload) db).0 ≡ err e
      → e.code ≢ whole_digest_mismatch
      → (serve (put_chunk H env id start count d payload) db).1 ≡ db
  put_chunk-error id start count d payload e =
      Effect-error id payload _ _ e (put_chunk-Effect H env L db w id start count d payload)

  -- The rows that a session has before are its first rows afterwards.
  abbrev Grows : Db → Db → Text → Type 0
  Grows old new j = (extra : List Chunk) × (chunks_of new j ≡ chunks_of old j ++ extra)

  grown :
      {db' : Db} (u : UploadSession) (c : Chunk)
      → SameElsewhere u.id db db'
      → chunks_of db' u.id ≡ chunks_of db u.id ++ c ∷ []
      → (j : Text) → Grows db db' j
  grown u c same rows j = elim (text_dec u.id j) [
    | yes e ↦ (c ∷ [], rw (← e) rows)
    | no ne ↦ ([], same.chunks j ne ∙ sym (append-nil _))
  ]

  Effect-Grows :
      (id : Text) (payload : Bytes) (r : Result Ack) (db' : Db)
      → Effect H env db id payload r db'
      → (j : Text) → Grows db db' j
  Effect-Grows id payload r db' (unchanged e) j = rw e ([], sym (append-nil _))
  Effect-Grows id payload r db' (stored u n x room e _ _) j = rw e (
      grown u _ (moved_db-SameElsewhere H env db u n payload)
        (moved_rows H env db u n payload L w x.found x.still_open x.filled x.nonempty) j)
  Effect-Grows id payload r db' (sealing u n x full same e _ _) j = rw e (
      grown u _ (sealed_db-SameElsewhere H env db u n payload)
        (sealed_rows H env db u n payload L w x.found x.still_open x.filled x.nonempty) j)
  Effect-Grows id payload r db' (failing u n x full differ e _ _ _) j = rw e (
      grown u _ (failed_db-SameElsewhere H env db u n payload)
        (failed_rows H env db u n payload L w x.found x.still_open x.filled x.nonempty) j)

  -- No request overwrites or drops a stored chunk, of its own session or of another: the rows of
  -- every session stay, in their order, and what is new comes behind them.
  pub put_chunk-Grows :
      (id : Text) (start count : ℤ) (d : Text) (payload : Bytes) (j : Text)
      → let db' = (serve (put_chunk H env id start count d payload) db).1 in
        (extra : List Chunk) × (chunks_of db' j ≡ chunks_of db j ++ extra)
  put_chunk-Grows id start count d payload j =
      Effect-Grows id payload _ _ (put_chunk-Effect H env L db w id start count d payload) j
