-- ===== src/Upload/Put/Isolation.antt =====
-- What a PUT of a chunk cannot reach: the rows of other sessions, and a session that is finished.
use seismic_trace_resumable.Prelude.{◌≡◌, ◌≢◌, refl, sym, ap, ◌∙◌, Text, Bytes, some}
use seismic_trace_resumable.Prelude.Int.{ℤ}
use seismic_trace_resumable.Hashlib.{Hashlib, IsLawful}
use seismic_trace_resumable.Model.{UploadSession, active}
use seismic_trace_resumable.Storage.{Db, get_session}
use seismic_trace_resumable.Tx.{Result, serve}
use seismic_trace_resumable.Audit.{Env}
use seismic_trace_resumable.Invariant.{IsWellFormed, SameElsewhere}
use seismic_trace_resumable.Upload.Replay.{Ack}
use seismic_trace_resumable.Upload.Put.{put_chunk}
use seismic_trace_resumable.Upload.Put.Stored.{
  moved_db-SameElsewhere, failed_db-SameElsewhere, sealed_db-SameElsewhere,
}
use seismic_trace_resumable.Upload.Put.Effect.{
  Effect, IsNext, unchanged, stored, sealing, failing, put_chunk-Effect,
}

module _ (H : Hashlib) (env : Env) (L : IsLawful H) (db : Db) (w : IsWellFormed H db) where
  Effect-SameElsewhere :
      (id : Text) (payload : Bytes) (r : Result Ack) (db' : Db)
      → Effect H env db id payload r db'
      → SameElsewhere id db db'
  Effect-SameElsewhere id payload r db' (unchanged e) =
      rw e (record { session = λ j ne. refl; chunks = λ j ne. refl; trail = λ j ne. refl })
  Effect-SameElsewhere id payload r db' (stored u n x room e _ _) =
      rw (e, ← x.named) (moved_db-SameElsewhere H env db u n payload)
  Effect-SameElsewhere id payload r db' (sealing u n x full same e _ _) =
      rw (e, ← x.named) (sealed_db-SameElsewhere H env db u n payload)
  Effect-SameElsewhere id payload r db' (failing u n x full differ e _ _ _) =
      rw (e, ← x.named) (failed_db-SameElsewhere H env db u n payload)

  -- A request to one session leaves the row, the chunks and the trail of every other as they are.
  pub put_chunk-SameElsewhere :
      (id : Text) (start count : ℤ) (d : Text) (payload : Bytes)
      → SameElsewhere id db (serve (put_chunk H env id start count d payload) db).1
  put_chunk-SameElsewhere id start count d payload =
      Effect-SameElsewhere id payload _ _ (put_chunk-Effect H env L db w id start count d payload)

  module _ (id : Text) (u : UploadSession) (found : get_session db id ≡ some u)
      (closed : u.status ≢ active) where
    not_next :
        {A : Type 0} {n : _} (payload : Bytes) (v : UploadSession) → IsNext db id v n payload → A
    not_next payload v x =
        absurd (closed (ap (λ (s : UploadSession). s.status) same ∙ x.still_open))
      where
        both : some u ≡ some v
        both = sym found ∙ sym (ap (get_session db) x.named) ∙ x.found

        same : u ≡ v
        same = cc

    Effect-closed :
        (payload : Bytes) (r : Result Ack) (db' : Db) → Effect H env db id payload r db' → db' ≡ db
    Effect-closed payload r db' (unchanged e) = e
    Effect-closed payload r db' (stored v n x _ _ _ _) = not_next payload v x
    Effect-closed payload r db' (sealing v n x _ _ _ _ _) = not_next payload v x
    Effect-closed payload r db' (failing v n x _ _ _ _ _ _) = not_next payload v x

    -- A session that is sealed or failed is final: no request to it writes anything.
    pub put_chunk-closed :
        (start count : ℤ) (d : Text) (payload : Bytes)
        → (serve (put_chunk H env id start count d payload) db).1 ≡ db
    put_chunk-closed start count d payload =
        Effect-closed payload _ _ (put_chunk-Effect H env L db w id start count d payload)
