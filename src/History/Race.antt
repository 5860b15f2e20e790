-- ===== src/History/Race.antt =====
-- Two writers that send different bytes for the same range of a session: the first that is answered
-- without an error has the range for good.
use mathlib.Core.Path.{ap₂}
use seismic_trace_resumable.Prelude.{◌≡◌, ◌≢◌, sym, ap, ◌∙◌, Text, Bytes, length, window, arith}
use seismic_trace_resumable.Prelude.Int.{ℤ, pos}
use seismic_trace_resumable.Hashlib.{Hashlib, IsLawful}
use seismic_trace_resumable.Errors.{UploadError}
use seismic_trace_resumable.Storage.{Db, chunks_of}
use seismic_trace_resumable.Layout.{contents}
use seismic_trace_resumable.Tx.{ok, err, serve}
use seismic_trace_resumable.Audit.{Env}
use seismic_trace_resumable.Invariant.{IsWellFormed}
use seismic_trace_resumable.Upload.Replay.{Ack}
use seismic_trace_resumable.Upload.Put.{put_chunk}
use seismic_trace_resumable.Upload.Put.Keeps.{put_chunk-IsWellFormed}
use seismic_trace_resumable.Upload.Put.Confirmed.{put_chunk-confirmed}
use seismic_trace_resumable.Upload.Put.Conflict.{put_chunk-conflict}
use seismic_trace_resumable.History.Lives.{Lives, Lives-IsWellFormed}
use seismic_trace_resumable.History.Retry.{Lives-IsHeld}

module _ (H : Hashlib) (L : IsLawful H) where
  -- Of two different payloads for the same range of a session at most one is ever answered without an
  -- error: once one is, the other one is answered with an error and writes nothing, with any digest, at
  -- any later time, whatever requests and compactions come between.
  pub put_chunk-exclusive :
      (env : Env) (db : Db)
      → IsWellFormed H db
      → (id : Text) (start count : ℤ) (d : Text) (payload : Bytes) (a : Ack)
      → (serve (put_chunk H env id start count d payload) db).0 ≡ ok a
      → (later : Env) (db' : Db)
      → Lives H (serve (put_chunk H env id start count d payload) db).1 db'
      → (d' : Text) (other : Bytes) → length other ≡ length payload
      → other ≢ payload
      → (e : UploadError) × (serve (put_chunk H later id start count d' other) db' ≡ (err e, db'))
  put_chunk-exclusive env db w id start count d payload a answered later db' life d' other same
        differ =
      let (offset, starts, counts, first) =
        put_chunk-confirmed H env L db w id d payload start count a answered in
      let w1 = put_chunk-IsWellFormed H env L db w id start count d payload in
      let (u, still) = Lives-IsHeld H L life w1 id offset d payload first.session first.held in
      let held : window offset (length other) (contents (chunks_of db' id)) ≡ payload =
        rw same still.placed in
      let (e, refused) =
        put_chunk-conflict H later L db' (Lives-IsWellFormed H L life w1) id d' other offset
          (omega (arith, still.inside, same)) (λ its. differ (sym its ∙ held)) in
      (
        e,
        ap₂ (λ (s c : ℤ). serve (put_chunk H later id s c d' other) db') starts
              (counts ∙ ap pos (sym same))
            ∙ refused,
      )
