-- ===== src/History/Retry.antt =====
-- A client that never saw the answer to its PUT, and sends the same chunk again, whenever.
use seismic_trace_resumable.Prelude.{
  ℕ, ◌≡◌, ◌<◌, refl, Text, Bytes, true, some, length, length-append, window-append_left, arith,
}
use seismic_trace_resumable.Prelude.Int.{ℤ, pos}
use seismic_trace_resumable.Hashlib.{Hashlib, IsLawful}
use seismic_trace_resumable.Model.{UploadSession}
use seismic_trace_resumable.Storage.{Db, get_session, chunks_of}
use seismic_trace_resumable.Tx.{ok, serve}
use seismic_trace_resumable.Audit.{Env}
use seismic_trace_resumable.Layout.{contents}
use seismic_trace_resumable.Invariant.{IsWellFormed}
use seismic_trace_resumable.Upload.Replay.{Ack, ack}
use seismic_trace_resumable.Upload.Put.{put_chunk}
use seismic_trace_resumable.Upload.Put.Keeps.{put_chunk-IsWellFormed}
use seismic_trace_resumable.Upload.Put.Held.{IsHeld, put_chunk-IsHeld}
use seismic_trace_resumable.Upload.Put.Confirmed.{put_chunk-confirmed}
use seismic_trace_resumable.History.Lives.{Lives, Lives-IsWellFormed, Lives-bytes}
use seismic_trace_resumable.History.Terms.{HasTerms, Lives-HasTerms}

module _ (H : Hashlib) (L : IsLawful H) where
  -- What the archive holds it holds for good, whatever requests and compactions follow.
  pub Lives-IsHeld :
      {db db' : Db}
      → Lives H db db'
      → IsWellFormed H db
      → (id : Text) (start : ℕ) (d : Text) (payload : Bytes) (u : UploadSession)
      → IsHeld H id start d payload db u
      → (u' : UploadSession) × IsHeld H id start d payload db' u'
  Lives-IsHeld {db = db} {db' = db'} life w id start d payload u h =
      let there : HasTerms id u.total_bytes u.whole_sha256 db' =
        Lives-HasTerms H L id u.total_bytes u.whole_sha256 life w
          (record { session = u; found = h.found; long = refl; hashed = refl }) in
      let (more, grown) = Lives-bytes H L life w id in
      (
        there.session,
        record {
          found = there.found;
          digested = h.digested;
          inside =
              rw grown (omega (arith, h.inside, length-append (contents (chunks_of db id)) more));
          placed =
              rw
                (
                  grown,
                  window-append_left start (length payload) (contents (chunks_of db id)) more
                      h.inside,
                )
                h.placed;
        },
      )

  -- A chunk of one byte or more that was answered without an error can be sent again at any time,
  -- whatever requests and compactions came between and whether the session is still open, sealed or
  -- failed by then: the answer is a replay of the same range and digest, and nothing is written.
  pub put_chunk-retried :
      (env : Env) (db : Db)
      → IsWellFormed H db
      → (id : Text) (start count : ℤ) (d : Text) (payload : Bytes) (a : Ack) → 0 < length payload
      → (serve (put_chunk H env id start count d payload) db).0 ≡ ok a
      → (later : Env) (db' : Db)
      → Lives H (serve (put_chunk H env id start count d payload) db).1 db'
      → (u : UploadSession) × (offset : ℕ) × (get_session db' id ≡ some u)
        × (start ≡ pos offset)
        × (serve (put_chunk H later id start count d payload) db'
            ≡ (ok (ack u offset (length payload) d true), db'))
  put_chunk-retried env db w id start count d payload a nonempty answered later db' life =
      let (offset, starts, counts, a1) =
        put_chunk-confirmed H env L db w id d payload start count a answered in
      let w1 = put_chunk-IsWellFormed H env L db w id start count d payload in
      let (u, still) = Lives-IsHeld life w1 id offset d payload a1.session a1.held in
      (
        u,
        offset,
        still.found,
        starts,
        rw (starts, counts)
            (put_chunk-IsHeld H later L db' (Lives-IsWellFormed H L life w1) id d payload offset u
              still nonempty),
      )
