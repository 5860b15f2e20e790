-- ===== src/Upload/Put/Held.antt =====
-- A payload that stands in the archive at its offset is answered as a replay.
use seismic_trace_resumable.Prelude.{
  ℕ, ◌+◌, ◌<◌, ◌≤◌, ◌≡◌, ◌≢◌, refl, Text, Bytes, =?_refl, true, some, length, window, arith, le→leb,
}
use seismic_trace_resumable.Prelude.Int.{pos}
use seismic_trace_resumable.Hashlib.{Hashlib, IsLawful, digest}
use seismic_trace_resumable.Model.{UploadSession, Status, active, sealed, failed}
use seismic_trace_resumable.Storage.{Db, get_session, chunks_of}
use seismic_trace_resumable.Tx.{ok, serve}
use seismic_trace_resumable.Audit.{Env}
use seismic_trace_resumable.Layout.{contents, length-contents}
use seismic_trace_resumable.Invariant.{IsSound, IsWellFormed}
use seismic_trace_resumable.Upload.Replay.{ack}
use seismic_trace_resumable.Upload.Put.{put_chunk}
use seismic_trace_resumable.Upload.Put.Branches.{IsChecked, put_active-stale}
use seismic_trace_resumable.Upload.Put.Effect.{closed-full}
use seismic_trace_resumable.Upload.Put.Request.{put_chunk-active, put_chunk-terminal}

-- The payload is the bytes of the session from `start` on, and its digest is `d`.
pub record IsHeld (H : Hashlib) (id : Text) (start : ℕ) (d : Text) (payload : Bytes) (db : Db)
    (session : UploadSession) : Type 0 where
  pub found : get_session db id ≡ some session
  pub digested : digest H payload ≡ d
  pub inside : start + length payload ≤ length (contents (chunks_of db id))
  pub placed : window start (length payload) (contents (chunks_of db id)) ≡ payload

module _ (H : Hashlib) (env : Env) (L : IsLawful H) (db : Db) (w : IsWellFormed H db) (id : Text)
    (d : Text) (payload : Bytes) where
  -- A payload of one byte or more that the archive holds at its offset is answered as a replay, while
  -- the session is open and after it is sealed or failed, and nothing is written.
  pub put_chunk-IsHeld :
      (start : ℕ) (u : UploadSession) (h : IsHeld H id start d payload db u)
      → 0 < length payload
      → serve (put_chunk H env id (pos start) (pos (length payload)) d payload) db
        ≡ (ok (ack u start (length payload) d true), db)
  put_chunk-IsHeld start u h nonempty = by_status u.status refl
    where
      sound : (u.id ≡ id) × IsSound H db u
      sound = w.sound id u h.found

      placed : window start (length payload) (contents (chunks_of db u.id)) ≡ payload
      placed = rw sound.0 h.placed

      inside : start + length payload ≤ u.confirmed_offset
      inside =
          let long = length-contents H 0 (chunks_of db u.id) u.confirmed_offset sound.1.tiles in
          let there : start + length payload ≤ length (contents (chunks_of db u.id)) =
            rw sound.0 h.inside in
          omega arith

      checked : IsChecked H u start (length payload) d payload
      checked = record {
        filled = refl;
        digested = h.digested;
        fits = omega (arith, inside, sound.1.bounded);
      }

      closed :
          u.status ≢ active
          → serve (put_chunk H env id (pos start) (pos (length payload)) d payload) db
            ≡ (ok (ack u start (length payload) d true), db)
      closed shut =
          rw
            (
              put_chunk-terminal H env db id d payload u start (length payload) h.found sound.0 shut
                  (closed-full H db u sound.1 shut) sound.1.tiles checked,
              placed,
              =?_refl,
            )
            (ground arith)

      by_status :
          (s : Status)
          → u.status ≡ s
          → serve (put_chunk H env id (pos start) (pos (length payload)) d payload) db
            ≡ (ok (ack u start (length payload) d true), db)
      by_status active e =
          rw
            (
              put_chunk-active H env db id d payload u start (length payload) h.found e checked,
              put_active-stale H env db u d payload start (length payload) sound.1.tiles
                  (omega (arith, inside)),
              placed,
              =?_refl,
              le→leb _ _ inside,
            )
            refl
      by_status sealed e = closed (λ a. cc)
      by_status failed e = closed (λ a. cc)
