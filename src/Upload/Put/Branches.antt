-- ===== src/Upload/Put/Branches.antt =====
-- `put_chunk` branch by branch on a well-formed database: each is an equation for the request.
use seismic_trace_resumable.Prelude.{
  ℕ, ◌+◌, ◌≤◌, ◌<◌, ◌≡◌, ◌≢◌, ◌⊎◌, inl, inr, refl, ap, ◌∙◌, Text, Bytes, Bool-cases, ◌=?◌, =?_refl,
  =?_iff, ◌&&◌, true, some, length, window, arith, ltb, leb, ◌==◌, le-or-lt, ==_refl, ==_iff,
  le→ltb, if◌then◌else◌,
}
use seismic_trace_resumable.Hashlib.{Hashlib, IsLawful, digest}
use seismic_trace_resumable.Model.{UploadSession}
use seismic_trace_resumable.Errors.{UploadError}
use seismic_trace_resumable.Storage.{Db, chunks_of, add_chunk}
use seismic_trace_resumable.Tx.{Tx, ok, err, opened}
use seismic_trace_resumable.Audit.{Env}
use seismic_trace_resumable.Layout.{contents, Tiles}
use seismic_trace_resumable.Upload.Archive.{archived_bytes}
use seismic_trace_resumable.Upload.Archive.Reads.{archived_bytes-Tiles}
use seismic_trace_resumable.Upload.Replay.{ack, stale_offset_error}
use seismic_trace_resumable.Upload.Put.{
  length_error, digest_error, beyond_error, check_payload, forward, stale, accept, put_active,
}
use seismic_trace_resumable.Upload.Put.Accept.{chunk, flush_chunk_lem}

module _ (H : Hashlib) (u : UploadSession) (start n : ℕ) (d : Text) (payload : Bytes) where
  -- What a payload has to pass before anything is stored.
  pub record IsChecked : Type 0 where
    pub filled : length payload ≡ n
    pub digested : digest H payload ≡ d
    pub fits : start + n ≤ u.total_bytes

  pub check_payload-cases :
      (t : Tx)
      → (check_payload H u start n d payload t ≡ (ok tt, t)) × IsChecked
        ⊎ ((e : UploadError) × (check_payload H u start n d payload t ≡ (err e, t)))
  unfolding check_payload
  check_payload-cases t = elim (Bool-cases (length payload == n)) [
    | inr short ↦ inr (length_error start n payload, rw short refl)
    | inl filled ↦ elim (Bool-cases (digest H payload =? d)) [
      | inr differ ↦ inr (digest_error H start d payload, rw (filled, differ) refl)
      | inl digested ↦ elim (Bool-cases (ltb u.total_bytes (start + n))) [
        | inl beyond ↦ inr (beyond_error u start n, rw (filled, digested, beyond) refl)
        | inr fits ↦ inl (
          rw (filled, digested, fits) refl,
          record {
            filled = (==_iff _ _).0 filled;
            digested = (=?_iff _ _).0 digested;
            fits = ground arith;
          },
        )
      ]
    ]
  ]

  pub check_payload-ok : (t : Tx) → IsChecked → check_payload H u start n d payload t ≡ (ok tt, t)
  unfolding check_payload
  check_payload-ok t c =
      rw (c.filled, ==_refl, c.digested, =?_refl, le→ltb u.total_bytes (start + n) c.fits) refl

module _ (H : Hashlib) (env : Env) (L : IsLawful H) (db : Db) (u : UploadSession) (n : ℕ) (d : Text)
    (payload : Bytes) (tiles : Tiles H 0 (chunks_of db u.id) u.confirmed_offset) where
  -- The next chunk is flushed, and goes on to `accept`.
  pub put_active-forward :
      IsChecked H u u.confirmed_offset n d payload
      → 0 < n
      → put_active H env u u.confirmed_offset n d payload (opened db)
        ≡ accept H env u u.confirmed_offset n
            (digest H payload)
            (record { committed = db; working = add_chunk (chunk H env db u n payload) db })
  unfolding put_active forward
  put_active-forward c pos_length =
      rw (← c.digested)
        (ground (arith, flush_chunk_lem H env db u n payload L tiles c.filled pos_length))

module _ (H : Hashlib) (env : Env) (db : Db) (u : UploadSession) (d : Text) (payload : Bytes) where
  -- An empty chunk at the frontier changes nothing.
  pub put_active-empty :
      (n : ℕ)
      → n ≡ 0
      → put_active H env u u.confirmed_offset n d payload (opened db)
        ≡ (ok (ack u u.confirmed_offset 0 d true), opened db)
  unfolding put_active
  put_active-empty n e = ground arith

  -- Away from the checkpoint of a gapless archive, confirmed bytes that are sent again are a replay,
  -- anything else is a stale offset, and nothing is written.
  pub put_active-stale :
      (start n : ℕ)
      → Tiles H 0 (chunks_of db u.id) u.confirmed_offset
      → start ≢ u.confirmed_offset
      → put_active H env u start n d payload (opened db) ≡ (
          if leb (start + n) u.confirmed_offset
            && (window start n (contents (chunks_of db u.id)) =? payload)
          then (ok (ack u start n d true), opened db)
          else (err (stale_offset_error u start), opened db))
  unfolding put_active stale
  put_active-stale start n tiles elsewhere = elim (le-or-lt (start + n) u.confirmed_offset) [
    | inr ahead ↦ ground arith
    | inl inside ↦ ground (arith, archived start n tiles inside)
  ]
    where
      archived :
          (start n : ℕ)
          → Tiles H 0 (chunks_of db u.id) u.confirmed_offset
          → start + n ≤ u.confirmed_offset
          → archived_bytes db u.id start (start + n)
            ≡ some (window start n (contents (chunks_of db u.id)))
      archived start n tiles inside =
          archived_bytes-Tiles H db u.id start (start + n) tiles (omega arith) inside
          ∙ ap (λ (k : ℕ). some (window start k (contents (chunks_of db u.id)))) (omega arith)
