-- ===== src/Upload/Put/Effect.antt =====
-- What a PUT can leave behind: nothing new, or one chunk at the frontier of an active session.
use mathlib.Core.Path.{subst}
use native.Mathlib.Decide.{ℕ_discrete}
use seismic_trace_resumable.Prelude.{
  ℕ, ◌+◌, ◌<◌, ◌≡◌, ◌≢◌, inl, inr, refl, sym, ap, ◌∙◌, Text, Bytes, ◌=?◌, ◌&&◌, some, Bool-cases,
  ◌==◌, ==_iff, =?_iff, length, window, arith, ltb, leb, le-or-lt,
}
use seismic_trace_resumable.Prelude.Int.{ℤ, pos}
use seismic_trace_resumable.Hashlib.{Hashlib, IsLawful, digest}
use seismic_trace_resumable.Model.{UploadSession, Status, active, sealed, failed}
use seismic_trace_resumable.Errors.{UploadError, whole_digest_mismatch}
use seismic_trace_resumable.Storage.{Db, get_session, chunks_of}
use seismic_trace_resumable.Tx.{Tx, Result, ok, err, opened}
use seismic_trace_resumable.Audit.{Env}
use seismic_trace_resumable.Layout.{contents}
use seismic_trace_resumable.Invariant.{IsSound, IsWellFormed}
use seismic_trace_resumable.Upload.Replay.{Ack}
use seismic_trace_resumable.Upload.Put.{put_active, put_chunk}
use seismic_trace_resumable.Upload.Put.Accept.{accept_lem, received, moved_db, failed_db, sealed_db}
use seismic_trace_resumable.Upload.Put.Branches.{
  IsChecked, put_active-forward, put_active-empty, put_active-stale,
}
use seismic_trace_resumable.Upload.Put.Request.{
  put_chunk-active, put_chunk-terminal, IsHeard, put_chunk-cases,
}

-- The chunk that is stored: the expected one of an active session.
pub record IsNext (db : Db) (id : Text) (u : UploadSession) (n : ℕ) (payload : Bytes) : Type 0 where
  pub named : u.id ≡ id
  pub found : get_session db u.id ≡ some u
  pub still_open : u.status ≡ active
  pub filled : length payload ≡ n
  pub nonempty : 0 < n

module _ (H : Hashlib) (env : Env) (db : Db) (id : Text) (payload : Bytes) where
  pub data Effect (r : Result Ack) (db' : Db) : Type 0 where
    unchanged : db' ≡ db → Effect r db'
    stored :
        (u : UploadSession) (n : ℕ)
        → IsNext db id u n payload
        → u.confirmed_offset + n < u.total_bytes
        → db' ≡ moved_db H env db u n payload
        → (a : Ack) → r ≡ ok a
        → Effect r db'
    sealing :
        (u : UploadSession) (n : ℕ)
        → IsNext db id u n payload
        → u.confirmed_offset + n ≡ u.total_bytes
        → digest H (received H env db u n payload) ≡ u.whole_sha256
        → db' ≡ sealed_db H env db u n payload
        → (a : Ack) → r ≡ ok a
        → Effect r db'
    failing :
        (u : UploadSession) (n : ℕ)
        → IsNext db id u n payload
        → u.confirmed_offset + n ≡ u.total_bytes
        → digest H (received H env db u n payload) ≢ u.whole_sha256
        → db' ≡ failed_db H env db u n payload
        → (e : UploadError) → r ≡ err e
        → e.code ≡ whole_digest_mismatch
        → Effect r db'

  abbrev pub EffectOf : Result Ack × Tx → Type 0
  EffectOf (r, t) = Effect r t.committed

-- A session that is not active has all its bytes.
pub closed-full :
    (H : Hashlib) (db : Db) (u : UploadSession)
    → IsSound H db u
    → u.status ≢ active
    → u.confirmed_offset ≡ u.total_bytes
closed-full H db u h closed = go u.status refl
  where
    go : (s : Status) → u.status ≡ s → u.confirmed_offset ≡ u.total_bytes
    go active e = absurd (closed e)
    go sealed e = (rw e at h.settled).0
    go failed e = (rw e at h.settled).0

module _ (H : Hashlib) (env : Env) (L : IsLawful H) (db : Db) (w : IsWellFormed H db)
    (u : UploadSession) (found : get_session db u.id ≡ some u) (d : Text) (payload : Bytes)
    (id : Text) (named : u.id ≡ id) where
  forward-Effect :
      (n : ℕ)
      → u.status ≡ active
      → IsChecked H u u.confirmed_offset n d payload
      → 0 < n
      → EffectOf H env db id payload (put_active H env u u.confirmed_offset n d payload (opened db))
  forward-Effect n open_session c nonempty =
      let tiles = (w.sound u.id u found).1.tiles in
      let next : IsNext db id u n payload = record {
        named = named;
        found = found;
        still_open = open_session;
        filled = c.filled;
        nonempty = nonempty;
      } in
      rw
        (
          put_active-forward H env L db u n d payload tiles c nonempty,
          accept_lem H env db u n payload L tiles c.filled nonempty,
        )
        (elim (Bool-cases (u.confirmed_offset + n == u.total_bytes)) [
          | inr room ↦ rw room (stored u n next (ground (arith, c.fits)) refl _ refl)
          | inl full ↦
              elim (Bool-cases (digest H (received H env db u n payload) =? u.whole_sha256)) [
                | inr differ ↦
                    rw (full, differ)
                      (failing u n next ((==_iff _ _).0 full) (ground arith) refl _ refl refl)
                | inl same ↦ elim (Bool-cases env.refuses_audit) [
                  | inl refused ↦ rw (full, same, refused) (unchanged refl)
                  | inr written ↦
                      rw (full, same, written)
                        (sealing u n next ((==_iff _ _).0 full) ((=?_iff _ _).0 same) refl _ refl)
                ]
              ]
        ])

  put_active-Effect :
      (start n : ℕ)
      → u.status ≡ active
      → IsChecked H u start n d payload
      → EffectOf H env db id payload (put_active H env u start n d payload (opened db))
  put_active-Effect start n open_session c = elim (ℕ_discrete start u.confirmed_offset) [
    | no elsewhere ↦
        rw (put_active-stale H env db u d payload start n (w.sound u.id u found).1.tiles elsewhere)
          (elim (Bool-cases (
            leb (start + n) u.confirmed_offset
            && (window start n (contents (chunks_of db u.id)) =? payload))) [
              | inl same ↦ rw same (unchanged refl)
              | inr other ↦ rw other (unchanged refl)
            ])
    | yes here ↦ rw here (elim (le-or-lt n 0) [
      | inl empty ↦ rw (put_active-empty H env db u d payload n (omega arith)) (unchanged refl)
      | inr nonempty ↦ forward-Effect n open_session (rw here at c) nonempty
    ])
  ]

module _ (H : Hashlib) (env : Env) (L : IsLawful H) (db : Db) (w : IsWellFormed H db) where
  heard-Effect :
      (id d : Text) (payload : Bytes) {start count : ℤ}
      → IsHeard H env db id d payload start count
      → EffectOf H env db id payload (put_chunk H env id start count d payload (opened db))
  heard-Effect id d payload h = rw (h.starts, h.counts) (by_status h.session.status refl)
    where
      u : UploadSession
      u = h.session

      sound : (u.id ≡ id) × IsSound H db u
      sound = w.sound id u h.found

      here : get_session db u.id ≡ some u
      here = ap (get_session db) sound.0 ∙ h.found

      closed :
          u.status ≢ active
          → EffectOf H env db id payload
              (put_chunk H env id (pos h.at) (pos h.count) d payload (opened db))
      closed shut =
          rw
            (put_chunk-terminal H env db id d payload u h.at h.count h.found sound.0 shut
              (closed-full H db u sound.1 shut) sound.1.tiles h.checked)
            (elim (Bool-cases
              (ltb 0 h.count && (window h.at h.count (contents (chunks_of db u.id)) =? payload))) [
                | inl same ↦ rw same (unchanged refl)
                | inr other ↦ rw other (unchanged refl)
              ])

      by_status :
          (s : Status)
          → u.status ≡ s
          → EffectOf H env db id payload
              (put_chunk H env id (pos h.at) (pos h.count) d payload (opened db))
      by_status active e =
          rw (put_chunk-active H env db id d payload u h.at h.count h.found e h.checked)
            (put_active-Effect H env L db w u here d payload id sound.0 h.at h.count e h.checked)
      by_status sealed e = closed (λ a. cc)
      by_status failed e = closed (λ a. cc)

  pub put_chunk-Effect :
      (id : Text) (start count : ℤ) (d : Text) (payload : Bytes)
      → EffectOf H env db id payload (put_chunk H env id start count d payload (opened db))
  put_chunk-Effect id start count d payload =
      elim (put_chunk-cases H env db id d payload start count) [
        | inl (e, refused) ↦
            subst (λ (r : Result Ack × Tx). EffectOf H env db id payload r) (sym refused)
              (unchanged refl)
        | inr heard ↦ heard-Effect id d payload heard
      ]
