-- ===== src/Upload/Put/Conflict.antt =====
-- Bytes that are confirmed are not overwritten.
use seismic_trace_resumable.Prelude.{
  ℕ, ◌+◌, ◌≤◌, ◌<◌, ◌≡◌, ◌≢◌, inl, inr, refl, ap, ◌∙◌, Text, Bytes, ◌=?◌, =?_ne, ◌&&◌, false, true,
  some, [], ◌∷◌, length, window, arith, ltb, leb, Bool, if◌then◌else◌,
}
use seismic_trace_resumable.Prelude.Int.{ℤ, pos}
use seismic_trace_resumable.Hashlib.{Hashlib, IsLawful}
use seismic_trace_resumable.Model.{UploadSession, Status, active, sealed, failed}
use seismic_trace_resumable.Errors.{UploadError}
use seismic_trace_resumable.Storage.{Db, get_session, chunks_of}
use seismic_trace_resumable.Tx.{Tx, Result, err, serve}
use seismic_trace_resumable.Audit.{Env}
use seismic_trace_resumable.Layout.{contents, length-contents}
use seismic_trace_resumable.Invariant.{IsSound, IsWellFormed}
use seismic_trace_resumable.Upload.Replay.{Ack, terminal_error, stale_offset_error}
use seismic_trace_resumable.Upload.Put.{put_chunk}
use seismic_trace_resumable.Upload.Put.Branches.{IsChecked, put_active-stale}
use seismic_trace_resumable.Upload.Put.Effect.{closed-full}
use seismic_trace_resumable.Upload.Put.Request.{
  put_chunk-active, put_chunk-terminal, put_chunk-cases,
}

-- A test of which the second part fails.
second_false : {A : Type 0} (b c : Bool) (x y : A) → c ≡ false → (if b && c then x else y) ≡ y
second_false true c x y e = rw e refl
second_false false c x y e = refl

pos-injective : {a b : ℕ} → pos a ≡ pos b → a ≡ b
pos-injective h = cc

-- Other bytes than the empty ones are some.
some_bytes :
    (k : ℕ) (xs payload : Bytes) → window k (length payload) xs ≢ payload → 0 < length payload
some_bytes k xs [] differ = absurd (differ refl)
some_bytes k xs (b ∷ bs) differ = omega arith

module _ (H : Hashlib) (env : Env) (L : IsLawful H) (db : Db) (w : IsWellFormed H db) (id : Text)
    (d : Text) (payload : Bytes) where
  -- The request is answered with an error and writes nothing.
  abbrev pub IsRefused : ℤ → ℤ → Type 0
  IsRefused start count =
      (e : UploadError) × (serve (put_chunk H env id start count d payload) db ≡ (err e, db))

  module _ (u : UploadSession) (found : get_session db id ≡ some u) (start n : ℕ)
      (c : IsChecked H u start n d payload)
      (inside : start + length payload ≤ length (contents (chunks_of db id)))
      (differ : window start (length payload) (contents (chunks_of db id)) ≢ payload) where
    sound : (u.id ≡ id) × IsSound H db u
    sound = w.sound id u found

    nonempty : 0 < n
    nonempty = omega (arith, some_bytes start _ payload differ, c.filled)

    confirmed : start + n ≤ u.confirmed_offset
    confirmed =
        let size : length (contents (chunks_of db id)) ≡ u.confirmed_offset = rw (← sound.0) (
          omega
            (arith, length-contents H 0 (chunks_of db u.id) u.confirmed_offset sound.1.tiles)) in
        omega (arith, size, inside, c.filled)

    other_bytes : (window start n (contents (chunks_of db u.id)) =? payload) ≡ false
    other_bytes = =?_ne _ _ (λ e. differ (rw (c.filled, ← sound.0) e))

    closed : u.status ≢ active → IsRefused (pos start) (pos n)
    closed shut =
        let full = closed-full H db u sound.1 shut in
        (
          terminal_error u start n,
          ap (λ (r : Result Ack × Tx). (r.0, r.1.committed))
              (put_chunk-terminal H env db id d payload u start n found sound.0 shut full
                  sound.1.tiles c
                ∙ second_false (ltb 0 n) _ _ _ other_bytes),
        )

    by_status : (s : Status) → u.status ≡ s → IsRefused (pos start) (pos n)
    by_status active e = (
      stale_offset_error u start,
      ap (λ (r : Result Ack × Tx). (r.0, r.1.committed))
          (put_chunk-active H env db id d payload u start n found e c
            ∙ put_active-stale H env db u d payload start n sound.1.tiles
                (omega (arith, nonempty, confirmed))
            ∙ second_false (leb (start + n) u.confirmed_offset) _ _ _ other_bytes),
    )
    by_status sealed e = closed (λ a. cc)
    by_status failed e = closed (λ a. cc)

  -- A request with other bytes for a range that is stored is answered with an error and writes nothing,
  -- while the session is open and after it is sealed or failed.
  pub put_chunk-conflict :
      (start : ℕ)
      → start + length payload ≤ length (contents (chunks_of db id))
      → window start (length payload) (contents (chunks_of db id)) ≢ payload
      → IsRefused (pos start) (pos (length payload))
  put_chunk-conflict start inside differ =
      elim (put_chunk-cases H env db id d payload (pos start) (pos (length payload))) [
        | inl (e, refused) ↦ (e, ap (λ (r : Result Ack × Tx). (r.0, r.1.committed)) refused)
        | inr h ↦
            let at : start ≡ h.at = pos-injective h.starts in
            rw (h.starts, h.counts)
              (by_status h.session h.found h.at h.count h.checked (rw at at inside)
                (rw at at differ) h.session.status refl)
      ]
