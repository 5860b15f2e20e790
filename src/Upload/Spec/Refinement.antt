-- ===== src/Upload/Spec/Refinement.antt =====
-- `put_chunk` implements the protocol of the package.
use native.Mathlib.Decide.{ℕ_discrete}
use seismic_trace_resumable.Prelude.{
  ℕ, ◌+◌, ◌≤◌, ◌<◌, ◌≡◌, ◌≢◌, inl, inr, refl, ap, ◌∙◌, Text, Bytes, =?_refl, some, length,
  length-append, arith, le-or-lt,
}
use seismic_trace_resumable.Prelude.Int.{pos}
use seismic_trace_resumable.Hashlib.{Hashlib, IsLawful, digest}
use seismic_trace_resumable.Model.{UploadSession, Status, active, sealed, failed}
use seismic_trace_resumable.Storage.{Db, get_session, chunks_of}
use seismic_trace_resumable.Storage.Laws.{storage_laws}
use seismic_trace_resumable.Tx.{Tx, Result, opened, serve}
use seismic_trace_resumable.Audit.{Env}
use seismic_trace_resumable.Layout.{contents, length-contents}
use seismic_trace_resumable.Invariant.{IsSound, IsWellFormed}
use seismic_trace_resumable.Upload.Replay.{Ack, ack, stale_offset_error, terminal_error}
use seismic_trace_resumable.Upload.Put.{put_active, put_chunk}
use seismic_trace_resumable.Upload.Put.Accept.{
  accept_lem, received, moved, failed_session, sealed_session, moved_db, failed_db, sealed_db,
}
use seismic_trace_resumable.Upload.Put.Stored.{moved_rows, failed_rows, sealed_rows, bytes}
use seismic_trace_resumable.Upload.Put.Branches.{
  IsChecked, put_active-forward, put_active-empty, put_active-stale,
}
use seismic_trace_resumable.Upload.Put.Request.{put_chunk-active, put_chunk-terminal}
use seismic_trace_resumable.Upload.Put.Effect.{closed-full}
use seismic_trace_resumable.Upload.Spec.{
  Package, Verdict, receive, receive_open, append, package_of, view, verdict_of,
}

-- An answer and a package agree with what a request left behind.
abbrev pub Agrees : Text → Package × Verdict → Result Ack × Tx → Type 0
Agrees id (p, verdict) (r, t) = (view t.committed id ≡ some p) × (verdict_of r ≡ verdict)

view_found :
    (db : Db) (id : Text) (u : UploadSession)
    → get_session db id ≡ some u
    → view db id ≡ some (package_of db u)
unfolding view
view_found db id u found = rw (found, view) refl

module _ (H : Hashlib) (env : Env) (L : IsLawful H) (db : Db) (w : IsWellFormed H db)
    (u : UploadSession) (found : get_session db u.id ≡ some u) (payload : Bytes) where
  sound : IsSound H db u
  sound = (w.sound u.id u found).1

  size : length (contents (chunks_of db u.id)) ≡ u.confirmed_offset
  size = omega (arith, length-contents H 0 (chunks_of db u.id) u.confirmed_offset sound.tiles)

  view_same : view db u.id ≡ some (package_of db u)
  view_same = view_found db u.id u found

  module _ (open_session : u.status ≡ active) (n : ℕ) (filled : length payload ≡ n)
      (nonempty : 0 < n) where
    view_moved :
        view (moved_db H env db u n payload) u.id
        ≡ some (record (package_of db u) { bytes = received H env db u n payload })
    view_moved =
        view_found (moved_db H env db u n payload) u.id (moved H env db u n payload)
          (simp (storage_laws, =?_refl))
        ∙ ap (λ b. some (record (package_of db u) { bytes = b }))
            (ap contents (moved_rows H env db u n payload L w found open_session filled nonempty)
              ∙ bytes H env db u n payload L w found open_session filled nonempty)

    view_failed :
        view (failed_db H env db u n payload) u.id
        ≡ some (record (package_of db u) { bytes = received H env db u n payload; status = failed })
    view_failed =
        view_found (failed_db H env db u n payload) u.id (failed_session H env db u n payload)
          (simp (storage_laws, =?_refl))
        ∙ ap (λ b. some (record (package_of db u) { bytes = b; status = failed }))
            (ap contents (failed_rows H env db u n payload L w found open_session filled nonempty)
              ∙ bytes H env db u n payload L w found open_session filled nonempty)

    view_sealed :
        view (sealed_db H env db u n payload) u.id
        ≡ some (record (package_of db u) { bytes = received H env db u n payload; status = sealed })
    view_sealed =
        view_found (sealed_db H env db u n payload) u.id (sealed_session H env db u n payload)
          (simp (storage_laws, =?_refl))
        ∙ ap (λ b. some (record (package_of db u) { bytes = b; status = sealed }))
            (ap contents (sealed_rows H env db u n payload L w found open_session filled nonempty)
              ∙ bytes H env db u n payload L w found open_session filled nonempty)

    forward-Agrees :
        IsChecked H u u.confirmed_offset n (digest H payload) payload
        → Agrees u.id
            (append (digest H) env.refuses_audit (package_of db u) payload)
            (put_active H env u u.confirmed_offset n (digest H payload) payload (opened db))
    unfolding append ack
    forward-Agrees c =
        rw
          (
            put_active-forward H env L db u n (digest H payload) payload sound.tiles c nonempty,
            accept_lem H env db u n payload L sound.tiles filled nonempty,
          )
          (ground (
            arith,
            size,
            filled,
            length-append (contents (chunks_of db u.id)) payload,
            view_same,
            view_moved,
            view_failed,
            view_sealed,
          ))

  stale-Agrees :
      (start : ℕ)
      → IsChecked H u start (length payload) (digest H payload) payload
      → start ≢ u.confirmed_offset
      → Agrees u.id
          (receive_open (digest H) env.refuses_audit (package_of db u) start payload)
          (put_active H env u start (length payload) (digest H payload) payload (opened db))
  unfolding receive_open ack stale_offset_error
  stale-Agrees start c elsewhere =
      rw
        (put_active-stale H env db u (digest H payload) payload start (length payload) sound.tiles
          elsewhere)
        (ground (arith, size, view_same))

  here-Agrees :
      u.status ≡ active
      → IsChecked H u u.confirmed_offset (length payload) (digest H payload) payload
      → Agrees u.id
          (receive_open (digest H) env.refuses_audit (package_of db u) u.confirmed_offset payload)
          (put_active H env u u.confirmed_offset
            (length payload)
            (digest H payload)
            payload
            (opened db))
  unfolding receive_open ack
  here-Agrees open_session c = elim (le-or-lt (length payload) 0) [
    | inl empty ↦
        rw (put_active-empty H env db u (digest H payload) payload (length payload) (omega arith))
          (ground (arith, size, view_same))
    | inr nonempty ↦
        ground (arith, size, forward-Agrees open_session (length payload) refl nonempty c)
  ]

  open-Agrees :
      (start : ℕ)
      → u.status ≡ active
      → IsChecked H u start (length payload) (digest H payload) payload
      → Agrees u.id
          (receive_open (digest H) env.refuses_audit (package_of db u) start payload)
          (put_active H env u start (length payload) (digest H payload) payload (opened db))
  open-Agrees start open_session c = elim (ℕ_discrete start u.confirmed_offset) [
    | yes here ↦ rw here (here-Agrees open_session (rw here at c))
    | no elsewhere ↦ stale-Agrees start c elsewhere
  ]

  closed-Agrees :
      (start : ℕ)
      → u.status ≢ active
      → IsChecked H u start (length payload) (digest H payload) payload
      → Agrees u.id (receive (digest H) env.refuses_audit (package_of db u) start payload) (
          put_chunk H env u.id
            (pos start)
            (pos (length payload))
            (digest H payload)
            payload
            (opened db))
  unfolding receive ack terminal_error
  closed-Agrees start shut c =
      rw
        (put_chunk-terminal H env db u.id (digest H payload) payload u start (length payload) found
          refl shut (closed-full H db u sound shut) sound.tiles c)
        (ground (arith, size, view_same, c.fits, closed-full H db u sound shut))

module _ (H : Hashlib) (env : Env) (L : IsLawful H) (db : Db) (w : IsWellFormed H db) where
  -- A PUT that names a session of a well-formed database, declares its payload's length and digest
  -- and stays within the registered length does to the package exactly what `receive` says: the
  -- stored bytes and the status that the session then has, and the verdict that the client reads
  -- off the answer.
  pub put_chunk-refines :
      (id : Text) (u : UploadSession) (start : ℕ) (payload : Bytes)
      → get_session db id ≡ some u
      → start + length payload ≤ u.total_bytes
      → let (answer, db') =
          serve
            (put_chunk H env id (pos start) (pos (length payload)) (digest H payload) payload)
            db in
        let (after, verdict) =
          receive (digest H) env.refuses_audit (package_of db u) start payload in
        (view db' id ≡ some after) × (verdict_of answer ≡ verdict)
  put_chunk-refines id u start payload found fits =
      let named = (w.sound id u found).0 in
      rw (← named) (by_status (ap (get_session db) named ∙ found) u.status refl)
    where
      c : IsChecked H u start (length payload) (digest H payload) payload
      c = record { filled = refl; digested = refl; fits = fits }

      by_status :
          get_session db u.id ≡ some u
          → (s : Status) → u.status ≡ s
          → Agrees u.id (receive (digest H) env.refuses_audit (package_of db u) start payload) (
              put_chunk H env u.id
                (pos start)
                (pos (length payload))
                (digest H payload)
                payload
                (opened db))
      by_status here active e =
          rw
            (put_chunk-active H env db u.id (digest H payload) payload u start (length payload) here
              e c)
            (unfold receive in ground (arith, open-Agrees H env L db w u here payload start e c))
      by_status here sealed e = closed-Agrees H env L db w u here payload start (λ a. cc) c
      by_status here failed e = closed-Agrees H env L db w u here payload start (λ a. cc) c
