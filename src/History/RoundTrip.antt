-- ===== src/History/RoundTrip.antt =====
-- A package that is registered, sent piece by piece and read back.
use seismic_trace_resumable.Prelude.{
  joined, AllNonempty, ℕ, ◌+◌, ◌-◌, ◌≡◌, ◌<◌, refl, ap, ◌∙◌, Text, Bytes, =?_refl, ==_ne, none,
  some, false, List, [], ◌∷◌, length, length-append, arith, take-all,
}
use seismic_trace_resumable.Prelude.Int.{pos}
use seismic_trace_resumable.Hashlib.{Hashlib, IsLawful, digest}
use seismic_trace_resumable.Model.{UploadSession, active, sealed}
use seismic_trace_resumable.Storage.{Db, get_session, chunks_of}
use seismic_trace_resumable.Storage.Laws.{storage_laws}
use seismic_trace_resumable.Tx.{Result, ok, serve}
use seismic_trace_resumable.Audit.{Env}
use seismic_trace_resumable.Invariant.{IsWellFormed}
use seismic_trace_resumable.Upload.Session.Creates.{
  new_session, new_db, create_session_lem, create_session-IsWellFormed,
}
use seismic_trace_resumable.Upload.Put.Keeps.{put_chunk-IsWellFormed}
use seismic_trace_resumable.Upload.Spec.{Package, package_of, view}
use seismic_trace_resumable.Download.{verified_sealed_bytes}
use seismic_trace_resumable.Download.Sealed.{verified_sealed_bytes-sealed}
use seismic_trace_resumable.History.{create, put, after}
use seismic_trace_resumable.History.Uploads.{send, send_lem, view-row}

module _ (H : Hashlib) (L : IsLawful H) (env : Env) where
  pub send-IsWellFormed :
      (db : Db)
      → IsWellFormed H db
      → (id : Text) (start : ℕ) (qs : List Bytes) → IsWellFormed H (send H L env id start qs db)
  send-IsWellFormed db w id start [] = w
  send-IsWellFormed db w id start (q ∷ qs) =
      send-IsWellFormed (after H env (put id (pos start) (pos (length q)) (digest H q) q) db)
        (put_chunk-IsWellFormed H env L db w id _ _ _ q) id (start + length q) qs

  -- A package registered under a fresh identifier is active and empty.
  view-create :
      (db : Db)
      → IsWellFormed H db
      → (id : Text) → get_session db id ≡ none
      → (total : ℕ) (whole : Text) → 0 < total
      → view (after H env (create id total whole) db) id
        ≡ some (record { total = total; whole = whole; bytes = []; status = active })
  unfolding view
  view-create db w id fresh total whole some_bytes =
      ap (λ (d : Db). view d id) registered ∙ rw (view, row, rows) refl
    where
      registered : after H env (create id total whole) db ≡ new_db H env db id total whole
      registered =
          ap (λ (answer : Result UploadSession × Db). answer.1)
            (create_session_lem H env db id total whole)
          ∙ rw (==_ne total 0 (omega arith)) refl

      row :
          get_session (new_db H env db id total whole) id
          ≡ some (new_session H env db id total whole)
      row = simp (storage_laws, =?_refl)

      rows : chunks_of (new_db H env db id total whole) id ≡ []
      rows = simp storage_laws (w.owned id fresh).0

  -- Registered and sent in pieces of any sizes, a package is complete and sealed.
  pub send-view :
      (db : Db)
      → IsWellFormed H db
      → (id : Text) → get_session db id ≡ none
      → (q : Bytes) (qs : List Bytes) → AllNonempty (q ∷ qs)
      → env.refuses_audit ≡ false
      → let whole = joined (q ∷ qs) in
        view
          (send H L env id 0 (q ∷ qs) (after H env (create id (length whole) (digest H whole)) db))
          id
        ≡ some (record {
          total = length whole;
          whole = digest H whole;
          bytes = whole;
          status = sealed;
        })
  send-view db w id fresh q qs some_bytes written =
      send_lem H L env (after H env (create id total (digest H whole)) db)
        (create_session-IsWellFormed H env db id total (digest H whole) w fresh) id _ q qs
        (view-create db w id fresh total (digest H whole)
          (omega (arith, some_bytes, length-append q (joined qs))))
        refl some_bytes refl refl written
    where
      whole : Bytes
      whole = joined (q ∷ qs)

      total : ℕ
      total = length whole

  -- Registered and sent in pieces of any sizes, a package ends sealed, and the verified read of all
  -- of it answers its bytes.
  pub send-verified_sealed_bytes :
      (db : Db)
      → IsWellFormed H db
      → (id : Text) → get_session db id ≡ none
      → (q : Bytes) (qs : List Bytes) → AllNonempty (q ∷ qs)
      → env.refuses_audit ≡ false
      → let whole = joined (q ∷ qs) in
        let db' =
          send H L env id 0 (q ∷ qs) (after H env (create id (length whole) (digest H whole)) db) in
        (u : UploadSession) × (get_session db' id ≡ some u)
        × (u.status ≡ sealed)
        × (serve (verified_sealed_bytes H u 0 (length whole)) db' ≡ (ok whole, db'))
  send-verified_sealed_bytes db w id fresh q qs some_bytes written =
      let (u, found, row) = view-row db2 id _ (send-view db w id fresh q qs some_bytes written) in
      (u, found, ap (λ (p : Package). p.status) row, read_back u found row)
    where
      whole : Bytes
      whole = joined (q ∷ qs)

      total : ℕ
      total = length whole

      db1 : Db
      db1 = after H env (create id total (digest H whole)) db

      w1 : IsWellFormed H db1
      w1 = create_session-IsWellFormed H env db id total (digest H whole) w fresh

      db2 : Db
      db2 = send H L env id 0 (q ∷ qs) db1

      read_back :
          (u : UploadSession)
          → get_session db2 id ≡ some u
          → package_of db2 u
            ≡ record { total = total; whole = digest H whole; bytes = whole; status = sealed }
          → serve (verified_sealed_bytes H u 0 total) db2 ≡ (ok whole, db2)
      read_back u found row =
          verified_sealed_bytes-sealed H L db2 (send-IsWellFormed db1 w1 id 0 (q ∷ qs)) id u found
            (ap (λ (p : Package). p.status) row) 0 total (omega arith)
          ∙ rw (ap (λ (p : Package). p.bytes) row)
              (ap (λ (b : Bytes). (ok b, db2)) (take-all (total - 0) whole (omega arith)))
