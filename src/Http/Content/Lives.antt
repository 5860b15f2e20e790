-- ===== src/Http/Content/Lives.antt =====
-- A sealed package is downloaded at any later time.
use seismic_trace_resumable.Prelude.{
  joined, AllNonempty, ℕ, ◌≡◌, refl, sym, ap, ◌∙◌, Text, Bytes, none, some, false, List, [], ◌∷◌,
  length,
}
use seismic_trace_resumable.Hashlib.{Hashlib, IsLawful, digest}
use seismic_trace_resumable.Model.{UploadSession, sealed}
use seismic_trace_resumable.Storage.{Db, get_session, chunks_of}
use seismic_trace_resumable.Tx.{Result, ok, serve}
use seismic_trace_resumable.Audit.{Env}
use seismic_trace_resumable.Layout.{contents}
use seismic_trace_resumable.Invariant.{IsWellFormed}
use seismic_trace_resumable.Upload.Session.Creates.{create_session-IsWellFormed}
use seismic_trace_resumable.Upload.Spec.{Package, view}
use seismic_trace_resumable.History.{create, after}
use seismic_trace_resumable.History.Uploads.{send, view-row}
use seismic_trace_resumable.History.RoundTrip.{send-view, send-IsWellFormed}
use seismic_trace_resumable.History.Lives.{Lives, Lives-IsWellFormed, Lives-IsPreserved}
use seismic_trace_resumable.Http.Content.{Content, download_content}
use seismic_trace_resumable.Http.Content.Sealed.{whole_answer, answer_of, download_content-sealed}

module _ (H : Hashlib) (L : IsLawful H) (limit : ℕ) where
  -- Whatever requests and compactions come between, a download of a sealed package, whole or of any
  -- range, is answered the same.
  pub Lives-download_content :
      {db db' : Db}
      → Lives H db db'
      → IsWellFormed H db
      → (id : Text) (u : UploadSession) → get_session db id ≡ some u
      → u.status ≡ sealed
      → (range_values : List Text)
      → serve (download_content H limit id range_values) db'
        ≡ ((serve (download_content H limit id range_values) db).0, db')
  Lives-download_content {db = db} {db' = db'} life w id u found shut range_values =
      let same = Lives-IsPreserved H L id u shut life w found in
      let named : u.id ≡ id = (w.sound id u found).0 in
      let same_bytes : contents (chunks_of db' u.id) ≡ contents (chunks_of db u.id) =
        rw named same.bytes in
      download_content-sealed H L limit db' (Lives-IsWellFormed H L life w) id u
        (same.session ∙ found) shut range_values
      ∙ ap (λ (b : Bytes). (answer_of limit u b range_values, db')) same_bytes
      ∙ sym (
          ap (λ (answer : Result Content × Db). (answer.0, db'))
            (download_content-sealed H L limit db w id u found shut range_values))

  -- A package that is seen sealed is downloaded as it was, at any later time.
  pub view-download_content :
      (db : Db)
      → IsWellFormed H db
      → (id : Text) (p : Package) → view db id ≡ some p
      → p.status ≡ sealed
      → (db' : Db) → Lives H db db'
      → (u : UploadSession) × (u.whole_sha256 ≡ p.whole)
        × (serve (download_content H limit id []) db' ≡ (ok (whole_answer u p.bytes), db'))
  view-download_content db w id p seen shut db' life =
      let (u, found, row) = view-row db id p seen in
      let closed : u.status ≡ sealed = ap (λ (p : Package). p.status) row ∙ shut in
      (
        u,
        ap (λ (p : Package). p.whole) row,
        Lives-download_content life w id u found closed []
            ∙ ap (λ (answer : Result Content × Db). (answer.0, db'))
                (download_content-sealed H L limit db w id u found closed [])
            ∙ ap (λ (p : Package). (ok (whole_answer u p.bytes), db')) row,
      )

  -- A package that is registered and sent in pieces of any sizes is downloaded as it was, at any later
  -- time, with any requests and compactions between.
  pub send-download_content :
      (env : Env) (db : Db)
      → IsWellFormed H db
      → (id : Text) → get_session db id ≡ none
      → (q : Bytes) (qs : List Bytes) → AllNonempty (q ∷ qs)
      → env.refuses_audit ≡ false
      → let whole = joined (q ∷ qs) in
        (db' : Db)
        → Lives H
            (send H L env id 0
              (q ∷ qs)
              (after H env (create id (length whole) (digest H whole)) db))
            db'
        → (u : UploadSession) × (u.whole_sha256 ≡ digest H whole)
          × (serve (download_content H limit id []) db' ≡ (ok (whole_answer u whole), db'))
  send-download_content env db w id fresh q qs some_bytes written db' life =
      view-download_content sent sent-IsWellFormed id _
        (send-view H L env db w id fresh q qs some_bytes written) refl db' life
    where
      whole : Bytes
      whole = joined (q ∷ qs)

      registered : Db
      registered = after H env (create id (length whole) (digest H whole)) db

      sent : Db
      sent = send H L env id 0 (q ∷ qs) registered

      sent-IsWellFormed : IsWellFormed H sent
      sent-IsWellFormed =
          send-IsWellFormed H L env registered
            (create_session-IsWellFormed H env db id (length whole) (digest H whole) w fresh) id 0
            (q ∷ qs)
