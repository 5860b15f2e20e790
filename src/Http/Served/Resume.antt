-- ===== src/Http/Served/Resume.antt =====
-- A client that comes back after an interruption: GET /sessions/{session_id} tells where to go on, and the
-- rest of the package is sent from there.
use seismic_trace_resumable.Prelude.{
  joined, AllNonempty, ℕ, ◌≡◌, refl, sym, ap, ◌∙◌, Text, Bytes, some, false, List, [], ◌∷◌, ◌++◌,
  map, length, take, drop, take-append-drop,
}
use mathlib.Core.Path.{subst}
use seismic_trace_resumable.Hashlib.{Hashlib, IsLawful, digest}
use seismic_trace_resumable.Model.{UploadSession, active, sealed}
use seismic_trace_resumable.Storage.{Db, get_session, chunks_of}
use seismic_trace_resumable.Tx.{Result, ok, serve}
use seismic_trace_resumable.Audit.{Env}
use seismic_trace_resumable.Layout.{contents}
use seismic_trace_resumable.Invariant.{IsWellFormed}
use seismic_trace_resumable.Upload.Spec.{Package, package_of, view}
use seismic_trace_resumable.History.Lives.{Lives}
use seismic_trace_resumable.History.Terms.{confirmed_lem}
use seismic_trace_resumable.History.Uploads.{send, send_lem}
use seismic_trace_resumable.History.RoundTrip.{send-IsWellFormed}
use seismic_trace_resumable.Http.Responses.{SessionResponse, session_to_response}
use seismic_trace_resumable.Http.Sessions.{show_session}
use seismic_trace_resumable.Http.Content.{download_content}
use seismic_trace_resumable.Http.Content.Sealed.{whole_answer}
use seismic_trace_resumable.Http.Content.Lives.{view-download_content}
use seismic_trace_resumable.Http.Served.{Server, Served}
use seismic_trace_resumable.Http.Served.Quiet.{IsQuiet}
use seismic_trace_resumable.Http.Served.Lives.{Served-Lives}
use seismic_trace_resumable.Http.Served.RoundTrip.{
  IsHexadecimal, AllWithin, send_bodies, send_bodies-send,
}

ok-injective : {A : Type 0} {a b : A} → ◌≡◌ {A = Result A} (ok a) (ok b) → a ≡ b
ok-injective h = cc

-- A known session is shown by its row.
show_session_lem :
    (db : Db) (id : Text) (u : UploadSession)
    → get_session db id ≡ some u
    → serve (show_session id) db ≡ (ok (session_to_response u), db)
unfolding show_session
show_session_lem db id u found = rw found refl

-- A session that is registered for these bytes, and has some of them and not all.
pub record IsInterrupted (H : Hashlib) (id : Text) (whole : Bytes) (db : Db) : Type 0 where
  pub session : UploadSession
  pub found : get_session db id ≡ some session
  pub still_open : session.status ≡ active
  pub long : session.total_bytes ≡ length whole
  pub hashed : session.whole_sha256 ≡ digest H whole
  pub so_far : contents (chunks_of db id) ≡ take session.confirmed_offset whole

module _ (H : Hashlib) (L : IsLawful H) (env : Env) (db : Db) (w : IsWellFormed H db) (id : Text)
    (whole : Bytes) (i : IsInterrupted H id whole db) where
  abbrev u : UploadSession
  u = i.session

  abbrev start : Package
  start = record {
    total = length whole;
    whole = digest H whole;
    bytes = take u.confirmed_offset whole;
    status = active;
  }

  seen : view db id ≡ some start
  unfolding view
  seen =
      rw (i.found, (w.sound id u i.found).0, view, package_of)
        (rw (i.so_far, i.long, i.hashed, i.still_open) refl)

  offset : length start.bytes ≡ u.confirmed_offset
  offset = ap length (sym i.so_far) ∙ confirmed_lem H db w id u i.found

  -- The rest of the pieces seals the package.
  resumed-view :
      env.refuses_audit ≡ false
      → (q : Bytes) (qs : List Bytes) → AllNonempty (q ∷ qs)
      → joined (q ∷ qs) ≡ drop u.confirmed_offset whole
      → view (send H L env id u.confirmed_offset (q ∷ qs) db) id
        ≡ some (record start { bytes = whole; status = sealed })
  resumed-view written q qs some_bytes rest =
      let all : start.bytes ++ joined (q ∷ qs) ≡ whole =
        ap (λ (b : Bytes). start.bytes ++ b) rest ∙ take-append-drop u.confirmed_offset whole in
      subst
        (λ (b : Bytes).
          view (send H L env id u.confirmed_offset (q ∷ qs) db) id
          ≡ some (record start { bytes = b; status = sealed }))
        all
        (subst
          (λ (n : ℕ).
            view (send H L env id n (q ∷ qs) db) id
            ≡ some (record start { bytes = start.bytes ++ joined (q ∷ qs); status = sealed }))
          offset
          (send_lem H L env db w id start q qs seen refl some_bytes (ap length all)
            (ap (digest H) all) written))

module _ (H : Hashlib) (L : IsLawful H) (server : Server) (env : Env) (hex : IsHexadecimal H)
    (quiet : IsQuiet server) (db : Db) (w : IsWellFormed H db) (id : Text) (whole : Bytes)
    (i : IsInterrupted H id whole db) where
  -- The upload of an interrupted package can be finished: GET /sessions/{session_id} tells an offset, and
  -- when the rest of the bytes from there on is sent in PUT requests, none of them empty and none longer
  -- than the limit, the package is answered as a whole by GET /content, then and at any later time,
  -- whatever calls of any routes come between. The flush of the audit row is taken to succeed, and
  -- `hexdigest` to give sixty-four hexadecimal digits.
  pub resumed-download_content :
      (shown : SessionResponse)
      → (serve (show_session id) db).0 ≡ ok shown
      → env.refuses_audit ≡ false
      → (body : List Bytes) (bodies : List (List Bytes)) → AllNonempty (map joined (body ∷ bodies))
      → AllWithin server.max_chunk_bytes (body ∷ bodies)
      → joined (map joined (body ∷ bodies)) ≡ drop shown.confirmed_offset whole
      → (db' : Db)
      → Served H server
          (send_bodies H L server env id shown.confirmed_offset (body ∷ bodies) db)
          db'
      → (u : UploadSession) × (u.whole_sha256 ≡ digest H whole)
        × (serve (download_content H server.digit_limit id []) db'
            ≡ (ok (whole_answer u whole), db'))
  resumed-download_content shown answered written body bodies some_bytes within rest db' served =
      let row : shown ≡ session_to_response i.session = ok-injective (
        sym answered
        ∙ ap (λ (r : Result SessionResponse × Db). r.0)
            (show_session_lem db id i.session i.found)) in
      let at : shown.confirmed_offset ≡ i.session.confirmed_offset =
        ap (λ (r : SessionResponse). r.confirmed_offset) row in
      let pieces = map joined (body ∷ bodies) in
      view-download_content H L server.digit_limit
        (send H L env id i.session.confirmed_offset pieces db)
        (send-IsWellFormed H L env db w id i.session.confirmed_offset pieces) id _
        (resumed-view H L env db w id whole i written (joined body) (map joined bodies) some_bytes
          (rw at at rest))
        refl db'
        (subst (λ (d : Db). Lives H d db')
          (send_bodies-send H L server env hex id shown.confirmed_offset (body ∷ bodies) db within
            ∙ ap (λ (n : ℕ). send H L env id n pieces db) at)
          (Served-Lives H L server quiet served))
