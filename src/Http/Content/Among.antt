-- ===== src/Http/Content/Among.antt =====
-- `download_content` of app/main.py takes no row lock: between its read of the session and its read of
-- the chunks other requests and compactions commit.
use seismic_trace_resumable.Prelude.{ℕ, ◌≡◌, refl, sym, ap, ◌∙◌, Text, Bytes, true, not, some, List}
use seismic_trace_resumable.Hashlib.{Hashlib, IsLawful}
use seismic_trace_resumable.Model.{UploadSession, sealed, is_sealed}
use seismic_trace_resumable.Errors.{upload_error, session_not_found, not_sealed}
use seismic_trace_resumable.Storage.{Db, get_session, chunks_of}
use seismic_trace_resumable.Tx.{
  Action, Result, serve, query, or_raise, raise_if, others_commit, ◌>>=◌, ◌>>◌,
}
use seismic_trace_resumable.Layout.{contents}
use seismic_trace_resumable.Invariant.{IsWellFormed}
use seismic_trace_resumable.History.Lives.{Lives}
use seismic_trace_resumable.History.Interleaved.{still}
use seismic_trace_resumable.Http.Content.{Content, content_of, download_content}
use seismic_trace_resumable.Http.Content.Sealed.{
  answer_of, content_of-sealed, download_content-sealed,
}

-- `download_content` of app/main.py: `after_session` is what is committed after the read of the session.
unfoldable pub download_content_among :
    Hashlib → (limit : ℕ) → (after_session : Db) → Text → List Text → Action Content
download_content_among H limit after_session session_id range_values = do
  found ← query (λ db. get_session db session_id)
  session ← or_raise (upload_error 404 session_not_found) found
  raise_if (not (is_sealed session.status))
      (record (upload_error 409 not_sealed) { expected_offset = some session.confirmed_offset })
  others_commit after_session
  content_of H limit session range_values

module _ (H : Hashlib) (L : IsLawful H) (id : Text) (u : UploadSession)
    (shut : u.status ≡ sealed) where
  -- A download of a sealed package is answered, whole or in part, as if it had run at once when it
  -- began, and also when it ended, whatever others commit between the read of the session and the read
  -- of its chunks; it writes nothing.
  pub download_content_among_lem :
      (limit : ℕ) {db later : Db}
      → Lives H db later
      → IsWellFormed H db
      → get_session db id ≡ some u
      → (range_values : List Text)
      → (serve (download_content_among H limit later id range_values) db
          ≡ serve (download_content H limit id range_values) later)
        × ((serve (download_content_among H limit later id range_values) db).0
            ≡ (serve (download_content H limit id range_values) db).0)
  unfolding download_content_among download_content
  download_content_among_lem limit {db = db} {later = later} life w found range_values =
      let s = still H L id u shut life w found in
      let closed : is_sealed u.status ≡ true = rw shut refl in
      let among : serve (download_content_among H limit later id range_values) db
          ≡ (answer_of limit u (contents (chunks_of later u.id)) range_values, later) =
        rw (found, closed)
          (content_of-sealed H L limit later s.well id u s.found shut range_values) in
      (
        among ∙ sym (download_content-sealed H L limit later s.well id u s.found shut range_values),
        ap (λ (r : Result Content × Db). r.0) among
            ∙ ap (λ (b : Bytes). answer_of limit u b range_values) s.bytes
            ∙ sym (
                ap (λ (r : Result Content × Db). r.0)
                  (download_content-sealed H L limit db w id u found shut range_values)),
      )
