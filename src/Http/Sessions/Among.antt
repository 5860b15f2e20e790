-- ===== src/Http/Sessions/Among.antt =====
-- `list_chunks` of app/main.py takes no row lock: between its read of the session and its read of the
-- chunks other requests commit, chunks of the same session among them.
use mathlib.Core.Path.{subst}
use seismic_trace_resumable.Prelude.{ℕ, ◌≤◌, ◌≡◌, refl, Text, some}
use seismic_trace_resumable.Hashlib.{Hashlib, IsLawful}
use seismic_trace_resumable.Model.{UploadSession}
use seismic_trace_resumable.Errors.{upload_error, session_not_found}
use seismic_trace_resumable.Storage.{Db, get_session, chunks_of}
use seismic_trace_resumable.Tx.{
  Action, ok, serve, pure, query, or_raise, others_commit, ◌>>=◌, ◌>>◌,
}
use seismic_trace_resumable.Invariant.{IsWellFormed}
use seismic_trace_resumable.History.Lives.{Lives, Lives-IsWellFormed}
use seismic_trace_resumable.History.Terms.{Lives-checkpoint}
use seismic_trace_resumable.Compact.Layout.{layout_of}
use seismic_trace_resumable.Http.Sessions.{ChunkList}
use seismic_trace_resumable.Http.Sessions.Listing.{Covered, layout_of-Tiles}

-- `after_session` is what is committed after the read of the session.
unfoldable pub list_chunks_among : (after_session : Db) → Text → Action ChunkList
list_chunks_among after_session session_id = do
  found ← query (λ db. get_session db session_id)
  session ← or_raise (upload_error 404 session_not_found) found
  others_commit after_session
  rows ← query (λ db. chunks_of db session_id)
  pure (record {
    id = session_id;
    status = session.status;
    confirmed_offset = session.confirmed_offset;
    total_bytes = session.total_bytes;
    chunks = layout_of rows;
  })

module _ (H : Hashlib) (L : IsLawful H) (id : Text) (u : UploadSession) where
  -- Whatever others commit between the two reads, the listed chunks leave no gap from the first byte on,
  -- and reach at least as far as the confirmed offset that is told with them.
  pub list_chunks_among-Covered :
      {db later : Db}
      → Lives H db later
      → IsWellFormed H db
      → get_session db id ≡ some u
      → (answer : ChunkList) × (reach : ℕ) × (serve (list_chunks_among later id) db
          ≡ (ok answer, later))
        × (answer.confirmed_offset ≡ u.confirmed_offset)
        × Covered 0 answer.chunks reach
        × (u.confirmed_offset ≤ reach)
  unfolding list_chunks_among
  list_chunks_among-Covered {db = db} {later = later} life w found =
      let (now, found', _, _, further, _) = Lives-checkpoint H L life w id u found in
      let (named, sound) = (Lives-IsWellFormed H L life w).sound id now found' in
      (
        record {
          id = id;
          status = u.status;
          confirmed_offset = u.confirmed_offset;
          total_bytes = u.total_bytes;
          chunks = layout_of (chunks_of later id);
        },
        now.confirmed_offset,
        rw found refl,
        refl,
        subst (λ i. Covered 0 (layout_of (chunks_of later i)) now.confirmed_offset) named
            (layout_of-Tiles H 0 (chunks_of later now.id) now.confirmed_offset sound.tiles),
        further,
      )
