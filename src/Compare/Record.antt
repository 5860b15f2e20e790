-- ===== src/Compare/Record.antt =====
-- `_verified_archive_chunks`, `create_comparison` and `get_comparison` of app/service.py.
pub mod Sealed
pub mod Conclusions
pub mod Effects
pub mod Genuine
use seismic_trace_resumable.Prelude.{
  ℕ, ◌+◌, min, Text, Bytes, ◌=?◌, Option, none, some, not, List, [], ◌∷◌, map, length, ◌==◌,
  if◌then◌else◌,
}
use seismic_trace_resumable.Prelude.Int.{pos}
use seismic_trace_resumable.Hashlib.{Hashlib, digest}
use seismic_trace_resumable.Model.{
  UploadSession, Chunk, Comparison, Conclusion, identical, content_differs, length_differs,
  is_sealed,
}
use seismic_trace_resumable.Errors.{
  UploadError, upload_error, Side, baseline, candidate, at_side, side_status, session_not_found,
  comparison_integrity_error, comparison_state_conflict, comparison_not_found,
}
use seismic_trace_resumable.Storage.{get_session, chunks_of, stored_comparison, add_comparison}
use seismic_trace_resumable.Tx.{
  Action, Result, ok, err, pure, raise, raise_if, query, or_raise, modify, commit, ◌>>=◌, ◌>>◌,
}
use seismic_trace_resumable.Audit.{Env}
use seismic_trace_resumable.Download.{is_inconsistent}
use seismic_trace_resumable.Compare.{streams_first_difference}

abbrev archive_error : Side → UploadSession → UploadError
archive_error side session = record (upload_error 500 comparison_integrity_error) {
  details = at_side side session.id;
}

-- One side of the check of the states, the baseline first.
unfoldable pub require_sealed : Side → UploadSession → Action (Unit {0})
require_sealed side session =
    raise_if (not (is_sealed session.status)) (record (upload_error 409 comparison_state_conflict) {
      expected_offset = some session.confirmed_offset;
      details = side_status side session.id session.status;
    })

module _ (H : Hashlib) (side : Side) (session : UploadSession) where
  -- The checks of one chunk: continuity, length, digest.
  archive_chunk_error : ℕ → Chunk → Result (Unit {0})
  archive_chunk_error cursor c =
      if not (c.start_offset == cursor)
      then err (record (archive_error side session) { expected_offset = some cursor })
      else if is_inconsistent c
      then err (record (archive_error side session) { offset = some (pos c.start_offset) })
      else if not (digest H c.payload =? c.sha256)
      then err (record (archive_error side session) {
        offset = some (pos c.start_offset);
        expected_digest = some c.sha256;
      })
      else ok tt

  unfoldable pub archive_walk : List Chunk → ℕ → H.Hasher → Result (ℕ × H.Hasher)
  unfolding archive_chunk_error
  archive_walk [] cursor hasher = ok (cursor, hasher)
  archive_walk (c ∷ cs) cursor hasher =
      let rest = archive_walk cs c.end_offset (H.update hasher c.payload) in
      elim (archive_chunk_error cursor c) [ err e ↦ err e | ok _ ↦ rest ]

  archive_verdict : List Chunk → Result (ℕ × H.Hasher) → Action (List Chunk)
  archive_verdict chunks (err e) = raise e
  archive_verdict chunks (ok (cursor, hasher)) = do
    raise_if (not (cursor == session.total_bytes)) (record (archive_error side session) {
      offset = some (pos cursor);
      expected_offset = some session.total_bytes;
    })
    raise_if (not (H.hexdigest hasher =? session.whole_sha256))
        (record (archive_error side session) { expected_digest = some session.whole_sha256 })
    pure chunks

  unfoldable pub verified_archive_chunks : Action (List Chunk)
  unfolding archive_verdict
  verified_archive_chunks = do
    chunks ← query (λ db. chunks_of db session.id)
    archive_verdict chunks (archive_walk chunks 0 (H.sha256 []))

-- What an offset of the first difference says of the two archives.
unfoldable pub conclude : UploadSession → UploadSession → Option ℕ → Conclusion
conclude left right none = identical
conclude left right (some offset) =
    if offset == min left.total_bytes right.total_bytes then length_differs else content_differs

abbrev pub comparison_row : Env → Text → UploadSession → UploadSession → ℕ × Option ℕ → Comparison
comparison_row env id left right (common_prefix, first_difference) = record {
  id = id;
  baseline_session_id = left.id;
  candidate_session_id = right.id;
  baseline_total_bytes = left.total_bytes;
  baseline_whole_sha256 = left.whole_sha256;
  candidate_total_bytes = right.total_bytes;
  candidate_whole_sha256 = right.whole_sha256;
  common_prefix_bytes = common_prefix;
  first_difference_offset = first_difference;
  conclusion = conclude left right first_difference;
  created_at = env.now;
}

abbrev pub payloads : List Chunk → List Bytes
payloads [] = []
payloads (c ∷ cs) = c.payload ∷ payloads cs

-- The identifier is the `uuid.uuid4()` that the request draws.
unfoldable pub create_comparison : Hashlib → Env → Text → Text → Text → Action Comparison
create_comparison H env id baseline_session_id candidate_session_id = do
  baseline_found ← query (λ db. get_session db baseline_session_id)
  left ← or_raise (upload_error 404 session_not_found) baseline_found
  candidate_found ← query (λ db. get_session db candidate_session_id)
  right ← or_raise (upload_error 404 session_not_found) candidate_found
  require_sealed baseline left
  require_sealed candidate right
  left_chunks ← verified_archive_chunks H baseline left
  right_chunks ← verified_archive_chunks H candidate right
  let row : Comparison =
      comparison_row env id left right
        (streams_first_difference (payloads left_chunks) (payloads right_chunks))
  modify (add_comparison row)
  commit
  pure row

unfoldable pub get_comparison : Text → Action Comparison
get_comparison comparison_id = do
  found ← query (λ db. stored_comparison db comparison_id)
  or_raise (upload_error 404 comparison_not_found) found
