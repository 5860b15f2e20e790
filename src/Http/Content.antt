-- ===== src/Http/Content.antt =====
-- `download_content` of app/main.py, GET /sessions/{session_id}/content: the whole package, or one byte
-- range of it.
pub mod Sealed
pub mod Genuine
pub mod Lives
pub mod Among
use seismic_trace_resumable.Prelude.{
  ℕ, ◌-◌, Text, Bytes, codes, Option, none, some, not, List, [], ◌∷◌, ◌++◌, length,
}
use seismic_trace_resumable.Hashlib.{Hashlib}
use seismic_trace_resumable.Model.{UploadSession, is_sealed}
use seismic_trace_resumable.Errors.{
  upload_error, at_ranges, session_not_found, not_sealed, invalid_range,
}
use seismic_trace_resumable.Storage.{get_session}
use seismic_trace_resumable.Tx.{
  Action, Result, ok, err, pure, raise, raise_if, query, or_raise, ◌>>=◌, ◌>>◌,
}
use seismic_trace_resumable.Download.{verified_sealed_bytes}
use seismic_trace_resumable.Http.Ranges.{parse_single_range}

-- `Content-Range: bytes <begin>-<last>/<total>`
pub record ContentRange : Type 0 where
  pub begin : ℕ
  pub last : ℕ
  pub total : ℕ

-- A response with its headers, but the media type, which is the same in all; `x_whole_sha256` is `X-Whole-SHA256`.
pub record Content : Type 0 where
  pub status_code : ℕ
  pub content : Bytes
  pub accept_ranges : Text
  pub etag : Text
  pub x_whole_sha256 : Text
  pub content_length : ℕ
  pub content_range : Option ContentRange

-- The digest in quotes.
abbrev quoted : Text → Text
quoted digest = 34 ∷ digest ++ 34 ∷ []

abbrev pub full_content : UploadSession → Bytes → Content
full_content session bytes = record {
  status_code = 200;
  content = bytes;
  accept_ranges = codes "bytes";
  etag = quoted session.whole_sha256;
  x_whole_sha256 = session.whole_sha256;
  content_length = length bytes;
  content_range = none;
}

abbrev pub partial_content : UploadSession → ℕ → ℕ → Bytes → Content
partial_content session begin end bytes = record (full_content session bytes) {
  status_code = 206;
  content_range = some (record { begin = begin; last = end - 1; total = session.total_bytes });
}

module _ (H : Hashlib) (limit : ℕ) where
  unfoldable pub ranged_content : UploadSession → Result (ℕ × ℕ) → Action Content
  ranged_content session (err e) = raise e
  ranged_content session (ok (begin, end)) = do
    bytes ← verified_sealed_bytes H session begin end
    pure (partial_content session begin end bytes)

  -- No Range header, one, or several.
  unfoldable pub content_of : UploadSession → List Text → Action Content
  unfolding ranged_content
  content_of session [] = do
    bytes ← verified_sealed_bytes H session 0 session.total_bytes
    pure (full_content session bytes)
  content_of session (range_value ∷ []) =
      ranged_content session (parse_single_range limit range_value session.total_bytes)
  content_of session (range_value ∷ another ∷ more) =
      raise (record (upload_error 400 invalid_range) {
        details = at_ranges (range_value ∷ another ∷ more);
      })

  unfoldable pub download_content : Text → List Text → Action Content
  unfolding content_of
  download_content session_id range_values = do
    found ← query (λ db. get_session db session_id)
    session ← or_raise (upload_error 404 session_not_found) found
    raise_if (not (is_sealed session.status))
        (record (upload_error 409 not_sealed) { expected_offset = some session.confirmed_offset })
    content_of session range_values
