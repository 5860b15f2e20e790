-- ===== src/Http/Content/Sealed.antt =====
-- What a client that downloads a sealed package is answered.
use mathlib.Core.Path.{subst}
use seismic_trace_resumable.Prelude.{
  ℕ, ◌-◌, ◌≤◌, ◌≡◌, refl, ap, ◌∙◌, Text, Bytes, codes, none, some, true, List, [], ◌∷◌, ◌++◌,
  length, window, take-all, arith,
}
use seismic_trace_resumable.Hashlib.{Hashlib, IsLawful}
use seismic_trace_resumable.Model.{UploadSession, sealed, is_sealed}
use seismic_trace_resumable.Errors.{upload_error, at_ranges, invalid_range}
use seismic_trace_resumable.Storage.{Db, get_session, chunks_of, audit_of}
use seismic_trace_resumable.Tx.{Result, ok, err, serve}
use seismic_trace_resumable.Tx.Laws.{serve-pure}
use seismic_trace_resumable.Layout.{contents, length-contents}
use seismic_trace_resumable.Invariant.{IsWellFormed, Settled}
use seismic_trace_resumable.Download.{verified_sealed_bytes}
use seismic_trace_resumable.Download.Sealed.{verified_sealed_bytes-sealed}
use seismic_trace_resumable.Http.Ranges.{parse_single_range}
use seismic_trace_resumable.Http.Ranges.Bounds.{parse_single_range_bounds}
use seismic_trace_resumable.Http.Content.{
  Content, full_content, partial_content, ranged_content, content_of, download_content,
}

-- 200 with all of the bytes, their number, and the digest of the package as entity tag and header.
abbrev pub whole_answer : UploadSession → Bytes → Content
whole_answer u bytes = record {
  status_code = 200;
  content = bytes;
  accept_ranges = codes "bytes";
  etag = codes "\"" ++ u.whole_sha256 ++ codes "\"";
  x_whole_sha256 = u.whole_sha256;
  content_length = length bytes;
  content_range = none;
}

-- 206 with the bytes from `begin` up to `end`, their number, the first and the last position with the
-- length of the package, and the digest of the whole package.
abbrev pub range_answer : UploadSession → Bytes → ℕ → ℕ → Content
range_answer u bytes begin end = record {
  status_code = 206;
  content = window begin (end - begin) bytes;
  accept_ranges = codes "bytes";
  etag = codes "\"" ++ u.whole_sha256 ++ codes "\"";
  x_whole_sha256 = u.whole_sha256;
  content_length = length (window begin (end - begin) bytes);
  content_range = some (record { begin = begin; last = end - 1; total = u.total_bytes });
}

-- The answer by the bytes of the package.
abbrev pub answer_of : ℕ → UploadSession → Bytes → List Text → Result Content
answer_of limit u bytes [] = ok (whole_answer u bytes)
answer_of limit u bytes (v ∷ []) = elim (parse_single_range limit v u.total_bytes) [
  | err e ↦ err e
  | ok span ↦ ok (range_answer u bytes span.0 span.1)
]
answer_of limit u bytes (v ∷ another ∷ more) =
    err (record (upload_error 400 invalid_range) { details = at_ranges (v ∷ another ∷ more) })

module _ (H : Hashlib) (L : IsLawful H) (limit : ℕ) (db : Db) (w : IsWellFormed H db) (id : Text)
    (u : UploadSession) (found : get_session db id ≡ some u) (shut : u.status ≡ sealed) where
  abbrev bytes : Bytes
  bytes = contents (chunks_of db u.id)

  settled : Settled H sealed u bytes (audit_of db u.id)
  settled = subst (λ s. Settled H s u bytes (audit_of db u.id)) shut (w.sound id u found).1.settled

  size : u.total_bytes ≡ length bytes
  size = omega (
    arith,
    length-contents H 0 (chunks_of db u.id) u.confirmed_offset (w.sound id u found).1.tiles,
    settled.0,
  )

  read :
      (begin end : ℕ)
      → begin ≤ end
      → serve (verified_sealed_bytes H u begin end) db ≡ (ok (window begin (end - begin) bytes), db)
  read = verified_sealed_bytes-sealed H L db w id u found shut

  abbrev span_answer : Result (ℕ × ℕ) → Result Content
  span_answer (err e) = err e
  span_answer (ok span) = ok (range_answer u bytes span.0 span.1)

  ranged_content-sealed :
      (v : Text) (r : Result (ℕ × ℕ))
      → parse_single_range limit v u.total_bytes ≡ r
      → serve (ranged_content H limit u r) db ≡ (span_answer r, db)
  unfolding ranged_content
  ranged_content-sealed v (err e) h = refl
  ranged_content-sealed v (ok (begin, end)) h =
      serve-pure (partial_content u begin end) (window begin (end - begin) bytes) db
        (verified_sealed_bytes H u begin end) db
        (read begin end
          (omega (arith, (parse_single_range_bounds limit v u.total_bytes begin end h).0)))

  pub content_of-sealed :
      (range_values : List Text)
      → serve (content_of H limit u range_values) db ≡ (answer_of limit u bytes range_values, db)
  unfolding content_of
  content_of-sealed [] =
      serve-pure (full_content u) (window 0 (u.total_bytes - 0) bytes) db
        (verified_sealed_bytes H u 0 u.total_bytes) db (read 0 u.total_bytes (omega arith))
      ∙ ap (λ (b : Bytes). (ok (full_content u b), db))
          (take-all (u.total_bytes - 0) bytes (omega (arith, size)))
  content_of-sealed (v ∷ []) =
      ranged_content-sealed v (parse_single_range limit v u.total_bytes) refl
  content_of-sealed (v ∷ another ∷ more) = refl

  -- A download of a sealed package of a well-formed database writes nothing and does not fail: with no
  -- Range header it answers 200 and all of the bytes, with one 206, the bytes of the span that the
  -- header asks for, its first and last position and the package's length, or the error of the header,
  -- and with several 400. Each of the answers with bytes tells their number and the package's digest.
  pub download_content-sealed :
      (range_values : List Text)
      → serve (download_content H limit id range_values) db
        ≡ (answer_of limit u bytes range_values, db)
  unfolding download_content
  download_content-sealed range_values =
      let closed : is_sealed u.status ≡ true = rw shut refl in
      rw (found, closed) (content_of-sealed range_values)
