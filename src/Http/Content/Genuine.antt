-- ===== src/Http/Content/Genuine.antt =====
-- What a download releases, whatever the rows of the database are.
use seismic_trace_resumable.Prelude.{
  ℕ, ◌-◌, ◌≤◌, ◌≡◌, refl, ap, ◌∙◌, Text, Bytes, some, true, Bool-cases, Option-cases, inl, inr,
  List, [], ◌∷◌, window, arith,
}
use seismic_trace_resumable.Hashlib.{Hashlib, IsLawful}
use seismic_trace_resumable.Model.{UploadSession, is_sealed}
use seismic_trace_resumable.Storage.{Db, get_session, chunks_of}
use seismic_trace_resumable.Tx.{Result, ok, err, serve}
use seismic_trace_resumable.Tx.Laws.{err_not_ok, serve-pure_sound}
use seismic_trace_resumable.Layout.{contents}
use seismic_trace_resumable.Download.{verified_sealed_bytes}
use seismic_trace_resumable.Download.Verified.{IsGenuine, verified_sealed_bytes_sound}
use seismic_trace_resumable.Http.Ranges.{parse_single_range}
use seismic_trace_resumable.Http.Ranges.Bounds.{parse_single_range_bounds}
use seismic_trace_resumable.Http.Content.{
  Content, full_content, partial_content, ranged_content, content_of, download_content,
}

module _ (H : Hashlib) (L : IsLawful H) (limit : ℕ) (db : Db) where
  -- The bytes of a response, and what they are part of.
  pub record IsReleased (u : UploadSession) (answer : Content) : Type 0 where
    pub genuine : IsGenuine H L u db
    pub begin : ℕ
    pub end : ℕ
    pub released : answer.content ≡ window begin (end - begin) (contents (chunks_of db u.id))
    pub labelled : answer.x_whole_sha256 ≡ u.whole_sha256

  module _ (u : UploadSession) (answer : Content) where
    -- A verified read under headers that carry its bytes.
    read-IsReleased :
        (f : Bytes → Content)
        → ((b : Bytes) → (f b).content ≡ b)
        → ((b : Bytes) → (f b).x_whole_sha256 ≡ u.whole_sha256)
        → (begin end : ℕ) → begin ≤ end
        → (b : Bytes) × ((serve (verified_sealed_bytes H u begin end) db).0 ≡ ok b) × (answer ≡ f b)
        → IsReleased u answer
    read-IsReleased f carried label begin end le (b, read, made) =
        let (genuine, cut) = verified_sealed_bytes_sound H L u db begin end b le read in
        record {
          genuine = genuine;
          begin = begin;
          end = end;
          released = ap (λ (c : Content). c.content) made ∙ carried b ∙ cut;
          labelled = ap (λ (c : Content). c.x_whole_sha256) made ∙ label b;
        }

    ranged_content-IsReleased :
        (v : Text) (r : Result (ℕ × ℕ))
        → parse_single_range limit v u.total_bytes ≡ r
        → (serve (ranged_content H limit u r) db).0 ≡ ok answer
        → IsReleased u answer
    unfolding ranged_content
    ranged_content-IsReleased v (err e) parsed h = err_not_ok h
    ranged_content-IsReleased v (ok (begin, end)) parsed h =
        read-IsReleased (partial_content u begin end) (λ b. refl) (λ b. refl) begin end
          (omega (arith, (parse_single_range_bounds limit v u.total_bytes begin end parsed).0))
          (serve-pure_sound (partial_content u begin end) answer
            (verified_sealed_bytes H u begin end) db h)

    content_of-IsReleased :
        (range_values : List Text)
        → (serve (content_of H limit u range_values) db).0 ≡ ok answer
        → IsReleased u answer
    unfolding content_of
    content_of-IsReleased [] h =
        read-IsReleased (full_content u) (λ b. refl) (λ b. refl) 0 u.total_bytes (omega arith)
          (serve-pure_sound (full_content u) answer (verified_sealed_bytes H u 0 u.total_bytes) db
            h)
    content_of-IsReleased (v ∷ []) h =
        ranged_content-IsReleased v (parse_single_range limit v u.total_bytes) refl h
    content_of-IsReleased (v ∷ another ∷ more) h = err_not_ok h

  -- No download releases a byte that was not verified: whatever the rows of the database are, a response
  -- carries a window of the chunks of a sealed session that follow each other over the registered
  -- length, are intact one by one and have the digest that the response is labelled with.
  pub download_content_sound :
      (id : Text) (range_values : List Text) (answer : Content)
      → (serve (download_content H limit id range_values) db).0 ≡ ok answer
      → (u : UploadSession) × (get_session db id ≡ some u)
        × (is_sealed u.status ≡ true)
        × IsReleased u answer
  unfolding download_content
  download_content_sound id range_values answer h = elim (Option-cases (get_session db id)) [
    | inl missing ↦ err_not_ok (rw missing at h)
    | inr (u, found) ↦ elim (Bool-cases (is_sealed u.status)) [
      | inr unsealed ↦ err_not_ok (rw (found, unsealed) at h)
      | inl closed ↦
          (u, found, closed, content_of-IsReleased u answer range_values (rw (found, closed) at h))
    ]
  ]
