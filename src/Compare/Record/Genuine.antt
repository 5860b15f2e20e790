-- ===== src/Compare/Record/Genuine.antt =====
-- What is compared, whatever the rows of the database are.
use seismic_trace_resumable.Prelude.{
  ℕ, ◌+◌, ◌≡◌, refl, sym, ap, ◌∙◌, or_false, unnegated, ==_iff, =?_iff, Text, Bytes, some, List, [],
  ◌∷◌, ◌++◌, append-nil, append_assoc, ◌=?◌, ◌==◌, not, length, arith, Option-cases, inl, inr, true,
  Bool-cases,
}
use seismic_trace_resumable.Hashlib.{Hashlib, IsLawful, digest}
use seismic_trace_resumable.Model.{
  UploadSession, Chunk, Comparison, Status, active, sealed, failed, is_sealed,
}
use seismic_trace_resumable.Errors.{Side, baseline, candidate}
use seismic_trace_resumable.Storage.{Db, get_session, chunks_of, add_comparison}
use seismic_trace_resumable.Tx.{Tx, Result, ok, err, opened, serve}
use seismic_trace_resumable.Tx.Laws.{passed, passed_step, err_not_ok}
use seismic_trace_resumable.Audit.{Env}
use seismic_trace_resumable.Layout.{contents, Chain}
use seismic_trace_resumable.Download.{is_inconsistent}
use seismic_trace_resumable.Download.Verified.{IsGenuine}
use seismic_trace_resumable.Compare.Record.Effects.{verified_archive_chunks-cases}
use seismic_trace_resumable.Compare.{streams_first_difference}
use seismic_trace_resumable.Compare.Record.{
  archive_chunk_error, archive_walk, archive_verdict, verified_archive_chunks, require_sealed,
  comparison_row, payloads, create_comparison,
}

module _ (H : Hashlib) (L : IsLawful H) (side : Side) (u : UploadSession) where
  checked :
      (a : ℕ) (c : Chunk)
      → archive_chunk_error H side u a c ≡ ok tt
      → (c.start_offset ≡ a)
        × (c.start_offset + c.length ≡ c.end_offset)
        × (length c.payload ≡ c.length)
        × (digest H c.payload ≡ c.sha256)
  unfolding archive_chunk_error
  checked a c h =
      let (here, rest) = passed (not (c.start_offset == a)) _ _ tt h in
      let (consistent, last) = passed (is_inconsistent c) _ _ tt rest in
      let (same, _) = passed (not (digest H c.payload =? c.sha256)) _ _ tt last in
      let (spanned, filled) = or_false consistent in
      (
        (==_iff _ _).0 (unnegated here),
        (==_iff _ _).0 (unnegated spanned),
        (==_iff _ _).0 (unnegated filled),
        (=?_iff _ _).0 (unnegated same),
      )

  walked :
      (cs : List Chunk) (a : ℕ) (before : Bytes) (b : ℕ) (hasher : H.Hasher)
      → archive_walk H side u cs a (H.sha256 before) ≡ ok (b, hasher)
      → Chain H a cs b × (H.sha256 (before ++ contents cs) ≡ hasher)
  unfolding archive_walk
  walked [] a before b hasher h =
      let e : a ≡ b = cc in let e' : H.sha256 before ≡ hasher = cc in (e, rw append-nil e')
  walked (c ∷ cs) a before b hasher h =
      let (good, rest) = passed_step (archive_chunk_error H side u a c) _ (b, hasher) h in
      let (here, spanned, filled, same) = checked a c good in
      let (chained, hashed) =
        walked cs c.end_offset (before ++ c.payload) b hasher (rw L.update-sha256 at rest) in
      (
        (here, spanned, filled, same, chained),
        rw (← append_assoc before c.payload (contents cs)) hashed,
      )

module _ (H : Hashlib) (L : IsLawful H) (db : Db) where
  verified_archive_chunks-IsGenuine :
      (side : Side) (u : UploadSession) (cs : List Chunk)
      → (verified_archive_chunks H side u (opened db)).0 ≡ ok cs
      → IsGenuine H L u db × (cs ≡ chunks_of db u.id)
  unfolding verified_archive_chunks archive_verdict
  verified_archive_chunks-IsGenuine side u cs h =
      by_walk (archive_walk H side u (chunks_of db u.id) 0 (H.sha256 [])) refl h
    where
      by_walk :
          (r : Result (ℕ × H.Hasher))
          → archive_walk H side u (chunks_of db u.id) 0 (H.sha256 []) ≡ r
          → (archive_verdict H side u (chunks_of db u.id) r (opened db)).0 ≡ ok cs
          → IsGenuine H L u db × (cs ≡ chunks_of db u.id)
      by_walk (err e) walk_end answer = absurd (cc)
      by_walk (ok (cursor, hasher)) walk_end answer = elim (Bool-cases (cursor == u.total_bytes)) [
        | inr short ↦ err_not_ok (rw short at answer)
        | inl full ↦ elim (Bool-cases (H.hexdigest hasher =? u.whole_sha256)) [
          | inr differ ↦ err_not_ok (rw (full, differ) at answer)
          | inl same ↦
              let (chained, hashed) =
                walked H L side u (chunks_of db u.id) 0 [] cursor hasher walk_end in
              let at_end : cursor ≡ u.total_bytes = (==_iff _ _).0 full in
              let told : ok (chunks_of db u.id) ≡ ok cs = rw (full, same) at answer in
              (
                record {
                  chained = rw at_end at chained;
                  same = ap H.hexdigest hashed ∙ (=?_iff _ _).0 same;
                },
                cc,
              )
        ]
      ]

  sealed_only : (s : Status) → is_sealed s ≡ true → s ≡ sealed
  sealed_only active h = absurd (cc)
  sealed_only sealed h = refl
  sealed_only failed h = absurd (cc)

  -- What an answered comparison is of.
  pub record IsComparison (env : Env) (id left_id right_id : Text) (row : Comparison) : Type 0 where
    pub left : UploadSession
    pub right : UploadSession
    pub found_left : get_session db left_id ≡ some left
    pub found_right : get_session db right_id ≡ some right
    pub sealed_left : left.status ≡ sealed
    pub sealed_right : right.status ≡ sealed
    pub genuine_left : IsGenuine H L left db
    pub genuine_right : IsGenuine H L right db
    pub told :
        row
        ≡ comparison_row env id left right (
            streams_first_difference
              (payloads (chunks_of db left.id))
              (payloads (chunks_of db right.id)))

  module _ (env : Env) (id left_id right_id : Text) (row : Comparison) where
    by_found :
        (left right : UploadSession)
        → get_session db left_id ≡ some left
        → get_session db right_id ≡ some right
        → (serve (create_comparison H env id left_id right_id) db).0 ≡ ok row
        → IsComparison env id left_id right_id row
    unfolding create_comparison require_sealed
    by_found left right found_left found_right h = elim (Bool-cases (is_sealed left.status)) [
      | inr open_left ↦ err_not_ok (rw (found_left, found_right, open_left) at h)
      | inl closed_left ↦ elim (Bool-cases (is_sealed right.status)) [
        | inr open_right ↦ err_not_ok (rw (found_left, found_right, closed_left, open_right) at h)
        | inl closed_right ↦ elim (verified_archive_chunks-cases H db baseline left) [
          | inr (e, bad_left) ↦
              let a : serve (create_comparison H env id left_id right_id) db ≡ (err e, db) =
                ground (arith, bad_left) in
              err_not_ok (sym (ap answer a) ∙ h)
          | inl (ls, good_left) ↦ elim (verified_archive_chunks-cases H db candidate right) [
            | inr (e, bad_right) ↦
                let a : serve (create_comparison H env id left_id right_id) db ≡ (err e, db) =
                  ground (arith, good_left, bad_right) in
                err_not_ok (sym (ap answer a) ∙ h)
            | inl (rs, good_right) ↦
                let a : serve (create_comparison H env id left_id right_id) db
                    ≡ (ok (stored ls rs), add_comparison (stored ls rs) db) =
                  ground (arith, good_left, good_right) in
                let told : ok (stored ls rs) ≡ ok row = sym (ap answer a) ∙ h in
                let (genuine_left, all_left) =
                  verified_archive_chunks-IsGenuine baseline left ls
                    (ap (λ (p : Result (List Chunk) × Tx). p.0) good_left) in
                let (genuine_right, all_right) =
                  verified_archive_chunks-IsGenuine candidate right rs
                    (ap (λ (p : Result (List Chunk) × Tx). p.0) good_right) in
                let same_row : row ≡ stored ls rs = cc in
                record {
                  left = left;
                  right = right;
                  found_left = found_left;
                  found_right = found_right;
                  sealed_left = sealed_only left.status closed_left;
                  sealed_right = sealed_only right.status closed_right;
                  genuine_left = genuine_left;
                  genuine_right = genuine_right;
                  told = rw (all_left, all_right) at same_row;
                }
          ]
        ]
      ]
    ]
      where
        stored : List Chunk → List Chunk → Comparison
        stored ls rs =
            comparison_row env id left right (streams_first_difference (payloads ls) (payloads rs))

        answer : Result Comparison × Db → Result Comparison
        answer p = p.0

    -- A comparison is answered only of two sealed archives that are genuine: whatever the rows of the
    -- database are, each side's chunks follow each other over the registered length, are intact one by
    -- one and have the registered whole digest, and the row is what the walk over both says.
    pub create_comparison_sound :
        (serve (create_comparison H env id left_id right_id) db).0 ≡ ok row
        → IsComparison env id left_id right_id row
    unfolding create_comparison
    create_comparison_sound h = elim (Option-cases (get_session db left_id)) [
      | inl no_left ↦ err_not_ok (rw no_left at h)
      | inr (left, found_left) ↦ elim (Option-cases (get_session db right_id)) [
        | inl no_right ↦ err_not_ok (rw (found_left, no_right) at h)
        | inr (right, found_right) ↦ by_found left right found_left found_right h
      ]
    ]
