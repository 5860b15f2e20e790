-- ===== src/Compare/Record/Effects.antt =====
-- What a comparison can leave behind, whatever the rows of the database are.
use seismic_trace_resumable.Prelude.{
  ◌≡◌, ◌⊎◌, inl, inr, refl, Text, ◌=?◌, some, Option-cases, Bool-cases, List, [], ◌==◌, arith,
}
use seismic_trace_resumable.Hashlib.{Hashlib}
use seismic_trace_resumable.Model.{UploadSession, Chunk, Comparison, is_sealed}
use seismic_trace_resumable.Errors.{UploadError, Side, baseline, candidate}
use seismic_trace_resumable.Storage.{Db, get_session, chunks_of, add_comparison}
use seismic_trace_resumable.Tx.{Tx, Result, ok, err, opened, serve}
use seismic_trace_resumable.Audit.{Env}
use seismic_trace_resumable.Compare.{streams_first_difference}
use seismic_trace_resumable.Compare.Record.{
  archive_walk, archive_verdict, verified_archive_chunks, require_sealed, comparison_row, payloads,
  create_comparison,
}

Result-cases :
    {A : Type 0} (r : Result A) → ((a : A) × (r ≡ ok a)) ⊎ ((e : UploadError) × (r ≡ err e))
Result-cases (ok a) = inl (a, refl)
Result-cases (err e) = inr (e, refl)

module _ (H : Hashlib) (db : Db) where
  abbrev pub Reads : Result (List Chunk) × Tx → Type 0
  Reads answer =
      ((cs : List Chunk) × (answer ≡ (ok cs, opened db)))
      ⊎ ((e : UploadError) × (answer ≡ (err e, opened db)))

  -- The verification of one side reads only.
  pub verified_archive_chunks-cases :
      (side : Side) (u : UploadSession) → Reads (verified_archive_chunks H side u (opened db))
  unfolding verified_archive_chunks archive_verdict
  verified_archive_chunks-cases side u =
      elim (Result-cases (archive_walk H side u (chunks_of db u.id) 0 (H.sha256 []))) [
        | inr (e, stop) ↦ rw stop (inr (_, refl))
        | inl ((cursor, hasher), walked) ↦ elim (Bool-cases (cursor == u.total_bytes)) [
          | inr short ↦ rw (walked, short) (inr (_, refl))
          | inl full ↦ elim (Bool-cases (H.hexdigest hasher =? u.whole_sha256)) [
            | inr differ ↦ rw (walked, full, differ) (inr (_, refl))
            | inl same ↦ rw (walked, full, same) (inl (_, refl))
          ]
        ]
      ]

  module _ (env : Env) (id left_id right_id : Text) where
    abbrev Outcome : Result Comparison × Db → Type 0
    Outcome answer =
        ((row : Comparison) × (answer ≡ (ok row, add_comparison row db)))
        ⊎ ((e : UploadError) × (answer ≡ (err e, db)))

    found-cases :
        (left right : UploadSession)
        → get_session db left_id ≡ some left
        → get_session db right_id ≡ some right
        → Outcome (serve (create_comparison H env id left_id right_id) db)
    unfolding create_comparison require_sealed
    found-cases left right found_left found_right = elim (Bool-cases (is_sealed left.status)) [
      | inr open_left ↦ rw (found_left, found_right, open_left) (inr (_, refl))
      | inl closed_left ↦ elim (Bool-cases (is_sealed right.status)) [
        | inr open_right ↦ rw (found_left, found_right, closed_left, open_right) (inr (_, refl))
        | inl closed_right ↦ elim (verified_archive_chunks-cases baseline left) [
          | inr (e, bad_left) ↦ inr (e, ground (arith, bad_left))
          | inl (ls, good_left) ↦ elim (verified_archive_chunks-cases candidate right) [
            | inr (e, bad_right) ↦ inr (e, ground (arith, good_left, bad_right))
            | inl (rs, good_right) ↦ inl (
              comparison_row env id left right
                  (streams_first_difference (payloads ls) (payloads rs)),
              ground (arith, good_left, good_right),
            )
          ]
        ]
      ]
    ]

    -- A comparison either answers the one row that it stores, or answers an error and stores nothing.
    pub create_comparison-cases :
        ((row : Comparison) × (serve (create_comparison H env id left_id right_id) db
            ≡ (ok row, add_comparison row db)))
        ⊎ ((e : UploadError) × (serve (create_comparison H env id left_id right_id) db
              ≡ (err e, db)))
    unfolding create_comparison
    create_comparison-cases = elim (Option-cases (get_session db left_id)) [
      | inl no_left ↦ rw no_left (inr (_, refl))
      | inr (left, found_left) ↦ elim (Option-cases (get_session db right_id)) [
        | inl no_right ↦ rw (found_left, no_right) (inr (_, refl))
        | inr (right, found_right) ↦ found-cases left right found_left found_right
      ]
    ]
