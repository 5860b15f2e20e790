-- ===== src/Compare/Record/Sealed.antt =====
-- Comparing two sealed archives of a database that the service has made.
use mathlib.Core.Path.{subst}
use seismic_trace_resumable.Prelude.{
  ℕ, ◌+◌, ◌≡◌, refl, ap, ◌∙◌, Text, Bytes, =?_refl, ==_refl, some, List, [], ◌∷◌, ◌++◌, append-nil,
  append_assoc, joined, AllNonempty, length, arith,
}
use seismic_trace_resumable.Hashlib.{Hashlib, IsLawful, digest}
use seismic_trace_resumable.Model.{UploadSession, Chunk, sealed}
use seismic_trace_resumable.Errors.{Side, baseline, candidate}
use seismic_trace_resumable.Storage.{
  Db, get_session, chunks_of, audit_of, stored_comparison, add_comparison,
}
use seismic_trace_resumable.Tx.{ok, opened, serve}
use seismic_trace_resumable.Audit.{Env}
use seismic_trace_resumable.Layout.{contents, Tiles, Chain, Tiles-Chain}
use seismic_trace_resumable.Invariant.{IsWellFormed, Settled}
use seismic_trace_resumable.Compare.{streams_first_difference}
use seismic_trace_resumable.Compare.Streams.{meet, streams_first_difference-meet}
use seismic_trace_resumable.Compare.Record.{
  archive_chunk_error, archive_walk, archive_verdict, verified_archive_chunks, require_sealed,
  comparison_row, payloads, create_comparison, get_comparison,
}

joined-payloads : (cs : List Chunk) → joined (payloads cs) ≡ contents cs
joined-payloads [] = refl
joined-payloads (c ∷ cs) = ap (λ l. c.payload ++ l) (joined-payloads cs)

module _ (H : Hashlib) (L : IsLawful H) where
  payloads-AllNonempty :
      (a : ℕ) (cs : List Chunk) (b : ℕ) → Tiles H a cs b → AllNonempty (payloads cs)
  payloads-AllNonempty a [] b h = tt
  payloads-AllNonempty a (c ∷ cs) b h = (
    omega (arith, h.0.nonempty, h.0.span, h.0.filled),
    payloads-AllNonempty c.end_offset cs b h.2,
  )

  -- The walk over the blocks of two gapless archives finds where their bytes part.
  pub streams_first_difference-contents :
      (cs ds : List Chunk) (b e : ℕ)
      → Tiles H 0 cs b
      → Tiles H 0 ds e
      → streams_first_difference (payloads cs) (payloads ds) ≡ meet 0 (contents cs) (contents ds)
  streams_first_difference-contents cs ds b e tiled tiled' =
      streams_first_difference-meet (payloads cs) (payloads ds) (payloads-AllNonempty 0 cs b tiled)
        (payloads-AllNonempty 0 ds e tiled')
      ∙ rw (joined-payloads cs, joined-payloads ds) refl

  module _ (side : Side) (u : UploadSession) where
    archive_chunk_error-ok :
        (a : ℕ) (c : Chunk)
        → c.start_offset ≡ a
        → c.start_offset + c.length ≡ c.end_offset
        → length c.payload ≡ c.length
        → digest H c.payload ≡ c.sha256
        → archive_chunk_error H side u a c ≡ ok tt
    unfolding archive_chunk_error
    archive_chunk_error-ok a c here span filled same = ground arith

    archive_walk-Chain :
        (a : ℕ) (cs : List Chunk) (b : ℕ) (before : Bytes)
        → Chain H a cs b
        → archive_walk H side u cs a (H.sha256 before) ≡ ok (b, H.sha256 (before ++ contents cs))
    unfolding archive_walk
    archive_walk-Chain a [] b before h = rw (h, append-nil before) refl
    archive_walk-Chain a (c ∷ cs) b before h =
        rw
          (
            archive_chunk_error-ok a c h.0 h.1 h.2 h.3,
            L.update-sha256 before c.payload,
            archive_walk,
          )
          (rw
            (
              archive_walk-Chain c.end_offset cs b (before ++ c.payload) h.4,
              append_assoc before c.payload (contents cs),
            )
            refl)

    verified_archive_chunks_lem :
        (db : Db)
        → Chain H 0 (chunks_of db u.id) u.total_bytes
        → digest H (contents (chunks_of db u.id)) ≡ u.whole_sha256
        → verified_archive_chunks H side u (opened db) ≡ (ok (chunks_of db u.id), opened db)
    unfolding verified_archive_chunks archive_verdict
    verified_archive_chunks_lem db chained same =
        rw
          (
            archive_walk-Chain 0 (chunks_of db u.id) u.total_bytes [] chained,
            ==_refl,
            same,
            =?_refl,
          )
          refl

  module _ (env : Env) (db : Db) (w : IsWellFormed H db) where
    -- A sealed session passes the verification, and its chunks are read.
    pub sealed-verified :
        (side : Side) (id : Text) (u : UploadSession)
        → get_session db id ≡ some u
        → u.status ≡ sealed
        → verified_archive_chunks H side u (opened db) ≡ (ok (chunks_of db u.id), opened db)
    sealed-verified side id u found is_sealed =
        verified_archive_chunks_lem side u db
          (rw (← settled.0) (Tiles-Chain H 0 _ u.confirmed_offset (w.sound id u found).1.tiles))
          settled.1
      where
        settled : Settled H sealed u (contents (chunks_of db u.id)) (audit_of db u.id)
        settled =
            subst (λ s. Settled H s u (contents (chunks_of db u.id)) (audit_of db u.id)) is_sealed
              (w.sound id u found).1.settled

    -- In a well-formed database the comparison of two sealed sessions succeeds, and stores one row: the
    -- lengths and digests of both, and where their bytes part, whatever the cuts of the two archives.
    pub create_comparison-sealed :
        (id left_id right_id : Text) (left right : UploadSession)
        → get_session db left_id ≡ some left
        → get_session db right_id ≡ some right
        → left.status ≡ sealed
        → right.status ≡ sealed
        → let row =
            comparison_row env id left right
              (meet 0 (contents (chunks_of db left.id)) (contents (chunks_of db right.id))) in
          serve (create_comparison H env id left_id right_id) db ≡ (ok row, add_comparison row db)
    unfolding create_comparison require_sealed
    create_comparison-sealed id left_id right_id left right found_left found_right left_sealed
          right_sealed =
        ground (arith, left_verified, right_verified, walked)
      where
        left_verified :
            verified_archive_chunks H baseline left (opened db)
            ≡ (ok (chunks_of db left.id), opened db)
        left_verified = sealed-verified baseline left_id left found_left left_sealed

        right_verified :
            verified_archive_chunks H candidate right (opened db)
            ≡ (ok (chunks_of db right.id), opened db)
        right_verified = sealed-verified candidate right_id right found_right right_sealed

        walked :
            streams_first_difference
              (payloads (chunks_of db left.id))
              (payloads (chunks_of db right.id))
            ≡ meet 0 (contents (chunks_of db left.id)) (contents (chunks_of db right.id))
        walked =
            streams_first_difference-contents (chunks_of db left.id) (chunks_of db right.id)
              left.confirmed_offset right.confirmed_offset (w.sound left_id left found_left).1.tiles
              (w.sound right_id right found_right).1.tiles

    -- What a comparison of two sealed sessions answers is what its identifier finds afterwards.
    pub get_comparison-create_comparison :
        (id left_id right_id : Text) (left right : UploadSession)
        → get_session db left_id ≡ some left
        → get_session db right_id ≡ some right
        → left.status ≡ sealed
        → right.status ≡ sealed
        → let (answer, db') = serve (create_comparison H env id left_id right_id) db in
          serve (get_comparison id) db' ≡ (answer, db')
    unfolding get_comparison stored_comparison add_comparison
    get_comparison-create_comparison id left_id right_id left right found_left found_right
          left_sealed right_sealed =
        rw
          (
            create_comparison-sealed id left_id right_id left right found_left found_right
                left_sealed right_sealed,
            =?_refl id,
          )
          refl
