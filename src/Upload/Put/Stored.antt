-- ===== src/Upload/Put/Stored.antt =====
-- The three databases that storing a chunk can leave are well formed.
use seismic_trace_resumable.Prelude.{
  ℕ, ◌+◌, ◌<◌, ◌≡◌, ◌≢◌, refl, ◌∙◌, Bytes, =?_refl, =?_ne, some, [], ◌∷◌, ◌++◌, length, arith,
}
use seismic_trace_resumable.Hashlib.{Hashlib, IsLawful, digest}
use seismic_trace_resumable.Model.{UploadSession, active}
use seismic_trace_resumable.Storage.{Db, get_session, chunks_of, audit_of, insert_by_sequence}
use seismic_trace_resumable.Storage.Laws.{
  storage_laws, chunks_of-put_session, chunks_of-add_audit_event, audit_of-add_audit_event,
}
use seismic_trace_resumable.Audit.{Env, next_audit_sequence}
use seismic_trace_resumable.Layout.{contents, Tiles}
use seismic_trace_resumable.Invariant.{IsSound, IsWellFormed, SameElsewhere}
use seismic_trace_resumable.Invariant.Update.{IsWellFormed-update}
use seismic_trace_resumable.Upload.Put.Accept.{
  chunk, moved, moved_db, sealed_session, unaudited_db, seal_row, sealed_db, received,
  failed_session, failed_db, chunks_of-chunk, Tiles-chunk, contents-chunk,
}

module _ (H : Hashlib) (env : Env) (db : Db) (u : UploadSession) (n : ℕ) (payload : Bytes) where
  pub moved_db-SameElsewhere : SameElsewhere u.id db (moved_db H env db u n payload)
  moved_db-SameElsewhere = record {
    session = λ j ne. simp (storage_laws, =?_ne u.id j ne);
    chunks = λ j ne. simp (storage_laws, =?_ne u.id j ne);
    trail = λ j ne. simp storage_laws;
  }

  pub failed_db-SameElsewhere : SameElsewhere u.id db (failed_db H env db u n payload)
  failed_db-SameElsewhere = record {
    session = λ j ne. simp (storage_laws, =?_ne u.id j ne);
    chunks = λ j ne. simp (storage_laws, =?_ne u.id j ne);
    trail = λ j ne. simp storage_laws;
  }

  pub sealed_db-SameElsewhere : SameElsewhere u.id db (sealed_db H env db u n payload)
  sealed_db-SameElsewhere = record {
    session = λ j ne. simp (storage_laws, =?_ne u.id j ne);
    chunks = λ j ne. simp (storage_laws, =?_ne u.id j ne);
    trail = λ j ne. simp (storage_laws, =?_ne u.id j ne);
  }

  module _ (L : IsLawful H) (w : IsWellFormed H db) (found : get_session db u.id ≡ some u)
      (open_session : u.status ≡ active) (filled : length payload ≡ n) (nonempty : 0 < n) where
    sound : IsSound H db u
    sound = (w.sound u.id u found).1

    empty_trail : audit_of db u.id ≡ []
    empty_trail = (rw open_session at sound.settled).1

    -- The same rows stand in all three databases.
    pub moved_rows :
        chunks_of (moved_db H env db u n payload) u.id
        ≡ chunks_of db u.id ++ chunk H env db u n payload ∷ []
    moved_rows =
        chunks_of-put_session _ u.id _
        ∙ chunks_of-chunk H env db u n payload L sound.tiles filled nonempty

    pub failed_rows :
        chunks_of (failed_db H env db u n payload) u.id
        ≡ chunks_of db u.id ++ chunk H env db u n payload ∷ []
    failed_rows = chunks_of-put_session _ u.id _ ∙ moved_rows

    pub sealed_rows :
        chunks_of (sealed_db H env db u n payload) u.id
        ≡ chunks_of db u.id ++ chunk H env db u n payload ∷ []
    sealed_rows = chunks_of-add_audit_event _ u.id _ ∙ (chunks_of-put_session _ u.id _ ∙ moved_rows)

    tiles :
        Tiles H 0 (chunks_of db u.id ++ chunk H env db u n payload ∷ []) (u.confirmed_offset + n)
    tiles = Tiles-chunk H env db u n payload L sound.tiles filled nonempty

    pub bytes :
        contents (chunks_of db u.id ++ chunk H env db u n payload ∷ [])
        ≡ received H env db u n payload
    bytes = contents-chunk H env db u n payload L sound.tiles filled nonempty

    -- The first row of the trail has number 1.
    first_number : next_audit_sequence (unaudited_db H env db u n payload) u.id ≡ 1
    unfolding next_audit_sequence
    first_number = simp (storage_laws, empty_trail)

    sealed_trail :
        audit_of (sealed_db H env db u n payload) u.id ≡ seal_row H env db u n payload ∷ []
    sealed_trail =
        audit_of-add_audit_event _ u.id _
        ∙ simp (storage_laws, =?_refl, empty_trail) (unfold insert_by_sequence in refl)

    pub moved_db-IsWellFormed :
        u.confirmed_offset + n < u.total_bytes → IsWellFormed H (moved_db H env db u n payload)
    moved_db-IsWellFormed room =
        IsWellFormed-update H (moved H env db u n payload) w moved_db-SameElsewhere
          (simp (storage_laws, =?_refl))
          (record {
            tiles = rw moved_rows tiles;
            bounded = omega arith;
            settled = rw open_session (room, simp storage_laws empty_trail);
          })

    pub failed_db-IsWellFormed :
        u.confirmed_offset + n ≡ u.total_bytes
        → digest H (received H env db u n payload) ≢ u.whole_sha256
        → IsWellFormed H (failed_db H env db u n payload)
    failed_db-IsWellFormed full differ =
        IsWellFormed-update H (failed_session H env db u n payload) w failed_db-SameElsewhere
          (simp (storage_laws, =?_refl))
          (record {
            tiles = rw failed_rows tiles;
            bounded = omega arith;
            settled = rw (failed_rows, bytes) (full, differ, refl, simp storage_laws empty_trail);
          })

    pub sealed_db-IsWellFormed :
        u.confirmed_offset + n ≡ u.total_bytes
        → digest H (received H env db u n payload) ≡ u.whole_sha256
        → IsWellFormed H (sealed_db H env db u n payload)
    sealed_db-IsWellFormed full same =
        IsWellFormed-update H (sealed_session H env db u n payload) w sealed_db-SameElsewhere
          (simp (storage_laws, =?_refl))
          (record {
            tiles = rw (sealed_rows, ← full) tiles;
            bounded = omega arith;
            settled =
                rw (sealed_rows, bytes, sealed_trail)
                  (
                    refl,
                    same,
                    refl,
                    (
                      record {
                        numbered = first_number;
                        kind = refl;
                        measured = refl;
                        hashed = refl;
                      },
                      tt,
                    ),
                  );
          })
