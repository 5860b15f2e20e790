-- ===== src/Upload/Session/Creates.antt =====
-- What registering a session leaves behind.
use seismic_trace_resumable.Prelude.{
  ℕ, ◌<◌, ◌≡◌, ◌≢◌, refl, sym, ap, Text, ◌=?◌, =?_refl, =?_ne, =?_iff, none, some, [], ◌∷◌,
  Bool-cases, inl, inr, arith, ◌==◌, ==_iff, if◌then◌else◌,
}
use seismic_trace_resumable.Hashlib.{Hashlib, digest}
use seismic_trace_resumable.Model.{UploadSession, active, sealed, failed, AuditEvent, audit_sealed}
use seismic_trace_resumable.Errors.{upload_error, audit_write_failed, whole_digest_mismatch}
use seismic_trace_resumable.Storage.{
  Db, get_session, put_session, chunks_of, audit_of, add_audit_event, insert_by_sequence,
}
use seismic_trace_resumable.Storage.Laws.{storage_laws, get_session-put_session}
use seismic_trace_resumable.Tx.{ok, err, serve}
use seismic_trace_resumable.Audit.{Env, next_audit_sequence}
use seismic_trace_resumable.Audit.Laws.{audit_row, add_audit_lem}
use seismic_trace_resumable.Invariant.{IsWellFormed}
use seismic_trace_resumable.Invariant.Update.{IsWellFormed-update}
use seismic_trace_resumable.Upload.Session.{
  get_locked_session, settle_empty, create_session, empty_reason,
}

module _ (H : Hashlib) (env : Env) (db : Db) (id : Text) (total : ℕ) (whole : Text) where
  abbrev pub new_session : UploadSession
  new_session = record {
    id = id;
    total_bytes = total;
    whole_sha256 = whole;
    confirmed_offset = 0;
    status = active;
    computed_sha256 = none;
    failure_reason = none;
    created_at = env.now;
  }

  abbrev pub new_db : Db
  new_db = put_session new_session db

  abbrev pub born_sealed : UploadSession
  born_sealed = record new_session {
    status = sealed;
    confirmed_offset = 0;
    computed_sha256 = some (digest H []);
  }

  abbrev pub unaudited_db : Db
  unaudited_db = put_session born_sealed new_db

  abbrev pub born_row : AuditEvent
  born_row = audit_row env born_sealed audit_sealed 0 (digest H []) none none none unaudited_db

  abbrev pub born_sealed_db : Db
  born_sealed_db = add_audit_event born_row unaudited_db

  abbrev pub born_failed : UploadSession
  born_failed = record new_session {
    status = failed;
    computed_sha256 = some (digest H []);
    failure_reason = some empty_reason;
  }

  abbrev pub born_failed_db : Db
  born_failed_db = put_session born_failed new_db

  -- A package of some bytes is registered active; one of none is sealed or failed at once, and the
  -- failure is kept although the request answers with an error.
  pub create_session_lem : serve (create_session H env id total whole) db ≡ (
      if total == 0
      then (if whole =? digest H []
          then (if env.refuses_audit
              then (err (upload_error 500 audit_write_failed), db)
              else (ok born_sealed, born_sealed_db))
          else (
            err (record (upload_error 422 whole_digest_mismatch) {
              digest = some whole;
              expected_digest = some (digest H []);
            }),
            born_failed_db,
          ))
      else (ok new_session, new_db))
  unfolding create_session settle_empty get_locked_session
  create_session_lem = elim (Bool-cases (total == 0)) [
    | inr some_bytes ↦
        rw some_bytes (ground (arith, get_session-put_session db id new_session, =?_refl id))
    | inl no_bytes ↦ rw no_bytes (elim (Bool-cases (whole =? digest H [])) [
      | inr differ ↦ rw differ refl
      | inl same ↦ rw same (
          ground (
            arith,
            add_audit_lem env born_sealed audit_sealed 0 (digest H []) none none none
                (record { committed = db; working = unaudited_db }),
            born_seen,
          ))
    ])
  ]
    where
      born_seen : get_session born_sealed_db id ≡ some born_sealed
      born_seen = simp (storage_laws, =?_refl)

  module _ (w : IsWellFormed H db) (fresh : get_session db id ≡ none) where
    no_chunks : chunks_of db id ≡ []
    no_chunks = (w.owned id fresh).0

    no_trail : audit_of db id ≡ []
    no_trail = (w.owned id fresh).1

    new_db-IsWellFormed : 0 < total → IsWellFormed H new_db
    new_db-IsWellFormed some_bytes =
        IsWellFormed-update H new_session w
          (record {
            session = λ j ne. simp (storage_laws, =?_ne id j ne);
            chunks = λ j ne. simp storage_laws;
            trail = λ j ne. simp storage_laws;
          })
          (simp (storage_laws, =?_refl))
          (record {
            tiles = simp storage_laws (rw no_chunks refl);
            bounded = omega arith;
            settled = (some_bytes, simp storage_laws no_trail);
          })

    born_failed_db-IsWellFormed : total ≡ 0 → whole ≢ digest H [] → IsWellFormed H born_failed_db
    born_failed_db-IsWellFormed empty differ =
        IsWellFormed-update H born_failed w
          (record {
            session = λ j ne. simp (storage_laws, =?_ne id j ne);
            chunks = λ j ne. simp storage_laws;
            trail = λ j ne. simp storage_laws;
          })
          (simp (storage_laws, =?_refl))
          (record {
            tiles = rw rows refl;
            bounded = omega arith;
            settled = rw rows (sym empty, λ e. differ (sym e), refl, simp storage_laws no_trail);
          })
      where
        rows : chunks_of born_failed_db id ≡ []
        rows = simp storage_laws no_chunks

    born_sealed_db-IsWellFormed : total ≡ 0 → whole ≡ digest H [] → IsWellFormed H born_sealed_db
    unfolding next_audit_sequence
    born_sealed_db-IsWellFormed empty same =
        IsWellFormed-update H born_sealed w
          (record {
            session = λ j ne. simp (storage_laws, =?_ne id j ne);
            chunks = λ j ne. simp storage_laws;
            trail = λ j ne. simp (storage_laws, =?_ne id j ne);
          })
          (simp (storage_laws, =?_refl))
          (record {
            tiles = rw rows refl;
            bounded = omega arith;
            settled =
                rw (rows, trail)
                  (
                    sym empty,
                    sym same,
                    ap some (sym same),
                    (
                      record {
                        numbered = number;
                        kind = refl;
                        measured = sym empty;
                        hashed = sym same;
                      },
                      tt,
                    ),
                  );
          })
      where
        rows : chunks_of born_sealed_db id ≡ []
        rows = simp storage_laws no_chunks

        number : next_audit_sequence unaudited_db id ≡ 1
        number = simp (storage_laws, no_trail)

        trail : audit_of born_sealed_db id ≡ born_row ∷ []
        trail = simp (storage_laws, =?_refl, no_trail) (unfold insert_by_sequence in refl)

    -- Registering a package under a new identifier keeps the database well formed, whether the
    -- session is active, sealed or failed at birth, or its audit row is refused.
    pub create_session-IsWellFormed :
        IsWellFormed H (serve (create_session H env id total whole) db).1
    create_session-IsWellFormed = rw create_session_lem (elim (Bool-cases (total == 0)) [
      | inr some_bytes ↦ rw some_bytes (new_db-IsWellFormed (ground arith))
      | inl no_bytes ↦ rw no_bytes (elim (Bool-cases (whole =? digest H [])) [
        | inr differ ↦
            rw differ (born_failed_db-IsWellFormed ((==_iff _ _).0 no_bytes) (ground arith))
        | inl same ↦ rw same (elim (Bool-cases env.refuses_audit) [
          | inl refused ↦ rw refused w
          | inr written ↦
              rw written
                (born_sealed_db-IsWellFormed ((==_iff _ _).0 no_bytes) ((=?_iff _ _).0 same))
        ])
      ])
    ])
