-- ===== src/Upload/Session/Isolation.antt =====
-- Registering a session leaves every other as it is.
use seismic_trace_resumable.Prelude.{ℕ, refl, Text, ◌=?◌, =?_ne, Bool-cases, inl, inr, ◌==◌, []}
use seismic_trace_resumable.Hashlib.{Hashlib, digest}
use seismic_trace_resumable.Storage.{Db}
use seismic_trace_resumable.Storage.Laws.{storage_laws}
use seismic_trace_resumable.Tx.{serve}
use seismic_trace_resumable.Audit.{Env}
use seismic_trace_resumable.Invariant.{SameElsewhere}
use seismic_trace_resumable.Upload.Session.{create_session}
use seismic_trace_resumable.Upload.Session.Creates.{
  new_db, born_failed_db, born_sealed_db, create_session_lem,
}

module _ (H : Hashlib) (env : Env) (db : Db) (id : Text) (total : ℕ) (whole : Text) where
  new_db-SameElsewhere : SameElsewhere id db (new_db H env db id total whole)
  new_db-SameElsewhere = record {
    session = λ j ne. simp (storage_laws, =?_ne id j ne);
    chunks = λ j ne. simp storage_laws;
    trail = λ j ne. simp storage_laws;
  }

  born_failed_db-SameElsewhere : SameElsewhere id db (born_failed_db H env db id total whole)
  born_failed_db-SameElsewhere = record {
    session = λ j ne. simp (storage_laws, =?_ne id j ne);
    chunks = λ j ne. simp storage_laws;
    trail = λ j ne. simp storage_laws;
  }

  born_sealed_db-SameElsewhere : SameElsewhere id db (born_sealed_db H env db id total whole)
  born_sealed_db-SameElsewhere = record {
    session = λ j ne. simp (storage_laws, =?_ne id j ne);
    chunks = λ j ne. simp storage_laws;
    trail = λ j ne. simp (storage_laws, =?_ne id j ne);
  }

  -- Registering a package reads and writes only the session that it makes.
  pub create_session-SameElsewhere :
      SameElsewhere id db (serve (create_session H env id total whole) db).1
  create_session-SameElsewhere = rw create_session_lem (elim (Bool-cases (total == 0)) [
    | inr some_bytes ↦ rw some_bytes new_db-SameElsewhere
    | inl no_bytes ↦ rw no_bytes (elim (Bool-cases (whole =? digest H [])) [
      | inr differ ↦ rw differ born_failed_db-SameElsewhere
      | inl same ↦ rw same (elim (Bool-cases env.refuses_audit) [
        | inl refused ↦
            rw refused
              (record { session = λ j ne. refl; chunks = λ j ne. refl; trail = λ j ne. refl })
        | inr written ↦ rw written born_sealed_db-SameElsewhere
      ])
    ])
  ])
