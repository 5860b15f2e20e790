-- ===== src/Compact/Deterministic.antt =====
-- The layout that a compaction leaves depends on the bytes and the target alone.
use seismic_trace_resumable.Prelude.{ℕ, ◌≡◌, ◌<◌, refl, sym, ap, ◌∙◌, Bytes, some, false, List}
use seismic_trace_resumable.Prelude.Int.{pos}
use seismic_trace_resumable.Hashlib.{Hashlib, IsLawful}
use seismic_trace_resumable.Model.{UploadSession, Chunk, sealed}
use seismic_trace_resumable.Errors.{integer}
use seismic_trace_resumable.Storage.{Db, get_session, chunks_of}
use seismic_trace_resumable.Tx.{Result, serve}
use seismic_trace_resumable.Audit.{Env}
use seismic_trace_resumable.Layout.{contents}
use seismic_trace_resumable.Invariant.{IsWellFormed}
use seismic_trace_resumable.Compact.Layout.{planned_spans, planned_rows}
use seismic_trace_resumable.Compact.{CompactResult, compact_sealed}
use seismic_trace_resumable.Compact.Sealed.{compacted_db, compact_sealed_lem}
use seismic_trace_resumable.Compact.Effect.{
  compacted_db-rows, compacted_db-session, compacted_db-bytes, compacted_db-IsWellFormed,
}

module _ (H : Hashlib) (L : IsLawful H) (u : UploadSession) (target : ℕ) (shut : u.status ≡ sealed)
    (at_least_one : 0 < target) where
  -- The archive as the target cuts it.
  abbrev cut : Bytes → List Chunk
  cut bytes = planned_rows H u.id bytes (planned_spans u.total_bytes target)

  abbrev compacted_by : Env → Db → Db
  compacted_by env db = (serve (compact_sealed H env u.id (integer (pos target))) db).1

  module _ (env : Env) (written : env.refuses_audit ≡ false) (db : Db) (w : IsWellFormed H db)
      (found : get_session db u.id ≡ some u) where
    after_compaction : compacted_by env db ≡ compacted_db H env db u target
    after_compaction =
        ap (λ (answer : Result CompactResult × Db). answer.1)
          (compact_sealed_lem H env db u target L w found shut at_least_one)
        ∙ rw written refl

    -- The chunks are the bytes of the archive, cut at the multiples of the target.
    pub compact_sealed-rows :
        chunks_of (compacted_by env db) u.id ≡ cut (contents (chunks_of db u.id))
    compact_sealed-rows =
        ap (λ (d : Db). chunks_of d u.id) after_compaction
        ∙ compacted_db-rows H env db u target L w found shut at_least_one

  -- Two archives of the same bytes have the same chunks after it, however they were cut before.
  pub compact_sealed_deterministic :
      (env env' : Env)
      → env.refuses_audit ≡ false
      → env'.refuses_audit ≡ false
      → (db db' : Db) → IsWellFormed H db
      → IsWellFormed H db'
      → get_session db u.id ≡ some u
      → get_session db' u.id ≡ some u
      → contents (chunks_of db u.id) ≡ contents (chunks_of db' u.id)
      → chunks_of (compacted_by env db) u.id ≡ chunks_of (compacted_by env' db') u.id
  compact_sealed_deterministic env env' written written' db db' w w' found found' same =
      compact_sealed-rows env written db w found
      ∙ ap cut same
      ∙ sym (compact_sealed-rows env' written' db' w' found')

  -- Compacting again to the same target moves no chunk.
  pub compact_sealed_again :
      (env env' : Env)
      → env.refuses_audit ≡ false
      → env'.refuses_audit ≡ false
      → (db : Db) → IsWellFormed H db
      → get_session db u.id ≡ some u
      → chunks_of (compacted_by env' (compacted_by env db)) u.id
        ≡ chunks_of (compacted_by env db) u.id
  compact_sealed_again env env' written written' db w found = rw once (
      compact_sealed_deterministic env' env written' written (compacted_db H env db u target) db
        (compacted_db-IsWellFormed H env db u target L w found shut at_least_one) w
        (compacted_db-session H env db u target u.id ∙ found) found
        (compacted_db-bytes H env db u target L w found shut at_least_one)
      ∙ ap (λ (d : Db). chunks_of d u.id) once)
    where
      once : compacted_by env db ≡ compacted_db H env db u target
      once = after_compaction env written db w found
