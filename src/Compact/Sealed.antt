-- ===== src/Compact/Sealed.antt =====
-- `compact_sealed` on a sealed session of a database that the service has made.
use mathlib.Core.Path.{subst}
use seismic_trace_resumable.Prelude.{
  ℕ, zero, suc, ◌≡◌, ◌<◌, refl, ap, ◌∙◌, Text, Bytes, =?_refl, Bool, some, Bool-cases, inl, inr,
  List, [], ◌∷◌, ◌++◌, length, arith, if◌then◌else◌,
}
use seismic_trace_resumable.Prelude.Int.{pos}
use seismic_trace_resumable.Hashlib.{Hashlib, IsLawful, digest}
use seismic_trace_resumable.Model.{UploadSession, Chunk, AuditEvent, Event, sealed}
use seismic_trace_resumable.Errors.{upload_error, integer, audit_write_failed}
use seismic_trace_resumable.Storage.{
  Db, get_session, chunks_of, audit_of, add_audit_event, delete_chunks, insert_chunks,
}
use seismic_trace_resumable.Storage.Rows.{
  Owned, added, chunks_of-delete_chunks, chunks_of-added, insert_chunks-Tiles,
}
use seismic_trace_resumable.Tx.{Tx, Result, ok, err, opened, serve}
use seismic_trace_resumable.Audit.{Env}
use seismic_trace_resumable.Audit.Laws.{audit_row, add_audit_lem}
use seismic_trace_resumable.Layout.{contents, Tiles, length-contents}
use seismic_trace_resumable.Invariant.{IsWellFormed, Settled}
use seismic_trace_resumable.Upload.Session.{get_locked_session}
use seismic_trace_resumable.Compact.Layout.{layout_of, same_layout, planned_spans, planned_rows}
use seismic_trace_resumable.Compact.Layout.Spans.{
  Fits, planned_spans-Covers, planned_rows-Tiles, planned_rows-Fits,
}
use seismic_trace_resumable.Compact.Passes.{gather, gathered}
use seismic_trace_resumable.Compact.Passes.Chains.{
  gathered-Tiles, verified-Tiles, total_length-Tiles,
}
use seismic_trace_resumable.Compact.{
  CompactResult, keep_layout, rewrite_layout, repack, positive, compact_sealed,
}

pub length-layout_of : (cs : List Chunk) → length (layout_of cs) ≡ length cs
length-layout_of [] = refl
length-layout_of (c ∷ cs) = ap suc (length-layout_of cs)

positive_lem : (n : ℕ) (t : Tx) → 0 < n → positive (integer (pos n)) t ≡ (ok n, t)
unfolding positive
positive_lem zero t h = absurd (omega arith)
positive_lem (suc n) t h = refl

pub planned_rows-Owned :
    (H : Hashlib) (id : Text) (buffer : Bytes) (spans : List (ℕ × ℕ))
    → Owned id (planned_rows H id buffer spans)
planned_rows-Owned H id buffer [] = tt
planned_rows-Owned H id buffer (s ∷ spans) = (refl, planned_rows-Owned H id buffer spans)

module _ (H : Hashlib) (env : Env) (db : Db) (u : UploadSession) (target : ℕ) where
  -- The bytes of the package, and its chunks as the target cuts them.
  abbrev pub bytes : Bytes
  bytes = contents (chunks_of db u.id)

  abbrev pub plan : List Chunk
  plan = planned_rows H u.id bytes (planned_spans u.total_bytes target)

  abbrev pub relaid_db : Db
  relaid_db = added plan (delete_chunks u.id db)

  abbrev pub is_laid : Bool
  is_laid = same_layout (layout_of (chunks_of db u.id)) (layout_of plan)

  abbrev pub laid_db : Db
  laid_db = if is_laid then db else relaid_db

  abbrev pub compaction_row : Db → AuditEvent
  compaction_row =
      audit_row env u Event.audit_compacted u.total_bytes u.whole_sha256 (some target)
        (some (length (chunks_of db u.id))) (some (length plan))

  abbrev pub compacted_db : Db
  compacted_db = add_audit_event (compaction_row laid_db) laid_db

  abbrev pub compacted : CompactResult
  compacted = record {
    id = u.id;
    status = sealed;
    target_chunk_bytes = target;
    chunks_before = length (chunks_of db u.id);
    chunks_after = length plan;
    total_bytes_before = u.total_bytes;
    total_bytes_after = u.total_bytes;
    whole_sha256 = u.whole_sha256;
    chunks = layout_of plan;
  }

  module _ (L : IsLawful H) (w : IsWellFormed H db) (found : get_session db u.id ≡ some u)
      (sealed_session : u.status ≡ sealed) (at_least_one : 0 < target) where
    pub settled : Settled H sealed u bytes (audit_of db u.id)
    settled =
        subst (λ s. Settled H s u bytes (audit_of db u.id)) sealed_session
          (w.sound u.id u found).1.settled

    pub tiles : Tiles H 0 (chunks_of db u.id) u.total_bytes
    tiles = rw (← settled.0) ((w.sound u.id u found).1.tiles)

    size : u.total_bytes ≡ length bytes
    size = omega (arith, length-contents H 0 (chunks_of db u.id) u.total_bytes tiles)

    pub plan-Tiles : Tiles H 0 plan u.total_bytes × (contents plan ≡ bytes)
    plan-Tiles =
        planned_rows-Tiles H u.id bytes target 0 (planned_spans u.total_bytes target) u.total_bytes
          (planned_spans-Covers u.total_bytes target at_least_one).0 size

    pub plan-Fits : Fits target plan
    plan-Fits =
        planned_rows-Fits H u.id bytes target 0 (planned_spans u.total_bytes target) u.total_bytes
          (planned_spans-Covers u.total_bytes target at_least_one).0

    deleted : chunks_of (delete_chunks u.id db) u.id ≡ []
    deleted = chunks_of-delete_chunks u.id db u.id ∙ rw (=?_refl u.id) refl

    deleted-Tiles : Tiles H 0 (chunks_of (delete_chunks u.id db) u.id) 0
    deleted-Tiles = rw deleted refl

    pub relaid_rows : chunks_of relaid_db u.id ≡ plan
    relaid_rows =
        chunks_of-added u.id H plan (delete_chunks u.id db) 0 u.total_bytes deleted-Tiles
          plan-Tiles.0 (planned_rows-Owned H u.id bytes (planned_spans u.total_bytes target))
        ∙ ap (λ cs. cs ++ plan) deleted

    flushed : insert_chunks plan (delete_chunks u.id db) ≡ some relaid_db
    flushed =
        insert_chunks-Tiles u.id H plan (delete_chunks u.id db) 0 u.total_bytes deleted-Tiles
          plan-Tiles.0 (planned_rows-Owned H u.id bytes (planned_spans u.total_bytes target))

    outcome : Db → Result CompactResult × Tx → Result CompactResult × Tx
    outcome d other =
        if env.refuses_audit
        then other
        else (ok compacted, opened (add_audit_event (compaction_row d) d))

    kept :
        keep_layout H env u target (chunks_of db u.id) (layout_of plan) u.whole_sha256 (opened db)
        ≡ outcome db (err (upload_error 500 audit_write_failed), opened db)
    unfolding keep_layout outcome
    kept = ground (
      arith,
      add_audit_lem env u Event.audit_compacted u.total_bytes u.whole_sha256 (some target)
          (some (length (chunks_of db u.id))) (some (length (layout_of plan))) (opened db),
      length-layout_of plan,
      total_length-Tiles H L 0 (chunks_of db u.id) u.total_bytes tiles,
    )

    plan_digest : digest H (contents plan) ≡ u.whole_sha256
    plan_digest = ap (digest H) plan-Tiles.1 ∙ settled.1

    rewritten :
        rewrite_layout H env u target u.id (chunks_of db u.id) plan (opened db)
        ≡ outcome relaid_db (err (upload_error 500 audit_write_failed), opened db)
    unfolding rewrite_layout outcome
    rewritten = ground (
      arith,
      flushed,
      relaid_rows,
      plan_digest,
      verified-Tiles H L u target plan (record { committed = db; working = relaid_db }) plan-Tiles.0
          plan-Fits plan_digest,
      add_audit_lem env u Event.audit_compacted u.total_bytes u.whole_sha256 (some target)
          (some (length (chunks_of db u.id))) (some (length plan))
          (record { committed = db; working = relaid_db }),
      total_length-Tiles H L 0 (chunks_of db u.id) u.total_bytes tiles,
    )

    read :
        gathered H u
          (gather H (chunks_of db u.id) (record { cursor = 0; hasher = H.sha256 []; buffer = [] }))
          (opened db)
        ≡ (
          ok (record { cursor = u.total_bytes; hasher = H.sha256 bytes; buffer = bytes }),
          opened db,
        )
    read = gathered-Tiles H L u (chunks_of db u.id) (opened db) tiles settled.1

    repacked :
        repack H env u target u.id (opened db)
        ≡ outcome laid_db (err (upload_error 500 audit_write_failed), opened db)
    unfolding repack
    repacked = elim (Bool-cases is_laid) [
      | inl same ↦ rw same (ground (arith, read, same, kept, settled.1))
      | inr other ↦ rw other (ground (arith, read, other, rewritten, settled.1))
    ]

    -- Compacting a sealed session of a well-formed database to any target of one byte or more succeeds,
    -- unless the audit row is refused, and then nothing changes. The session's chunks are the plan's
    -- afterwards, or were already, one row more stands in its trail, and the answer tells the plan.
    pub compact_sealed_lem : serve (compact_sealed H env u.id (integer (pos target))) db ≡ (
        if env.refuses_audit
        then (err (upload_error 500 audit_write_failed), db)
        else (ok compacted, compacted_db))
    unfolding compact_sealed get_locked_session outcome
    compact_sealed_lem = ground (arith, positive_lem target (opened db) at_least_one, repacked)
