-- ===== src/Examples/Compactions.antt =====
-- The finished package of `Histories`, compacted, and read again.
use seismic_trace_resumable.Prelude.{
  ◌≡◌, ◌<◌, ◌≤◌, ◌+◌, ◌*◌, ◌∙◌, ap, refl, [], ◌∷◌, some, arith, length,
}
use seismic_trace_resumable.Prelude.Int.{pos}
use seismic_trace_resumable.Model.{active}
use seismic_trace_resumable.Errors.{upload_error, integer, in_status, compaction_state_conflict}
use seismic_trace_resumable.Storage.{Db, get_session, chunks_of}
use seismic_trace_resumable.Tx.{ok, err, serve}
use seismic_trace_resumable.Upload.Session.{get_locked_session}
use seismic_trace_resumable.Compact.Layout.{planned_spans}
use seismic_trace_resumable.Compact.Layout.Spans.{Covers, planned_spans-Covers}
use seismic_trace_resumable.Compact.{compact_sealed, positive}
use seismic_trace_resumable.Compact.Sealed.{compacted, compacted_db, compact_sealed_lem}
use seismic_trace_resumable.Compact.Requests.{compact_sealed-IsWellFormed}
use seismic_trace_resumable.Compact.Preserves.{IsPreserved, compact_sealed-IsPreserved}
use seismic_trace_resumable.Compact.Deterministic.{compact_sealed_deterministic}
use seismic_trace_resumable.Compact.Atomic.{compact_sealed_atomic}
use seismic_trace_resumable.History.{put, after}
use seismic_trace_resumable.History.Lives.{Lives, begins, requested, compacts}
use seismic_trace_resumable.Examples.Data.{plain, plain-IsLawful, env, sid, created, created-found}
use seismic_trace_resumable.Examples.Histories.{finished, finished-IsWellFormed, at_last}

at_last-named : at_last.0.id ≡ sid
at_last-named = (finished-IsWellFormed.sound sid at_last.0 at_last.1).0

at_last-found : get_session finished at_last.0.id ≡ some at_last.0
at_last-found = ap (get_session finished) at_last-named ∙ at_last.1

-- Cut into single bytes.
abbrev pub single : Db
single = (serve (compact_sealed plain env at_last.0.id (integer (pos 1))) finished).1

compact_sealed_lem_example :
    serve (compact_sealed plain env at_last.0.id (integer (pos 1))) finished
    ≡ (ok (compacted plain env finished at_last.0 1), compacted_db plain env finished at_last.0 1)
compact_sealed_lem_example =
    compact_sealed_lem plain env finished at_last.0 1 plain-IsLawful finished-IsWellFormed
      at_last-found at_last.2 (omega arith)

pub single-IsPreserved : IsPreserved at_last.0.id finished single
single-IsPreserved =
    compact_sealed-IsPreserved plain plain-IsLawful env finished finished-IsWellFormed at_last.0.id
      (integer (pos 1)) at_last.0.id

compact_sealed-IsPreserved_example :
    IsPreserved sid finished (serve (compact_sealed plain env sid (integer (pos 2))) finished).1
compact_sealed-IsPreserved_example =
    compact_sealed-IsPreserved plain plain-IsLawful env finished finished-IsWellFormed sid
      (integer (pos 2)) sid

-- To two bytes, from single bytes and from the pieces that were sent.
compact_sealed_deterministic_example :
    chunks_of
      (serve (compact_sealed plain env at_last.0.id (integer (pos 2))) single).1
      at_last.0.id
    ≡ chunks_of
        (serve (compact_sealed plain env at_last.0.id (integer (pos 2))) finished).1
        at_last.0.id
compact_sealed_deterministic_example =
    compact_sealed_deterministic plain plain-IsLawful at_last.0 2 at_last.2 (omega arith) env env
      refl refl single finished
      (compact_sealed-IsWellFormed plain env finished at_last.0.id plain-IsLawful
        finished-IsWellFormed (integer (pos 1)))
      finished-IsWellFormed (single-IsPreserved.session ∙ at_last-found) at_last-found
      single-IsPreserved.bytes

-- A session that still lacks bytes.
created-refused :
    (serve (compact_sealed plain env sid (integer (pos 2))) created).0
    ≡ err (record (upload_error 409 compaction_state_conflict) {
      expected_offset = some 0;
      details = in_status active;
    })
unfolding compact_sealed positive get_locked_session
created-refused = ground (arith, created-found)

compact_sealed_atomic_example : serve (compact_sealed plain env sid (integer (pos 2))) created ≡ (
  err (record (upload_error 409 compaction_state_conflict) {
    expected_offset = some 0;
    details = in_status active;
  }),
  created,
)
compact_sealed_atomic_example =
    compact_sealed_atomic plain env created sid (integer (pos 2)) _ created-refused

-- A compaction, and a writer that comes too late.
abbrev pub busy_db : Db
busy_db =
    after plain env (put sid (pos 0) (pos 1) (11 ∷ []) (11 ∷ []))
      (serve (compact_sealed plain env sid (integer (pos 1))) finished).1

abbrev pub busy : Lives plain finished busy_db
busy =
    requested (compacts begins env sid (integer (pos 1))) env
      (put sid (pos 0) (pos 1) (11 ∷ []) (11 ∷ [])) tt

planned_spans-Covers_example :
    Covers 2 0 (planned_spans 3 2) 3
    × (3 ≤ length (planned_spans 3 2) * 2)
    × (length (planned_spans 3 2) * 2 < 3 + 2)
planned_spans-Covers_example = planned_spans-Covers 3 2 (omega arith)
