-- ===== src/Examples/Comparisons.antt =====
-- Comparisons of small archives.
use seismic_trace_resumable.Prelude.{
  ap, =?_refl, ◌⊎◌, ◌≡◌, refl, ◌∙◌, List, Bytes, [], ◌∷◌, none, arith, codes,
}
use seismic_trace_resumable.Model.{Comparison}
use seismic_trace_resumable.Storage.{Db, chunks_of, add_comparison, stored_comparison}
use seismic_trace_resumable.Tx.{Result, ok, err, serve}
use seismic_trace_resumable.Layout.{contents}
use seismic_trace_resumable.Compare.{streams_first_difference}
use seismic_trace_resumable.Compare.Streams.{Parting, meet, streams_first_difference_lem}
use seismic_trace_resumable.Compare.Record.{create_comparison, get_comparison, comparison_row}
use seismic_trace_resumable.Compare.Record.Sealed.{create_comparison-sealed}
use seismic_trace_resumable.Errors.{UploadError, integer}
use seismic_trace_resumable.Prelude.Int.{pos}
use seismic_trace_resumable.Invariant.Comparisons.{add_comparison-IsWellFormed}
use seismic_trace_resumable.Compact.{compact_sealed}
use seismic_trace_resumable.History.Lives.{Lives, begins, requested, compacts, Lives-IsWellFormed}
use seismic_trace_resumable.History.{empty_db, create, put, compare, after}
use seismic_trace_resumable.History.Comparisons.{
  Lives-get_comparison, put_chunk-comparisons, create_session-comparisons,
}
use seismic_trace_resumable.History.Truths.{AreTrue, Lives-AreTrue}
use seismic_trace_resumable.Compare.Record.Genuine.{IsComparison, create_comparison_sound}
use seismic_trace_resumable.Compare.Record.Effects.{create_comparison-cases}
use seismic_trace_resumable.Examples.Data.{
  plain, plain-IsLawful, env, sid, created, whole, sid-fresh, empty-IsWellFormed,
}
use seismic_trace_resumable.Examples.Histories.{finished, finished-IsWellFormed, at_last}

-- Cut in different places, and different in the last byte.
abbrev left : List Bytes
left = (1 ∷ 2 ∷ []) ∷ (3 ∷ []) ∷ []

abbrev right : List Bytes
right = (1 ∷ []) ∷ (2 ∷ 4 ∷ []) ∷ []

streams_first_difference_lem_example :
    Parting 0 (1 ∷ 2 ∷ 3 ∷ []) (1 ∷ 2 ∷ 4 ∷ []) (streams_first_difference left right)
streams_first_difference_lem_example =
    streams_first_difference_lem left right (omega arith, (omega arith, tt))
      (omega arith, (omega arith, tt))

create_comparison-sealed_example :
    let bytes = contents (chunks_of finished at_last.0.id) in
    let row = comparison_row env (codes "c") at_last.0 at_last.0 (meet 0 bytes bytes) in
    serve (create_comparison plain env (codes "c") sid sid) finished
    ≡ (ok row, add_comparison row finished)
create_comparison-sealed_example =
    create_comparison-sealed plain plain-IsLawful env finished finished-IsWellFormed (codes "c") sid
      sid at_last.0 at_last.0 at_last.1 at_last.1 at_last.2 at_last.2

-- The session is not sealed yet.
create_comparison-cases_example :
    ((row : Comparison) × (serve (create_comparison plain env (codes "c") sid sid) created
        ≡ (ok row, add_comparison row created)))
    ⊎ ((e : UploadError) × (serve (create_comparison plain env (codes "c") sid sid) created
          ≡ (err e, created)))
create_comparison-cases_example = create_comparison-cases plain created env (codes "c") sid sid

-- The package compared with itself.
abbrev twin : Comparison
twin =
    let bytes = contents (chunks_of finished at_last.0.id) in
    comparison_row env (codes "c") at_last.0 at_last.0 (meet 0 bytes bytes)

create_comparison_sound_example :
    IsComparison plain plain-IsLawful finished env (codes "c") sid sid twin
create_comparison_sound_example =
    create_comparison_sound plain plain-IsLawful finished env (codes "c") sid sid twin (
      ap (λ (answer : Result Comparison × Db). answer.0)
        (create_comparison-sealed plain plain-IsLawful env finished finished-IsWellFormed
          (codes "c") sid sid at_last.0 at_last.0 at_last.1 at_last.1 at_last.2 at_last.2))

twin-found :
    serve (get_comparison (codes "c")) (add_comparison twin finished)
    ≡ (ok twin, add_comparison twin finished)
unfolding get_comparison stored_comparison add_comparison
twin-found = rw (=?_refl (codes "c")) refl

-- A compaction after the comparison.
Lives-get_comparison_example :
    serve
      (get_comparison (codes "c"))
      (serve (compact_sealed plain env sid (integer (pos 1))) (add_comparison twin finished)).1
    ≡ (
      ok twin,
      (serve (compact_sealed plain env sid (integer (pos 1))) (add_comparison twin finished)).1,
    )
Lives-get_comparison_example =
    Lives-get_comparison plain plain-IsLawful (compacts begins env sid (integer (pos 1)))
      (add_comparison-IsWellFormed twin finished plain finished-IsWellFormed) (codes "c") twin
      twin-found

-- The package in two uploads, up to the first and up to the second.
abbrev half : Db
half =
    after plain env (put sid (pos 0) (pos 2) (10 ∷ 20 ∷ []) (10 ∷ 20 ∷ []))
      (after plain env (create sid 3 whole) empty_db)

half_way : Lives plain empty_db half
half_way =
    requested (requested begins env (create sid 3 whole) sid-fresh) env
      (put sid (pos 0) (pos 2) (10 ∷ 20 ∷ []) (10 ∷ 20 ∷ [])) tt

all_the_way : Lives plain empty_db finished
all_the_way = requested half_way env (put sid (pos 2) (pos 1) (30 ∷ []) (30 ∷ [])) tt

no_rows : finished.comparisons ≡ []
no_rows =
    put_chunk-comparisons plain plain-IsLawful env half
      (Lives-IsWellFormed plain plain-IsLawful half_way empty-IsWellFormed) sid (pos 2) (pos 1)
      (30 ∷ []) (30 ∷ [])
    ∙ put_chunk-comparisons plain plain-IsLawful env (after plain env (create sid 3 whole) empty_db)
        (Lives-IsWellFormed plain plain-IsLawful
          (requested begins env (create sid 3 whole) sid-fresh) empty-IsWellFormed)
        sid (pos 0) (pos 2) (10 ∷ 20 ∷ []) (10 ∷ 20 ∷ [])
    ∙ create_session-comparisons plain plain-IsLawful env empty_db empty-IsWellFormed sid 3 whole

c-fresh : stored_comparison finished (codes "c") ≡ none
unfolding stored_comparison
c-fresh = rw no_rows refl

-- The comparison is made and the archive then cut into single bytes.
abbrev afterwards : Db
afterwards =
    (serve (compact_sealed plain env sid (integer (pos 1)))
      (serve (create_comparison plain env (codes "c") sid sid) finished).1).1

Lives-AreTrue_example : AreTrue plain afterwards afterwards.comparisons
Lives-AreTrue_example =
    Lives-AreTrue plain plain-IsLawful
      (compacts (requested all_the_way env (compare (codes "c") sid sid) c-fresh) env sid
        (integer (pos 1)))
      empty-IsWellFormed tt
