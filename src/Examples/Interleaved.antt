-- ===== src/Examples/Interleaved.antt =====
-- Reads among which others commit, at the finished package of `Histories`.
use seismic_trace_resumable.Prelude.{ℕ, ◌≡◌, ◌≤◌, [], ◌∷◌, codes}
use seismic_trace_resumable.Prelude.Int.{pos}
use seismic_trace_resumable.Storage.{Db}
use seismic_trace_resumable.Tx.{ok, serve}
use seismic_trace_resumable.Compare.Record.{create_comparison}
use seismic_trace_resumable.History.{put, after}
use seismic_trace_resumable.History.Lives.{Lives, begins, requested}
use seismic_trace_resumable.History.Interleaved.{
  create_comparison_among, create_comparison_among_lem,
}
use seismic_trace_resumable.Http.Content.{download_content}
use seismic_trace_resumable.Http.Content.Among.{download_content_among, download_content_among_lem}
use seismic_trace_resumable.Http.Sessions.{ChunkList}
use seismic_trace_resumable.Http.Sessions.Listing.{Covered}
use seismic_trace_resumable.Http.Sessions.Among.{list_chunks_among, list_chunks_among-Covered}
use seismic_trace_resumable.Examples.Data.{
  plain, plain-IsLawful, env, sid, registered, created, created-found, created-IsWellFormed,
}
use seismic_trace_resumable.Examples.Histories.{finished, finished-IsWellFormed, at_last}
use seismic_trace_resumable.Examples.Compactions.{busy, busy_db}

-- The baseline is read before a compaction of the package, and the rest after it.
create_comparison_among_lem_example :
    serve
      (create_comparison_among plain env finished finished busy_db busy_db (codes "c") sid sid)
      finished
    ≡ serve (create_comparison plain env (codes "c") sid sid) busy_db
create_comparison_among_lem_example =
    create_comparison_among_lem plain plain-IsLawful env finished finished finished busy_db busy_db
      finished-IsWellFormed begins begins busy begins (codes "c") sid sid at_last.0 at_last.0
      at_last.1 at_last.1 at_last.2 at_last.2

download_content_among_lem_example :
    (serve (download_content_among plain 4300 busy_db sid (codes "bytes=1-" ∷ [])) finished
      ≡ serve (download_content plain 4300 sid (codes "bytes=1-" ∷ [])) busy_db)
    × ((serve (download_content_among plain 4300 busy_db sid (codes "bytes=1-" ∷ [])) finished).0
        ≡ (serve (download_content plain 4300 sid (codes "bytes=1-" ∷ [])) finished).0)
download_content_among_lem_example =
    download_content_among_lem plain plain-IsLawful sid at_last.0 at_last.2 4300 busy
      finished-IsWellFormed at_last.1 (codes "bytes=1-" ∷ [])

-- Two bytes are stored between the two reads.
abbrev grown : Db
grown = after plain env (put sid (pos 0) (pos 2) (10 ∷ 20 ∷ []) (10 ∷ 20 ∷ [])) created

abbrev growing : Lives plain created grown
growing = requested begins env (put sid (pos 0) (pos 2) (10 ∷ 20 ∷ []) (10 ∷ 20 ∷ [])) tt

list_chunks_among-Covered_example :
    (answer : ChunkList) × (reach : ℕ) × (serve (list_chunks_among grown sid) created
      ≡ (ok answer, grown))
    × (answer.confirmed_offset ≡ 0)
    × Covered 0 answer.chunks reach
    × (0 ≤ reach)
list_chunks_among-Covered_example =
    list_chunks_among-Covered plain plain-IsLawful sid registered growing created-IsWellFormed
      created-found
