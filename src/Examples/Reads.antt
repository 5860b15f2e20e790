-- ===== src/Examples/Reads.antt =====
-- Verified reads of an archive of three bytes.
use seismic_trace_resumable.Prelude.{◌≡◌, refl, [], ◌∷◌, text_dec, arith}
use seismic_trace_resumable.Storage.{chunks_of, insert_by_offset}
use seismic_trace_resumable.Tx.{ok, serve}
use seismic_trace_resumable.Layout.{Tiles-Chain}
use seismic_trace_resumable.Download.{verified_sealed_bytes}
use seismic_trace_resumable.Download.Verified.{IsGenuine, verified_sealed_bytes_complete}
use seismic_trace_resumable.Examples.Data.{
  plain, plain-IsLawful, sid, archived, archive, archive-rows, archive-Tiles,
}

archive-IsGenuine : IsGenuine plain plain-IsLawful archived archive
archive-IsGenuine = record {
  chained = Tiles-Chain plain 0 (chunks_of archive sid) 3 archive-Tiles;
  same = rw archive-rows refl;
}

verified_sealed_bytes_complete_example :
    serve (verified_sealed_bytes plain archived 1 3) archive ≡ (ok (20 ∷ 30 ∷ []), archive)
unfolding chunks_of insert_by_offset text_dec
verified_sealed_bytes_complete_example =
    verified_sealed_bytes_complete plain plain-IsLawful archived archive 1 3 (omega arith)
      archive-IsGenuine
