-- ===== src/Upload/Archive.antt =====
-- `_chunks_in_range` and `_archived_bytes` of app/service.py.
pub mod Reads
use seismic_trace_resumable.Prelude.{
  ℕ, ◌-◌, min, Text, Bytes, Bool, ◌&&◌, Option, none, some, List, [], ◌∷◌, ◌++◌, keep_if, ltb, leb,
  ◌==◌, if◌then◌else◌,
}
use seismic_trace_resumable.Prelude.Int.{sub_ℕ, slice}
use seismic_trace_resumable.Model.{Chunk}
use seismic_trace_resumable.Storage.{Db, chunks_of}

-- Chunk.start_offset < end AND Chunk.end_offset > begin
abbrev pub overlaps : ℕ → ℕ → Chunk → Bool
overlaps begin end c = ltb c.start_offset end && ltb begin c.end_offset

unfoldable pub chunks_in_range : Db → Text → ℕ → ℕ → List Chunk
chunks_in_range db session_id begin end = keep_if (overlaps begin end) (chunks_of db session_id)

-- The loop over the chunks: `none` at a gap, and where the chunks end before `end`.
unfoldable pub collect : List Chunk → ℕ → ℕ → Bytes → Option Bytes
collect [] cursor end out = if cursor == end then some out else none
collect (c ∷ cs) cursor end out =
    let overlap_end = min c.end_offset end in
    let out' =
      out ++ slice (cursor - c.start_offset) (sub_ℕ overlap_end c.start_offset) c.payload in
    let rest = collect cs overlap_end end out' in
    if ltb cursor c.start_offset
    then none
    else if leb end overlap_end
    then (if overlap_end == end then some out' else none)
    else rest

unfoldable pub archived_bytes : Db → Text → ℕ → ℕ → Option Bytes
unfolding chunks_in_range
archived_bytes db session_id begin end =
    if begin == end then some [] else collect (chunks_in_range db session_id begin end) begin end []
