-- ===== src/Compact/Layout.antt =====
-- `_planned_spans` of app/service.py, and the layouts that `compact_sealed` compares.
pub mod Spans
pub mod Unique
use seismic_trace_resumable.Prelude.{
  ℕ, zero, suc, ◌+◌, ◌-◌, min, Text, Bytes, ◌=?◌, Bool, true, false, not, ◌&&◌, ◌||◌, none, some,
  List, [], ◌∷◌, ◌++◌, map, length, ltb, ◌==◌, if◌then◌else◌,
}
use seismic_trace_resumable.Prelude.Int.{ℤ, pos, negsuc, slice}
use seismic_trace_resumable.Hashlib.{Hashlib, digest}
use seismic_trace_resumable.Model.{UploadSession, Chunk, Event, is_sealed}
use seismic_trace_resumable.Errors.{
  UploadError, upload_error, Argument, integer, boolean, other, at_target, in_status, at_length,
  invalid_target_chunk_bytes, compaction_state_conflict, compaction_integrity_error, unhandled,
}
use seismic_trace_resumable.Storage.{Db, chunks_of, delete_chunks, insert_chunks}
use seismic_trace_resumable.Tx.{
  Action, Result, ok, err, pure, raise, raise_if, query, modify, commit, ◌>>=◌, ◌>>◌,
}
use seismic_trace_resumable.Audit.{Env, add_audit}
use seismic_trace_resumable.Upload.Session.{get_locked_session}

-- The rest of `range(0, total, target_chunk_bytes)` from `off` on; a step is one byte or more, so
-- `total` turns are enough.
unfoldable pub spans_from : ℕ → ℕ → ℕ → ℕ → List (ℕ × ℕ)
spans_from zero off total target = []
spans_from (suc turns) off total target =
    let rest = spans_from turns (off + target) total target in
    if ltb off total then (off, min (off + target) total) ∷ rest else []

unfoldable pub planned_spans : ℕ → ℕ → List (ℕ × ℕ)
planned_spans total target = spans_from total 0 total target

-- One line of a layout.
pub record Span : Type 0 where
  pub start_offset : ℕ
  pub end_offset : ℕ
  pub length : ℕ
  pub sha256 : Text

abbrev pub span_of : Chunk → Span
span_of c = record {
  start_offset = c.start_offset;
  end_offset = c.end_offset;
  length = c.length;
  sha256 = c.sha256;
}

abbrev pub layout_of : List Chunk → List Span
layout_of [] = []
layout_of (c ∷ cs) = span_of c ∷ layout_of cs

abbrev pub same_span : Span → Span → Bool
same_span a b =
    a.start_offset == b.start_offset
    && a.end_offset == b.end_offset
    && a.length == b.length
    && a.sha256 =? b.sha256

-- `old_layout == new_layout`
unfoldable pub same_layout : List Span → List Span → Bool
same_layout [] [] = true
same_layout [] (b ∷ bs) = false
same_layout (a ∷ as') [] = false
same_layout (a ∷ as') (b ∷ bs) = same_span a b && same_layout as' bs

abbrev pub total_length : List Chunk → ℕ
total_length [] = 0
total_length (c ∷ cs) = c.length + total_length cs

module _ (H : Hashlib) where
  -- A row of the new layout: `bytes(buffer[off:end])`.
  abbrev pub planned_row : Text → Bytes → ℕ × ℕ → Chunk
  planned_row session_id buffer (off, end) = record {
    session_id = session_id;
    start_offset = off;
    end_offset = end;
    length = end - off;
    sha256 = digest H (slice off (pos end) buffer);
    payload = slice off (pos end) buffer;
  }

  abbrev pub planned_rows : Text → Bytes → List (ℕ × ℕ) → List Chunk
  planned_rows session_id buffer [] = []
  planned_rows session_id buffer (s ∷ spans) =
      planned_row session_id buffer s ∷ planned_rows session_id buffer spans
