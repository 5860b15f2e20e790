-- ===== src/Http/Ranges.antt =====
-- `_unsatisfiable` and `_parse_single_range` of app/main.py: the half-open span that a Range header asks
-- for. A header is the code points that the HTTP layer has decoded.
pub mod Grammar
pub mod Bounds
use seismic_trace_resumable.Prelude.{
  ℕ, ◌+◌, ◌-◌, min, Text, Bool, true, false, not, ◌&&◌, ◌||◌, Option, none, some, List, [], ◌∷◌,
  codes, ◌=?◌, ltb, leb, ◌==◌, if◌then◌else◌,
}
use seismic_trace_resumable.Errors.{
  UploadError, upload_error, at_range, range_total, invalid_range, range_not_satisfiable, unhandled,
}
use seismic_trace_resumable.Tx.{Result, ok, err}
use seismic_trace_resumable.Http.Strings.{
  contains, count, partition, is_empty, is_digits, int_of, lower,
}

abbrev pub comma : ℕ
comma = 44

abbrev pub dash : ℕ
dash = 45

abbrev pub equals : ℕ
equals = 61

abbrev pub unsatisfiable : Text → ℕ → UploadError
unsatisfiable range_value total = record (upload_error 416 range_not_satisfiable) {
  details = range_total range_value total;
  content_range = some total;
}

abbrev pub invalid : Text → UploadError
invalid range_value = record (upload_error 400 invalid_range) { details = at_range range_value }

-- `limit` is the number of digits that the interpreter's `int` takes; its ValueError has no handler.
module _ (limit : ℕ) (range_value : Text) (total : ℕ) where
  suffix_span : Option ℕ → Result (ℕ × ℕ)
  suffix_span none = err (upload_error 500 unhandled)
  suffix_span (some suffix) =
      if suffix == 0 || total == 0
      then err (unsatisfiable range_value total)
      else ok (total - suffix, total)

  open_span : ℕ → Result (ℕ × ℕ)
  open_span start =
      if leb total start then err (unsatisfiable range_value total) else ok (start, total)

  closed_span : ℕ → Option ℕ → Result (ℕ × ℕ)
  closed_span start none = err (upload_error 500 unhandled)
  closed_span start (some last) =
      if ltb last start
      then err (invalid range_value)
      else if leb total start
      then err (unsatisfiable range_value total)
      else ok (start, min (last + 1) total)

  started_span : Text → Option ℕ → Result (ℕ × ℕ)
  unfolding open_span closed_span
  started_span last none = err (upload_error 500 unhandled)
  started_span last (some start) =
      if is_empty last then open_span start else closed_span start (int_of limit last)

  -- The two boundaries of the range, either of which may be left out.
  parse_boundaries : Text → Text → Result (ℕ × ℕ)
  unfolding suffix_span started_span
  parse_boundaries first last =
      if is_empty first && is_empty last
      then err (invalid range_value)
      else if not (is_empty first) && not (is_digits first)
      then err (invalid range_value)
      else if not (is_empty last) && not (is_digits last)
      then err (invalid range_value)
      else if is_empty first
      then suffix_span (int_of limit last)
      else started_span last (int_of limit first)

  parse_spec : Text → Result (ℕ × ℕ)
  unfolding parse_boundaries
  parse_spec spec =
      let (first, _, last) = partition dash spec in
      if contains comma spec
      then err (invalid range_value)
      else if not (count dash spec == 1)
      then err (invalid range_value)
      else parse_boundaries first last

  unfoldable pub parse_single_range : Result (ℕ × ℕ)
  unfolding parse_spec
  parse_single_range =
      let (unit, sep, spec) = partition equals range_value in
      if not sep || not (lower unit =? codes "bytes")
      then err (invalid range_value)
      else parse_spec spec
