-- ===== src/Http/Ranges/Bounds.antt =====
-- The span that is answered lies in the package.
use seismic_trace_resumable.Prelude.{ℕ, ◌≤◌, ◌<◌, ◌≡◌, Text}
use seismic_trace_resumable.Tx.{Result, ok}
use seismic_trace_resumable.Http.Ranges.{parse_single_range}
use seismic_trace_resumable.Http.Ranges.Grammar.{Form, Reading, served, outside, reversed}
use seismic_trace_resumable.Http.Ranges.Grammar.Complete.{parse_single_range_complete}
use seismic_trace_resumable.Http.Ranges.Grammar.Sound.{parse_single_range_sound}

Reading-bounds :
    (v : Text) (form : Form) (total : ℕ) (r : Result (ℕ × ℕ))
    → Reading v form total r
    → (begin end : ℕ) → r ≡ ok (begin, end)
    → (begin < end) × (end ≤ total)
Reading-bounds v form total r (served b e nonempty inside named) begin end h =
    let same_begin : b ≡ begin = cc in
    let same_end : e ≡ end = cc in (rw (same_begin, same_end) at nonempty, rw same_end at inside)
Reading-bounds v form total r (outside x ordered none_named status code details told) begin end h =
    absurd (cc)
Reading-bounds v form total r (reversed x first last e backwards status code details told) begin end
      h =
    absurd (cc)

-- Whatever the header is, a span that is answered is not empty and ends within the package; an empty
-- package has none.
pub parse_single_range_bounds :
    (limit : ℕ) (v : Text) (total begin end : ℕ)
    → parse_single_range limit v total ≡ ok (begin, end)
    → (begin < end) × (end ≤ total)
parse_single_range_bounds limit v total begin end h =
    let (unit, form, named, well_formed, whole) =
      parse_single_range_sound limit v total (begin, end) h in
    Reading-bounds _ form total _
      (parse_single_range_complete limit total unit form named well_formed) begin end
      (rw whole at h)
