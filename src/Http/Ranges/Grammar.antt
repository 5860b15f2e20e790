-- ===== src/Http/Ranges/Grammar.antt =====
-- The byte ranges of RFC 9110 that `_parse_single_range` takes: how they are written, and the
-- positions that they name.
pub mod Complete
pub mod Sound
use seismic_trace_resumable.Prelude.{
  ℕ, ◌+◌, ◌≤◌, ◌<◌, ◌≡◌, ◌↔◌, Text, true, ◌⊎◌, none, some, List, [], ◌∷◌, ◌++◌, length,
}
use seismic_trace_resumable.Errors.{
  UploadError, at_range, range_total, invalid_range, range_not_satisfiable,
}
use seismic_trace_resumable.Tx.{Result, ok, err}
use seismic_trace_resumable.Http.Strings.{is_digits, value_from}
use seismic_trace_resumable.Http.Ranges.{dash}

pub data Form : Type 0 where
  -- `-n`, `a-` and `a-b`, each boundary as its digits.
  suffix : Text → Form
  from : Text → Form
  between : Text → Text → Form

abbrev pub text_of : Form → Text
text_of (suffix last) = dash ∷ last
text_of (from first) = first ++ dash ∷ []
text_of (between first last) = first ++ dash ∷ last

abbrev pub value : Text → ℕ
value digits = value_from 0 digits

-- Digits that the interpreter converts: as many as its limit, or any number when that is 0.
abbrev pub IsNumeral : ℕ → Text → Type 0
IsNumeral limit t = (is_digits t ≡ true) × ((limit ≡ 0) ⊎ (length t ≤ limit))

abbrev pub IsForm : ℕ → Form → Type 0
IsForm limit (suffix last) = IsNumeral limit last
IsForm limit (from first) = IsNumeral limit first
IsForm limit (between first last) = IsNumeral limit first × IsNumeral limit last

-- The positions of a package of `total` bytes that a range names.
abbrev pub Names : Form → ℕ → ℕ → Type 0
Names (suffix last) total i = total ≤ i + value last
Names (from first) total i = value first ≤ i
Names (between first last) total i = (value first ≤ i) × (i ≤ value last)

-- The boundaries of a range that has two are in the right order.
abbrev pub IsOrdered : Form → Type 0
IsOrdered (suffix last) = Unit
IsOrdered (from first) = Unit
IsOrdered (between first last) = value first ≤ value last

-- What an answer must be: 400 when the boundaries are in the wrong order; otherwise the span of the
-- named positions, and 416 with the package's length when no position of the package is named.
pub data Reading (range_value : Text) (form : Form) (total : ℕ) : Result (ℕ × ℕ) → Type 0 where
  served :
      (begin end : ℕ)
      → begin < end
      → end ≤ total
      → ((i : ℕ) → ((begin ≤ i) × (i < end)) ↔ ((i < total) × Names form total i))
      → Reading range_value form total (ok (begin, end))
  outside :
      (e : UploadError)
      → IsOrdered form
      → ((i : ℕ) → i < total → Names form total i → ⊥)
      → e.status_code ≡ 416
      → e.code ≡ range_not_satisfiable
      → e.details ≡ range_total range_value total
      → e.content_range ≡ some total
      → Reading range_value form total (err e)
  reversed :
      (e : UploadError) (first last : Text)
      → form ≡ between first last
      → value last < value first
      → e.status_code ≡ 400
      → e.code ≡ invalid_range
      → e.details ≡ at_range range_value
      → e.content_range ≡ none
      → Reading range_value form total (err e)
