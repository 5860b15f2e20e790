-- ===== src/Compact/Layout/Spans.antt =====
-- The planned layout: what it covers, in what sizes, and how many.
use seismic_trace_resumable.Prelude.{
  ℕ, zero, suc, ◌+◌, ◌-◌, ◌*◌, ◌≤◌, ◌<◌, min, ◌≡◌, refl, sym, ap, ◌∙◌, Text, Bytes, inl, inr,
  le-or-lt, List, [], ◌∷◌, length, take, drop, drop-all, drop-drop, length-take, length-drop,
  take-append-drop, arith, le→ltb, lt→ltb,
}
use seismic_trace_resumable.Hashlib.{Hashlib}
use seismic_trace_resumable.Model.{Chunk}
use seismic_trace_resumable.Layout.{contents, Tiles}
use seismic_trace_resumable.Compact.Layout.{spans_from, planned_spans, planned_rows}

-- Spans that follow one another from `a` to `b`, none empty and none longer than the target.
abbrev pub Covers : ℕ → ℕ → List (ℕ × ℕ) → ℕ → Type 0
Covers target a [] b = a ≡ b
Covers target a ((off, end) ∷ spans) b =
    (off ≡ a) × (off < end) × (end ≤ off + target) × Covers target end spans b

module _ (target total : ℕ) (positive_target : 0 < target) where
  spans_from-past : (turns off : ℕ) → total ≤ off → spans_from turns off total target ≡ []
  unfolding spans_from
  spans_from-past zero off past = refl
  spans_from-past (suc turns) off past = rw (le→ltb off total past) refl

  spans_from-Covers :
      (turns off : ℕ)
      → off ≤ total
      → total ≤ off + turns
      → Covers target off (spans_from turns off total target) total
  unfolding spans_from
  spans_from-Covers zero off le enough = omega arith
  spans_from-Covers (suc turns) off le enough = elim (le-or-lt total off) [
    | inl past ↦ rw (le→ltb off total past) (omega arith)
    | inr room ↦ rw (lt→ltb off total room) (elim (le-or-lt total (off + target)) [
      | inl last ↦
          rw (spans_from-past turns (off + target) last)
            (refl, omega arith, omega arith, omega arith)
      | inr more ↦
          let whole : min (off + target) total ≡ off + target = omega arith in
          rw whole (
            refl,
            omega arith,
            omega arith,
            spans_from-Covers turns (off + target) (omega arith) (omega arith),
          )
    ])
  ]

  -- The spans are as many as blocks of the target's size are needed.
  length-spans_from :
      (turns off : ℕ)
      → off ≤ total
      → total ≤ off + turns
      → let n = length (spans_from turns off total target) in
        (total ≤ off + n * target) × (off + n * target < total + target)
  unfolding spans_from
  length-spans_from zero off le enough = (omega arith, omega arith)
  length-spans_from (suc turns) off le enough = elim (le-or-lt total off) [
    | inl past ↦ rw (le→ltb off total past) (omega arith, omega arith)
    | inr room ↦ rw (lt→ltb off total room) (elim (le-or-lt total (off + target)) [
      | inl last ↦ rw (spans_from-past turns (off + target) last) (omega arith, omega arith)
      | inr more ↦
          let rest = length-spans_from turns (off + target) (omega arith) (omega arith) in
          (grind (arith, rest), grind (arith, rest))
    ])
  ]

-- With a target of one byte or more the plan ends, covers the package from its first byte to its
-- last with no gap, and no span is empty or longer than the target; it has as few spans as blocks of
-- that size allow.
pub planned_spans-Covers :
    (total target : ℕ)
    → 0 < target
    → let spans = planned_spans total target in
      Covers target 0 spans total
      × (total ≤ length spans * target)
      × (length spans * target < total + target)
unfolding planned_spans
planned_spans-Covers total target positive_target =
    let sizes =
      length-spans_from target total positive_target total 0 (omega arith) (omega arith) in
    (
      spans_from-Covers target total positive_target total 0 (omega arith) (omega arith),
      omega (arith, sizes),
      omega (arith, sizes),
    )

pub Covers-le : (target a : ℕ) (spans : List (ℕ × ℕ)) (b : ℕ) → Covers target a spans b → a ≤ b
Covers-le target a [] b h = omega arith
Covers-le target a ((off, end) ∷ spans) b h =
    omega (arith, h.0, h.1, Covers-le target end spans b h.3)

-- Chunks that are not longer than the target.
abbrev pub Fits : ℕ → List Chunk → Type 0
Fits target [] = Unit
Fits target (c ∷ cs) = (c.length ≤ target) × Fits target cs

module _ (H : Hashlib) (id : Text) (buffer : Bytes) (target : ℕ) where
  -- The rows of the plan tile the package, and hold its bytes.
  pub planned_rows-Tiles :
      (a : ℕ) (spans : List (ℕ × ℕ)) (b : ℕ)
      → Covers target a spans b
      → b ≡ length buffer
      → Tiles H a (planned_rows H id buffer spans) b
        × (contents (planned_rows H id buffer spans) ≡ drop a buffer)
  planned_rows-Tiles a [] b h size = (h, sym (drop-all a buffer (omega arith)))
  planned_rows-Tiles a ((off, end) ∷ spans) b h size =
      let (rest, bytes) = planned_rows-Tiles end spans b h.3 size in
      (
        (
          record { span = omega (arith, h.1); filled = cut; digested = refl; nonempty = h.1 },
          h.0,
          rest,
        ),
        rw (bytes, sym h.0, ← next) (take-append-drop (end - off) (drop off buffer)),
      )
    where
      inside : end ≤ b
      inside = Covers-le target end spans b h.3

      cut : length (take (end - off) (drop off buffer)) ≡ end - off
      cut = omega (arith, inside, length-take (end - off) (drop off buffer), length-drop off buffer)

      next : drop (end - off) (drop off buffer) ≡ drop end buffer
      next = drop-drop (end - off) off buffer ∙ ap (λ (k : ℕ). drop k buffer) (omega (arith, h.1))

  -- No row is longer than the target.
  pub planned_rows-Fits :
      (a : ℕ) (spans : List (ℕ × ℕ)) (b : ℕ)
      → Covers target a spans b
      → Fits target (planned_rows H id buffer spans)
  planned_rows-Fits a [] b h = tt
  planned_rows-Fits a ((off, end) ∷ spans) b h =
      (omega (arith, h.2), planned_rows-Fits end spans b h.3)

  pub length-planned_rows :
      (spans : List (ℕ × ℕ)) → length (planned_rows H id buffer spans) ≡ length spans
  length-planned_rows [] = refl
  length-planned_rows (s ∷ spans) = ap suc (length-planned_rows spans)
