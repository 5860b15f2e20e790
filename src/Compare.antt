-- ===== src/Compare.antt =====
-- `_streams_first_difference` of app/service.py: two archives are walked block by block. What is left
-- of a side is a list whose first block is cut at the position that the walk has reached in it; a
-- turn of the loop uses up a block of one side, so as many turns as there are blocks are enough.
pub mod Streams
pub mod Record
use seismic_trace_resumable.Prelude.{
  ℕ, suc, zero, ◌+◌, min, Bytes, ◌=?◌, Option, none, some, List, [], ◌∷◌, length, take, drop, ◌==◌,
  if◌then◌else◌,
}

-- `for i in range(n): if lseg[i] != rseg[i]`
unfoldable pub unequal_in : Bytes → Bytes → Option ℕ
unequal_in [] rseg = none
unequal_in (x ∷ lseg) [] = none
unequal_in (x ∷ lseg) (y ∷ rseg) =
    let rest = unequal_in lseg rseg in
    if x == y then (elim rest [ none ↦ none | some i ↦ some (suc i) ]) else some 0

-- `lseg[:n] != rseg[:n]` first, and the bytes one by one only then.
unfoldable pub unequal_at : ℕ → Bytes → Bytes → Option ℕ
unequal_at n lseg rseg = if take n lseg =? take n rseg then none else unequal_in lseg rseg

-- A block that is used up gives way to the next.
unfoldable pub advance : ℕ → Bytes → List Bytes → List Bytes
advance n seg blocks = if n == length seg then blocks else drop n seg ∷ blocks

-- After the loop.
unfoldable pub ended : List Bytes → List Bytes → ℕ → ℕ × Option ℕ
ended [] [] offset = (offset, none)
ended [] (r ∷ right) offset = (offset, some offset)
ended (l ∷ left) right offset = (offset, some offset)

unfoldable pub walk : ℕ → List Bytes → List Bytes → ℕ → ℕ × Option ℕ
walk zero left right offset = ended left right offset
walk (suc turns) [] right offset = ended [] right offset
walk (suc turns) (l ∷ left) [] offset = ended (l ∷ left) [] offset
walk (suc turns) (l ∷ left) (r ∷ right) offset =
    let n = min (length l) (length r) in
    let rest = walk turns (advance n l left) (advance n r right) (offset + n) in
    elim (unequal_at n l r) [ some i ↦ (offset + i, some (offset + i)) | none ↦ rest ]

unfoldable pub streams_first_difference : List Bytes → List Bytes → ℕ × Option ℕ
streams_first_difference left right = walk (length left + length right) left right 0
