-- ===== src/Upload/Archive/Reads.antt =====
-- `archived_bytes` against the bytes of the layout.
use seismic_trace_resumable.Prelude.{
  window, window-append_left, window-append_right, window-append_both, ℕ, ◌-◌, ◌≤◌, ◌<◌, min, max,
  ◌≡◌, refl, sym, ap, ◌∙◌, Text, Bytes, inl, inr, some, List, [], ◌∷◌, ◌++◌, append_assoc, keep_if,
  length, take, drop, arith, le→leb, lt→leb, le→ltb, ==_refl, ==_ne, le-or-lt, keep_if-in,
  keep_if-out,
}
use seismic_trace_resumable.Prelude.Int.{slice, sub_ℕ}
use seismic_trace_resumable.Hashlib.{Hashlib}
use seismic_trace_resumable.Model.{Chunk}
use seismic_trace_resumable.Storage.{Db, chunks_of}
use seismic_trace_resumable.Layout.{contents, Tiles}
use seismic_trace_resumable.Upload.Archive.{overlaps, collect, archived_bytes}

-- Python's slice of a chunk from the cursor to `stop`, both counted from the archive's start.
slice-window :
    (start cursor stop : ℕ) (xs : Bytes)
    → start ≤ cursor
    → start ≤ stop
    → slice (cursor - start) (sub_ℕ stop start) xs ≡ window (cursor - start) (stop - cursor) xs
slice-window start cursor stop xs h g =
    rw (le→leb start stop g) (ap (λ (n : ℕ). take n (drop (cursor - start) xs)) (omega arith))

-- What the loop has collected when it has read `c` up to `stop`.
abbrev piece : Chunk → ℕ → Bytes → ℕ → Bytes
piece c cursor out stop = out ++ window (cursor - c.start_offset) (stop - cursor) c.payload

module _ (c : Chunk) (cs : List Chunk) (cursor end : ℕ) (out : Bytes)
    (begun : c.start_offset ≤ cursor) where
  -- The chunk reaches the end: the loop breaks.
  collect-last :
      cursor < end
      → end ≤ c.end_offset
      → collect (c ∷ cs) cursor end out ≡ some (piece c cursor out end)
  unfolding collect
  collect-last lt le =
      let stop : min c.end_offset end ≡ end = omega arith in
      rw (le→ltb cursor c.start_offset begun, stop, ==_refl, le→leb end end (omega arith), collect)
        (ap (λ l. some (out ++ l))
          (slice-window c.start_offset cursor end c.payload begun (omega arith)))

  -- The chunk ends before: the loop goes on from its end.
  collect-next :
      c.start_offset < c.end_offset
      → c.end_offset < end
      → collect (c ∷ cs) cursor end out
        ≡ collect cs c.end_offset end (piece c cursor out c.end_offset)
  unfolding collect
  collect-next ne lt =
      let stop : min c.end_offset end ≡ c.end_offset = omega arith in
      rw (le→ltb cursor c.start_offset begun, stop, lt→leb end c.end_offset lt, collect)
        (ap (λ l. collect cs c.end_offset end (out ++ l))
          (slice-window c.start_offset cursor c.end_offset c.payload begun (omega arith)))

module _ (H : Hashlib) (lo end : ℕ) where
  -- The loop from `max a lo` on, over the chunks of a span from `a` that the SELECT keeps.
  collect-Tiles :
      (a : ℕ) (cs : List Chunk) (b : ℕ) (cursor : ℕ) (out : Bytes)
      → Tiles H a cs b
      → cursor ≡ max a lo
      → cursor < end
      → end ≤ b
      → collect (keep_if (overlaps lo end) cs) cursor end out
        ≡ some (out ++ window (cursor - a) (end - cursor) (contents cs))
  collect-Tiles a [] b cursor out h e lt le = absurd (omega arith)
  collect-Tiles a (c ∷ cs) b cursor out h e lt le = elim (le-or-lt c.end_offset lo) [
    | inl before ↦ rw (keep_if-out (overlaps lo end) c cs (ground arith)) (
        collect-Tiles c.end_offset cs b cursor out h.2 (omega (arith, h.0.nonempty, h.1)) lt le
        ∙ ap (λ l. some (out ++ l)) (skipped before))
    | inr inside ↦
        rw (keep_if-in (overlaps lo end) c cs (ground (arith, h.1)), sym h.1)
          (elim (le-or-lt end c.end_offset) [
            | inl last ↦
                collect-last c (keep_if (overlaps lo end) cs) cursor end out (omega (arith, h.1)) lt
                  last
                ∙ ap (λ l. some (out ++ l))
                    (sym (
                      window-append_left (cursor - c.start_offset) (end - cursor) c.payload
                        (contents cs) (omega (arith, h.1, h.0.span, h.0.filled))))
            | inr more ↦
                collect-next c (keep_if (overlaps lo end) cs) cursor end out (omega (arith, h.1))
                  h.0.nonempty more
                ∙ collect-Tiles c.end_offset cs b c.end_offset (piece c cursor out c.end_offset) h.2
                    (omega arith) more le
                ∙ ap some (joined inside more)
          ])
  ]
    where
      sizes : (c.start_offset ≡ a) × (length c.payload ≡ c.end_offset - a) × (a < c.end_offset)
      sizes = (h.1, omega (arith, h.0.span, h.0.filled, h.1), omega (arith, h.0.nonempty, h.1))

      skipped :
          c.end_offset ≤ lo
          → window (cursor - c.end_offset) (end - cursor) (contents cs)
            ≡ window (cursor - a) (end - cursor) (c.payload ++ contents cs)
      skipped before = sym (
          window-append_right (cursor - a) (end - cursor) c.payload (contents cs)
            (omega (arith, sizes))
          ∙ ap (λ (k : ℕ). window k (end - cursor) (contents cs)) (omega (arith, sizes)))

      joined :
          lo < c.end_offset
          → c.end_offset < end
          → piece c cursor out c.end_offset
              ++ window (c.end_offset - c.end_offset) (end - c.end_offset) (contents cs)
            ≡ out ++ window (cursor - c.start_offset) (end - cursor) (c.payload ++ contents cs)
      joined inside more =
          append_assoc out _ _
          ∙ ap (λ l. out ++ l)
              (sym (
                window-append_both (cursor - c.start_offset) (c.end_offset - cursor) (end - cursor)
                  (c.end_offset - c.end_offset) (end - c.end_offset) c.payload (contents cs)
                  (omega (arith, sizes)) (omega arith) (omega (arith, sizes))))

-- Over an archive with no gap, the bytes of any range inside it are that window of the whole.
pub archived_bytes-Tiles :
    (H : Hashlib) (db : Db) (id : Text) {b : ℕ} (begin end : ℕ)
    → Tiles H 0 (chunks_of db id) b
    → begin ≤ end
    → end ≤ b
    → archived_bytes db id begin end
      ≡ some (window begin (end - begin) (contents (chunks_of db id)))
unfolding archived_bytes
archived_bytes-Tiles H db id {b} begin end h le bound = elim (le-or-lt end begin) [
  | inl empty ↦
      let same : begin ≡ end = omega arith in
      let none_left : end - end ≡ 0 = omega arith in rw (same, ==_refl, none_left) refl
  | inr lt ↦ rw (==_ne begin end (omega arith)) (
      collect-Tiles H begin end 0 (chunks_of db id) b begin [] h (omega arith) lt bound
      ∙ ap (λ (k : ℕ). some (window k (end - begin) (contents (chunks_of db id)))) (omega arith))
]
