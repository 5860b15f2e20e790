-- ===== src/Compact/Layout/Unique.antt =====
-- Two gapless archives with the same bytes and the same layout have the same rows.
use mathlib.Core.Path.{subst}
use seismic_trace_resumable.Prelude.{
  ℕ, Text, Bytes, ◌≡◌, refl, sym, ◌∙◌, Bool, true, ◌&&◌, List, [], ◌∷◌, ◌++◌, length, arith,
}
use seismic_trace_resumable.Hashlib.{Hashlib}
use seismic_trace_resumable.Model.{Chunk}
use seismic_trace_resumable.Storage.Rows.{Owned}
use seismic_trace_resumable.Layout.{contents, Tiles}
use seismic_trace_resumable.Compact.Layout.{layout_of, same_layout, same_span, span_of}

append-injective :
    (xs ys as' bs : Bytes) → length xs ≡ length ys → xs ++ as' ≡ ys ++ bs → (xs ≡ ys) × (as' ≡ bs)
append-injective [] [] as' bs size same = (refl, same)
append-injective [] (y ∷ ys) as' bs size same = absurd (omega arith)
append-injective (x ∷ xs) [] as' bs size same = absurd (omega arith)
append-injective (x ∷ xs) (y ∷ ys) as' bs size same =
    let rest : xs ++ as' ≡ ys ++ bs = cc in
    let heads : x ≡ y = cc in
    let (tails, ends) = append-injective xs ys as' bs (omega arith) rest in (cc, ends)

same_span_lem :
    (c d : Chunk)
    → same_span (span_of c) (span_of d) ≡ true
    → (c.start_offset ≡ d.start_offset)
      × (c.end_offset ≡ d.end_offset)
      × (c.length ≡ d.length)
      × (c.sha256 ≡ d.sha256)
same_span_lem c d h = ground arith

and_parts : {a b : Bool} → a && b ≡ true → (a ≡ true) × (b ≡ true)
and_parts {a} {b} h = (ground arith, ground arith)

pub same_layout-Tiles :
    (H : Hashlib) (id : Text) (a b b' : ℕ) (cs ds : List Chunk)
    → Owned id cs
    → Owned id ds
    → Tiles H a cs b
    → Tiles H a ds b'
    → contents cs ≡ contents ds
    → same_layout (layout_of cs) (layout_of ds) ≡ true
    → cs ≡ ds
unfolding same_layout
same_layout-Tiles H id a b b' [] [] own_c own_d tiles_c tiles_d same laid = refl
same_layout-Tiles H id a b b' [] (d ∷ ds) own_c own_d tiles_c tiles_d same laid = absurd (cc)
same_layout-Tiles H id a b b' (c ∷ cs) [] own_c own_d tiles_c tiles_d same laid = absurd (cc)
same_layout-Tiles H id a b b' (c ∷ cs) (d ∷ ds) own_c own_d tiles_c tiles_d same laid =
    let (heads, tails) = and_parts laid in
    let (starts, ends, lengths, digests) = same_span_lem c d heads in
    let size : length c.payload ≡ length d.payload =
      omega (arith, tiles_c.0.filled, tiles_d.0.filled, lengths) in
    let (payloads, more) =
      append-injective c.payload d.payload (contents cs) (contents ds) size same in
    let owners : c.session_id ≡ d.session_id = own_c.0 ∙ sym own_d.0 in
    let rest : cs ≡ ds =
      same_layout-Tiles H id c.end_offset b b' cs ds own_c.1 own_d.1 tiles_c.2
        (subst (λ (k : ℕ). Tiles H k ds b') (sym ends) tiles_d.2) more tails in
    ground arith
