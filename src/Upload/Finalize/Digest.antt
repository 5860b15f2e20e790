-- ===== src/Upload/Finalize/Digest.antt =====
-- `recompute` against the bytes of the layout.
use seismic_trace_resumable.Prelude.{
  ℕ, ◌≡◌, refl, Bytes, none, some, List, [], ◌∷◌, ◌++◌, append-nil, append_assoc, ◌==◌, ==_refl,
  if◌then◌else◌,
}
use seismic_trace_resumable.Hashlib.{Hashlib, IsLawful, digest}
use seismic_trace_resumable.Model.{Chunk}
use seismic_trace_resumable.Layout.{contents, Tiles}
use seismic_trace_resumable.Upload.Finalize.{recompute}

module _ (H : Hashlib) (L : IsLawful H) where
  recompute-from :
      (a : ℕ) (cs : List Chunk) (b total : ℕ) (fed : Bytes)
      → Tiles H a cs b
      → recompute H cs a (H.sha256 fed) total
        ≡ (if b == total then some (digest H (fed ++ contents cs)) else none)
  unfolding recompute
  recompute-from a [] b total fed h = rw (h, append-nil) refl
  recompute-from a (c ∷ cs) b total fed h =
      rw (h.1, ==_refl, L.update-sha256, ← append_assoc)
        (recompute-from c.end_offset cs b total (fed ++ c.payload) h.2)

  -- Over chunks with no gap the loop computes the digest of their bytes in order, or nothing when they
  -- do not end at the total.
  pub recompute-Tiles :
      (cs : List Chunk) (b total : ℕ)
      → Tiles H 0 cs b
      → recompute H cs 0 (H.sha256 []) total
        ≡ (if b == total then some (digest H (contents cs)) else none)
  recompute-Tiles cs b total h = recompute-from 0 cs b total [] h
