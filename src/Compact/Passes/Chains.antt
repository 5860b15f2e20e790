-- ===== src/Compact/Passes/Chains.antt =====
-- Both passes over chunks that tile a span.
use seismic_trace_resumable.Prelude.{
  ℕ, ◌+◌, ◌≡◌, ◌≤◌, refl, Bytes, =?_refl, ==_refl, List, [], ◌∷◌, ◌++◌, append-nil, append_assoc,
  length, arith,
}
use seismic_trace_resumable.Hashlib.{Hashlib, IsLawful, digest}
use seismic_trace_resumable.Model.{UploadSession, Chunk}
use seismic_trace_resumable.Tx.{Tx, ok}
use seismic_trace_resumable.Layout.{contents, Tiles, length-contents}
use seismic_trace_resumable.Compact.Layout.{total_length}
use seismic_trace_resumable.Compact.Layout.Spans.{Fits}
use seismic_trace_resumable.Compact.Passes.{
  gather, gathered, new_chunk_error, verify_layout, verified,
}

module _ (H : Hashlib) (L : IsLawful H) where
  gather-Tiles :
      (a : ℕ) (cs : List Chunk) (b : ℕ) (before out : Bytes)
      → Tiles H a cs b
      → gather H cs (record { cursor = a; hasher = H.sha256 before; buffer = out })
        ≡ ok (record {
          cursor = b;
          hasher = H.sha256 (before ++ contents cs);
          buffer = out ++ contents cs;
        })
  unfolding gather
  gather-Tiles a [] b before out h = rw (h, append-nil before, append-nil out) refl
  gather-Tiles a (c ∷ cs) b before out h =
      rw (h.1, ==_refl, L.update-sha256 before c.payload, gather)
        (rw
          (
            gather-Tiles c.end_offset cs b (before ++ c.payload) (out ++ c.payload) h.2,
            append_assoc before c.payload (contents cs),
            append_assoc out c.payload (contents cs),
          )
          refl)

  -- The first pass takes a gapless archive of the registered length and digest.
  pub gathered-Tiles :
      (session : UploadSession) (cs : List Chunk) (t : Tx)
      → Tiles H 0 cs session.total_bytes
      → digest H (contents cs) ≡ session.whole_sha256
      → gathered H session
          (gather H cs (record { cursor = 0; hasher = H.sha256 []; buffer = [] }))
          t
        ≡ (
          ok (record {
            cursor = session.total_bytes;
            hasher = H.sha256 (contents cs);
            buffer = contents cs;
          }),
          t,
        )
  unfolding gathered
  gathered-Tiles session cs t h same =
      let size : length (contents cs) ≡ session.total_bytes =
        omega (arith, length-contents H 0 cs session.total_bytes h) in
      rw (gather-Tiles 0 cs session.total_bytes [] [] h, size, ==_refl, same, =?_refl) refl

  new_chunk_error-ok :
      (target a : ℕ) (c : Chunk)
      → c.start_offset ≡ a
      → c.length ≤ target
      → digest H c.payload ≡ c.sha256
      → new_chunk_error H target a c ≡ ok tt
  unfolding new_chunk_error
  new_chunk_error-ok target a c here fits same = ground arith

  verify_layout-Tiles :
      (target a : ℕ) (cs : List Chunk) (b : ℕ) (before : Bytes) (n : ℕ)
      → Tiles H a cs b
      → Fits target cs
      → verify_layout H target cs
          (record { cursor = a; hasher = H.sha256 before; total_bytes_after = n })
        ≡ ok (record {
          cursor = b;
          hasher = H.sha256 (before ++ contents cs);
          total_bytes_after = n + total_length cs;
        })
  unfolding verify_layout
  verify_layout-Tiles target a [] b before n h fits =
      let same : n + 0 ≡ n = omega arith in rw (h, append-nil before, same) refl
  verify_layout-Tiles target a (c ∷ cs) b before n h fits =
      let sum : n + c.length + total_length cs ≡ n + (c.length + total_length cs) = omega arith in
      rw
        (
          new_chunk_error-ok target a c h.1 fits.0 h.0.digested,
          L.update-sha256 before c.payload,
          verify_layout,
        )
        (rw
          (
            verify_layout-Tiles target c.end_offset cs b (before ++ c.payload) (n + c.length) h.2
                fits.1,
            append_assoc before c.payload (contents cs),
            sum,
          )
          refl)

  pub total_length-Tiles :
      (a : ℕ) (cs : List Chunk) (b : ℕ) → Tiles H a cs b → a + total_length cs ≡ b
  total_length-Tiles a [] b h = omega arith
  total_length-Tiles a (c ∷ cs) b h =
      omega (arith, h.0.span, h.1, total_length-Tiles c.end_offset cs b h.2)

  -- The second pass takes rows that tile the package in chunks of the target's size at most.
  pub verified-Tiles :
      (session : UploadSession) (target : ℕ) (cs : List Chunk) (t : Tx)
      → Tiles H 0 cs session.total_bytes
      → Fits target cs
      → digest H (contents cs) ≡ session.whole_sha256
      → verified H session
          (verify_layout H target cs
            (record { cursor = 0; hasher = H.sha256 []; total_bytes_after = 0 }))
          t
        ≡ (
          ok (record {
            cursor = session.total_bytes;
            hasher = H.sha256 (contents cs);
            total_bytes_after = session.total_bytes;
          }),
          t,
        )
  unfolding verified
  verified-Tiles session target cs t h fits same =
      let size : 0 + total_length cs ≡ session.total_bytes =
        total_length-Tiles 0 cs session.total_bytes h in
      rw
        (
          verify_layout-Tiles target 0 cs session.total_bytes [] 0 h fits,
          size,
          ==_refl,
          same,
          =?_refl,
        )
        refl
