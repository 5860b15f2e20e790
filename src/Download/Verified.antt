-- ===== src/Download/Verified.antt =====
-- A read releases the requested window of an archive that verifies, and nothing of any other.
use seismic_trace_resumable.Prelude.{
  ℕ, ◌+◌, ◌-◌, ◌≤◌, ◌≡◌, refl, sym, ap, ◌∙◌, Bytes, =?_refl, text_dec, ◌⊎◌, ◌≢◌, List, [], ◌∷◌,
  ◌++◌, append-nil, some, append_assoc, length, length-drop, drop, take-append, drop-append,
  take-nil, drop-nil, take_same, drop-all, window, arith, max, ==_refl, le-or-lt, lt→ltb, le→ltb,
  inl, inr,
}
use native.Mathlib.Decide.{ℕ_discrete}
use seismic_trace_resumable.Prelude.Int.{pos}
use seismic_trace_resumable.Hashlib.{Hashlib, IsLawful, digest}
use seismic_trace_resumable.Model.{UploadSession, Chunk}
use seismic_trace_resumable.Storage.{Db, chunks_of}
use seismic_trace_resumable.Errors.{UploadError, sealed_integrity_error}
use seismic_trace_resumable.Tx.{Result, ok, err, serve}
use seismic_trace_resumable.Layout.{contents, Chain}
use seismic_trace_resumable.Download.{
  integrity_error, released, part, Walked, chunk_error, verified_walk, verified_sealed_bytes,
}

-- The bytes of a chunk in [lo, hi), by cutting.
part-window :
    (lo hi : ℕ) (c : Chunk)
    → c.start_offset + length c.payload ≡ c.end_offset
    → lo ≤ hi
    → part lo hi c ≡ window (lo - c.start_offset) (hi - max lo c.start_offset) c.payload
unfolding part
part-window lo hi c span le = elim (le-or-lt hi c.start_offset) [
  | inl behind ↦
      rw (le→ltb c.start_offset hi behind)
        (let none_left : hi - max lo c.start_offset ≡ 0 = omega arith in rw none_left refl)
  | inr a ↦ elim (le-or-lt c.end_offset lo) [
    | inl before ↦
        rw
          (
            lt→ltb c.start_offset hi a,
            le→ltb lo c.end_offset before,
            drop-all (lo - c.start_offset) c.payload (omega arith),
          )
          (sym (take-nil _))
    | inr b ↦
        rw (lt→ltb c.start_offset hi a, lt→ltb lo c.end_offset b)
          (let skip : max lo c.start_offset - c.start_offset ≡ lo - c.start_offset = omega arith in
            rw skip (
              take_same _ _ (drop (lo - c.start_offset) c.payload)
                (omega (arith, length-drop (lo - c.start_offset) c.payload))))
  ]
]

-- All the parts of a chain, one after the other.
abbrev parts : ℕ → ℕ → List Chunk → Bytes
parts lo hi [] = []
parts lo hi (c ∷ cs) = part lo hi c ++ parts lo hi cs

module _ (H : Hashlib) (lo hi : ℕ) (le : lo ≤ hi) where
  -- Together they are the window of the whole.
  parts-window :
      (a : ℕ) (cs : List Chunk) (b : ℕ)
      → Chain H a cs b
      → parts lo hi cs ≡ window (lo - a) (hi - max lo a) (contents cs)
  parts-window a [] b h = rw (drop-nil, take-nil) refl
  parts-window a (c ∷ cs) b h =
      rw
        (
          part-window lo hi c (omega (arith, h)) le,
          parts-window c.end_offset cs b h.4,
          h.0,
          drop-append,
          take-append,
          length-drop,
        )
        (let m : length c.payload ≡ c.length = h.2 in
          let same_take : hi - max lo a - (length c.payload - (lo - a)) ≡ hi - max lo c.end_offset =
            omega (arith, h) in
          let same_drop : lo - a - length c.payload ≡ lo - c.end_offset = omega (arith, h) in
          rw (same_take, same_drop) refl)

  -- What the checks of a chunk establish.
  Checked : ℕ → Chunk → Type 0
  Checked cursor c =
      (c.start_offset ≡ cursor)
      × (c.start_offset + c.length ≡ c.end_offset)
      × (length c.payload ≡ c.length)
      × (digest H c.payload ≡ c.sha256)

  chunk_error-ok : (cursor : ℕ) (c : Chunk) → Checked cursor c → chunk_error H cursor c ≡ ok tt
  unfolding chunk_error Checked
  chunk_error-ok cursor c h = ground arith

  chunk_error-cases :
      (cursor : ℕ) (c : Chunk)
      → Checked cursor c
        ⊎ ((e : UploadError) × (chunk_error H cursor c ≡ err e) × (e.code ≡ sealed_integrity_error))
  unfolding chunk_error Checked
  chunk_error-cases cursor c = elim (ℕ_discrete c.start_offset cursor) [
    | no gap ↦ inr (record integrity_error { expected_offset = some cursor }, ground arith, refl)
    | yes here ↦ elim (ℕ_discrete (c.start_offset + c.length) c.end_offset) [
      | no crooked ↦
          inr (record integrity_error { offset = some (pos c.start_offset) }, ground arith, refl)
      | yes span ↦ elim (ℕ_discrete (length c.payload) c.length) [
        | no short ↦
            inr (record integrity_error { offset = some (pos c.start_offset) }, ground arith, refl)
        | yes filled ↦ elim (text_dec (digest H c.payload) c.sha256) [
          | no differ ↦ inr (
            record integrity_error {
              offset = some (pos c.start_offset);
              expected_digest = some c.sha256;
            },
            ground arith,
            refl,
          )
          | yes same ↦ inl (here, span, filled, same)
        ]
      ]
    ]
  ]

  -- The walk over a chain ends at its last byte, with every payload hashed and the parts put out.
  walk-Chain :
      (L : IsLawful H) (a : ℕ) (cs : List Chunk) (b : ℕ) (before out : Bytes)
      → Chain H a cs b
      → verified_walk H lo hi cs (record { cursor = a; hasher = H.sha256 before; out = out })
        ≡ ok (record {
          cursor = b;
          hasher = H.sha256 (before ++ contents cs);
          out = out ++ parts lo hi cs;
        })
  unfolding verified_walk Checked
  walk-Chain L a [] b before out h = rw (h, append-nil before, append-nil out) refl
  walk-Chain L a (c ∷ cs) b before out h =
      rw (chunk_error-ok a c (h.0, h.1, h.2, h.3), L.update-sha256 before c.payload, verified_walk)
        (rw
          (
            walk-Chain L c.end_offset cs b (before ++ c.payload) (out ++ part lo hi c) h.4,
            append_assoc before c.payload (contents cs),
            append_assoc out (part lo hi c) (parts lo hi cs),
          )
          refl)

  -- Whatever the rows: they are a chain, or the walk stops at the first that is not.
  walk-cases :
      (cs : List Chunk) (at : Walked H)
      → ((b : ℕ) × Chain H at.cursor cs b)
        ⊎ ((e : UploadError) × (verified_walk H lo hi cs at ≡ err e)
            × (e.code ≡ sealed_integrity_error))
  unfolding verified_walk Checked
  walk-cases [] at = inl (at.cursor, refl)
  walk-cases (c ∷ cs) at = elim (chunk_error-cases at.cursor c) [
    | inr (e, stop, integrity) ↦ inr (e, rw (stop, verified_walk) refl, integrity)
    | inl good ↦
        elim (walk-cases cs (record {
          cursor = c.end_offset;
          hasher = H.update at.hasher c.payload;
          out = at.out ++ part lo hi c;
        })) [
          | inl (b, rest) ↦ inl (b, (good.0, good.1, good.2, good.3, rest))
          | inr (e, stop, integrity) ↦
              inr (e, rw (chunk_error-ok at.cursor c good, verified_walk) stop, integrity)
        ]
  ]

module _ (H : Hashlib) (L : IsLawful H) (session : UploadSession) (db : Db) where
  -- The rows form a chain over [0, total_bytes) and their bytes have the package's digest.
  pub record IsGenuine : Type 0 where
    pub chained : Chain H 0 (chunks_of db session.id) session.total_bytes
    pub same : digest H (contents (chunks_of db session.id)) ≡ session.whole_sha256

  -- A read of a genuine archive answers the window that was asked for.
  pub verified_sealed_bytes_complete :
      (begin end : ℕ)
      → begin ≤ end
      → IsGenuine
      → serve (verified_sealed_bytes H session begin end) db
        ≡ (ok (window begin (end - begin) (contents (chunks_of db session.id))), db)
  unfolding verified_sealed_bytes released
  verified_sealed_bytes_complete begin end le g =
      rw
        (
          walk-Chain H begin end le L 0 (chunks_of db session.id) session.total_bytes [] []
              g.chained,
          ==_refl,
          g.same,
          =?_refl,
          parts-window H begin end le 0 (chunks_of db session.id) session.total_bytes g.chained,
        )
        (let z : begin - 0 ≡ begin = omega arith in
          let m : max begin 0 ≡ begin = omega arith in rw (z, m) refl)

  Refused : ℕ → ℕ → Type 0
  Refused begin end =
      (e : UploadError) × (serve (verified_sealed_bytes H session begin end) db ≡ (err e, db))
      × (e.code ≡ sealed_integrity_error)

  -- Whatever the rows are, either they are genuine or the read is refused.
  verified_sealed_bytes-cases : (begin end : ℕ) → begin ≤ end → IsGenuine ⊎ Refused begin end
  unfolding verified_sealed_bytes released Refused
  verified_sealed_bytes-cases begin end le =
      elim (walk-cases H begin end le (chunks_of db session.id)
        (record { cursor = 0; hasher = H.sha256 []; out = [] })) [
          | inr (e, stop, integrity) ↦ inr (e, rw stop refl, integrity)
          | inl (b, chained) ↦ elim (ℕ_discrete b session.total_bytes) [
            | no short ↦ inr (
              record integrity_error {
                offset = some (pos b);
                expected_offset = some session.total_bytes;
              },
              rw (walked b chained) (ground arith),
              refl,
            )
            | yes full ↦
                elim (text_dec (digest H (contents (chunks_of db session.id)))
                  session.whole_sha256) [
                    | yes same ↦ inl (record { chained = rw (← full) chained; same = same })
                    | no differ ↦ inr (
                      record integrity_error { expected_digest = some session.whole_sha256 },
                      rw (walked b chained) (ground arith),
                      refl,
                    )
                  ]
          ]
        ]
    where
      walked :
          (b : ℕ)
          → Chain H 0 (chunks_of db session.id) b
          → verified_walk H begin end
              (chunks_of db session.id)
              (record { cursor = 0; hasher = H.sha256 []; out = [] })
            ≡ ok (record {
              cursor = b;
              hasher = H.sha256 (contents (chunks_of db session.id));
              out = parts begin end (chunks_of db session.id);
            })
      walked b chained = walk-Chain H begin end le L 0 (chunks_of db session.id) b [] [] chained

  -- No byte is released that was not verified: whatever the rows are, an answer is the window of rows
  -- that form a chain over the whole package and have its digest.
  pub verified_sealed_bytes_sound :
      (begin end : ℕ) (out : Bytes)
      → begin ≤ end
      → (serve (verified_sealed_bytes H session begin end) db).0 ≡ ok out
      → IsGenuine × (out ≡ window begin (end - begin) (contents (chunks_of db session.id)))
  unfolding Refused
  verified_sealed_bytes_sound begin end out le answered =
      elim (verified_sealed_bytes-cases begin end le) [
        | inl g ↦ (
          g,
          ok-injective (
              sym answered
              ∙ ap (λ (p : Result Bytes × Db). p.0)
                  (verified_sealed_bytes_complete begin end le g)),
        )
        | inr (e, refused, _) ↦
            absurd (ok-not-err e out (sym answered ∙ ap (λ (p : Result Bytes × Db). p.0) refused))
      ]
    where
      ok-injective : {a b : Bytes} → ◌≡◌ {A = Result Bytes} (ok a) (ok b) → a ≡ b
      ok-injective h = cc

      ok-not-err : (e : UploadError) (a : Bytes) → ◌≢◌ {A = Result Bytes} (ok a) (err e)
      ok-not-err e a h = cc
