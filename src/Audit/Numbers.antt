-- ===== src/Audit/Numbers.antt =====
-- A trail is numbered without a gap, so its next row comes last.
use seismic_trace_resumable.Prelude.{
  ℕ, suc, ◌+◌, ◌<◌, max, ◌≡◌, refl, ap, List, [], ◌∷◌, ◌++◌, length, arith, lt→leb,
}
use seismic_trace_resumable.Model.{UploadSession, AuditEvent, audit_compacted}
use seismic_trace_resumable.Storage.{max_sequence, insert_by_sequence}
use seismic_trace_resumable.Invariant.{IsSnapshot, Compactions, IsTrail}

pub insert_by_sequence-end :
    (a : AuditEvent) (rows : List AuditEvent)
    → max_sequence rows < a.sequence
    → insert_by_sequence a rows ≡ rows ++ a ∷ []
unfolding insert_by_sequence
insert_by_sequence-end a [] last = refl
insert_by_sequence-end a (b ∷ rows) last =
    rw (lt→leb a.sequence b.sequence (omega arith), insert_by_sequence)
      (ap (λ l. b ∷ l) (insert_by_sequence-end a rows (omega arith)))

max_sequence-Compactions :
    (u : UploadSession) (k : ℕ) (rows : List AuditEvent)
    → Compactions u (suc k) rows
    → max k (max_sequence rows) ≡ k + length rows
max_sequence-Compactions u k [] h = omega arith
max_sequence-Compactions u k (a ∷ rows) h =
    omega (arith, h.0.numbered, max_sequence-Compactions u (suc k) rows h.1)

-- The last number of a trail is its length.
pub max_sequence-IsTrail :
    (u : UploadSession) (rows : List AuditEvent) → IsTrail u rows → max_sequence rows ≡ length rows
max_sequence-IsTrail u [] h = absurd h
max_sequence-IsTrail u (a ∷ rows) h =
    omega (arith, h.0.numbered, max_sequence-Compactions u 1 rows h.1)

Compactions-append :
    (u : UploadSession) (n : ℕ) (rows : List AuditEvent) (a : AuditEvent)
    → Compactions u n rows
    → IsSnapshot u (n + length rows) audit_compacted a
    → Compactions u n (rows ++ a ∷ [])
Compactions-append u n [] a h next = (
  record {
    numbered = omega (arith, next.numbered);
    kind = next.kind;
    measured = next.measured;
    hashed = next.hashed;
  },
  tt,
)
Compactions-append u n (b ∷ rows) a h next = (
  h.0,
  Compactions-append u (suc n) rows a h.1 (record {
    numbered = omega (arith, next.numbered);
    kind = next.kind;
    measured = next.measured;
    hashed = next.hashed;
  }),
)

-- A compaction with the next number goes on with a trail.
pub IsTrail-append :
    (u : UploadSession) (rows : List AuditEvent) (a : AuditEvent)
    → IsTrail u rows
    → IsSnapshot u (length rows + 1) audit_compacted a
    → IsTrail u (rows ++ a ∷ [])
IsTrail-append u [] a h next = absurd h
IsTrail-append u (b ∷ rows) a h next = (
  h.0,
  Compactions-append u 2 rows a h.1 (record {
    numbered = omega (arith, next.numbered);
    kind = next.kind;
    measured = next.measured;
    hashed = next.hashed;
  }),
)
