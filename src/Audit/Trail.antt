-- ===== src/Audit/Trail.antt =====
-- What the audit route shows over the service's life.
use mathlib.Core.Path.{subst}
use seismic_trace_resumable.Prelude.{ℕ, suc, ◌≡◌, refl, Text, some, List, [], ◌∷◌, map}
use seismic_trace_resumable.Hashlib.{Hashlib, IsLawful}
use seismic_trace_resumable.Model.{
  UploadSession, Status, active, sealed, failed, AuditEvent, Event, audit_sealed, audit_compacted,
}
use seismic_trace_resumable.Storage.{Db, get_session, chunks_of, audit_of}
use seismic_trace_resumable.Tx.{ok, serve}
use seismic_trace_resumable.Audit.{AuditSnapshot, audit_to_dict, get_audit_trail}
use seismic_trace_resumable.Layout.{contents}
use seismic_trace_resumable.Invariant.{IsWellFormed, IsSnapshot, Compactions, IsTrail, Settled}
use seismic_trace_resumable.History.Lives.{Lives, Lives-IsWellFormed}

-- A shown event: the `n`-th of its session, of this kind, with the session's length and digest.
pub record IsShown (u : UploadSession) (n : ℕ) (event : Event) (s : AuditSnapshot) : Type 0 where
  pub numbered : s.sequence ≡ n
  pub kind : s.event ≡ event
  pub measured : s.total_bytes ≡ u.total_bytes
  pub hashed : s.whole_sha256 ≡ u.whole_sha256

-- Shown compactions, numbered from `n` on.
abbrev pub ShownCompactions : UploadSession → ℕ → List AuditSnapshot → Type 0
ShownCompactions u n [] = Unit
ShownCompactions u n (s ∷ shown) = IsShown u n audit_compacted s × ShownCompactions u (suc n) shown

-- Only a sealed session shows events: its seal, numbered 1, then compactions numbered on from 2.
abbrev pub ShownTrail : UploadSession → Status → List AuditSnapshot → Type 0
ShownTrail u active shown = shown ≡ []
ShownTrail u failed shown = shown ≡ []
ShownTrail u sealed [] = ⊥
ShownTrail u sealed (s ∷ shown) = IsShown u 1 audit_sealed s × ShownCompactions u 2 shown

-- The rest of an event as its row has it: the time, and a compaction's target and counts.
pub record Repeats (row : AuditEvent) (s : AuditSnapshot) : Type 0 where
  pub time : s.occurred_at ≡ row.occurred_at
  pub target : s.target_chunk_bytes ≡ row.target_chunk_bytes
  pub before : s.chunks_before ≡ row.chunks_before
  pub after : s.chunks_after ≡ row.chunks_after

abbrev pub AllRepeat : List AuditEvent → List AuditSnapshot → Type 0
AllRepeat [] [] = Unit
AllRepeat [] (s ∷ shown) = ⊥
AllRepeat (row ∷ rows) [] = ⊥
AllRepeat (row ∷ rows) (s ∷ shown) = Repeats row s × AllRepeat rows shown

map-AllRepeat : (rows : List AuditEvent) → AllRepeat rows (map audit_to_dict rows)
map-AllRepeat [] = tt
map-AllRepeat (row ∷ rows) =
    (record { time = refl; target = refl; before = refl; after = refl }, map-AllRepeat rows)

module _ (u : UploadSession) where
  audit_to_dict-IsShown :
      (n : ℕ) (event : Event) (row : AuditEvent)
      → IsSnapshot u n event row
      → IsShown u n event (audit_to_dict row)
  audit_to_dict-IsShown n event row h = record {
    numbered = h.numbered;
    kind = h.kind;
    measured = h.measured;
    hashed = h.hashed;
  }

  map-ShownCompactions :
      (n : ℕ) (rows : List AuditEvent)
      → Compactions u n rows
      → ShownCompactions u n (map audit_to_dict rows)
  map-ShownCompactions n [] h = tt
  map-ShownCompactions n (row ∷ rows) h =
      (audit_to_dict-IsShown n audit_compacted row h.0, map-ShownCompactions (suc n) rows h.1)

  map-ShownTrail :
      (rows : List AuditEvent) → IsTrail u rows → ShownTrail u sealed (map audit_to_dict rows)
  map-ShownTrail [] h = absurd h
  map-ShownTrail (row ∷ rows) h =
      (audit_to_dict-IsShown 1 audit_sealed row h.0, map-ShownCompactions 2 rows h.1)

module _ (H : Hashlib) (db : Db) (u : UploadSession) where
  by_status :
      (s : Status)
      → Settled H s u (contents (chunks_of db u.id)) (audit_of db u.id)
      → ShownTrail u s (map audit_to_dict (audit_of db u.id))
  by_status active h = rw h.1 refl
  by_status sealed h = map-ShownTrail u (audit_of db u.id) h.3
  by_status failed h = rw h.3 refl

-- At any time after whatever registrations, uploads, comparisons and compactions on a well-formed
-- database, the audit route answers for a known session and writes nothing: no event when the session
-- is active or failed, and of a sealed one the seal numbered 1 and then the compactions numbered on
-- without a gap, each with the length and the digest of the session; each event shows the time, the
-- target and the counts of its row.
pub get_audit_trail_lem :
    (H : Hashlib) (L : IsLawful H) {db0 db : Db}
    → Lives H db0 db
    → IsWellFormed H db0
    → (id : Text) (u : UploadSession) → get_session db id ≡ some u
    → (shown : List AuditSnapshot) × (serve (get_audit_trail id) db ≡ (ok shown, db))
      × ShownTrail u u.status shown
      × AllRepeat (audit_of db id) shown
unfolding get_audit_trail
get_audit_trail_lem H L {db = db} life w0 id u found =
    let w = Lives-IsWellFormed H L life w0 in
    let (named, sound) = w.sound id u found in
    (
      map audit_to_dict (audit_of db id),
      rw found refl,
      subst (λ i. ShownTrail u u.status (map audit_to_dict (audit_of db i))) named
          (by_status H db u u.status sound.settled),
      map-AllRepeat (audit_of db id),
    )
