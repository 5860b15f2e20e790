-- ===== src/Invariant.antt =====
-- When a stored session is sound, and the database well formed: what every request keeps.
pub mod Update
pub mod Comparisons
use seismic_trace_resumable.Prelude.{
  ℕ, suc, ◌≤◌, ◌<◌, ◌≡◌, ◌≢◌, Text, Bytes, none, some, List, [], ◌∷◌,
}
use seismic_trace_resumable.Hashlib.{Hashlib, digest}
use seismic_trace_resumable.Model.{
  UploadSession, Status, active, sealed, failed, AuditEvent, Event, audit_sealed, audit_compacted,
}
use seismic_trace_resumable.Storage.{Db, get_session, chunks_of, audit_of}
use seismic_trace_resumable.Layout.{contents, Tiles}

-- One audit row that is the `n`-th of its session and repeats the session's length and digest.
pub record IsSnapshot (u : UploadSession) (n : ℕ) (event : Event) (a : AuditEvent) : Type 0 where
  pub numbered : a.sequence ≡ n
  pub kind : a.event ≡ event
  pub measured : a.total_bytes ≡ u.total_bytes
  pub hashed : a.whole_sha256 ≡ u.whole_sha256

-- Compactions, numbered from `n` on.
abbrev pub Compactions : UploadSession → ℕ → List AuditEvent → Type 0
Compactions u n [] = Unit
Compactions u n (a ∷ rows) = IsSnapshot u n audit_compacted a × Compactions u (suc n) rows

-- The trail of a sealed session: the seal first, then the compactions.
abbrev pub IsTrail : UploadSession → List AuditEvent → Type 0
IsTrail u [] = ⊥
IsTrail u (a ∷ rows) = IsSnapshot u 1 audit_sealed a × Compactions u 2 rows

-- What a status promises of the bytes and of the audit trail.
abbrev pub Settled : Hashlib → Status → UploadSession → Bytes → List AuditEvent → Type 0
Settled H active u bytes trail = (u.confirmed_offset < u.total_bytes) × (trail ≡ [])
Settled H sealed u bytes trail =
    (u.confirmed_offset ≡ u.total_bytes)
    × (digest H bytes ≡ u.whole_sha256)
    × (u.computed_sha256 ≡ some u.whole_sha256)
    × IsTrail u trail
Settled H failed u bytes trail =
    (u.confirmed_offset ≡ u.total_bytes)
    × (digest H bytes ≢ u.whole_sha256)
    × (u.computed_sha256 ≡ some (digest H bytes))
    × (trail ≡ [])

pub record IsSound (H : Hashlib) (db : Db) (u : UploadSession) : Type 0 where
  pub tiles : Tiles H 0 (chunks_of db u.id) u.confirmed_offset
  pub bounded : u.confirmed_offset ≤ u.total_bytes
  pub settled : Settled H u.status u (contents (chunks_of db u.id)) (audit_of db u.id)

-- Every session is sound, and no chunk or audit row is without its session.
pub record IsWellFormed (H : Hashlib) (db : Db) : Type 0 where
  pub sound :
      (id : Text) (u : UploadSession) → get_session db id ≡ some u → (u.id ≡ id) × IsSound H db u
  pub owned :
      (id : Text) → get_session db id ≡ none → (chunks_of db id ≡ []) × (audit_of db id ≡ [])

-- The rows of every session but one are the same.
pub record SameElsewhere (id : Text) (db db' : Db) : Type 0 where
  pub session : (j : Text) → id ≢ j → get_session db' j ≡ get_session db j
  pub chunks : (j : Text) → id ≢ j → chunks_of db' j ≡ chunks_of db j
  pub trail : (j : Text) → id ≢ j → audit_of db' j ≡ audit_of db j
