-- ===== src/Compact/Preserves.antt =====
-- What no compaction request touches.
use mathlib.Core.Path.{subst}
use seismic_trace_resumable.Prelude.{
  ◌≡◌, refl, sym, ap, ◌∙◌, ◌<◌, ℕ, Text, some, List, [], ◌++◌, append-nil, append_assoc, text_dec,
}
use seismic_trace_resumable.Hashlib.{Hashlib, IsLawful}
use seismic_trace_resumable.Model.{UploadSession, AuditEvent, sealed}
use seismic_trace_resumable.Errors.{Argument}
use seismic_trace_resumable.Storage.{Db, get_session, chunks_of, audit_of}
use seismic_trace_resumable.Tx.{serve}
use seismic_trace_resumable.Audit.{Env}
use seismic_trace_resumable.Layout.{contents}
use seismic_trace_resumable.Invariant.{IsWellFormed, SameElsewhere}
use seismic_trace_resumable.Compact.{compact_sealed}
use seismic_trace_resumable.Compact.Sealed.{compacted_db}
use seismic_trace_resumable.Compact.Effect.{
  compacted_db-session, compacted_db-SameElsewhere, compacted_db-bytes, compacted_db-trail,
}
use seismic_trace_resumable.Compact.Requests.{Effect, unchanged, repacked, compact_sealed-Effect}

-- The row and the bytes of a session, and the audit rows that it has.
pub record IsPreserved (id : Text) (db db' : Db) : Type 0 where
  pub session : get_session db' id ≡ get_session db id
  pub bytes : contents (chunks_of db' id) ≡ contents (chunks_of db id)
  pub trail : (more : List AuditEvent) × (audit_of db' id ≡ audit_of db id ++ more)

pub IsPreserved-refl : (id : Text) (db : Db) → IsPreserved id db db
IsPreserved-refl id db = record { session = refl; bytes = refl; trail = ([], sym (append-nil _)) }

pub IsPreserved-trans :
    (id : Text) (d1 d2 d3 : Db) → IsPreserved id d1 d2 → IsPreserved id d2 d3 → IsPreserved id d1 d3
IsPreserved-trans id d1 d2 d3 p q = record {
  session = q.session ∙ p.session;
  bytes = q.bytes ∙ p.bytes;
  trail = (
    p.trail.0 ++ q.trail.0,
    q.trail.1
        ∙ ap (λ rows. rows ++ q.trail.0) p.trail.1
        ∙ append_assoc (audit_of d1 id) p.trail.0 q.trail.0,
  );
}

module _ (H : Hashlib) (L : IsLawful H) (env : Env) (db : Db) (w : IsWellFormed H db) where
  compacted_db-IsPreserved :
      (u : UploadSession) (target : ℕ)
      → get_session db u.id ≡ some u
      → u.status ≡ sealed
      → 0 < target
      → (j : Text) → IsPreserved j db (compacted_db H env db u target)
  compacted_db-IsPreserved u target found closed at_least_one j = elim (text_dec u.id j) [
    | yes e ↦
        subst (λ i. IsPreserved i db (compacted_db H env db u target)) e
          (record {
            session = compacted_db-session H env db u target u.id;
            bytes = compacted_db-bytes H env db u target L w found closed at_least_one;
            trail = (_, compacted_db-trail H env db u target L w found closed at_least_one);
          })
    | no other ↦ record {
      session = same.session j other;
      bytes = ap contents (same.chunks j other);
      trail = ([], same.trail j other ∙ sym (append-nil _));
    }
  ]
    where
      same : SameElsewhere u.id db (compacted_db H env db u target)
      same = compacted_db-SameElsewhere H env db u target

  -- Whatever is asked of a compaction, every session keeps its row and its bytes, and its audit trail
  -- keeps the rows it has.
  pub compact_sealed-IsPreserved :
      (id : Text) (argument : Argument) (j : Text)
      → IsPreserved j db (serve (compact_sealed H env id argument) db).1
  compact_sealed-IsPreserved id argument j = kept _ (compact_sealed-Effect H env db id L w argument)
    where
      kept : (db' : Db) → Effect H env db id db' → IsPreserved j db db'
      kept db' (unchanged e) = rw e (IsPreserved-refl j db)
      kept db' (repacked u target named found closed at_least_one e) =
          rw e (compacted_db-IsPreserved u target found closed at_least_one j)
