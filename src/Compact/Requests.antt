-- ===== src/Compact/Requests.antt =====
-- Any compaction request, valid or not.
use mathlib.Core.Path.{subst}
use seismic_trace_resumable.Prelude.{
  ℕ, zero, suc, ◌≡◌, ◌⊎◌, ◌<◌, refl, sym, ap, ◌∙◌, Text, some, Option-cases, inl, inr, Bool-cases,
  arith, if◌then◌else◌,
}
use seismic_trace_resumable.Prelude.Int.{pos, negsuc}
use seismic_trace_resumable.Hashlib.{Hashlib, IsLawful}
use seismic_trace_resumable.Model.{UploadSession, Status, active, sealed, failed}
use seismic_trace_resumable.Errors.{
  UploadError, upload_error, Argument, integer, boolean, other, in_status, session_not_found,
  audit_write_failed, compaction_state_conflict,
}
use seismic_trace_resumable.Storage.{Db, get_session}
use seismic_trace_resumable.Tx.{Result, ok, err, serve}
use seismic_trace_resumable.Audit.{Env}
use seismic_trace_resumable.Invariant.{IsWellFormed}
use seismic_trace_resumable.Upload.Session.{get_locked_session}
use seismic_trace_resumable.Compact.{CompactResult, positive, compact_sealed}
use seismic_trace_resumable.Compact.Sealed.{compacted, compacted_db, compact_sealed_lem}
use seismic_trace_resumable.Compact.Effect.{compacted_db-IsWellFormed}

-- A request that is not turned away at once: a target of one byte or more, and a sealed session.
pub record IsValid (db : Db) (id : Text) (argument : Argument) : Type 0 where
  pub session : UploadSession
  pub target : ℕ
  pub found : get_session db id ≡ some session
  pub closed : session.status ≡ sealed
  pub at_least_one : 0 < target
  pub asked : argument ≡ integer (pos target)

module _ (H : Hashlib) (env : Env) (db : Db) (id : Text) where
  abbrev TurnedAway : Argument → Type 0
  TurnedAway argument =
      (e : UploadError) × (serve (compact_sealed H env id argument) db ≡ (err e, db))

  pub compact_sealed-cases : (argument : Argument) → TurnedAway argument ⊎ IsValid db id argument
  unfolding compact_sealed positive get_locked_session
  compact_sealed-cases (boolean b) = inl (_, refl)
  compact_sealed-cases (other t) = inl (_, refl)
  compact_sealed-cases (integer (negsuc n)) = inl (_, refl)
  compact_sealed-cases (integer (pos zero)) = inl (_, refl)
  compact_sealed-cases (integer (pos (suc n))) = elim (Option-cases (get_session db id)) [
    | inl missing ↦ inl (upload_error 404 session_not_found, ground arith)
    | inr (u, found) ↦ by_status u found u.status refl
  ]
    where
      conflict : UploadSession → Status → UploadError
      conflict u s = record (upload_error 409 compaction_state_conflict) {
        expected_offset = some u.confirmed_offset;
        details = in_status s;
      }

      by_status :
          (u : UploadSession)
          → get_session db id ≡ some u
          → (s : Status) → u.status ≡ s
          → TurnedAway (integer (pos (suc n))) ⊎ IsValid db id (integer (pos (suc n)))
      by_status u found active e = inl (conflict u active, ground arith)
      by_status u found failed e = inl (conflict u failed, ground arith)
      by_status u found sealed e = inr (record {
        session = u;
        target = suc n;
        found = found;
        closed = e;
        at_least_one = omega arith;
        asked = refl;
      })

  -- The database that a compaction leaves: the one it found, or the compacted one.
  pub data Effect (db' : Db) : Type 0 where
    unchanged : db' ≡ db → Effect db'
    repacked :
        (u : UploadSession) (target : ℕ)
        → u.id ≡ id
        → get_session db u.id ≡ some u
        → u.status ≡ sealed
        → 0 < target
        → db' ≡ compacted_db H env db u target
        → Effect db'

  module _ (L : IsLawful H) (w : IsWellFormed H db) where
    pub compact_sealed-Effect :
        (argument : Argument) → Effect (serve (compact_sealed H env id argument) db).1
    compact_sealed-Effect argument = elim (compact_sealed-cases argument) [
      | inl (e, refused) ↦ unchanged (ap (λ (answer : Result CompactResult × Db). answer.1) refused)
      | inr v ↦ valid v
    ]
      where
        outcome : UploadSession → ℕ → Result CompactResult × Db
        outcome u target =
            if env.refuses_audit
            then (err (upload_error 500 audit_write_failed), db)
            else (ok (compacted H env db u target), compacted_db H env db u target)

        left_by :
            (u : UploadSession) (target : ℕ)
            → u.id ≡ id
            → get_session db u.id ≡ some u
            → u.status ≡ sealed
            → 0 < target
            → Effect (outcome u target).1
        left_by u target named found closed at_least_one = elim (Bool-cases env.refuses_audit) [
          | inl refused ↦ unchanged (rw refused refl)
          | inr written ↦ repacked u target named found closed at_least_one (rw written refl)
        ]

        valid : IsValid db id argument → Effect (serve (compact_sealed H env id argument) db).1
        valid v =
            let u : UploadSession = v.session in
            let named : u.id ≡ id = (w.sound id u v.found).0 in
            let here : get_session db u.id ≡ some u = ap (get_session db) named ∙ v.found in
            let answered : (serve (compact_sealed H env u.id argument) db).1
                ≡ (outcome u v.target).1 =
              rw v.asked (
                ap (λ (answer : Result CompactResult × Db). answer.1)
                  (compact_sealed_lem H env db u v.target L w here v.closed v.at_least_one)) in
            subst Effect
              (sym answered ∙ ap (λ j. (serve (compact_sealed H env j argument) db).1) named)
              (left_by u v.target named here v.closed v.at_least_one)

    -- Whatever the request, a compaction keeps the database well formed.
    pub compact_sealed-IsWellFormed :
        (argument : Argument) → IsWellFormed H (serve (compact_sealed H env id argument) db).1
    compact_sealed-IsWellFormed argument = kept _ (compact_sealed-Effect argument)
      where
        kept : (db' : Db) → Effect db' → IsWellFormed H db'
        kept db' (unchanged e) = rw e w
        kept db' (repacked u target named found closed positive_target e) =
            rw e (compacted_db-IsWellFormed H env db u target L w found closed positive_target)
