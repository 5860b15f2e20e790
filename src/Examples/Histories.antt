-- ===== src/Examples/Histories.antt =====
-- A package of three bytes over its life: registered, sent in two pieces, sealed, and left alone.
use seismic_trace_resumable.Prelude.{◌≡◌, ◌≢◌, refl, List, [], ◌∷◌, some, arith}
use seismic_trace_resumable.Prelude.Int.{pos}
use seismic_trace_resumable.Model.{UploadSession, active, sealed}
use seismic_trace_resumable.Storage.{Db, get_session, audit_of}
use seismic_trace_resumable.Tx.{ok, serve}
use seismic_trace_resumable.Audit.{AuditSnapshot, get_audit_trail}
use seismic_trace_resumable.Audit.Trail.{ShownTrail, AllRepeat, get_audit_trail_lem}
use seismic_trace_resumable.Invariant.{IsWellFormed}
use seismic_trace_resumable.Upload.Session.Creates.{create_session-IsWellFormed}
use seismic_trace_resumable.History.{empty_db, create, put, after, Steps, here, next}
use seismic_trace_resumable.History.Lives.{Lives, begins, requested}
use seismic_trace_resumable.History.Reached.{Steps-IsKept, IsKept}
use seismic_trace_resumable.History.Uploads.{send}
use seismic_trace_resumable.History.RoundTrip.{send-verified_sealed_bytes, send-IsWellFormed}
use seismic_trace_resumable.Examples.Data.{
  plain, plain-IsLawful, env, sid, whole, sid-fresh, empty-IsWellFormed,
}

abbrev pub finished : Db
finished =
    send plain plain-IsLawful env sid 0 ((10 ∷ 20 ∷ []) ∷ (30 ∷ []) ∷ [])
      (after plain env (create sid 3 whole) empty_db)

pub finished-IsWellFormed : IsWellFormed plain finished
finished-IsWellFormed =
    send-IsWellFormed plain plain-IsLawful env (after plain env (create sid 3 whole) empty_db)
      (create_session-IsWellFormed plain env empty_db sid 3 whole empty-IsWellFormed sid-fresh) sid
      0 ((10 ∷ 20 ∷ []) ∷ (30 ∷ []) ∷ [])

pub at_last : (u : UploadSession) × (get_session finished sid ≡ some u) × (u.status ≡ sealed)
at_last =
    let (u, found, is_sealed, _) =
      send-verified_sealed_bytes plain plain-IsLawful env empty_db empty-IsWellFormed sid sid-fresh
        (10 ∷ 20 ∷ []) ((30 ∷ []) ∷ []) (omega arith, (omega arith, tt)) refl in
    (u, found, is_sealed)

at_last-closed : at_last.0.status ≢ active
at_last-closed e = let shut : at_last.0.status ≡ sealed = at_last.2 in cc

-- A writer that comes too late, twice.
abbrev late : Steps plain finished (
    after plain env
      (put sid (pos 2) (pos 1) (30 ∷ []) (30 ∷ []))
      (after plain env (put sid (pos 0) (pos 1) (11 ∷ []) (11 ∷ [])) finished))
late =
    next (next here env (put sid (pos 0) (pos 1) (11 ∷ []) (11 ∷ [])) tt) env
      (put sid (pos 2) (pos 1) (30 ∷ []) (30 ∷ [])) tt

Steps-IsKept_example : IsKept plain plain-IsLawful sid finished (
    after plain env
      (put sid (pos 2) (pos 1) (30 ∷ []) (30 ∷ []))
      (after plain env (put sid (pos 0) (pos 1) (11 ∷ []) (11 ∷ [])) finished))
Steps-IsKept_example =
    Steps-IsKept plain plain-IsLawful sid at_last.0 at_last-closed late finished-IsWellFormed
      at_last.1

all_the_way : Lives plain empty_db finished
all_the_way =
    requested
      (requested (requested begins env (create sid 3 whole) sid-fresh) env
        (put sid (pos 0) (pos 2) (10 ∷ 20 ∷ []) (10 ∷ 20 ∷ [])) tt)
      env (put sid (pos 2) (pos 1) (30 ∷ []) (30 ∷ [])) tt

get_audit_trail_lem_example :
    (shown : List AuditSnapshot) × (serve (get_audit_trail sid) finished ≡ (ok shown, finished))
    × ShownTrail at_last.0 at_last.0.status shown
    × AllRepeat (audit_of finished sid) shown
get_audit_trail_lem_example =
    get_audit_trail_lem plain plain-IsLawful all_the_way empty-IsWellFormed sid at_last.0 at_last.1
