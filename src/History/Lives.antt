-- ===== src/History/Lives.antt =====
-- The service's life with compactions among the requests, POST /sessions/{session_id}/compact.
use seismic_trace_resumable.Prelude.{
  ℕ, ◌-◌, ◌≡◌, ◌≢◌, ◌≤◌, sym, ap, ◌∙◌, Text, Bytes, some, [], ◌++◌, append-nil, append_assoc,
  window,
}
use seismic_trace_resumable.Hashlib.{Hashlib, IsLawful}
use seismic_trace_resumable.Model.{UploadSession, active, sealed}
use seismic_trace_resumable.Errors.{Argument}
use seismic_trace_resumable.Storage.{Db, get_session, chunks_of}
use seismic_trace_resumable.Tx.{Result, ok, serve}
use seismic_trace_resumable.Audit.{Env}
use seismic_trace_resumable.Layout.{contents, contents-append}
use seismic_trace_resumable.Invariant.{IsWellFormed}
use seismic_trace_resumable.Download.{verified_sealed_bytes}
use seismic_trace_resumable.Download.Sealed.{verified_sealed_bytes-sealed}
use seismic_trace_resumable.Compact.{compact_sealed}
use seismic_trace_resumable.Compact.Requests.{compact_sealed-IsWellFormed}
use seismic_trace_resumable.Compact.Preserves.{
  IsPreserved, IsPreserved-refl, IsPreserved-trans, compact_sealed-IsPreserved,
}
use seismic_trace_resumable.History.{Request, IsPossible, after}
use seismic_trace_resumable.History.Reached.{after-IsWellFormed, after-IsKept, after-Grown}

module _ (H : Hashlib) where
  -- A request of `History`, or a compaction with any argument.
  pub data Lives (db : Db) : Db → Type 0 where
    begins : Lives db db
    requested :
        {db' : Db}
        → Lives db db'
        → (env : Env) (request : Request) → IsPossible db' request
        → Lives db (after H env request db')
    compacts :
        {db' : Db}
        → Lives db db'
        → (env : Env) (id : Text) (argument : Argument)
        → Lives db (serve (compact_sealed H env id argument) db').1

module _ (H : Hashlib) (L : IsLawful H) where
  -- Every sequence of requests, compactions among them, keeps a well-formed database well formed.
  pub Lives-IsWellFormed : {db db' : Db} → Lives H db db' → IsWellFormed H db → IsWellFormed H db'
  Lives-IsWellFormed begins w = w
  Lives-IsWellFormed (requested {db' = db'} life env r possible) w =
      after-IsWellFormed H L env r db' possible (Lives-IsWellFormed life w)
  Lives-IsWellFormed (compacts {db' = db'} life env id argument) w =
      compact_sealed-IsWellFormed H env db' id L (Lives-IsWellFormed life w) argument

  -- A confirmed byte is never lost, with compactions among the requests: the bytes that a session has
  -- stay its first bytes.
  pub Lives-bytes :
      {db db' : Db}
      → Lives H db db'
      → IsWellFormed H db
      → (j : Text)
      → (more : Bytes) × (contents (chunks_of db' j) ≡ contents (chunks_of db j) ++ more)
  Lives-bytes begins w j = ([], sym (append-nil _))
  Lives-bytes {db = db} (requested {db' = db'} life env r possible) w j =
      let (first, before) = Lives-bytes life w j in
      let (extra, then_on) = after-Grown H L env r db' possible (Lives-IsWellFormed life w) j in
      (
        first ++ contents extra,
        ap contents then_on
            ∙ contents-append (chunks_of db' j) extra
            ∙ rw before (append_assoc (contents (chunks_of db j)) first (contents extra)),
      )
  Lives-bytes (compacts {db' = db'} life env id argument) w j =
      let (more, before) = Lives-bytes life w j in
      (
        more,
        (compact_sealed-IsPreserved H L env db' (Lives-IsWellFormed life w) id argument j).bytes
            ∙ before,
      )

  module _ (id : Text) (u : UploadSession) (shut : u.status ≡ sealed) where
    not_active : u.status ≢ active
    not_active e = cc

    -- A sealed session keeps its row and its bytes for good, and the audit rows that it has, in their
    -- order and before any further one: uploads to it and compactions of it included.
    pub Lives-IsPreserved :
        {db db' : Db}
        → Lives H db db'
        → IsWellFormed H db
        → get_session db id ≡ some u
        → IsPreserved id db db'
    Lives-IsPreserved {db = db} begins w found = IsPreserved-refl id db
    Lives-IsPreserved {db = db} (requested {db' = db'} life env r possible) w found =
        let before = Lives-IsPreserved life w found in
        let k =
          after-IsKept H L id u not_active env r db' possible (Lives-IsWellFormed life w)
            (before.session ∙ found) in
        IsPreserved-trans id db db' _ before (record {
          session = k.session;
          bytes = ap contents k.chunks;
          trail = ([], k.trail ∙ sym (append-nil _));
        })
    Lives-IsPreserved {db = db} (compacts {db' = db'} life env j argument) w found =
        IsPreserved-trans id db db' _ (Lives-IsPreserved life w found)
          (compact_sealed-IsPreserved H L env db' (Lives-IsWellFormed life w) j argument id)

    -- Whatever requests and compactions come between, a verified read of a window of a sealed session
    -- gives the same answer.
    pub Lives-verified_sealed_bytes :
        {db db' : Db}
        → Lives H db db'
        → IsWellFormed H db
        → get_session db id ≡ some u
        → (begin end : ℕ) → begin ≤ end
        → (serve (verified_sealed_bytes H u begin end) db').0
          ≡ (serve (verified_sealed_bytes H u begin end) db).0
    Lives-verified_sealed_bytes {db = db} {db' = db'} life w found begin end le =
        let same = Lives-IsPreserved life w found in
        let named : u.id ≡ id = (w.sound id u found).0 in
        ap first (
          verified_sealed_bytes-sealed H L db' (Lives-IsWellFormed life w) id u
            (same.session ∙ found) shut begin end le)
        ∙ ap (λ b. ok (window begin (end - begin) b)) (rw named same.bytes)
        ∙ sym (ap first (verified_sealed_bytes-sealed H L db w id u found shut begin end le))
      where
        first : Result Bytes × Db → Result Bytes
        first answer = answer.0
