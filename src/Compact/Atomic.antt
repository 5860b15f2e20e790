-- ===== src/Compact/Atomic.antt =====
-- A compaction that raises changes nothing, whatever the database holds.
use seismic_trace_resumable.Prelude.{
  ℕ, zero, suc, Text, ◌≡◌, refl, ap, ◌∙◌, not, Option, some, length, List, [], arith,
}
use seismic_trace_resumable.Prelude.Int.{pos, negsuc}
use seismic_trace_resumable.Hashlib.{Hashlib}
use seismic_trace_resumable.Model.{UploadSession, Chunk, sealed, Event, is_sealed}
use seismic_trace_resumable.Errors.{
  UploadError, upload_error, Argument, integer, boolean, other, in_status,
  compaction_state_conflict,
}
use seismic_trace_resumable.Storage.{Db, chunks_of, delete_chunks}
use seismic_trace_resumable.Tx.{Tx, Action, Result, ok, err, opened, serve, query, modify}
use seismic_trace_resumable.Tx.Laws.{
  IsPending, IsAtomic, IsAtomic-bind, IsAtomic-commit, IsAtomic-if, IsPending-raise_if,
}
use seismic_trace_resumable.Audit.{Env, add_audit}
use seismic_trace_resumable.Audit.Laws.{add_audit_lem}
use seismic_trace_resumable.Upload.Session.{get_locked_session}
use seismic_trace_resumable.Compact.Layout.{
  Span, layout_of, same_layout, total_length, planned_spans, planned_rows,
}
use seismic_trace_resumable.Compact.Passes.{
  Gathered, gather, gathered, Verified, verify_layout, verified,
}
use seismic_trace_resumable.Compact.{
  rolled_back, positive, flush_rows, keep_layout, rewrite_layout, repack, compact_sealed,
}

IsPending-query : {A : Type 0} (f : Db → A) → IsPending (query f)
unfolding IsPending
IsPending-query f t = refl

IsPending-modify : (f : Db → Db) → IsPending (modify f)
unfolding IsPending
IsPending-modify f t = refl

IsPending-positive : (argument : Argument) → IsPending (positive argument)
unfolding IsPending positive
IsPending-positive (integer (pos zero)) t = refl
IsPending-positive (integer (pos (suc n))) t = refl
IsPending-positive (integer (negsuc n)) t = refl
IsPending-positive (boolean b) t = refl
IsPending-positive (other s) t = refl

IsPending-get_locked_session : (id : Text) → IsPending (get_locked_session id)
unfolding IsPending get_locked_session
IsPending-get_locked_session id t = ground arith

IsPending-add_audit :
    (env : Env) (u : UploadSession) (event : Event) (total : ℕ) (whole : Text)
    (target before after : Option ℕ)
    → IsPending (add_audit env u event total whole target before after)
unfolding IsPending
IsPending-add_audit env u event total whole target before after t =
    ground (arith, add_audit_lem env u event total whole target before after t)

module _ {A : Type 0} where
  IsAtomic-rolled_back : (m : Action A) → IsAtomic m → IsAtomic (rolled_back m)
  unfolding IsAtomic
  IsAtomic-rolled_back m h t e = by_result (m t) (h t)
    where
      by_result :
          (p : Result A × Tx)
          → ((x : UploadError) → p.0 ≡ err x → p.1.committed ≡ t.committed)
          → (rolled_back (λ _. p) t).0 ≡ err e
          → (rolled_back (λ _. p) t).1.committed ≡ t.committed
      by_result (ok a, t') g h = g e h
      by_result (err x, t') g h = g x refl

module _ (H : Hashlib) (env : Env) where
  IsPending-gathered : (u : UploadSession) (r : Result (Gathered H)) → IsPending (gathered H u r)
  unfolding gathered IsPending
  IsPending-gathered u (err e) t = refl
  IsPending-gathered u (ok at) t = ground arith

  IsPending-verified : (u : UploadSession) (r : Result (Verified H)) → IsPending (verified H u r)
  unfolding verified IsPending
  IsPending-verified u (err e) t = refl
  IsPending-verified u (ok at) t = ground arith

  IsPending-flush_rows : (rows : List Chunk) → IsPending (flush_rows H rows)
  unfolding flush_rows IsPending
  IsPending-flush_rows rows t = ground arith

  IsAtomic-keep_layout :
      (u : UploadSession) (target : ℕ) (old : List Chunk) (layout : List Span) (whole : Text)
      → IsAtomic (keep_layout H env u target old layout whole)
  unfolding keep_layout
  IsAtomic-keep_layout u target old layout whole =
      IsAtomic-bind _ _ (IsPending-add_audit env u _ _ _ _ _ _) (λ _. IsAtomic-commit _)

  IsAtomic-rewrite_layout :
      (u : UploadSession) (target : ℕ) (id : Text) (old rows : List Chunk)
      → IsAtomic (rewrite_layout H env u target id old rows)
  unfolding rewrite_layout
  IsAtomic-rewrite_layout u target id old rows =
      IsAtomic-bind _ _ (IsPending-modify (delete_chunks id)) λ _.
        IsAtomic-bind _ _ (IsPending-flush_rows rows) λ _.
          IsAtomic-bind _ _ (IsPending-query (λ db. chunks_of db id)) λ cs.
            IsAtomic-bind _ _
              (IsPending-verified u (
                verify_layout H target cs
                  (record { cursor = 0; hasher = H.sha256 []; total_bytes_after = 0 })))
              λ at.
                IsAtomic-bind _ _
                  (IsPending-add_audit env u Event.audit_compacted u.total_bytes
                    (H.hexdigest at.hasher) (some target) (some (length old)) (some (length cs)))
                  λ _. IsAtomic-commit (record {
                    id = u.id;
                    status = sealed;
                    target_chunk_bytes = target;
                    chunks_before = length old;
                    chunks_after = length cs;
                    total_bytes_before = total_length old;
                    total_bytes_after = at.total_bytes_after;
                    whole_sha256 = H.hexdigest at.hasher;
                    chunks = layout_of cs;
                  })

  IsAtomic-repack :
      (u : UploadSession) (target : ℕ) (id : Text) → IsAtomic (repack H env u target id)
  unfolding repack
  IsAtomic-repack u target id = IsAtomic-bind _ _ (IsPending-query (λ db. chunks_of db id)) λ old.
      IsAtomic-bind _ _
        (IsPending-gathered u
          (gather H old (record { cursor = 0; hasher = H.sha256 []; buffer = [] })))
        λ at.
          let rows = planned_rows H id at.buffer (planned_spans u.total_bytes target) in
          IsAtomic-if (same_layout (layout_of old) (layout_of rows)) _ _
            (IsAtomic-keep_layout u target old (layout_of rows) (H.hexdigest at.hasher))
            (IsAtomic-rewrite_layout u target id old rows)

  IsAtomic-compact_sealed :
      (id : Text) (argument : Argument) → IsAtomic (compact_sealed H env id argument)
  unfolding compact_sealed
  IsAtomic-compact_sealed id argument = IsAtomic-bind _ _ (IsPending-positive argument) λ target.
      IsAtomic-bind _ _ (IsPending-get_locked_session id) λ u.
        IsAtomic-bind _ _
          (IsPending-raise_if (not (is_sealed u.status))
            (record (upload_error 409 compaction_state_conflict) {
              expected_offset = some u.confirmed_offset;
              details = in_status u.status;
            }))
          λ _. IsAtomic-rolled_back _ (IsAtomic-repack u target id)

  -- A compaction that answers with an error leaves the database exactly as it was: on any database,
  -- whichever check fails, and with any part of the new layout already written.
  pub compact_sealed_atomic :
      (db : Db) (id : Text) (argument : Argument) (e : UploadError)
      → (serve (compact_sealed H env id argument) db).0 ≡ err e
      → serve (compact_sealed H env id argument) db ≡ (err e, db)
  unfolding IsAtomic
  compact_sealed_atomic db id argument e raised =
      ap (λ r. (r, (serve (compact_sealed H env id argument) db).1)) raised
      ∙ ap (λ (d : Db). (err e, d)) (IsAtomic-compact_sealed id argument (opened db) e raised)
