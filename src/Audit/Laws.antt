-- ===== src/Audit/Laws.antt =====
-- What writing an audit row does, whatever the database answers.
use seismic_trace_resumable.Prelude.{
  ℕ, ◌+◌, ◌≤◌, ◌≡◌, refl, Text, false, Option, List, [], ◌∷◌, arith, if◌then◌else◌,
}
use seismic_trace_resumable.Model.{UploadSession, AuditEvent, Event}
use seismic_trace_resumable.Errors.{upload_error, audit_write_failed}
use seismic_trace_resumable.Storage.{
  Db, audit_of, max_sequence, has_sequence, insert_audit, add_audit_event,
}
use seismic_trace_resumable.Tx.{Tx, ok, err}
use seismic_trace_resumable.Audit.{Env, next_audit_sequence, add_audit}

has_sequence-above :
    (n : ℕ) (rows : List AuditEvent) → max_sequence rows ≤ n → has_sequence (n + 1) rows ≡ false
has_sequence-above n [] h = refl
has_sequence-above n (a ∷ rows) h = ground (arith, has_sequence-above n rows)

-- The next sequence number is free, so the unique constraint on audit rows is never what fails.
pub has_sequence-next_audit_sequence :
    (db : Db) (id : Text) → has_sequence (next_audit_sequence db id) (audit_of db id) ≡ false
unfolding next_audit_sequence
has_sequence-next_audit_sequence db id =
    has_sequence-above (max_sequence (audit_of db id)) (audit_of db id) (omega arith)

module _ (env : Env) (session : UploadSession) (event : Event) (total : ℕ) (whole : Text)
    (target before after : Option ℕ) where
  abbrev pub audit_row : Db → AuditEvent
  audit_row db = record {
    session_id = session.id;
    sequence = next_audit_sequence db session.id;
    event = event;
    occurred_at = env.now;
    total_bytes = total;
    whole_sha256 = whole;
    target_chunk_bytes = target;
    chunks_before = before;
    chunks_after = after;
  }

  -- In any open transaction, the row with the next number is added, or, if the database refuses the
  -- flush, the transaction is rolled back and the answer is an error.
  pub add_audit_lem :
      (t : Tx)
      → add_audit env session event total whole target before after t ≡ (
          if env.refuses_audit
          then (err (upload_error 500 audit_write_failed), record t { working = t.committed })
          else (ok tt, record t { working = add_audit_event (audit_row t.working) t.working }))
  unfolding add_audit insert_audit
  add_audit_lem t = ground (arith, has_sequence-next_audit_sequence t.working session.id)
