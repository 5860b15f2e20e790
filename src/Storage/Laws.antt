-- ===== src/Storage/Laws.antt =====
-- What a query sees after a statement.
use seismic_trace_resumable.Prelude.{
  Text, ◌=?◌, ◌≡◌, refl, some, List, [], ◌∷◌, arith, if◌then◌else◌,
}
use seismic_trace_resumable.Model.{UploadSession, Chunk, AuditEvent}
use seismic_trace_resumable.Storage.{
  Db, find_session, replace_session, get_session, put_session, chunks_of, insert_by_offset,
  add_chunk, audit_of, insert_by_sequence, add_audit_event,
}

find_session-replace_session :
    (u : UploadSession) (rows : List UploadSession) (id : Text)
    → find_session id (replace_session u rows)
      ≡ (if u.id =? id then some u else find_session id rows)
unfolding find_session replace_session
find_session-replace_session u [] id = refl
find_session-replace_session u (s ∷ rows) id =
    ground (arith, find_session-replace_session u rows id)

module _ (db : Db) (id : Text) where
  pub get_session-put_session :
      (u : UploadSession)
      → get_session (put_session u db) id ≡ (if u.id =? id then some u else get_session db id)
  unfolding get_session put_session
  get_session-put_session u = find_session-replace_session u db.sessions id

  pub chunks_of-put_session :
      (u : UploadSession) → chunks_of (put_session u db) id ≡ chunks_of db id
  unfolding chunks_of put_session
  chunks_of-put_session u = refl

  pub audit_of-put_session : (u : UploadSession) → audit_of (put_session u db) id ≡ audit_of db id
  unfolding audit_of put_session
  audit_of-put_session u = refl

  pub get_session-add_chunk : (c : Chunk) → get_session (add_chunk c db) id ≡ get_session db id
  unfolding get_session add_chunk
  get_session-add_chunk c = refl

  pub chunks_of-add_chunk :
      (c : Chunk)
      → chunks_of (add_chunk c db) id
        ≡ (if c.session_id =? id then insert_by_offset c (chunks_of db id) else chunks_of db id)
  unfolding chunks_of add_chunk
  chunks_of-add_chunk c = refl

  pub audit_of-add_chunk : (c : Chunk) → audit_of (add_chunk c db) id ≡ audit_of db id
  unfolding audit_of add_chunk
  audit_of-add_chunk c = refl

  pub get_session-add_audit_event :
      (a : AuditEvent) → get_session (add_audit_event a db) id ≡ get_session db id
  unfolding get_session add_audit_event
  get_session-add_audit_event a = refl

  pub chunks_of-add_audit_event :
      (a : AuditEvent) → chunks_of (add_audit_event a db) id ≡ chunks_of db id
  unfolding chunks_of add_audit_event
  chunks_of-add_audit_event a = refl

  pub audit_of-add_audit_event :
      (a : AuditEvent)
      → audit_of (add_audit_event a db) id
        ≡ (if a.session_id =? id then insert_by_sequence a (audit_of db id) else audit_of db id)
  unfolding audit_of add_audit_event
  audit_of-add_audit_event a = refl

pub ruleset storage_laws = (
  get_session-put_session, chunks_of-put_session, audit_of-put_session, get_session-add_chunk,
  chunks_of-add_chunk, audit_of-add_chunk, get_session-add_audit_event, chunks_of-add_audit_event,
  audit_of-add_audit_event,
)
