-- ===== src/Http/Archives/Told.antt =====
-- What the routes tell of a compaction: POST /sessions/{session_id}/compact, then GET /chunks and GET /audit.
use seismic_trace_resumable.Prelude.{
  ℕ, ◌≡◌, ◌<◌, refl, ap, ◌∙◌, Text, false, some, List, [], ◌∷◌, ◌++◌, map, length,
}
use seismic_trace_resumable.Hashlib.{Hashlib, IsLawful}
use seismic_trace_resumable.Model.{UploadSession, AuditEvent, sealed}
use seismic_trace_resumable.Storage.{Db, get_session, audit_of}
use seismic_trace_resumable.Tx.{ok, serve}
use seismic_trace_resumable.Tx.Laws.{serve-pure}
use seismic_trace_resumable.Errors.{integer}
use seismic_trace_resumable.Prelude.Int.{pos}
use seismic_trace_resumable.Audit.{Env, audit_to_dict}
use seismic_trace_resumable.Invariant.{IsWellFormed}
use seismic_trace_resumable.Compact.{compact_sealed}
use seismic_trace_resumable.Compact.Sealed.{
  laid_db, compaction_row, compacted, compacted_db, compact_sealed_lem,
}
use seismic_trace_resumable.Compact.Effect.{compacted_db-trail}
use seismic_trace_resumable.Http.Responses.{
  CompactResponse, compact_response, chunk_info, AuditEventResponse, audit_event_response,
}
use seismic_trace_resumable.Http.Sessions.{ChunkList, list_chunks}
use seismic_trace_resumable.Http.Archives.{compact_session, audit_trail}

shown : AuditEvent → AuditEventResponse
shown row = audit_event_response (audit_to_dict row)

map-last :
    {A B : Type 0} (f : A → B) (xs : List A) (x : A) → map f (xs ++ x ∷ []) ≡ map f xs ++ f x ∷ []
map-last f [] x = refl
map-last f (y ∷ xs) x = ap (λ l. f y ∷ l) (map-last f xs x)

events_of : Db → Text → List AuditEventResponse
events_of db id = map audit_event_response (map audit_to_dict (audit_of db id))

-- The answer to a compaction, and what the other routes tell before and after it.
pub record IsTold (H : Hashlib) (env : Env) (db : Db) (id : Text) (target : ℕ) : Type 0 where
  pub answer : CompactResponse
  pub after : Db
  pub done : serve (compact_session H env id target) db ≡ (ok answer, after)
  pub listed : ChunkList
  pub listing : serve (list_chunks id) after ≡ (ok listed, after)
  pub cut : map chunk_info listed.chunks ≡ answer.chunks
  pub counted : length listed.chunks ≡ answer.chunks_after
  pub old : ChunkList
  pub old_listing : serve (list_chunks id) db ≡ (ok old, db)
  pub old_counted : length old.chunks ≡ answer.chunks_before
  pub events : List AuditEventResponse
  pub event : AuditEventResponse
  pub trail : serve (audit_trail id) db ≡ (ok (record { id = id; events = events }), db)
  pub longer :
      serve (audit_trail id) after ≡ (ok (record { id = id; events = events ++ event ∷ [] }), after)
  pub aimed : event.target_chunk_bytes ≡ some answer.target_chunk_bytes
  pub before_told : event.chunks_before ≡ some answer.chunks_before
  pub after_told : event.chunks_after ≡ some answer.chunks_after

module _ (H : Hashlib) (env : Env) (db : Db) (u : UploadSession) (target : ℕ) (L : IsLawful H)
    (w : IsWellFormed H db) (found : get_session db u.id ≡ some u) (shut : u.status ≡ sealed)
    (at_least_one : 0 < target) (written : env.refuses_audit ≡ false) where
  abbrev now : Db
  now = compacted_db H env db u target

  done :
      serve (compact_session H env u.id target) db
      ≡ (ok (compact_response (compacted H env db u target)), now)
  unfolding compact_session
  done =
      serve-pure compact_response (compacted H env db u target) now
        (compact_sealed H env u.id (integer (pos target))) db
        (compact_sealed_lem H env db u target L w found shut at_least_one ∙ rw written refl)

  longer :
      events_of now u.id
      ≡ events_of db u.id
        ++ shown (compaction_row H env db u target (laid_db H env db u target)) ∷ []
  unfolding events_of shown
  longer = rw (compacted_db-trail H env db u target L w found shut at_least_one) (
      ap (map audit_event_response) (map-last audit_to_dict (audit_of db u.id) _)
      ∙ map-last audit_event_response (map audit_to_dict (audit_of db u.id)) _)
