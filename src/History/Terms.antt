-- ===== src/History/Terms.antt =====
-- What a session was registered with, POST /sessions, never changes: its length and its digest.
use seismic_trace_resumable.Prelude.{
  ℕ, ◌≡◌, refl, sym, ap, Option, ◌∙◌, Text, Bytes, ◌++◌, =?_refl, some, none, text_dec, ◌+◌, ◌≤◌,
  length, length-append, arith,
}
use seismic_trace_resumable.Hashlib.{Hashlib, IsLawful}
use seismic_trace_resumable.Model.{UploadSession}
use seismic_trace_resumable.Storage.{Db, get_session, chunks_of}
use seismic_trace_resumable.Storage.Laws.{storage_laws}
use seismic_trace_resumable.Tx.{Result}
use seismic_trace_resumable.Audit.{Env}
use seismic_trace_resumable.Layout.{contents, length-contents}
use seismic_trace_resumable.Invariant.{IsWellFormed}
use seismic_trace_resumable.Invariant.Comparisons.{get_session-add_comparison}
use seismic_trace_resumable.Upload.Session.Isolation.{create_session-SameElsewhere}
use seismic_trace_resumable.Upload.Replay.{Ack}
use seismic_trace_resumable.Upload.Put.Isolation.{put_chunk-SameElsewhere}
use seismic_trace_resumable.Upload.Put.Effect.{
  Effect, IsNext, unchanged, stored, sealing, failing, put_chunk-Effect,
}
use seismic_trace_resumable.Upload.Put.Accept.{moved, sealed_session, failed_session}
use seismic_trace_resumable.Compact.Preserves.{compact_sealed-IsPreserved}
use seismic_trace_resumable.History.{Request, create, put, compare, IsPossible, after}
use seismic_trace_resumable.History.Reached.{compared}
use seismic_trace_resumable.History.Lives.{
  Lives, begins, requested, compacts, Lives-IsWellFormed, Lives-bytes,
}

-- The session is there, with this length and this digest.
pub record HasTerms (id : Text) (total : ℕ) (whole : Text) (db : Db) : Type 0 where
  pub session : UploadSession
  pub found : get_session db id ≡ some session
  pub long : session.total_bytes ≡ total
  pub hashed : session.whole_sha256 ≡ whole

pub HasTerms-same :
    {id : Text} {total : ℕ} {whole : Text} {db db' : Db}
    → get_session db' id ≡ get_session db id
    → HasTerms id total whole db
    → HasTerms id total whole db'
HasTerms-same same t = record {
  session = t.session;
  found = same ∙ t.found;
  long = t.long;
  hashed = t.hashed;
}

-- The confirmed offset of a session is the number of its bytes.
pub confirmed_lem :
    (H : Hashlib) (db : Db)
    → IsWellFormed H db
    → (id : Text) (u : UploadSession) → get_session db id ≡ some u
    → length (contents (chunks_of db id)) ≡ u.confirmed_offset
confirmed_lem H db w id u found =
    let (named, sound) = w.sound id u found in
    rw (← named)
      (omega (arith, length-contents H 0 (chunks_of db u.id) u.confirmed_offset sound.tiles))

module _ (H : Hashlib) (L : IsLawful H) (j : Text) (total : ℕ) (whole : Text) where
  -- The row that a stored chunk changes is the one with these terms.
  same_row :
      {db : Db} {payload : Bytes} {u : UploadSession} {n : ℕ}
      → IsNext db j u n payload
      → HasTerms j total whole db
      → (u.total_bytes ≡ total) × (u.whole_sha256 ≡ whole)
  same_row {db = db} {u = u} x t =
      let one : ◌≡◌ {A = Option UploadSession} (some u) (some t.session) =
        sym x.found ∙ ap (get_session db) x.named ∙ t.found in
      let row : u ≡ t.session = cc in rw row (t.long, t.hashed)

  Effect-HasTerms :
      (env : Env) (db : Db) (payload : Bytes) (r : Result Ack) (db' : Db)
      → Effect H env db j payload r db'
      → HasTerms j total whole db
      → HasTerms j total whole db'
  Effect-HasTerms env db payload r db' (unchanged e) t = rw e t
  Effect-HasTerms env db payload r db' (stored u n x _ e _ _) t =
      let (long, hashed) = same_row x t in
      record {
        session = moved H env db u n payload;
        found = rw (e, ← x.named) (simp (storage_laws, =?_refl));
        long = long;
        hashed = hashed;
      }
  Effect-HasTerms env db payload r db' (sealing u n x _ _ e _ _) t =
      let (long, hashed) = same_row x t in
      record {
        session = sealed_session H env db u n payload;
        found = rw (e, ← x.named) (simp (storage_laws, =?_refl));
        long = long;
        hashed = hashed;
      }
  Effect-HasTerms env db payload r db' (failing u n x _ _ e _ _ _) t =
      let (long, hashed) = same_row x t in
      record {
        session = failed_session H env db u n payload;
        found = rw (e, ← x.named) (simp (storage_laws, =?_refl));
        long = long;
        hashed = hashed;
      }

  after-HasTerms :
      (env : Env) (r : Request) (db : Db)
      → IsPossible db r
      → IsWellFormed H db
      → HasTerms j total whole db
      → HasTerms j total whole (after H env r db)
  after-HasTerms env (create id bytes digest) db fresh w t = elim (text_dec id j) [
    | yes e ↦ absurd (let clash : get_session db j ≡ none = rw e at fresh in let f = t.found in cc)
    | no other ↦
        HasTerms-same ((create_session-SameElsewhere H env db id bytes digest).session j other) t
  ]
  after-HasTerms env (put id start count d payload) db possible w t = elim (text_dec id j) [
    | no other ↦
        HasTerms-same
          ((put_chunk-SameElsewhere H env L db w id start count d payload).session j other) t
    | yes e ↦ rw e (
        Effect-HasTerms env db payload _ _ (put_chunk-Effect H env L db w j start count d payload)
          t)
  ]
  after-HasTerms env (compare cid left_id right_id) db fresh w t =
      compared H L (HasTerms j total whole) env cid left_id right_id db t
        (λ row. HasTerms-same (get_session-add_comparison row db j) t)

  -- Whatever requests and compactions follow, the session keeps the length and the digest that it was
  -- registered with.
  pub Lives-HasTerms :
      {db db' : Db}
      → Lives H db db'
      → IsWellFormed H db
      → HasTerms j total whole db
      → HasTerms j total whole db'
  Lives-HasTerms begins w t = t
  Lives-HasTerms (requested {db' = db'} life env r possible) w t =
      after-HasTerms env r db' possible (Lives-IsWellFormed H L life w) (Lives-HasTerms life w t)
  Lives-HasTerms (compacts {db' = db'} life env id argument) w t =
      let same =
        compact_sealed-IsPreserved H L env db' (Lives-IsWellFormed H L life w) id argument j in
      HasTerms-same same.session (Lives-HasTerms life w t)

-- The checkpoint never goes back: whatever requests and compactions follow, a session that is there
-- stays there, with the length and the digest that it was registered with, its confirmed offset does
-- not become less, and the bytes that it has stay its first bytes.
pub Lives-checkpoint :
    (H : Hashlib) (L : IsLawful H) {db db' : Db}
    → Lives H db db'
    → IsWellFormed H db
    → (id : Text) (u : UploadSession) → get_session db id ≡ some u
    → (u' : UploadSession) × (get_session db' id ≡ some u')
      × (u'.total_bytes ≡ u.total_bytes)
      × (u'.whole_sha256 ≡ u.whole_sha256)
      × (u.confirmed_offset ≤ u'.confirmed_offset)
      × ((more : Bytes) × (contents (chunks_of db' id) ≡ contents (chunks_of db id) ++ more))
Lives-checkpoint H L {db = db} {db' = db'} life w id u found =
    let now : HasTerms id u.total_bytes u.whole_sha256 db' =
      Lives-HasTerms H L id u.total_bytes u.whole_sha256 life w
        (record { session = u; found = found; long = refl; hashed = refl }) in
    let before = confirmed_lem H db w id u found in
    let after = confirmed_lem H db' (Lives-IsWellFormed H L life w) id now.session now.found in
    let (more, grown) = Lives-bytes H L life w id in
    let longer : length (contents (chunks_of db' id))
        ≡ length (contents (chunks_of db id)) + length more =
      ap length grown ∙ length-append (contents (chunks_of db id)) more in
    (
      now.session,
      now.found,
      now.long,
      now.hashed,
      omega (arith, before, after, longer),
      (more, grown),
    )
