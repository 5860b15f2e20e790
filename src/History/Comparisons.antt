-- ===== src/History/Comparisons.antt =====
-- A comparison that is stored is never changed.
use seismic_trace_resumable.Prelude.{
  Bytes, ℕ, ◌≡◌, ◌≢◌, refl, sym, ap, ◌∙◌, Text, =?_ne, none, some, Option-cases, Bool-cases, inl,
  inr, List, [], ◌∷◌, arith,
}
use seismic_trace_resumable.Prelude.Int.{ℤ}
use seismic_trace_resumable.Hashlib.{Hashlib, IsLawful}
use seismic_trace_resumable.Model.{Comparison, Chunk, UploadSession}
use seismic_trace_resumable.Errors.{Argument}
use seismic_trace_resumable.Storage.{
  Db, stored_comparison, put_session, add_chunk, add_audit_event, add_comparison, delete_chunks,
}
use seismic_trace_resumable.Storage.Rows.{added}
use seismic_trace_resumable.Tx.{Result, ok, serve}
use seismic_trace_resumable.Tx.Laws.{err_not_ok}
use seismic_trace_resumable.Audit.{Env}
use seismic_trace_resumable.Invariant.{IsWellFormed}
use seismic_trace_resumable.Upload.Session.Creates.{create_session_lem}
use seismic_trace_resumable.Upload.Replay.{Ack}
use seismic_trace_resumable.Upload.Put.Effect.{
  Effect, unchanged, stored, sealing, failing, put_chunk-Effect,
}
use seismic_trace_resumable.Compact.{compact_sealed}
use seismic_trace_resumable.Compact.Sealed.{compacted_db, is_laid, plan}
use seismic_trace_resumable.Compact.Requests
use seismic_trace_resumable.Compare.Record.{create_comparison, get_comparison}
use seismic_trace_resumable.Compare.Record.Effects.{create_comparison-cases}
use seismic_trace_resumable.Compare.Record.Genuine.{create_comparison_sound}
use seismic_trace_resumable.History.{Request, create, put, compare, IsPossible, after}
use seismic_trace_resumable.History.Lives.{Lives, begins, requested, compacts, Lives-IsWellFormed}

added-comparisons : (rows : List Chunk) (db : Db) → (added rows db).comparisons ≡ db.comparisons
unfolding add_chunk
added-comparisons [] db = refl
added-comparisons (c ∷ cs) db = added-comparisons cs (add_chunk c db)

stored_comparison-beside :
    (db : Db) (id : Text) (new : Comparison)
    → new.id ≢ id
    → stored_comparison (add_comparison new db) id ≡ stored_comparison db id
unfolding stored_comparison add_comparison
stored_comparison-beside db id new other = rw (=?_ne new.id id other) refl

module _ (H : Hashlib) (L : IsLawful H) (env : Env) (db : Db) (w : IsWellFormed H db) where
  pub put_chunk-comparisons :
      (id : Text) (start count : ℤ) (d : Text) (payload : Bytes)
      → (after H env (put id start count d payload) db).comparisons ≡ db.comparisons
  unfolding put_session add_chunk add_audit_event
  put_chunk-comparisons id start count d payload =
      kept _ _ (put_chunk-Effect H env L db w id start count d payload)
    where
      kept :
          (r : Result Ack) (db' : Db)
          → Effect H env db id payload r db'
          → db'.comparisons ≡ db.comparisons
      kept r db' (unchanged e) = rw e refl
      kept r db' (stored u n next room e a answered) = rw e refl
      kept r db' (sealing u n next full same e a answered) = rw e refl
      kept r db' (failing u n next full differ e x answered code) = rw e refl

  pub create_session-comparisons :
      (id : Text) (total : ℕ) (whole : Text)
      → (after H env (create id total whole) db).comparisons ≡ db.comparisons
  unfolding put_session add_audit_event
  create_session-comparisons id total whole =
      ground (arith, create_session_lem H env db id total whole)

  compacted_db-comparisons :
      (u : UploadSession) (target : ℕ)
      → (compacted_db H env db u target).comparisons ≡ db.comparisons
  unfolding add_audit_event delete_chunks
  compacted_db-comparisons u target = elim (Bool-cases (is_laid H env db u target)) [
    | inl same ↦ rw same refl
    | inr other ↦ rw other (added-comparisons (plan H env db u target) (delete_chunks u.id db))
  ]

  pub compact_sealed-comparisons :
      (id : Text) (argument : Argument)
      → (serve (compact_sealed H env id argument) db).1.comparisons ≡ db.comparisons
  compact_sealed-comparisons id argument =
      kept _ (Requests.compact_sealed-Effect H env db id L w argument)
    where
      kept : (db' : Db) → Requests.Effect H env db id db' → db'.comparisons ≡ db.comparisons
      kept db' (Requests.unchanged e) = rw e refl
      kept db' (Requests.repacked u target named found shut at_least_one e) =
          rw e (compacted_db-comparisons u target)

  stored_comparison-same :
      (db' : Db)
      → db'.comparisons ≡ db.comparisons
      → (id : Text) → stored_comparison db' id ≡ stored_comparison db id
  unfolding stored_comparison
  stored_comparison-same db' same id = rw same refl

  -- A new comparison is found beside the stored ones.
  stored_comparison-after :
      (r : Request)
      → IsPossible db r
      → (id : Text) (row : Comparison) → stored_comparison db id ≡ some row
      → stored_comparison (after H env r db) id ≡ some row
  stored_comparison-after (create j total whole) fresh id row found =
      stored_comparison-same _ (create_session-comparisons j total whole) id ∙ found
  stored_comparison-after (put j start count d payload) possible id row found =
      stored_comparison-same _ (put_chunk-comparisons j start count d payload) id ∙ found
  stored_comparison-after (compare j left_id right_id) fresh id row found =
      elim (create_comparison-cases H db env j left_id right_id) [
        | inr (e, refused) ↦
            ap (λ (d : Db). stored_comparison d id)
              (ap (λ (answer : Result Comparison × Db). answer.1) refused)
            ∙ found
        | inl (new, made) ↦
            ap (λ (d : Db). stored_comparison d id)
              (ap (λ (answer : Result Comparison × Db). answer.1) made)
            ∙ beside new (named new (ap (λ (answer : Result Comparison × Db). answer.0) made))
      ]
    where
      named :
          (new : Comparison)
          → (serve (create_comparison H env j left_id right_id) db).0 ≡ ok new
          → new.id ≡ j
      named new made =
          ap (λ (c : Comparison). c.id)
            (create_comparison_sound H L db env j left_id right_id new made).told

      other : (new : Comparison) → new.id ≡ j → new.id ≢ id
      other new e same =
          let clash : stored_comparison db id ≡ none = rw (sym e ∙ same) at fresh in cc

      beside :
          (new : Comparison) → new.id ≡ j → stored_comparison (add_comparison new db) id ≡ some row
      beside new e = stored_comparison-beside db id new (other new e) ∙ found

-- The answer of the identifier's route, and what is stored.
get_comparison-stored :
    (db : Db) (id : Text) (row : Comparison)
    → stored_comparison db id ≡ some row
    → serve (get_comparison id) db ≡ (ok row, db)
unfolding get_comparison
get_comparison-stored db id row found = rw found refl

stored-get_comparison :
    (db : Db) (id : Text) (row : Comparison)
    → serve (get_comparison id) db ≡ (ok row, db)
    → stored_comparison db id ≡ some row
unfolding get_comparison
stored-get_comparison db id row answered = elim (Option-cases (stored_comparison db id)) [
  | inl missing ↦
      err_not_ok (ap (λ (answer : Result Comparison × Db). answer.0) (rw missing at answered))
  | inr (other, found) ↦
      let same : ok other ≡ ok row =
        ap (λ (answer : Result Comparison × Db). answer.0) (rw found at answered) in
      let e : other ≡ row = cc in found ∙ ap some e
]

module _ (H : Hashlib) (L : IsLawful H) where
  Lives-stored_comparison :
      {db db' : Db}
      → Lives H db db'
      → IsWellFormed H db
      → (id : Text) (row : Comparison) → stored_comparison db id ≡ some row
      → stored_comparison db' id ≡ some row
  Lives-stored_comparison begins w id row found = found
  Lives-stored_comparison (requested {db' = db'} life env r possible) w id row found =
      stored_comparison-after H L env db' (Lives-IsWellFormed H L life w) r possible id row
        (Lives-stored_comparison life w id row found)
  Lives-stored_comparison (compacts {db' = db'} life env j argument) w id row found =
      let w' = Lives-IsWellFormed H L life w in
      stored_comparison-same H L env db' w' _ (compact_sealed-comparisons H L env db' w' j argument)
        id
      ∙ Lives-stored_comparison life w id row found

  -- What the identifier of a comparison finds it finds for good, whatever registrations, uploads,
  -- comparisons and compactions follow.
  pub Lives-get_comparison :
      {db db' : Db}
      → Lives H db db'
      → IsWellFormed H db
      → (id : Text) (row : Comparison) → serve (get_comparison id) db ≡ (ok row, db)
      → serve (get_comparison id) db' ≡ (ok row, db')
  Lives-get_comparison {db = db} {db' = db'} life w id row found =
      get_comparison-stored db' id row
        (Lives-stored_comparison life w id row (stored-get_comparison db id row found))
