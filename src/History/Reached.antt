-- ===== src/History/Reached.antt =====
-- What holds at every time of the service's life, over registrations, uploads and comparisons.
use mathlib.Core.Path.{subst}
use seismic_trace_resumable.Prelude.{
  ap, inl, inr, ◌≡◌, ◌≢◌, refl, sym, ◌∙◌, Text, List, ◌++◌, append-nil, append_assoc, some, none,
  [], text_dec,
}
use seismic_trace_resumable.Hashlib.{Hashlib, IsLawful}
use seismic_trace_resumable.Model.{Comparison, UploadSession, Chunk, active}
use seismic_trace_resumable.Storage.{Db, get_session, chunks_of, audit_of, add_comparison}
use seismic_trace_resumable.Tx.{Result}
use seismic_trace_resumable.Compare.Record.Effects.{create_comparison-cases}
use seismic_trace_resumable.Invariant.Comparisons.{
  get_session-add_comparison, chunks_of-add_comparison, audit_of-add_comparison,
  add_comparison-IsWellFormed,
}
use seismic_trace_resumable.Audit.{Env}
use seismic_trace_resumable.Invariant.{IsWellFormed, SameElsewhere}
use seismic_trace_resumable.Upload.Session.Creates.{create_session-IsWellFormed}
use seismic_trace_resumable.Upload.Session.Isolation.{create_session-SameElsewhere}
use seismic_trace_resumable.Upload.Put.Keeps.{put_chunk-IsWellFormed, put_chunk-Grows}
use seismic_trace_resumable.Upload.Put.Isolation.{put_chunk-closed, put_chunk-SameElsewhere}
use seismic_trace_resumable.History.{
  empty_db, Request, create, put, compare, IsPossible, after, Steps, here, next,
}

module _ (H : Hashlib) (L : IsLawful H) where
  pub empty_db-IsWellFormed : IsWellFormed H empty_db
  unfolding get_session chunks_of audit_of
  empty_db-IsWellFormed = record {
    sound = λ id u found. absurd (cc);
    owned = λ id none_here. (refl, refl);
  }

  -- A comparison leaves the database as it was, or with one row more.
  pub compared :
      (P : Db → Type 0) (env : Env) (id left_id right_id : Text) (db : Db)
      → P db
      → ((row : Comparison) → P (add_comparison row db))
      → P (after H env (compare id left_id right_id) db)
  compared P env id left_id right_id db as_it_was with_row =
      elim (create_comparison-cases H db env id left_id right_id) [
        | inl (row, stored) ↦
            subst P (sym (ap (λ (answer : Result Comparison × Db). answer.1) stored)) (with_row row)
        | inr (e, refused) ↦
            subst P (sym (ap (λ (answer : Result Comparison × Db). answer.1) refused)) as_it_was
      ]

  pub after-IsWellFormed :
      (env : Env) (r : Request) (db : Db)
      → IsPossible db r
      → IsWellFormed H db
      → IsWellFormed H (after H env r db)
  after-IsWellFormed env (create id total whole) db fresh w =
      create_session-IsWellFormed H env db id total whole w fresh
  after-IsWellFormed env (put id start count d payload) db possible w =
      put_chunk-IsWellFormed H env L db w id start count d payload
  after-IsWellFormed env (compare id left_id right_id) db fresh w =
      compared (λ db'. IsWellFormed H db') env id left_id right_id db w
        (λ row. add_comparison-IsWellFormed row db H w)

  -- Every sequence of requests keeps a well-formed database well formed.
  pub Steps-IsWellFormed : {db db' : Db} → Steps H db db' → IsWellFormed H db → IsWellFormed H db'
  Steps-IsWellFormed here w = w
  Steps-IsWellFormed (next {db' = db'} steps env r possible) w =
      after-IsWellFormed env r db' possible (Steps-IsWellFormed steps w)

  -- The row, the bytes and the trail of a session.
  pub record IsKept (id : Text) (db db' : Db) : Type 0 where
    pub session : get_session db' id ≡ get_session db id
    pub chunks : chunks_of db' id ≡ chunks_of db id
    pub trail : audit_of db' id ≡ audit_of db id

  module _ (id : Text) (u : UploadSession) (closed : u.status ≢ active) where
    pub after-IsKept :
        (env : Env) (r : Request) (db : Db)
        → IsPossible db r
        → IsWellFormed H db
        → get_session db id ≡ some u
        → IsKept id db (after H env r db)
    after-IsKept env (create j total whole) db fresh w found = record {
      session = same.session id other;
      chunks = same.chunks id other;
      trail = same.trail id other;
    }
      where
        other : j ≢ id
        other e = let clash : get_session db id ≡ none = rw e at fresh in cc

        same : SameElsewhere j db (after H env (create j total whole) db)
        same = create_session-SameElsewhere H env db j total whole
    after-IsKept env (put j start count d payload) db possible w found = elim (text_dec j id) [
      | no other ↦ record {
        session = same.session id other;
        chunks = same.chunks id other;
        trail = same.trail id other;
      }
      | yes e ↦
          rw (e, put_chunk-closed H env L db w id u found closed start count d payload)
            (record { session = refl; chunks = refl; trail = refl })
    ]
      where
        same : SameElsewhere j db (after H env (put j start count d payload) db)
        same = put_chunk-SameElsewhere H env L db w j start count d payload
    after-IsKept env (compare cid left_id right_id) db fresh w found =
        compared (IsKept id db) env cid left_id right_id db
          (record { session = refl; chunks = refl; trail = refl })
          (λ row. record {
            session = get_session-add_comparison row db id;
            chunks = chunks_of-add_comparison row db id;
            trail = audit_of-add_comparison row db id;
          })

    -- A sealed or failed session stays as it is for good: no sequence of requests, to it or to
    -- others, changes its row, its stored chunks or its audit trail.
    pub Steps-IsKept :
        {db db' : Db}
        → Steps H db db'
        → IsWellFormed H db
        → get_session db id ≡ some u
        → IsKept id db db'
    Steps-IsKept here w found = record { session = refl; chunks = refl; trail = refl }
    Steps-IsKept (next {db' = db'} steps env r possible) w found =
        let k = Steps-IsKept steps w found in
        let k' = after-IsKept env r db' possible (Steps-IsWellFormed steps w) (k.session ∙ found) in
        record {
          session = k'.session ∙ k.session;
          chunks = k'.chunks ∙ k.chunks;
          trail = k'.trail ∙ k.trail;
        }

  abbrev pub Grown : Db → Db → Text → Type 0
  Grown old new j = (extra : List Chunk) × (chunks_of new j ≡ chunks_of old j ++ extra)

  pub after-Grown :
      (env : Env) (r : Request) (db : Db)
      → IsPossible db r
      → IsWellFormed H db
      → (j : Text) → Grown db (after H env r db) j
  after-Grown env (put id start count d payload) db possible w j =
      put_chunk-Grows H env L db w id start count d payload j
  after-Grown env (create id total whole) db fresh w j = elim (text_dec id j) [
    | yes e ↦ (chunks_of (after H env (create id total whole) db) j, sym (rw (none_yet e) refl))
    | no other ↦ ([], same.chunks j other ∙ sym (append-nil _))
  ]
    where
      same : SameElsewhere id db (after H env (create id total whole) db)
      same = create_session-SameElsewhere H env db id total whole

      none_yet : id ≡ j → chunks_of db j ≡ []
      none_yet e = rw e at ((w.owned id fresh).0)
  after-Grown env (compare id left_id right_id) db fresh w j =
      compared (λ db'. Grown db db' j) env id left_id right_id db ([], sym (append-nil _))
        (λ row. ([], chunks_of-add_comparison row db j ∙ sym (append-nil _)))

  -- A confirmed byte is never lost: whatever requests follow, the chunks that a session has stay
  -- its first chunks, each with its range, digest and bytes, and further ones only come behind.
  pub Steps-Grows :
      {db db' : Db}
      → Steps H db db'
      → IsWellFormed H db
      → (j : Text) → (extra : List Chunk) × (chunks_of db' j ≡ chunks_of db j ++ extra)
  Steps-Grows here w j = ([], sym (append-nil _))
  Steps-Grows {db = db} (next {db' = db'} steps env r possible) w j =
      let (first, before) = Steps-Grows steps w j in
      let (more, then_on) = after-Grown env r db' possible (Steps-IsWellFormed steps w) j in
      (first ++ more, then_on ∙ rw before (append_assoc (chunks_of db j) first more))
