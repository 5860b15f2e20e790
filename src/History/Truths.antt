-- ===== src/History/Truths.antt =====
-- What the stored comparisons say of the archives as they are now.
use mathlib.Core.Path.{subst}
use seismic_trace_resumable.Prelude.{
  ◌≡◌, sym, ap, ◌∙◌, inl, inr, Text, Bytes, some, List, [], ◌∷◌, length, ℕ,
}
use seismic_trace_resumable.Hashlib.{Hashlib, IsLawful, digest}
use seismic_trace_resumable.Model.{UploadSession, Comparison, sealed}
use seismic_trace_resumable.Storage.{Db, get_session, chunks_of, audit_of, add_comparison}
use seismic_trace_resumable.Tx.{Result, ok, serve}
use seismic_trace_resumable.Audit.{Env}
use seismic_trace_resumable.Layout.{contents}
use seismic_trace_resumable.Invariant.{IsWellFormed, Settled}
use seismic_trace_resumable.Compare.Streams.{meet, meet-Parting, Parting}
use seismic_trace_resumable.Compare.Record.{comparison_row, create_comparison}
use seismic_trace_resumable.Compare.Record.Conclusions.{conclusion_of, conclude-Parting}
use seismic_trace_resumable.Compare.Record.Effects.{create_comparison-cases}
use seismic_trace_resumable.Compare.Record.Genuine.{IsComparison, create_comparison_sound}
use seismic_trace_resumable.Compare.Record.Sealed.{streams_first_difference-contents}
use seismic_trace_resumable.History.{Request, create, put, compare, after}
use seismic_trace_resumable.History.Lives.{
  Lives, begins, requested, compacts, Lives-IsWellFormed, Lives-IsPreserved,
}
use seismic_trace_resumable.History.Comparisons.{
  put_chunk-comparisons, create_session-comparisons, compact_sealed-comparisons,
}
use seismic_trace_resumable.History.Terms.{confirmed_lem}

-- One side of a comparison: a session that is there and sealed, with the length and the digest of the
-- bytes that it has.
pub record IsSide (H : Hashlib) (db : Db) (id : Text) (total : ℕ) (whole : Text) : Type 0 where
  pub session : UploadSession
  pub found : get_session db id ≡ some session
  pub shut : session.status ≡ sealed
  pub long : total ≡ length (contents (chunks_of db id))
  pub hashed : whole ≡ digest H (contents (chunks_of db id))

-- A comparison row that is right about the sessions it names and about their bytes.
pub record IsTrue (H : Hashlib) (db : Db) (row : Comparison) : Type 0 where
  pub left : IsSide H db row.baseline_session_id row.baseline_total_bytes row.baseline_whole_sha256
  pub right :
      IsSide H db row.candidate_session_id row.candidate_total_bytes row.candidate_whole_sha256
  pub parted :
      Parting 0
        (contents (chunks_of db row.baseline_session_id))
        (contents (chunks_of db row.candidate_session_id))
        (row.common_prefix_bytes, row.first_difference_offset)
  pub concluded :
      row.conclusion
      ≡ conclusion_of
          (contents (chunks_of db row.baseline_session_id))
          (contents (chunks_of db row.candidate_session_id))

abbrev pub AreTrue : Hashlib → Db → List Comparison → Type 0
AreTrue H db [] = Unit
AreTrue H db (row ∷ rows) = IsTrue H db row × AreTrue H db rows

module _ (H : Hashlib) (L : IsLawful H) {db db' : Db} (life : Lives H db db')
    (w : IsWellFormed H db) where
  IsSide-later :
      {id : Text} {total : ℕ} {whole : Text}
      → IsSide H db id total whole
      → IsSide H db' id total whole
  IsSide-later {id = id} side =
      let same = Lives-IsPreserved H L id side.session side.shut life w side.found in
      record {
        session = side.session;
        found = same.session ∙ side.found;
        shut = side.shut;
        long = rw same.bytes side.long;
        hashed = rw same.bytes side.hashed;
      }

  side_bytes :
      {id : Text} {total : ℕ} {whole : Text}
      → IsSide H db id total whole
      → contents (chunks_of db' id) ≡ contents (chunks_of db id)
  side_bytes {id = id} side =
      (Lives-IsPreserved H L id side.session side.shut life w side.found).bytes

  IsTrue-later : (row : Comparison) → IsTrue H db row → IsTrue H db' row
  IsTrue-later row t = record {
    left = IsSide-later t.left;
    right = IsSide-later t.right;
    parted = rw (side_bytes t.left, side_bytes t.right) t.parted;
    concluded = rw (side_bytes t.left, side_bytes t.right) t.concluded;
  }

  AreTrue-later : (rows : List Comparison) → AreTrue H db rows → AreTrue H db' rows
  AreTrue-later [] t = tt
  AreTrue-later (row ∷ rows) t = (IsTrue-later row t.0, AreTrue-later rows t.1)

module _ (H : Hashlib) (L : IsLawful H) (db : Db) (w : IsWellFormed H db) where
  sealed-IsSide :
      (id : Text) (u : UploadSession)
      → get_session db id ≡ some u
      → u.status ≡ sealed
      → IsSide H db u.id u.total_bytes u.whole_sha256
  sealed-IsSide id u found shut =
      let named : u.id ≡ id = (w.sound id u found).0 in
      let settled : Settled H sealed u (contents (chunks_of db u.id)) (audit_of db u.id) =
        subst (λ s. Settled H s u (contents (chunks_of db u.id)) (audit_of db u.id)) shut
          (w.sound id u found).1.settled in
      let here : get_session db u.id ≡ some u = ap (get_session db) named ∙ found in
      record {
        session = u;
        found = here;
        shut = shut;
        long = sym settled.0 ∙ sym (confirmed_lem H db w u.id u here);
        hashed = sym settled.1;
      }

  -- A row is right when it is made.
  made-IsTrue :
      (env : Env) (id left_id right_id : Text) (row : Comparison)
      → (serve (create_comparison H env id left_id right_id) db).0 ≡ ok row
      → IsTrue H db row
  made-IsTrue env id left_id right_id row answered = subst (IsTrue H db) (sym told) (record {
    left = left;
    right = right;
    parted = parting;
    concluded = conclude-Parting c.left c.right _ _ left.long right.long _ parting;
  })
    where
      c : IsComparison H L db env id left_id right_id row
      c = create_comparison_sound H L db env id left_id right_id row answered

      left : IsSide H db c.left.id c.left.total_bytes c.left.whole_sha256
      left = sealed-IsSide left_id c.left c.found_left c.sealed_left

      right : IsSide H db c.right.id c.right.total_bytes c.right.whole_sha256
      right = sealed-IsSide right_id c.right c.found_right c.sealed_right

      xs : Bytes
      xs = contents (chunks_of db c.left.id)

      ys : Bytes
      ys = contents (chunks_of db c.right.id)

      parting : Parting 0 xs ys (meet 0 xs ys)
      parting = meet-Parting 0 xs ys

      told : row ≡ comparison_row env id c.left c.right (meet 0 xs ys)
      told =
          c.told
          ∙ ap (comparison_row env id c.left c.right) (
              streams_first_difference-contents H L (chunks_of db c.left.id)
                (chunks_of db c.right.id) c.left.confirmed_offset c.right.confirmed_offset
                (w.sound left_id c.left c.found_left).1.tiles
                (w.sound right_id c.right c.found_right).1.tiles)

  -- The rows after a request are right about the database before it.
  after-AreTrue :
      (env : Env) (r : Request)
      → AreTrue H db db.comparisons
      → AreTrue H db (after H env r db).comparisons
  unfolding add_comparison
  after-AreTrue env (create id total whole) t =
      rw (create_session-comparisons H L env db w id total whole) t
  after-AreTrue env (put id start count d payload) t =
      rw (put_chunk-comparisons H L env db w id start count d payload) t
  after-AreTrue env (compare id left_id right_id) t =
      elim (create_comparison-cases H db env id left_id right_id) [
        | inr (e, refused) ↦
            subst (λ (a : Result Comparison × Db). AreTrue H db a.1.comparisons) (sym refused) t
        | inl (row, made) ↦
            subst (λ (a : Result Comparison × Db). AreTrue H db a.1.comparisons) (sym made)
              (
                made-IsTrue env id left_id right_id row
                    (ap (λ (a : Result Comparison × Db). a.0) made),
                t,
              )
      ]

-- Every stored comparison is right and stays so: when this holds of the rows of a well-formed
-- database, the empty table among them, then after whatever registrations, uploads, comparisons and
-- compactions the two sessions that a row names are there and sealed, have the lengths and digests
-- that it tells, their bytes agree as far as it says and part there, and its conclusion is the one of
-- their bytes as they are then.
pub Lives-AreTrue :
    (H : Hashlib) (L : IsLawful H) {db db' : Db}
    → Lives H db db'
    → IsWellFormed H db
    → AreTrue H db db.comparisons
    → AreTrue H db' db'.comparisons
Lives-AreTrue H L begins w t = t
Lives-AreTrue H L (requested {db' = db'} life env r possible) w t =
    let w' = Lives-IsWellFormed H L life w in
    AreTrue-later H L (requested begins env r possible) w' _
      (after-AreTrue H L db' w' env r (Lives-AreTrue H L life w t))
Lives-AreTrue H L (compacts {db' = db'} life env id argument) w t =
    let w' = Lives-IsWellFormed H L life w in
    AreTrue-later H L (compacts begins env id argument) w' _
      (rw (compact_sealed-comparisons H L env db' w' id argument) (Lives-AreTrue H L life w t))
