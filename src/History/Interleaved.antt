-- ===== src/History/Interleaved.antt =====
-- `create_comparison` of app/service.py takes no row lock and reads in several statements: between two
-- of them other requests and compactions commit.
use mathlib.Core.Path.{ap₂}
use seismic_trace_resumable.Prelude.{◌≡◌, sym, ◌∙◌, Text, some, arith}
use seismic_trace_resumable.Hashlib.{Hashlib, IsLawful}
use seismic_trace_resumable.Model.{UploadSession, Comparison, sealed}
use seismic_trace_resumable.Errors.{upload_error, baseline, candidate, session_not_found}
use seismic_trace_resumable.Storage.{Db, get_session, chunks_of, add_comparison}
use seismic_trace_resumable.Tx.{
  Action, ok, opened, serve, pure, query, or_raise, modify, commit, others_commit, ◌>>=◌, ◌>>◌,
}
use seismic_trace_resumable.Audit.{Env}
use seismic_trace_resumable.Layout.{contents}
use seismic_trace_resumable.Invariant.{IsWellFormed}
use seismic_trace_resumable.Compare.{streams_first_difference}
use seismic_trace_resumable.Compare.Record.{
  verified_archive_chunks, require_sealed, comparison_row, payloads, create_comparison,
}
use seismic_trace_resumable.Compare.Streams.{meet}
use seismic_trace_resumable.Compare.Record.Sealed.{
  streams_first_difference-contents, sealed-verified, create_comparison-sealed,
}
use seismic_trace_resumable.History.Lives.{Lives, Lives-IsWellFormed, Lives-IsPreserved}

-- `create_comparison` of app/service.py, statement by statement: `after_baseline`, `after_candidate`,
-- `after_left` and `after_right` are what is committed after the two reads of a session and the two
-- reads of chunks.
unfoldable pub create_comparison_among :
    Hashlib
    → Env
    → (after_baseline after_candidate after_left after_right : Db) → Text
    → Text
    → Text
    → Action Comparison
create_comparison_among H env after_baseline after_candidate after_left after_right id
      baseline_session_id candidate_session_id =
    do
      baseline_found ← query (λ db. get_session db baseline_session_id)
      left ← or_raise (upload_error 404 session_not_found) baseline_found
      others_commit after_baseline
      candidate_found ← query (λ db. get_session db candidate_session_id)
      right ← or_raise (upload_error 404 session_not_found) candidate_found
      others_commit after_candidate
      require_sealed baseline left
      require_sealed candidate right
      left_chunks ← verified_archive_chunks H baseline left
      others_commit after_left
      right_chunks ← verified_archive_chunks H candidate right
      others_commit after_right
      let row : Comparison =
          comparison_row env id left right
            (streams_first_difference (payloads left_chunks) (payloads right_chunks))
      modify (add_comparison row)
      commit
      pure row

-- A sealed session at a later time: the same row and the same bytes.
pub record Still (H : Hashlib) (id : Text) (u : UploadSession) (db later : Db) : Type 0 where
  pub well : IsWellFormed H later
  pub found : get_session later id ≡ some u
  pub bytes : contents (chunks_of later u.id) ≡ contents (chunks_of db u.id)

module _ (H : Hashlib) (L : IsLawful H) (id : Text) (u : UploadSession)
    (shut : u.status ≡ sealed) where
  pub still :
      {db later : Db}
      → Lives H db later
      → IsWellFormed H db
      → get_session db id ≡ some u
      → Still H id u db later
  still {db = db} life w found =
      let same = Lives-IsPreserved H L id u shut life w found in
      let named : u.id ≡ id = (w.sound id u found).0 in
      record {
        well = Lives-IsWellFormed H L life w;
        found = same.session ∙ found;
        bytes = rw named same.bytes;
      }

module _ (H : Hashlib) (L : IsLawful H) (env : Env) (left right : UploadSession)
    (left_sealed : left.status ≡ sealed) (right_sealed : right.status ≡ sealed)
    (left_id right_id : Text) {db2 db3 db4 : Db} (third : Lives H db2 db3)
    (fourth : Lives H db3 db4) (w2 : IsWellFormed H db2)
    (left2 : get_session db2 left_id ≡ some left)
    (right2 : get_session db2 right_id ≡ some right) where
  left3 : Still H left_id left db2 db3
  left3 = still H L left_id left left_sealed third w2 left2

  right3 : Still H right_id right db2 db3
  right3 = still H L right_id right right_sealed third w2 right2

  left4 : Still H left_id left db3 db4
  left4 = still H L left_id left left_sealed fourth left3.well left3.found

  right4 : Still H right_id right db3 db4
  right4 = still H L right_id right right_sealed fourth right3.well right3.found

  left_verified :
      verified_archive_chunks H baseline left (opened db2)
      ≡ (ok (chunks_of db2 left.id), opened db2)
  left_verified = sealed-verified H L env db2 w2 baseline left_id left left2 left_sealed

  right_verified :
      verified_archive_chunks H candidate right (opened db3)
      ≡ (ok (chunks_of db3 right.id), opened db3)
  right_verified =
      sealed-verified H L env db3 right3.well candidate right_id right right3.found right_sealed

  -- The chunks are cut as they were when they were read, and the bytes are those of the end.
  walked :
      streams_first_difference
        (payloads (chunks_of db2 left.id))
        (payloads (chunks_of db3 right.id))
      ≡ meet 0 (contents (chunks_of db4 left.id)) (contents (chunks_of db4 right.id))
  walked =
      streams_first_difference-contents H L (chunks_of db2 left.id) (chunks_of db3 right.id)
        left.confirmed_offset right.confirmed_offset (w2.sound left_id left left2).1.tiles
        (right3.well.sound right_id right right3.found).1.tiles
      ∙ ap₂ (meet 0) (sym (left4.bytes ∙ left3.bytes)) (sym right4.bytes)

  among_from :
      (db0 db1 : Db)
      → get_session db0 left_id ≡ some left
      → get_session db1 right_id ≡ some right
      → (id : Text)
      → serve (create_comparison_among H env db1 db2 db3 db4 id left_id right_id) db0
        ≡ serve (create_comparison H env id left_id right_id) db4
  unfolding create_comparison_among require_sealed
  among_from db0 db1 found_left found_right id =
      step
      ∙ sym (
          create_comparison-sealed H L env db4 left4.well id left_id right_id left right left4.found
            right4.found left_sealed right_sealed)
    where
      row : Comparison
      row =
          comparison_row env id left right
            (meet 0 (contents (chunks_of db4 left.id)) (contents (chunks_of db4 right.id)))

      step :
          serve (create_comparison_among H env db1 db2 db3 db4 id left_id right_id) db0
          ≡ (ok row, add_comparison row db4)
      step = ground (arith, left_verified, right_verified, walked)

-- A comparison of two sealed sessions is answered, and leaves the database, as if it had run at once
-- at its end, whatever requests and compactions of others commit between any two of its statements.
pub create_comparison_among_lem :
    (H : Hashlib) (L : IsLawful H) (env : Env) (db0 db1 db2 db3 db4 : Db)
    → IsWellFormed H db0
    → Lives H db0 db1
    → Lives H db1 db2
    → Lives H db2 db3
    → Lives H db3 db4
    → (id left_id right_id : Text) (left right : UploadSession)
    → get_session db0 left_id ≡ some left
    → get_session db1 right_id ≡ some right
    → left.status ≡ sealed
    → right.status ≡ sealed
    → serve (create_comparison_among H env db1 db2 db3 db4 id left_id right_id) db0
      ≡ serve (create_comparison H env id left_id right_id) db4
create_comparison_among_lem H L env db0 db1 db2 db3 db4 w first second third fourth id left_id
      right_id left right found_left found_right left_sealed right_sealed =
    let left1 = still H L left_id left left_sealed first w found_left in
    let left2 = still H L left_id left left_sealed second left1.well left1.found in
    let right2 = still H L right_id right right_sealed second left1.well found_right in
    among_from H L env left right left_sealed right_sealed left_id right_id third fourth left2.well
      left2.found right2.found db0 db1 found_left found_right id
