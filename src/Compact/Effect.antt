-- ===== src/Compact/Effect.antt =====
-- What a compaction leaves behind: the same bytes in the planned chunks, one audit row more.
use mathlib.Core.Path.{subst}
use seismic_trace_resumable.Prelude.{
  ℕ, ◌+◌, ◌≡◌, ◌≢◌, ◌<◌, refl, sym, ap, ◌∙◌, Text, =?_refl, =?_ne, some, Bool-cases, inl, inr, [],
  ◌∷◌, ◌++◌, length, arith,
}
use seismic_trace_resumable.Hashlib.{Hashlib, IsLawful, digest}
use seismic_trace_resumable.Model.{UploadSession, sealed}
use seismic_trace_resumable.Storage.{Db, get_session, chunks_of, audit_of, delete_chunks}
use seismic_trace_resumable.Storage.Laws.{
  get_session-add_audit_event, chunks_of-add_audit_event, audit_of-add_audit_event,
}
use seismic_trace_resumable.Storage.Rows.{
  chunks_of-Owned, get_session-added, audit_of-added, chunks_of-added_elsewhere,
  chunks_of-delete_chunks, get_session-delete_chunks, audit_of-delete_chunks,
}
use seismic_trace_resumable.Audit.{Env, next_audit_sequence}
use seismic_trace_resumable.Audit.Numbers.{
  max_sequence-IsTrail, insert_by_sequence-end, IsTrail-append,
}
use seismic_trace_resumable.Layout.{contents, Tiles}
use seismic_trace_resumable.Invariant.{IsWellFormed, IsTrail, Settled, SameElsewhere}
use seismic_trace_resumable.Invariant.Update.{IsWellFormed-update}
use seismic_trace_resumable.Compact.Layout.{planned_spans}
use seismic_trace_resumable.Compact.Layout.Unique.{same_layout-Tiles}
use seismic_trace_resumable.Compact.Sealed.{
  bytes, plan, relaid_db, is_laid, laid_db, compaction_row, compacted_db, planned_rows-Owned,
  settled, tiles, plan-Tiles, relaid_rows,
}

module _ (H : Hashlib) (env : Env) (db : Db) (u : UploadSession) (target : ℕ) where
  relaid_db-session : (j : Text) → get_session (relaid_db H env db u target) j ≡ get_session db j
  relaid_db-session j =
      get_session-added u.id (plan H env db u target) (delete_chunks u.id db) j
      ∙ get_session-delete_chunks u.id db j

  relaid_db-trail : (j : Text) → audit_of (relaid_db H env db u target) j ≡ audit_of db j
  relaid_db-trail j =
      audit_of-added u.id (plan H env db u target) (delete_chunks u.id db) j
      ∙ audit_of-delete_chunks u.id db j

  relaid_db-chunks :
      (j : Text) → u.id ≢ j → chunks_of (relaid_db H env db u target) j ≡ chunks_of db j
  relaid_db-chunks j other =
      chunks_of-added_elsewhere u.id (plan H env db u target) (delete_chunks u.id db) j
        (planned_rows-Owned H u.id (bytes H env db u target) (planned_spans u.total_bytes target))
        other
      ∙ chunks_of-delete_chunks u.id db j
      ∙ rw (=?_ne u.id j other) refl

  laid_db-session : (j : Text) → get_session (laid_db H env db u target) j ≡ get_session db j
  laid_db-session j = elim (Bool-cases (is_laid H env db u target)) [
    | inl same ↦ rw same refl
    | inr other ↦ rw other (relaid_db-session j)
  ]

  laid_db-trail : (j : Text) → audit_of (laid_db H env db u target) j ≡ audit_of db j
  laid_db-trail j = elim (Bool-cases (is_laid H env db u target)) [
    | inl same ↦ rw same refl
    | inr other ↦ rw other (relaid_db-trail j)
  ]

  laid_db-chunks : (j : Text) → u.id ≢ j → chunks_of (laid_db H env db u target) j ≡ chunks_of db j
  laid_db-chunks j elsewhere = elim (Bool-cases (is_laid H env db u target)) [
    | inl same ↦ rw same refl
    | inr other ↦ rw other (relaid_db-chunks j elsewhere)
  ]

  pub compacted_db-session :
      (j : Text) → get_session (compacted_db H env db u target) j ≡ get_session db j
  compacted_db-session j =
      get_session-add_audit_event (laid_db H env db u target) j _ ∙ laid_db-session j

  pub compacted_db-SameElsewhere : SameElsewhere u.id db (compacted_db H env db u target)
  compacted_db-SameElsewhere = record {
    session = λ j ne. compacted_db-session j;
    chunks =
        λ j ne. chunks_of-add_audit_event (laid_db H env db u target) j _ ∙ laid_db-chunks j ne;
    trail = λ j ne.
        audit_of-add_audit_event (laid_db H env db u target) j _
        ∙ rw (=?_ne u.id j ne) (laid_db-trail j);
  }

  module _ (L : IsLawful H) (w : IsWellFormed H db) (found : get_session db u.id ≡ some u)
      (sealed_session : u.status ≡ sealed) (at_least_one : 0 < target) where
    -- In both cases the rows are the plan's.
    pub compacted_db-rows : chunks_of (compacted_db H env db u target) u.id ≡ plan H env db u target
    compacted_db-rows = chunks_of-add_audit_event (laid_db H env db u target) u.id _ ∙ laid
      where
        old : Tiles H 0 (chunks_of db u.id) u.total_bytes
        old = tiles H env db u target L w found sealed_session at_least_one

        new :
            Tiles H 0 (plan H env db u target) u.total_bytes
            × (contents (plan H env db u target) ≡ bytes H env db u target)
        new = plan-Tiles H env db u target L w found sealed_session at_least_one

        laid : chunks_of (laid_db H env db u target) u.id ≡ plan H env db u target
        laid = elim (Bool-cases (is_laid H env db u target)) [
          | inr other ↦
              rw other (relaid_rows H env db u target L w found sealed_session at_least_one)
          | inl same ↦ rw same (
              same_layout-Tiles H u.id 0 u.total_bytes u.total_bytes (chunks_of db u.id)
                (plan H env db u target) (chunks_of-Owned db u.id) (planned_rows-Owned H u.id _ _)
                old new.0 (sym new.1) same)
        ]

    pub compacted_db-bytes :
        contents (chunks_of (compacted_db H env db u target) u.id) ≡ contents (chunks_of db u.id)
    compacted_db-bytes =
        ap contents compacted_db-rows
        ∙ (plan-Tiles H env db u target L w found sealed_session at_least_one).1

    old-IsTrail : IsTrail u (audit_of db u.id)
    old-IsTrail = (settled H env db u target L w found sealed_session at_least_one).3

    number : next_audit_sequence (laid_db H env db u target) u.id ≡ length (audit_of db u.id) + 1
    unfolding next_audit_sequence
    number = rw (laid_db-trail u.id, max_sequence-IsTrail u (audit_of db u.id) old-IsTrail) refl

    -- The trail has the compaction's row behind the rows it had.
    pub compacted_db-trail :
        audit_of (compacted_db H env db u target) u.id
        ≡ audit_of db u.id ++ compaction_row H env db u target (laid_db H env db u target) ∷ []
    compacted_db-trail =
        audit_of-add_audit_event (laid_db H env db u target) u.id _
        ∙ rw (=?_refl u.id, laid_db-trail u.id)
            (insert_by_sequence-end _ (audit_of db u.id)
              (omega (arith, number, max_sequence-IsTrail u (audit_of db u.id) old-IsTrail)))

    pub compacted_db-IsWellFormed : IsWellFormed H (compacted_db H env db u target)
    compacted_db-IsWellFormed =
        IsWellFormed-update H u w compacted_db-SameElsewhere (compacted_db-session u.id ∙ found)
          (record {
            tiles =
                rw (compacted_db-rows, old.0)
                  (plan-Tiles H env db u target L w found sealed_session at_least_one).0;
            bounded = (w.sound u.id u found).1.bounded;
            settled =
                subst
                  (λ s.
                    Settled H s u (contents (chunks_of (compacted_db H env db u target) u.id))
                      (audit_of (compacted_db H env db u target) u.id))
                  (sym sealed_session)
                  (
                    old.0,
                    ap (digest H) compacted_db-bytes ∙ old.1,
                    old.2,
                    rw compacted_db-trail (
                        IsTrail-append u (audit_of db u.id) _ old.3 (record {
                          numbered = number;
                          kind = refl;
                          measured = refl;
                          hashed = refl;
                        })),
                  );
          })
      where
        old : Settled H sealed u (contents (chunks_of db u.id)) (audit_of db u.id)
        old = settled H env db u target L w found sealed_session at_least_one
