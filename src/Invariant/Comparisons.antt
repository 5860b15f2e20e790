-- ===== src/Invariant/Comparisons.antt =====
-- A stored comparison concerns no session: everything that is said of sessions is as it was.
use seismic_trace_resumable.Prelude.{Text, ◌≡◌, refl}
use seismic_trace_resumable.Hashlib.{Hashlib}
use seismic_trace_resumable.Model.{Comparison}
use seismic_trace_resumable.Storage.{Db, get_session, chunks_of, audit_of, add_comparison}
use seismic_trace_resumable.Invariant.{IsWellFormed}

module _ (row : Comparison) (db : Db) where
  pub get_session-add_comparison :
      (id : Text) → get_session (add_comparison row db) id ≡ get_session db id
  unfolding get_session add_comparison
  get_session-add_comparison id = refl

  pub chunks_of-add_comparison :
      (id : Text) → chunks_of (add_comparison row db) id ≡ chunks_of db id
  unfolding chunks_of add_comparison
  chunks_of-add_comparison id = refl

  pub audit_of-add_comparison : (id : Text) → audit_of (add_comparison row db) id ≡ audit_of db id
  unfolding audit_of add_comparison
  audit_of-add_comparison id = refl

  pub add_comparison-IsWellFormed :
      (H : Hashlib) → IsWellFormed H db → IsWellFormed H (add_comparison row db)
  unfolding get_session chunks_of audit_of add_comparison
  add_comparison-IsWellFormed H w = record {
    sound = λ id u found. (
      (w.sound id u found).0,
      record {
        tiles = (w.sound id u found).1.tiles;
        bounded = (w.sound id u found).1.bounded;
        settled = (w.sound id u found).1.settled;
      },
    );
    owned = λ id missing. w.owned id missing;
  }
