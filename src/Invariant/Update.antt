-- ===== src/Invariant/Update.antt =====
-- A change of one session keeps the database well formed, if that session stays sound.
use mathlib.Core.Path.{subst}
use mathlib.Core.Option.{some-injective, some-ne-none}
use seismic_trace_resumable.Prelude.{◌≡◌, ◌≢◌, ◌∙◌, sym, ap, Text, some, text_dec}
use seismic_trace_resumable.Hashlib.{Hashlib}
use seismic_trace_resumable.Model.{UploadSession}
use seismic_trace_resumable.Storage.{Db, get_session, chunks_of, audit_of}
use seismic_trace_resumable.Invariant.{IsSound, IsWellFormed, SameElsewhere}

module _ (H : Hashlib) {db db' : Db} where
  IsSound-same :
      (u : UploadSession)
      → chunks_of db' u.id ≡ chunks_of db u.id
      → audit_of db' u.id ≡ audit_of db u.id
      → IsSound H db u
      → IsSound H db' u
  IsSound-same u same_chunks same_trail h = record {
    tiles = rw same_chunks h.tiles;
    bounded = h.bounded;
    settled = rw (same_chunks, same_trail) h.settled;
  }

  pub IsWellFormed-update :
      (v : UploadSession)
      → IsWellFormed H db
      → SameElsewhere v.id db db'
      → get_session db' v.id ≡ some v
      → IsSound H db' v
      → IsWellFormed H db'
  IsWellFormed-update v w same stored h = record {
    sound = λ id u found. elim (text_dec v.id id) [
      | yes e ↦
          let this : v ≡ u = some-injective v u (sym stored ∙ ap (get_session db') e ∙ found) in
          (ap (λ (x : UploadSession). x.id) (sym this) ∙ e, subst (λ x. IsSound H db' x) this h)
      | no ne ↦ elsewhere id u ne (w.sound id u (sym (same.session id ne) ∙ found))
    ];
    owned = λ id missing. elim (text_dec v.id id) [
      | yes e ↦ absurd (some-ne-none v (sym stored ∙ ap (get_session db') e ∙ missing))
      | no ne ↦
          rw (same.chunks id ne, same.trail id ne) (w.owned id (sym (same.session id ne) ∙ missing))
    ];
  }
    where
      elsewhere :
          (id : Text) (u : UploadSession)
          → v.id ≢ id
          → (u.id ≡ id) × IsSound H db u
          → (u.id ≡ id) × IsSound H db' u
      elsewhere id u ne (named, sound) =
          let apart : v.id ≢ u.id = λ e. ne (e ∙ named) in
          (named, IsSound-same u (same.chunks u.id apart) (same.trail u.id apart) sound)
