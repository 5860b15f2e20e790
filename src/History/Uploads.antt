-- ===== src/History/Uploads.antt =====
-- A client that sends a package piece by piece.
use mathlib.Core.Path.{subst}
use seismic_trace_resumable.Prelude.{
  joined, AllNonempty, ℕ, ◌+◌, ◌≡◌, ◌<◌, ◌≤◌, sym, ap, ◌∙◌, Text, Bytes, false, some, List, [], ◌∷◌,
  ◌++◌, append_assoc, append-nil, length, length-append, arith, Option-cases, inl, inr,
}
use seismic_trace_resumable.Prelude.Int.{pos}
use seismic_trace_resumable.Hashlib.{Hashlib, IsLawful, digest}
use seismic_trace_resumable.Model.{UploadSession, active, sealed}
use seismic_trace_resumable.Storage.{Db, get_session, chunks_of}
use seismic_trace_resumable.Audit.{Env}
use seismic_trace_resumable.Layout.{contents}
use seismic_trace_resumable.Invariant.{IsWellFormed}
use seismic_trace_resumable.Upload.Put.Keeps.{put_chunk-IsWellFormed}
use seismic_trace_resumable.Upload.Spec.{Package, receive, package_of, view}
use seismic_trace_resumable.Upload.Spec.Receive.{receive-more, receive-last}
use seismic_trace_resumable.Upload.Spec.Refinement.{put_chunk-refines}
use seismic_trace_resumable.History.{put, after}

-- A package that is seen is the package of a row.
pub view-row :
    (db : Db) (id : Text) (p : Package)
    → view db id ≡ some p
    → (u : UploadSession) × (get_session db id ≡ some u) × (package_of db u ≡ p)
unfolding view
view-row db id p seen = elim (Option-cases (get_session db id)) [
  | inl none_here ↦ absurd (cc)
  | inr (u, found) ↦
      (u, found, let e : some (package_of db u) ≡ some p = rw (found, view) at seen in cc)
]

module _ (H : Hashlib) (L : IsLawful H) (env : Env) where
  -- One piece after the other, each at the offset where the one before it ends.
  abbrev pub send : Text → ℕ → List Bytes → Db → Db
  send id start [] db = db
  send id start (q ∷ qs) db =
      send id (start + length q) qs
        (after H env (put id (pos start) (pos (length q)) (digest H q) q) db)

  -- A PUT of the next piece, in terms of the package.
  view-put :
      (db : Db)
      → IsWellFormed H db
      → (id : Text) (p : Package) (q : Bytes) → view db id ≡ some p
      → length p.bytes + length q ≤ p.total
      → view (after H env (put id (pos (length p.bytes)) (pos (length q)) (digest H q) q) db) id
        ≡ some (receive (digest H) env.refuses_audit p (length p.bytes) q).0
  view-put db w id p q seen =
      let (u, found, row) = view-row db id p seen in
      subst
        (λ (p : Package).
          length p.bytes + length q ≤ p.total
          → view (after H env (put id (pos (length p.bytes)) (pos (length q)) (digest H q) q) db) id
            ≡ some (receive (digest H) env.refuses_audit p (length p.bytes) q).0)
        row
        (λ fits.
          (put_chunk-refines H env L db w id u (length (contents (chunks_of db u.id))) q found
            fits).0)

  -- Pieces that make up an active package seal it, however it was cut.
  pub send_lem :
      (db : Db)
      → IsWellFormed H db
      → (id : Text) (p : Package) (q : Bytes) (qs : List Bytes) → view db id ≡ some p
      → p.status ≡ active
      → AllNonempty (q ∷ qs)
      → length (p.bytes ++ joined (q ∷ qs)) ≡ p.total
      → digest H (p.bytes ++ joined (q ∷ qs)) ≡ p.whole
      → env.refuses_audit ≡ false
      → view (send id (length p.bytes) (q ∷ qs) db) id
        ≡ some (record p { bytes = p.bytes ++ joined (q ∷ qs); status = sealed })
  send_lem db w id p q [] seen open_package some_bytes whole_length same written =
      let whole_size : length p.bytes + length q ≡ p.total =
        sym (length-append p.bytes q) ∙ rw append-nil at whole_length in
      let same' : digest H (p.bytes ++ q) ≡ p.whole = rw append-nil at same in
      rw append-nil (
        view-put db w id p q seen (omega arith)
        ∙ rw written
            (ap some (receive-last (digest H) p q open_package some_bytes.0 whole_size same')))
  send_lem db w id p q (r ∷ rs) seen open_package some_bytes whole_length same written =
      rw (← length-append p.bytes q, ← append_assoc p.bytes q (r ++ joined rs))
        (send_lem (after H env (put id (pos (length p.bytes)) (pos (length q)) (digest H q) q) db)
          (put_chunk-IsWellFormed H env L db w id _ _ _ q) id (record p { bytes = p.bytes ++ q }) r
          rs
          (view-put db w id p q seen (omega (arith, room))
            ∙ ap some
                (receive-more (digest H) p q open_package some_bytes.0 env.refuses_audit room))
          open_package some_bytes.1 (rw append_assoc whole_length) (rw append_assoc same) written)
    where
      room : length p.bytes + length q < p.total
      room = omega (
        arith,
        some_bytes,
        whole_length,
        length-append p.bytes (q ++ (r ++ joined rs)),
        length-append q (r ++ joined rs),
        length-append r (joined rs),
      )
