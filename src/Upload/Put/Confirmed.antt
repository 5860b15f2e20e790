-- ===== src/Upload/Put/Confirmed.antt =====
-- What an answer without an error means: the payload stands in the archive at its offset, and the
-- answer tells the row of the session as it is committed.
use mathlib.Core.Path.{subst}
use native.Mathlib.Decide.{ℕ_discrete}
use seismic_trace_resumable.Prelude.{
  Bool, false, ℕ, ◌+◌, ◌-◌, ◌<◌, ◌≤◌, ◌≡◌, ◌≢◌, inl, inr, refl, sym, ap, ◌∙◌, Text, Bytes, ◌=?◌,
  =?_refl, =?_iff, ◌&&◌, true, some, Bool-cases, ◌==◌, [], ◌∷◌, ◌++◌, length, length-append, window,
  arith, ltb, leb, if◌then◌else◌, leb→le, and_true, le-or-lt, take-all, window-append_right,
}
use seismic_trace_resumable.Prelude.Int.{ℤ, pos}
use seismic_trace_resumable.Hashlib.{Hashlib, IsLawful, digest}
use seismic_trace_resumable.Model.{UploadSession, Status, active, sealed, failed, is_active}
use seismic_trace_resumable.Storage.{Db, get_session, chunks_of}
use seismic_trace_resumable.Storage.Laws.{storage_laws}
use seismic_trace_resumable.Tx.{Tx, Result, ok, opened, serve}
use seismic_trace_resumable.Tx.Laws.{err_not_ok}
use seismic_trace_resumable.Audit.{Env}
use seismic_trace_resumable.Layout.{contents, length-contents}
use seismic_trace_resumable.Invariant.{IsSound, IsWellFormed}
use seismic_trace_resumable.Upload.Replay.{Ack, ack}
use seismic_trace_resumable.Upload.Put.{put_active, put_chunk}
use seismic_trace_resumable.Upload.Put.Accept.{
  accept_lem, received, moved, sealed_session, moved_db, sealed_db,
}
use seismic_trace_resumable.Upload.Put.Stored.{moved_rows, sealed_rows, bytes}
use seismic_trace_resumable.Upload.Put.Branches.{
  IsChecked, put_active-forward, put_active-empty, put_active-stale,
}
use seismic_trace_resumable.Upload.Put.Effect.{closed-full}
use seismic_trace_resumable.Upload.Put.Request.{
  put_chunk-active, put_chunk-terminal, IsHeard, put_chunk-cases,
}
use seismic_trace_resumable.Upload.Put.Held.{IsHeld}

-- The empty payload is everywhere.
empty_window : (k n : ℕ) (xs payload : Bytes) → length payload ≡ n → n ≤ 0 → window k n xs ≡ payload
empty_window k n xs [] filled empty = let e : n ≡ 0 = omega arith in rw e refl
empty_window k n xs (b ∷ bs) filled empty = absurd (omega arith)

-- A payload that is stored behind the bytes before it.
pub stored-IsHeld :
    (H : Hashlib) (id : Text) (d : Text) (payload old : Bytes) (start : ℕ) (db : Db)
    (u : UploadSession)
    → get_session db id ≡ some u
    → digest H payload ≡ d
    → length old ≡ start
    → contents (chunks_of db id) ≡ old ++ payload
    → IsHeld H id start d payload db u
stored-IsHeld H id d payload old start db u found digested at_end now = record {
  found = found;
  digested = digested;
  inside = rw now (omega (arith, length-append old payload));
  placed =
      rw (now, window-append_right start (length payload) old payload (omega arith))
        (let here : start - length old ≡ 0 = omega arith in
          rw here (take-all (length payload) payload (omega arith)));
}

-- What an answer tells of a range, of its digest and of the row of the session.
pub record Tells (u : UploadSession) (start n : ℕ) (d : Text) (a : Ack) : Type 0 where
  pub named : a.id ≡ u.id
  pub status : a.status ≡ u.status
  pub from : a.start_offset ≡ start
  pub long : a.length ≡ n
  pub hashed : a.chunk_sha256 ≡ d
  pub confirmed : a.confirmed_offset ≡ u.confirmed_offset
  pub next_of_open : u.status ≡ active → a.expected_offset ≡ u.confirmed_offset
  pub next_of_closed : u.status ≢ active → a.expected_offset ≡ u.total_bytes
  pub total : a.total_bytes ≡ u.total_bytes

ack-Tells :
    (u : UploadSession) (start n : ℕ) (d : Text) (replay : Bool)
    → Tells u start n d (ack u start n d replay)
unfolding ack
ack-Tells u start n d replay = record {
  named = refl;
  status = refl;
  from = refl;
  long = refl;
  hashed = refl;
  confirmed = refl;
  next_of_open = λ e. rw e refl;
  next_of_closed = closed u.status;
  total = refl;
}
  where
    closed :
        (s : Status)
        → s ≢ active
        → (if is_active s then u.confirmed_offset else u.total_bytes) ≡ u.total_bytes
    closed active shut = absurd (shut refl)
    closed sealed shut = refl
    closed failed shut = refl

-- The answer to a payload that is held.
pub record IsAnswered (H : Hashlib) (id : Text) (start : ℕ) (d : Text) (payload : Bytes) (a : Ack)
    (db : Db) : Type 0 where
  pub session : UploadSession
  pub held : IsHeld H id start d payload db session
  pub told : Tells session start (length payload) d a

ok-injective : {a b : Ack} → ◌≡◌ {A = Result Ack} (ok a) (ok b) → a ≡ b
ok-injective h = cc

told_as :
    (H : Hashlib) (id : Text) (start : ℕ) (d : Text) (payload : Bytes) (a : Ack) (db : Db)
    (u : UploadSession) (held : IsHeld H id start d payload db u) (n : ℕ) (sent : Text)
    (replay : Bool)
    → length payload ≡ n
    → sent ≡ d
    → ok (ack u start n sent replay) ≡ ok a
    → IsAnswered H id start d payload a db
told_as H id start d payload a db u held n sent replay filled same answered = record {
  session = u;
  held = held;
  told =
      subst (Tells u start (length payload) d) (ok-injective answered)
        (rw (filled, same) (ack-Tells u start n d replay));
}

module _ (H : Hashlib) (env : Env) (L : IsLawful H) (db : Db) (w : IsWellFormed H db) (id : Text)
    (d : Text) (payload : Bytes) where
  -- What the answer promises of what is committed.
  abbrev Promises : ℕ → Result Ack × Tx → Type 0
  Promises start (r, t) = (a : Ack) → r ≡ ok a → IsAnswered H id start d payload a t.committed

  module _ (u : UploadSession) (found : get_session db id ≡ some u) where
    sound : (u.id ≡ id) × IsSound H db u
    sound = w.sound id u found

    size : length (contents (chunks_of db id)) ≡ u.confirmed_offset
    size =
        rw (← sound.0)
          (omega (arith, length-contents H 0 (chunks_of db u.id) u.confirmed_offset sound.1.tiles))

    -- A replay, answered if and only if the bytes are there.
    replayed :
        (start n : ℕ)
        → IsChecked H u start n d payload
        → start + n ≤ u.confirmed_offset
        → window start n (contents (chunks_of db u.id)) ≡ payload
        → IsHeld H id start d payload db u
    replayed start n c inside placed = record {
      found = found;
      digested = c.digested;
      inside = omega (arith, size, c.filled);
      placed = rw (c.filled, ← sound.0) placed;
    }

    forward-Promises :
        (n : ℕ)
        → u.status ≡ active
        → IsChecked H u u.confirmed_offset n d payload
        → 0 < n
        → Promises u.confirmed_offset
            (put_active H env u u.confirmed_offset n d payload (opened db))
    forward-Promises n open_session c nonempty =
        rw
          (
            put_active-forward H env L db u n d payload sound.1.tiles c nonempty,
            accept_lem H env db u n payload L sound.1.tiles c.filled nonempty,
          )
          (elim (Bool-cases (u.confirmed_offset + n == u.total_bytes)) [
            | inr room ↦
                rw room
                  (λ a h. told_as H id _ d payload a _ _ moved_on n _ false c.filled c.digested h)
            | inl full ↦
                elim (Bool-cases (digest H (received H env db u n payload) =? u.whole_sha256)) [
                  | inr differ ↦ rw (full, differ) (λ a h. err_not_ok h)
                  | inl same ↦ elim (Bool-cases env.refuses_audit) [
                    | inl refused ↦ rw (full, same, refused) (λ a h. err_not_ok h)
                    | inr written ↦
                        rw (full, same, written)
                          (λ a h.
                            told_as H id _ d payload a _ _ sealed_now n _ false c.filled c.digested
                              h)
                  ]
                ]
          ])
      where
        here : get_session db u.id ≡ some u
        here = ap (get_session db) sound.0 ∙ found

        moved_on :
            IsHeld H id u.confirmed_offset d payload
              (moved_db H env db u n payload)
              (moved H env db u n payload)
        moved_on =
            stored-IsHeld H id d payload (contents (chunks_of db id)) u.confirmed_offset
              (moved_db H env db u n payload) (moved H env db u n payload)
              (rw (← sound.0) (simp (storage_laws, =?_refl))) c.digested size
              (rw (← sound.0) (
                ap contents
                  (moved_rows H env db u n payload L w here open_session c.filled nonempty)
                ∙ bytes H env db u n payload L w here open_session c.filled nonempty))

        sealed_now :
            IsHeld H id u.confirmed_offset d payload
              (sealed_db H env db u n payload)
              (sealed_session H env db u n payload)
        sealed_now =
            stored-IsHeld H id d payload (contents (chunks_of db id)) u.confirmed_offset
              (sealed_db H env db u n payload) (sealed_session H env db u n payload)
              (rw (← sound.0) (simp (storage_laws, =?_refl))) c.digested size
              (rw (← sound.0) (
                ap contents
                  (sealed_rows H env db u n payload L w here open_session c.filled nonempty)
                ∙ bytes H env db u n payload L w here open_session c.filled nonempty))

    put_active-Promises :
        (start n : ℕ)
        → u.status ≡ active
        → IsChecked H u start n d payload
        → Promises start (put_active H env u start n d payload (opened db))
    put_active-Promises start n open_session c = elim (ℕ_discrete start u.confirmed_offset) [
      | no elsewhere ↦
          rw (put_active-stale H env db u d payload start n sound.1.tiles elsewhere)
            (elim (Bool-cases (
              leb (start + n) u.confirmed_offset
              && (window start n (contents (chunks_of db u.id)) =? payload))) [
                | inl same ↦ rw same (λ a h.
                    let (inside, placed) = and_true _ _ same in
                    told_as H id start d payload a db u
                      (replayed start n c (leb→le _ _ inside) ((=?_iff _ _).0 placed)) n d true
                      c.filled refl h)
                | inr other ↦ rw other (λ a h. err_not_ok h)
              ])
      | yes here ↦ rw here (elim (le-or-lt n 0) [
        | inl empty ↦ rw (put_active-empty H env db u d payload n (omega arith)) (λ a h.
            told_as H id u.confirmed_offset d payload a db u
              (replayed u.confirmed_offset n (rw here at c) (omega arith)
                (empty_window u.confirmed_offset n _ payload c.filled empty))
              0 d true (omega (arith, c.filled)) refl h)
        | inr nonempty ↦ forward-Promises n open_session (rw here at c) nonempty
      ])
    ]

  heard-Promises :
      {start count : ℤ} (h : IsHeard H env db id d payload start count)
      → Promises h.at (put_chunk H env id start count d payload (opened db))
  heard-Promises h = rw (h.starts, h.counts) (by_status h.session.status refl)
    where
      u : UploadSession
      u = h.session

      one : (u.id ≡ id) × IsSound H db u
      one = w.sound id u h.found

      closed :
          u.status ≢ active
          → Promises h.at (put_chunk H env id (pos h.at) (pos h.count) d payload (opened db))
      closed shut =
          let full = closed-full H db u one.1 shut in
          rw
            (put_chunk-terminal H env db id d payload u h.at h.count h.found one.0 shut full
              one.1.tiles h.checked)
            (elim (Bool-cases
              (ltb 0 h.count && (window h.at h.count (contents (chunks_of db u.id)) =? payload))) [
                | inl same ↦ rw same (λ a answered.
                    told_as H id h.at d payload a db u
                      (replayed u h.found h.at h.count h.checked
                        (omega (arith, h.checked.fits, full))
                        ((=?_iff _ _).0 (and_true _ _ same).1))
                      h.count d true h.checked.filled refl answered)
                | inr other ↦ rw other (λ a refused. err_not_ok refused)
              ])

      by_status :
          (s : Status)
          → u.status ≡ s
          → Promises h.at (put_chunk H env id (pos h.at) (pos h.count) d payload (opened db))
      by_status active e =
          rw (put_chunk-active H env db id d payload u h.at h.count h.found e h.checked)
            (put_active-Promises u h.found h.at h.count e h.checked)
      by_status sealed e = closed (λ a. cc)
      by_status failed e = closed (λ a. cc)

  -- A request that is answered without an error names a session, an offset and the length of its
  -- payload, and then the payload is committed: the bytes of the session at that offset are the
  -- payload, and its digest is the one that was sent. The answer tells that range and digest, and the
  -- identifier, status, confirmed offset and length of the session as they are committed; the offset
  -- that it expects next is the confirmed one of an open session and the length of a closed one.
  pub put_chunk-confirmed :
      (start count : ℤ) (a : Ack)
      → (serve (put_chunk H env id start count d payload) db).0 ≡ ok a
      → (offset : ℕ) × (start ≡ pos offset)
        × (count ≡ pos (length payload))
        × IsAnswered H id offset d payload a (serve (put_chunk H env id start count d payload) db).1
  put_chunk-confirmed start count a answered =
      elim (put_chunk-cases H env db id d payload start count) [
        | inl (e, refused) ↦ err_not_ok (sym (ap (λ (r : Result Ack × Tx). r.0) refused) ∙ answered)
        | inr h ↦
            (h.at, h.starts, h.counts ∙ ap pos (sym h.checked.filled), heard-Promises h a answered)
      ]
