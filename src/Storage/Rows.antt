-- ===== src/Storage/Rows.antt =====
-- Whole groups of chunk rows: those of a session, deleted, and new ones inserted in order.
use seismic_trace_resumable.Prelude.{
  ℕ, Text, ◌=?◌, =?_ne, =?_iff, ◌≡◌, ◌≢◌, refl, sym, ap, ◌∙◌, some, false, Bool-cases, inl, inr,
  List, [], ◌∷◌, ◌++◌, append-nil, append_assoc, arith, leb, if◌then◌else◌,
}
use seismic_trace_resumable.Hashlib.{Hashlib}
use seismic_trace_resumable.Model.{Chunk}
use seismic_trace_resumable.Layout.{Tiles, Tiles-append, has_offset-end, insert_by_offset-end}
use seismic_trace_resumable.Storage.{
  Db, order_chunks, drop_rows, get_session, chunks_of, audit_of, has_offset, insert_by_offset,
  insert_chunk, insert_chunks, add_chunk, delete_chunks,
}
use seismic_trace_resumable.Storage.Laws.{
  chunks_of-add_chunk, get_session-add_chunk, audit_of-add_chunk,
}

order_chunks-drop_rows :
    (id j : Text) (rows : List Chunk)
    → order_chunks j (drop_rows id rows) ≡ (if id =? j then [] else order_chunks j rows)
unfolding order_chunks drop_rows
order_chunks-drop_rows id j [] = ground arith
order_chunks-drop_rows id j (c ∷ rows) = ground (arith, order_chunks-drop_rows id j rows)

module _ (id : Text) (db : Db) (j : Text) where
  pub chunks_of-delete_chunks :
      chunks_of (delete_chunks id db) j ≡ (if id =? j then [] else chunks_of db j)
  unfolding chunks_of delete_chunks
  chunks_of-delete_chunks = order_chunks-drop_rows id j db.chunks

  pub get_session-delete_chunks : get_session (delete_chunks id db) j ≡ get_session db j
  unfolding get_session delete_chunks
  get_session-delete_chunks = refl

  pub audit_of-delete_chunks : audit_of (delete_chunks id db) j ≡ audit_of db j
  unfolding audit_of delete_chunks
  audit_of-delete_chunks = refl

-- Rows of one session.
abbrev pub Owned : Text → List Chunk → Type 0
Owned id [] = Unit
Owned id (c ∷ cs) = (c.session_id ≡ id) × Owned id cs

Owned-insert_by_offset :
    (id : Text) (c : Chunk) (cs : List Chunk)
    → c.session_id ≡ id
    → Owned id cs
    → Owned id (insert_by_offset c cs)
unfolding insert_by_offset
Owned-insert_by_offset id c [] own h = (own, tt)
Owned-insert_by_offset id c (d ∷ ds) own h = elim (Bool-cases (leb c.start_offset d.start_offset)) [
  | inl first ↦ rw first (own, h)
  | inr later ↦ rw later (h.0, Owned-insert_by_offset id c ds own h.1)
]

Owned-order_chunks : (id : Text) (rows : List Chunk) → Owned id (order_chunks id rows)
unfolding order_chunks
Owned-order_chunks id [] = tt
Owned-order_chunks id (c ∷ rows) = elim (Bool-cases (c.session_id =? id)) [
  | inl own ↦ rw own (
      Owned-insert_by_offset id c (order_chunks id rows) ((=?_iff c.session_id id).0 own)
        (Owned-order_chunks id rows))
  | inr other ↦ rw other (Owned-order_chunks id rows)
]

pub chunks_of-Owned : (db : Db) (id : Text) → Owned id (chunks_of db id)
unfolding chunks_of
chunks_of-Owned db id = Owned-order_chunks id db.chunks

-- The database with rows added one by one.
abbrev pub added : List Chunk → Db → Db
added [] db = db
added (c ∷ cs) db = added cs (add_chunk c db)

module _ (id : Text) where
  pub get_session-added :
      (cs : List Chunk) (db : Db) (j : Text) → get_session (added cs db) j ≡ get_session db j
  get_session-added [] db j = refl
  get_session-added (c ∷ cs) db j =
      get_session-added cs (add_chunk c db) j ∙ get_session-add_chunk db j c

  pub audit_of-added :
      (cs : List Chunk) (db : Db) (j : Text) → audit_of (added cs db) j ≡ audit_of db j
  audit_of-added [] db j = refl
  audit_of-added (c ∷ cs) db j = audit_of-added cs (add_chunk c db) j ∙ audit_of-add_chunk db j c

  pub chunks_of-added_elsewhere :
      (cs : List Chunk) (db : Db) (j : Text)
      → Owned id cs
      → id ≢ j
      → chunks_of (added cs db) j ≡ chunks_of db j
  chunks_of-added_elsewhere [] db j own other = refl
  chunks_of-added_elsewhere (c ∷ cs) db j own other =
      chunks_of-added_elsewhere cs (add_chunk c db) j own.1 other
      ∙ chunks_of-add_chunk db j c
      ∙ rw (own.0, =?_ne id j other) refl

  module _ (H : Hashlib) where
    added_one :
        (c : Chunk) (db : Db) (a : ℕ)
        → Tiles H 0 (chunks_of db id) a
        → c.start_offset ≡ a
        → c.session_id ≡ id
        → chunks_of (add_chunk c db) id ≡ chunks_of db id ++ c ∷ []
    added_one c db a tiles here own =
        chunks_of-add_chunk db id c
        ∙ rw ((=?_iff c.session_id id).1 own)
            (insert_by_offset-end H 0 (chunks_of db id) a c tiles (omega arith))

    one-Tiles :
        (c : Chunk) (cs : List Chunk) (db : Db) (a b : ℕ)
        → Tiles H 0 (chunks_of db id) a
        → Tiles H a (c ∷ cs) b
        → c.session_id ≡ id
        → Tiles H 0 (chunks_of (add_chunk c db) id) c.end_offset
    one-Tiles c cs db a b tiles h own =
        rw (added_one c db a tiles h.1 own)
          (Tiles-append H 0 (chunks_of db id) a (c ∷ []) c.end_offset tiles (h.0, h.1, refl))

    -- Rows that go on where the session's rows end come behind them.
    pub chunks_of-added :
        (cs : List Chunk) (db : Db) (a b : ℕ)
        → Tiles H 0 (chunks_of db id) a
        → Tiles H a cs b
        → Owned id cs
        → chunks_of (added cs db) id ≡ chunks_of db id ++ cs
    chunks_of-added [] db a b tiles h own = sym (append-nil _)
    chunks_of-added (c ∷ cs) db a b tiles h own =
        chunks_of-added cs (add_chunk c db) c.end_offset b (one-Tiles c cs db a b tiles h own.0) h.2
          own.1
        ∙ rw (added_one c db a tiles h.1 own.0) (append_assoc (chunks_of db id) (c ∷ []) cs)

    -- The unique constraint stops none of them.
    pub insert_chunks-Tiles :
        (cs : List Chunk) (db : Db) (a b : ℕ)
        → Tiles H 0 (chunks_of db id) a
        → Tiles H a cs b
        → Owned id cs
        → insert_chunks cs db ≡ some (added cs db)
    unfolding insert_chunks insert_chunk
    insert_chunks-Tiles [] db a b tiles h own = refl
    insert_chunks-Tiles (c ∷ cs) db a b tiles h own =
        rw (free, insert_chunk, insert_chunks)
          (insert_chunks-Tiles cs (add_chunk c db) c.end_offset b
            (one-Tiles c cs db a b tiles h own.0) h.2 own.1)
      where
        free : has_offset c.start_offset (chunks_of db c.session_id) ≡ false
        free =
            ap (λ j. has_offset c.start_offset (chunks_of db j)) own.0
            ∙ has_offset-end H 0 (chunks_of db id) a c.start_offset tiles (omega (arith, h.1))
