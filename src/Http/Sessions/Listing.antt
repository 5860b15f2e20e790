-- ===== src/Http/Sessions/Listing.antt =====
-- What the listing routes answer.
use seismic_trace_resumable.Prelude.{
  ℕ, zero, suc, ◌+◌, ◌≤◌, ◌<◌, ◌≡◌, min, inl, inr, le-or-lt, refl, sym, ap, ◌∙◌, Text, Option, none,
  some, true, List, [], ◌∷◌, ◌++◌, map, take, drop, take-nil, drop-drop, keep_if, lt→leb, le→leb,
  ◌=?◌, arith,
}
use seismic_trace_resumable.Prelude.Int.{pos}
use seismic_trace_resumable.Hashlib.{Hashlib}
use seismic_trace_resumable.Model.{UploadSession, Chunk}
use seismic_trace_resumable.Storage.{Db, get_session, chunks_of}
use seismic_trace_resumable.Tx.{Action, ok, serve}
use seismic_trace_resumable.Layout.{Tiles}
use seismic_trace_resumable.Invariant.{IsWellFormed}
use seismic_trace_resumable.Compact.Layout.{Span, layout_of}
use seismic_trace_resumable.Http.Responses.{SessionResponse, session_to_response}
use seismic_trace_resumable.Http.Sessions.{
  ChunkList, list_chunks, max_page, is_status, status_name, selected, newest_first, insert_newest,
  page_of, checked_page, list_sessions,
}

-- Listed chunks that follow each other from one offset to another.
abbrev pub Covered : ℕ → List Span → ℕ → Type 0
Covered a [] b = a ≡ b
Covered a (s ∷ rest) b =
    (s.start_offset ≡ a)
    × (s.start_offset + s.length ≡ s.end_offset)
    × (s.start_offset < s.end_offset)
    × Covered s.end_offset rest b

pub layout_of-Tiles :
    (H : Hashlib) (a : ℕ) (cs : List Chunk) (b : ℕ) → Tiles H a cs b → Covered a (layout_of cs) b
layout_of-Tiles H a [] b h = h
layout_of-Tiles H a (c ∷ cs) b (intact, here, rest) =
    (here, intact.span, intact.nonempty, layout_of-Tiles H c.end_offset cs b rest)

-- The chunks that are listed for a session of a well-formed database leave no gap and do not overlap,
-- from the package's first byte to the confirmed offset that is told with them.
pub list_chunks-Covered :
    (H : Hashlib) (db : Db)
    → IsWellFormed H db
    → (id : Text) (u : UploadSession) → get_session db id ≡ some u
    → (answer : ChunkList) × (serve (list_chunks id) db ≡ (ok answer, db))
      × (answer.confirmed_offset ≡ u.confirmed_offset)
      × Covered 0 answer.chunks answer.confirmed_offset
unfolding list_chunks
list_chunks-Covered H db w id u found = (
  record {
    id = id;
    status = u.status;
    confirmed_offset = u.confirmed_offset;
    total_bytes = u.total_bytes;
    chunks = layout_of (chunks_of db id);
  },
  rw found refl,
  refl,
  rw (← (w.sound id u found).0)
      (layout_of-Tiles H 0 _ u.confirmed_offset (w.sound id u found).1.tiles),
)

-- Rows registered at a time or before, each at least as old as the one before it.
abbrev pub Falling : ℕ → List UploadSession → Type 0
Falling t [] = Unit
Falling t (u ∷ us) = (u.created_at ≤ t) × Falling u.created_at us

abbrev pub IsNewestFirst : List UploadSession → Type 0
IsNewestFirst [] = Unit
IsNewestFirst (u ∷ us) = Falling u.created_at us

insert_newest-Falling :
    (t : ℕ) (u : UploadSession) (us : List UploadSession)
    → u.created_at ≤ t
    → Falling t us
    → Falling t (insert_newest u us)
unfolding insert_newest
insert_newest-Falling t u [] le h = (le, tt)
insert_newest-Falling t u (v ∷ vs) le h = elim (le-or-lt v.created_at u.created_at) [
  | inl older ↦ rw (le→leb v.created_at u.created_at older) (le, (older, h.1))
  | inr newer ↦
      rw (lt→leb v.created_at u.created_at newer)
        (h.0, insert_newest-Falling v.created_at u vs (omega (arith, newer)) h.1)
]

insert_newest-IsNewestFirst :
    (u : UploadSession) (us : List UploadSession)
    → IsNewestFirst us
    → IsNewestFirst (insert_newest u us)
unfolding insert_newest
insert_newest-IsNewestFirst u [] h = tt
insert_newest-IsNewestFirst u (v ∷ vs) h = elim (le-or-lt v.created_at u.created_at) [
  | inl older ↦ rw (le→leb v.created_at u.created_at older) (older, h)
  | inr newer ↦
      rw (lt→leb v.created_at u.created_at newer)
        (insert_newest-Falling v.created_at u vs (omega (arith, newer)) h)
]

newest_first-IsNewestFirst : (us : List UploadSession) → IsNewestFirst (newest_first us)
unfolding newest_first
newest_first-IsNewestFirst [] = tt
newest_first-IsNewestFirst (u ∷ us) =
    insert_newest-IsNewestFirst u (newest_first us) (newest_first-IsNewestFirst us)

pub selected-IsNewestFirst : (status : Option Text) (db : Db) → IsNewestFirst (selected status db)
unfolding selected
selected-IsNewestFirst none db = newest_first-IsNewestFirst db.sessions
selected-IsNewestFirst (some name) db =
    newest_first-IsNewestFirst (keep_if (λ u. status_name u.status =? name) db.sessions)

take-plus {ℓ} :
    {A : Type ℓ} (n m : ℕ) (xs : List A) → take (n + m) xs ≡ take n xs ++ take m (drop n xs)
take-plus zero m xs = ap (λ (k : ℕ). take k xs) (omega arith)
take-plus (suc n) m [] = take-nil (suc n + m) ∙ sym (take-nil m)
take-plus (suc n) m (x ∷ xs) =
    let e : suc n + m ≡ suc (n + m) = omega arith in rw e (ap (λ l. x ∷ l) (take-plus n m xs))

map-append :
    (xs ys : List UploadSession)
    → map session_to_response (xs ++ ys) ≡ map session_to_response xs ++ map session_to_response ys
map-append [] ys = refl
map-append (x ∷ xs) ys = ap (λ l. session_to_response x ∷ l) (map-append xs ys)

-- No filter, or one of the three states.
abbrev pub IsFilter : Option Text → Type 0
IsFilter none = Unit
IsFilter (some name) = is_status name ≡ true

module _ (negative : Action (List UploadSession)) (db : Db) where
  -- The sessions of a page, by their position among those that the filter keeps.
  abbrev pub page : Option Text → ℕ → ℕ → List SessionResponse
  page status limit offset = map session_to_response (take limit (drop offset (selected status db)))

  list_sessions-page :
      (status : Option Text) (limit offset : ℕ)
      → IsFilter status
      → limit ≤ max_page
      → serve (list_sessions negative status (pos limit) (pos offset)) db
        ≡ (ok (page status limit offset), db)
  unfolding list_sessions checked_page page_of
  list_sessions-page none limit offset h le =
      let e : min limit max_page ≡ limit = omega (arith, le) in rw e refl
  list_sessions-page (some name) limit offset h le =
      let e : min limit max_page ≡ limit = omega (arith, le) in rw (h, e) refl

  -- Two pages, one behind the other, list what one page of both sizes lists: no session is skipped or
  -- listed twice while the table stands.
  pub list_sessions-pages :
      (status : Option Text) (n m offset : ℕ)
      → IsFilter status
      → n + m ≤ max_page
      → (first second : List SessionResponse) × (serve
            (list_sessions negative status (pos n) (pos offset))
            db
          ≡ (ok first, db))
        × (serve (list_sessions negative status (pos m) (pos (offset + n))) db ≡ (ok second, db))
        × (serve (list_sessions negative status (pos (n + m)) (pos offset)) db
            ≡ (ok (first ++ second), db))
  list_sessions-pages status n m offset h le = (
    page status n offset,
    page status m (offset + n),
    list_sessions-page status n offset h (omega (arith, le)),
    list_sessions-page status m (offset + n) h (omega (arith, le)),
    list_sessions-page status (n + m) offset h le
        ∙ ap (λ (l : List SessionResponse). (ok l, db))
            (ap (map session_to_response) (take-plus n m (drop offset (selected status db)))
              ∙ map-append (take n (drop offset (selected status db)))
                  (take m (drop n (drop offset (selected status db))))
              ∙ ap
                  (λ l.
                    map session_to_response (take n (drop offset (selected status db)))
                    ++ map session_to_response (take m l))
                  (drop-drop n offset (selected status db))),
  )
