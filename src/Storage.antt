-- ===== src/Storage.antt =====
-- The tables of app/models.py and the statements that app/service.py sends. A table is the list of
-- its rows, the newest first; a SELECT filters it, and an ORDER BY inserts row by row. The two
-- unique constraints are the ones that models.py declares.
pub mod Laws
pub mod Rows
use seismic_trace_resumable.Prelude.{
  ℕ, max, Text, ◌=?◌, Bool, true, false, ◌||◌, Option, none, some, List, [], ◌∷◌, leb, ◌==◌,
  if◌then◌else◌,
}
use seismic_trace_resumable.Model.{UploadSession, Chunk, AuditEvent, Comparison}

pub record Db : Type 0 where
  pub sessions : List UploadSession
  pub chunks : List Chunk
  pub audit_events : List AuditEvent
  pub comparisons : List Comparison

find_session : Text → List UploadSession → Option UploadSession
find_session id [] = none
find_session id (s ∷ rows) = if s.id =? id then some s else find_session id rows

-- `db.get(UploadSession, id)`
unfoldable pub get_session : Db → Text → Option UploadSession
unfolding find_session
get_session db id = find_session id db.sessions

replace_session : UploadSession → List UploadSession → List UploadSession
replace_session u [] = u ∷ []
replace_session u (s ∷ rows) = if s.id =? u.id then u ∷ rows else s ∷ replace_session u rows

-- The INSERT of a new session, or the UPDATE of the row with its primary key.
unfoldable pub put_session : UploadSession → Db → Db
unfolding replace_session
put_session u db = record db { sessions = replace_session u db.sessions }

unfoldable pub insert_by_offset : Chunk → List Chunk → List Chunk
insert_by_offset c [] = c ∷ []
insert_by_offset c (d ∷ ds) =
    if leb c.start_offset d.start_offset then c ∷ d ∷ ds else d ∷ insert_by_offset c ds

order_chunks : Text → List Chunk → List Chunk
order_chunks id [] = []
order_chunks id (c ∷ rows) =
    let rest = order_chunks id rows in if c.session_id =? id then insert_by_offset c rest else rest

-- SELECT … FROM chunks WHERE session_id = id ORDER BY start_offset
unfoldable pub chunks_of : Db → Text → List Chunk
unfolding order_chunks insert_by_offset
chunks_of db id = order_chunks id db.chunks

-- Whether a row of the list has this start.
abbrev pub has_offset : ℕ → List Chunk → Bool
has_offset start [] = false
has_offset start (c ∷ cs) = c.start_offset == start || has_offset start cs

unfoldable pub add_chunk : Chunk → Db → Db
add_chunk c db = record db { chunks = c ∷ db.chunks }

-- An INSERT into chunks. `none` is the IntegrityError of `uq_chunk_session_offset`.
unfoldable pub insert_chunk : Chunk → Db → Option Db
unfolding add_chunk
insert_chunk c db =
    if has_offset c.start_offset (chunks_of db c.session_id) then none else some (add_chunk c db)

-- INSERTs of one flush, in order.
unfoldable pub insert_chunks : List Chunk → Db → Option Db
insert_chunks [] db = some db
insert_chunks (c ∷ cs) db = elim (insert_chunk c db) [
  | none ↦ none
  | some db' ↦ insert_chunks cs db'
]

drop_rows : Text → List Chunk → List Chunk
drop_rows id [] = []
drop_rows id (c ∷ rows) =
    let rest = drop_rows id rows in if c.session_id =? id then rest else c ∷ rest

-- The DELETE of each row that the SELECT of the session gives.
unfoldable pub delete_chunks : Text → Db → Db
unfolding drop_rows
delete_chunks id db = record db { chunks = drop_rows id db.chunks }

unfoldable pub insert_by_sequence : AuditEvent → List AuditEvent → List AuditEvent
insert_by_sequence a [] = a ∷ []
insert_by_sequence a (b ∷ bs) =
    if leb a.sequence b.sequence then a ∷ b ∷ bs else b ∷ insert_by_sequence a bs

order_audit : Text → List AuditEvent → List AuditEvent
order_audit id [] = []
order_audit id (a ∷ rows) =
    let rest = order_audit id rows in if a.session_id =? id then insert_by_sequence a rest else rest

-- SELECT … FROM audit_events WHERE session_id = id ORDER BY sequence
unfoldable pub audit_of : Db → Text → List AuditEvent
unfolding order_audit insert_by_sequence
audit_of db id = order_audit id db.audit_events

-- coalesce(max(sequence), 0)
abbrev pub max_sequence : List AuditEvent → ℕ
max_sequence [] = 0
max_sequence (a ∷ rows) = max a.sequence (max_sequence rows)

abbrev pub has_sequence : ℕ → List AuditEvent → Bool
has_sequence n [] = false
has_sequence n (a ∷ rows) = a.sequence == n || has_sequence n rows

unfoldable pub add_audit_event : AuditEvent → Db → Db
add_audit_event a db = record db { audit_events = a ∷ db.audit_events }

-- An INSERT into audit_events. `none` is the IntegrityError of `uq_audit_session_sequence`.
unfoldable pub insert_audit : AuditEvent → Db → Option Db
unfolding add_audit_event
insert_audit a db =
    if has_sequence a.sequence (audit_of db a.session_id) then none else some (add_audit_event a db)

find_comparison : Text → List Comparison → Option Comparison
find_comparison id [] = none
find_comparison id (c ∷ rows) = if c.id =? id then some c else find_comparison id rows

-- `db.get(Comparison, id)`
unfoldable pub stored_comparison : Db → Text → Option Comparison
unfolding find_comparison
stored_comparison db id = find_comparison id db.comparisons

-- The INSERT of a new row.
unfoldable pub add_comparison : Comparison → Db → Db
add_comparison c db = record db { comparisons = c ∷ db.comparisons }
