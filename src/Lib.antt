-- ===== src/Lib.antt =====
-- The upload service of app/: a client registers a seismograph record package (its length and its
-- whole SHA-256), sends it in chunks that may be interrupted, resumed and repeated, and reads it
-- back once it is sealed.
--
-- Parts, and how they interact:
-- - Model.antt: the rows of app/models.py (UploadSession, Chunk, AuditEvent, Comparison) and the
--   lifecycle states.
-- - Errors.antt: app/errors.py, UploadError with its code and location, and to_body.
-- - Hashlib.antt: what the code takes from `hashlib`. SHA-256 is a parameter; the one law is that
--   `update` appends. No theorem assumes that digests of different bytes differ.
-- - Storage.antt: the tables and the statements of app/service.py (db.get, the SELECTs with their
--   ORDER BY, the INSERTs with the unique constraints of models.py); laws in Storage/Laws.antt.
-- - Tx.antt: one request's SQLAlchemy session, as what is committed and what the transaction sees;
--   commit, rollback, and get_db of app/database.py, whose close drops what is not committed.
-- - Audit.antt: _next_audit_sequence, _add_audit, get_audit_trail.
-- - Upload/Session.antt: create_session, _get_locked_session. Upload/Archive.antt: _chunks_in_range,
--   _archived_bytes. Upload/Finalize.antt: _verify_and_finalize. Upload/Replay.antt: _ack,
--   _stale_offset_error, _terminal_replay. Upload/Put.antt: put_chunk, check by check.
-- - Download.antt: verified_sealed_bytes.
-- - Compare.antt: _streams_first_difference, with as many turns as there are blocks; Compare/Record.antt:
--   _verified_archive_chunks, create_comparison, get_comparison.
-- - Compact.antt: compact_sealed and _compact_result, with _planned_spans and the layouts in
--   Compact/Layout.antt and the two passes over the chunks in Compact/Passes.antt.
-- - Http.antt: app/main.py and app/schemas.py. Http/Strings.antt: the `str` methods they use.
--   Http/Ranges.antt: _parse_single_range, _unsatisfiable; Http/Ranges/Grammar.antt: the byte ranges of
--   RFC 9110. Http/Content.antt: download_content. Http/Digests.antt: _validate_sha256,
--   SHA256_QUERY_RE. Http/Uploads.antt: _chunk_payload, upload_chunk. Http/Handlers.antt: the two
--   exception handlers. Http/Responses.antt: the response classes and _session_to_response,
--   _comparison_to_response. Http/Sessions.antt: create_session, list_sessions, get_session,
--   list_chunks. Http/Archives.antt: health, get_audit_trail, compact_session, create_comparison,
--   get_comparison. Http/Served.antt: sequences of calls of all routes.
-- - Startup.antt: _database_url of app/config.py and wait_for_database of app/database.py.
-- - History.antt: sequences of registrations, uploads and comparisons of any
--   clients; a piece-by-piece client in History/Uploads; compactions among them in History/Lives;
--   what a session keeps over them in History/Terms, what stored comparisons say of the archives in
--   History/Truths, and a repeated upload in History/Retry.
--   History/Interleaved.antt, Http/Content/Among.antt and Http/Sessions/Among.antt: the requests that
--   read in several statements without the row lock, with what others commit between the statements.
--
-- Layout.antt says when chunks tile a span, Invariant.antt when a database is well formed: every
-- session's chunks tile [0, confirmed_offset) with intact rows; an active session lacks bytes, a
-- sealed one has the registered digest and a trail that begins with its seal, a failed one has
-- another digest. Upload/Spec.antt is the protocol with no rows and no transactions: a package is a
-- length, a digest, the bytes so far and a status.
--
-- Choices. The row lock (SELECT FOR UPDATE) makes the requests on one session run one after the
-- other, so a request is one step. The requests without the lock are one step in the histories, and
-- the files named above say when that is right. The clock, the new identifier and whether the
-- database refuses the flush of an audit row are inputs. Lengths and offsets that the code has
-- checked are natural numbers, and the client's are integers. Loops over chunks are structural; the
-- walk over two archives takes a number of turns, and as many as both have blocks are enough. A
-- text is its code points; a digest is compared as a text. The cuts of a compaction take as many
-- turns as there are bytes, which is enough, and the wait for the server one turn more than the
-- timeout has seconds.
-- MAX_CHUNK_BYTES, the number of digits that `int` converts (sys.get_int_max_str_digits, 0 for no
-- limit), the clock and what the database does with a negative LIMIT and with `SELECT 1` are parameters.
--
-- Not modelled: what FastAPI and pydantic do on their own (routing, coercion of parameters, the
-- list of what does not validate), engine setup and table creation, the settings that are read as
-- integers, the prose of messages, the columns updated_at and the chunk's created_at. A column has
-- no width but total_bytes when a session is registered (Upload/Session/Columns): the histories
-- register any length, and other numbers that do not fit a BigInteger, which the database refuses,
-- are stored. A request has its session in hand while it is answered: what db.refresh would read
-- of a later commit by another request is left out. The tables have no indexes and check no
-- foreign keys. Sessions sealed by a program without audit rows are outside the invariant.
pub mod Prelude
pub mod Model
pub mod Errors
pub mod Hashlib
pub mod Storage
pub mod Tx
pub mod Layout
pub mod Invariant
pub mod Audit
pub mod Upload
pub mod Download
pub mod Compare
pub mod Compact
pub mod Http
pub mod Startup
pub mod History
mod Examples
