-- ===== src/Examples/Served.antt =====
-- Sequences of calls, over HTTP.
use seismic_trace_resumable.Prelude.{
  ℕ, ◌++◌, ◌≢◌, ◌≡◌, ◌≤◌, refl, ap, Bytes, false, [], ◌∷◌, List, some, arith, length,
}
use seismic_trace_resumable.Prelude.Int.{pos}
use seismic_trace_resumable.Hashlib.{digest}
use seismic_trace_resumable.Errors.{UploadError, integer}
use seismic_trace_resumable.Model.{UploadSession}
use seismic_trace_resumable.Storage.{Db, get_session, chunks_of}
use seismic_trace_resumable.Tx.{Result, ok, err, serve}
use seismic_trace_resumable.Layout.{contents}
use seismic_trace_resumable.Invariant.{IsWellFormed}
use seismic_trace_resumable.Upload.Replay.{Ack, ack}
use seismic_trace_resumable.Upload.Put.{put_chunk}
use seismic_trace_resumable.Upload.Put.Accept.{moved}
use seismic_trace_resumable.Upload.Put.Confirmed.{IsAnswered, put_chunk-confirmed}
use seismic_trace_resumable.History.{empty_db, put, after}
use seismic_trace_resumable.History.Lives.{Lives, begins, requested}
use seismic_trace_resumable.History.Terms.{Lives-checkpoint}
use seismic_trace_resumable.History.Race.{put_chunk-exclusive}
use seismic_trace_resumable.History.Widths.{IsNarrow, Lives-IsNarrow}
use seismic_trace_resumable.Http.Digests.{validate_sha256}
use seismic_trace_resumable.Http.Responses.{session_to_response}
use seismic_trace_resumable.Http.Content.{download_content}
use seismic_trace_resumable.Http.Content.Sealed.{whole_answer}
use seismic_trace_resumable.Http.Sessions.{show_session}
use seismic_trace_resumable.Http.Served.{
  register, upload, repack, read_content, after_call, after_read, Served, opens, calls,
}
use seismic_trace_resumable.Http.Served.Quiet.{after_read-unchanged}
use seismic_trace_resumable.Http.Served.Lives.{Served-IsWellFormed}
use seismic_trace_resumable.Http.Served.RoundTrip.{send_bodies, send_bodies-download_content}
use seismic_trace_resumable.Http.Served.Resume.{resumed-download_content}
use seismic_trace_resumable.Examples.Data.{env, sid, sid-fresh}
use seismic_trace_resumable.Examples.Hexed.{
  hexed, hexed-IsLawful, hexed-IsHexadecimal, server, server-IsQuiet, empty-IsWellFormed, two,
  three, opened_session, opened_db, opened_db-IsWellFormed, halfway, halfway-stored, halfway-found,
  halfway-IsWellFormed, halfway-IsInterrupted,
}

-- A body in two blocks, and the last byte.
abbrev blocks : List Bytes
blocks = (1 ∷ []) ∷ (2 ∷ []) ∷ []

abbrev last_byte : List Bytes
last_byte = (3 ∷ []) ∷ []

three-taken : validate_sha256 (digest hexed three) ≡ some (digest hexed three)
unfolding validate_sha256
three-taken = refl

abbrev sent : Db
sent =
    send_bodies hexed hexed-IsLawful server env sid 0 (blocks ∷ last_byte ∷ [])
      (after_call hexed server env (register sid (pos 3) (digest hexed three)) empty_db)

-- A compaction and a byte that differs.
abbrev afterwards : Db
afterwards =
    after_call hexed server env (upload sid (pos 0) (pos 1) (digest hexed (9 ∷ [])) ((9 ∷ []) ∷ []))
      (after_call hexed server env (repack sid (integer (pos 1))) sent)

abbrev busy : Served hexed server sent afterwards
busy =
    calls (calls opens env (repack sid (integer (pos 1))) tt) env
      (upload sid (pos 0) (pos 1) (digest hexed (9 ∷ [])) ((9 ∷ []) ∷ [])) tt

send_bodies-download_content_example :
    (u : UploadSession) × (u.whole_sha256 ≡ digest hexed three)
    × (serve (download_content hexed server.digit_limit sid []) afterwards
        ≡ (ok (whole_answer u three), afterwards))
send_bodies-download_content_example =
    send_bodies-download_content hexed hexed-IsLawful server env hexed-IsHexadecimal server-IsQuiet
      empty_db empty-IsWellFormed sid sid-fresh blocks (last_byte ∷ [])
      (omega arith, (omega arith, tt)) (omega arith, (omega arith, tt)) (digest hexed three)
      three-taken refl afterwards busy

Served-IsWellFormed_example :
    IsWellFormed hexed (after_call hexed server env (repack sid (integer (pos 1))) opened_db)
Served-IsWellFormed_example =
    Served-IsWellFormed hexed hexed-IsLawful server server-IsQuiet
      (calls opens env (repack sid (integer (pos 1))) tt) opened_db-IsWellFormed

after_read-unchanged_example : after_read hexed server (read_content sid []) halfway ≡ halfway
after_read-unchanged_example =
    after_read-unchanged hexed server server-IsQuiet (read_content sid []) halfway

abbrev first_put : Db
first_put =
    after_call hexed server env (upload sid (pos 0) (pos 2) (digest hexed two) blocks) opened_db

abbrev last_put : Db
last_put =
    after_call hexed server env (upload sid (pos 2) (pos 1) (digest hexed (3 ∷ [])) last_byte)
      first_put

shown :
    (serve (show_session sid) halfway).0
    ≡ ok (session_to_response (moved hexed env opened_db opened_session 2 two))
unfolding show_session
shown = rw halfway-found refl

resumed-download_content_example :
    (u : UploadSession) × (u.whole_sha256 ≡ digest hexed three)
    × (serve
          (download_content hexed server.digit_limit sid [])
          (send_bodies hexed hexed-IsLawful server env sid 2 (last_byte ∷ []) halfway)
        ≡ (
          ok (whole_answer u three),
          send_bodies hexed hexed-IsLawful server env sid 2 (last_byte ∷ []) halfway,
        ))
resumed-download_content_example =
    resumed-download_content hexed hexed-IsLawful server env hexed-IsHexadecimal server-IsQuiet
      halfway halfway-IsWellFormed sid three halfway-IsInterrupted
      (session_to_response (moved hexed env opened_db opened_session 2 two)) shown refl last_byte []
      (omega arith, tt) (omega arith, tt) refl
      (send_bodies hexed hexed-IsLawful server env sid 2 (last_byte ∷ []) halfway) opens

put_chunk-confirmed_example :
    (offset : ℕ) × (pos 0 ≡ pos offset)
    × (pos 2 ≡ pos (length two))
    × IsAnswered hexed sid offset
        (digest hexed two)
        two
        (ack (moved hexed env opened_db opened_session 2 two) 0 2 (digest hexed two) false)
        (serve (put_chunk hexed env sid (pos 0) (pos 2) (digest hexed two) two) opened_db).1
put_chunk-confirmed_example =
    put_chunk-confirmed hexed env hexed-IsLawful opened_db opened_db-IsWellFormed sid
      (digest hexed two) two (pos 0) (pos 2)
      (ack (moved hexed env opened_db opened_session 2 two) 0 2 (digest hexed two) false)
      (ap (λ (r : Result Ack × Db). r.0) halfway-stored)

abbrev finished : Db
finished = after hexed env (put sid (pos 2) (pos 1) (digest hexed (3 ∷ [])) (3 ∷ [])) halfway

abbrev finishing : Lives hexed halfway finished
finishing = requested begins env (put sid (pos 2) (pos 1) (digest hexed (3 ∷ [])) (3 ∷ [])) tt

Lives-checkpoint_example :
    (u : UploadSession) × (get_session finished sid ≡ some u)
    × (u.total_bytes ≡ 3)
    × (u.whole_sha256 ≡ digest hexed three)
    × (2 ≤ u.confirmed_offset)
    × ((more : Bytes) × (contents (chunks_of finished sid)
          ≡ contents (chunks_of halfway sid) ++ more))
Lives-checkpoint_example =
    Lives-checkpoint hexed hexed-IsLawful finishing halfway-IsWellFormed sid
      (moved hexed env opened_db opened_session 2 two) halfway-found

-- The columns hold what is below 2 ^ 63.
Lives-IsNarrow_example : IsNarrow 9223372036854775808 sid finished
Lives-IsNarrow_example =
    Lives-IsNarrow hexed hexed-IsLawful 9223372036854775808 finishing halfway-IsWellFormed sid 3
      (digest hexed three)
      (record {
        session = moved hexed env opened_db opened_session 2 two;
        found = halfway-found;
        long = refl;
        hashed = refl;
      })
      (omega arith)

abbrev finished_first : Db
finished_first =
    after hexed env (put sid (pos 2) (pos 1) (digest hexed (3 ∷ [])) (3 ∷ []))
      (after hexed env (put sid (pos 0) (pos 2) (digest hexed two) two) opened_db)

-- Another client has another second byte.
put_chunk-exclusive_example :
    (e : UploadError) × (serve
        (put_chunk hexed env sid (pos 0) (pos 2) (digest hexed (1 ∷ 9 ∷ [])) (1 ∷ 9 ∷ []))
        finished_first
      ≡ (err e, finished_first))
put_chunk-exclusive_example =
    put_chunk-exclusive hexed hexed-IsLawful env opened_db opened_db-IsWellFormed sid (pos 0)
      (pos 2) (digest hexed two) two
      (ack (moved hexed env opened_db opened_session 2 two) 0 2 (digest hexed two) false)
      (ap (λ (r : Result Ack × Db). r.0) halfway-stored) env finished_first
      (requested begins env (put sid (pos 2) (pos 1) (digest hexed (3 ∷ [])) (3 ∷ [])) tt)
      (digest hexed (1 ∷ 9 ∷ [])) (1 ∷ 9 ∷ []) refl other_bytes
  where
    other_bytes : (1 ∷ 9 ∷ []) ≢ two
    other_bytes e = cc
