-- ===== src/Examples/Uploads.antt =====
-- The rules of an upload, at a package of three bytes.
use seismic_trace_resumable.Prelude.{
  ◌^◌, ◌≡◌, ◌≢◌, refl, some, [], ◌∷◌, codes, text_dec, false, arith,
}
use seismic_trace_resumable.Prelude.Int.{pos}
use seismic_trace_resumable.Hashlib.{digest}
use seismic_trace_resumable.Model.{active}
use seismic_trace_resumable.Errors.{upload_error, session_not_found, whole_digest_mismatch}
use seismic_trace_resumable.Storage.{
  get_session, chunks_of, insert_by_offset, add_chunk, put_session,
}
use seismic_trace_resumable.Tx.{ok, err, opened, serve}
use seismic_trace_resumable.Invariant.{SameElsewhere}
use seismic_trace_resumable.Upload.Session.{create_session_in_columns, get_locked_session}
use seismic_trace_resumable.Upload.Session.Columns.{Registered, create_session_in_columns_lem}
use seismic_trace_resumable.Upload.Replay.{ack, terminal_error}
use seismic_trace_resumable.Upload.Put.{put_chunk, accept}
use seismic_trace_resumable.Upload.Put.Accept.{accept_lem, chunk, moved, moved_db}
use seismic_trace_resumable.Upload.Put.Request.{put_chunk-terminal}
use seismic_trace_resumable.Upload.Put.Keeps.{put_chunk-error}
use seismic_trace_resumable.Upload.Put.Isolation.{put_chunk-SameElsewhere}
use seismic_trace_resumable.Upload.Spec.{receive, package_of, view, verdict_of}
use seismic_trace_resumable.Upload.Spec.Refinement.{put_chunk-refines}
use seismic_trace_resumable.History.{empty_db}
use seismic_trace_resumable.Examples.Data.{
  plain, plain-IsLawful, env, sid, whole, registered, created, created-found, created-IsWellFormed,
  created-Tiles, archived, archive, archive-found, archive-Tiles,
}

put_chunk-refines_example :
    let (answer, db') =
      serve (put_chunk plain env sid (pos 0) (pos 2) (10 ∷ 20 ∷ []) (10 ∷ 20 ∷ [])) created in
    let (after, verdict) =
      receive (digest plain) false (package_of created registered) 0 (10 ∷ 20 ∷ []) in
    (view db' sid ≡ some after) × (verdict_of answer ≡ verdict)
put_chunk-refines_example =
    put_chunk-refines plain env plain-IsLawful created created-IsWellFormed sid registered 0
      (10 ∷ 20 ∷ []) created-found (omega arith)

-- One byte more than the column holds.
create_session_in_columns_lem_example :
    Registered plain env empty_db sid
      (2 ^ 63)
      whole
      (serve (create_session_in_columns plain env sid (2 ^ 63) whole) empty_db)
create_session_in_columns_lem_example =
    create_session_in_columns_lem plain env empty_db sid (2 ^ 63) whole

put_chunk-SameElsewhere_example :
    SameElsewhere sid created
      (serve (put_chunk plain env sid (pos 0) (pos 3) whole whole) created).1
put_chunk-SameElsewhere_example =
    put_chunk-SameElsewhere plain env plain-IsLawful created created-IsWellFormed sid (pos 0)
      (pos 3) whole whole

put_chunk-error_example :
    (serve (put_chunk plain env (codes "t") (pos 0) (pos 3) whole whole) created).1 ≡ created
put_chunk-error_example =
    put_chunk-error plain env plain-IsLawful created created-IsWellFormed (codes "t") (pos 0)
      (pos 3) whole whole (upload_error 404 session_not_found) no_such_session other_code
  where
    no_such_session :
        (serve (put_chunk plain env (codes "t") (pos 0) (pos 3) whole whole) created).0
        ≡ err (upload_error 404 session_not_found)
    no_such_session = unfold put_chunk get_locked_session get_session put_session text_dec in refl

    other_code : session_not_found ≢ whole_digest_mismatch
    other_code e = cc

-- A byte of the archive is another one in the request.
put_chunk-terminal_example :
    put_chunk plain env sid (pos 1) (pos 2) (20 ∷ 31 ∷ []) (20 ∷ 31 ∷ []) (opened archive)
    ≡ (err (terminal_error archived 1 2), opened archive)
unfolding chunks_of insert_by_offset text_dec
put_chunk-terminal_example =
    put_chunk-terminal plain env archive sid (20 ∷ 31 ∷ []) (20 ∷ 31 ∷ []) archived 1 2
      archive-found refl not_active refl archive-Tiles
      (record { filled = refl; digested = refl; fits = omega arith })
  where
    not_active : archived.status ≢ active
    not_active e = cc

accept_lem_example :
    accept plain env registered 0 2 (10 ∷ 20 ∷ []) (record {
      committed = created;
      working = add_chunk (chunk plain env created registered 2 (10 ∷ 20 ∷ [])) created;
    })
    ≡ (
      ok (ack (moved plain env created registered 2 (10 ∷ 20 ∷ [])) 0 2 (10 ∷ 20 ∷ []) false),
      opened (moved_db plain env created registered 2 (10 ∷ 20 ∷ [])),
    )
accept_lem_example =
    accept_lem plain env created registered 2 (10 ∷ 20 ∷ []) plain-IsLawful created-Tiles refl
      (omega arith)
