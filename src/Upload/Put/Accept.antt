-- ===== src/Upload/Put/Accept.antt =====
-- What storing the expected chunk does to a sound session, on every branch.
use seismic_trace_resumable.Prelude.{
  ℕ, ◌+◌, ◌<◌, ◌≡◌, refl, ap, ◌∙◌, Bytes, ◌=?◌, =?_refl, true, false, none, some, [], ◌∷◌, ◌++◌,
  append-nil, length, arith, ◌==◌, if◌then◌else◌,
}
use seismic_trace_resumable.Prelude.Int.{pos}
use seismic_trace_resumable.Hashlib.{Hashlib, IsLawful, digest}
use seismic_trace_resumable.Model.{UploadSession, Chunk, AuditEvent, sealed, failed, audit_sealed}
use seismic_trace_resumable.Errors.{upload_error, audit_write_failed, whole_digest_mismatch}
use seismic_trace_resumable.Storage.{
  Db, put_session, add_chunk, add_audit_event, insert_chunk, chunks_of,
}
use seismic_trace_resumable.Storage.Laws.{chunks_of-put_session, chunks_of-add_chunk}
use seismic_trace_resumable.Tx.{ok, err}
use seismic_trace_resumable.Audit.{Env}
use seismic_trace_resumable.Audit.Laws.{audit_row, add_audit_lem}
use seismic_trace_resumable.Layout.{
  contents, contents-append, Tiles, IsIntact, Tiles-append, insert_by_offset-end, has_offset-end,
}
use seismic_trace_resumable.Upload.Finalize.{recompute, verify_and_finalize, mismatch_reason}
use seismic_trace_resumable.Upload.Finalize.Digest.{recompute-Tiles}
use seismic_trace_resumable.Upload.Replay.{ack}
use seismic_trace_resumable.Upload.Put.{new_chunk, flush_chunk, accept, finalize_at_end}

module _ (H : Hashlib) (env : Env) (db : Db) (u : UploadSession) (n : ℕ) (payload : Bytes) where
  abbrev pub chunk : Chunk
  chunk = new_chunk u u.confirmed_offset n (digest H payload) payload

  abbrev pub moved : UploadSession
  moved = record u { confirmed_offset = u.confirmed_offset + n }

  abbrev pub moved_db : Db
  moved_db = put_session moved (add_chunk chunk db)

  abbrev pub sealed_session : UploadSession
  sealed_session = record moved {
    status = sealed;
    confirmed_offset = u.total_bytes;
    computed_sha256 = some u.whole_sha256;
    failure_reason = none;
  }

  -- The session is sealed, and its audit row not yet written.
  abbrev pub unaudited_db : Db
  unaudited_db = put_session sealed_session moved_db

  abbrev pub seal_row : AuditEvent
  seal_row =
      audit_row env sealed_session audit_sealed u.total_bytes u.whole_sha256 none none none
        unaudited_db

  abbrev pub sealed_db : Db
  sealed_db = add_audit_event seal_row unaudited_db

  -- The bytes of the package when the chunk is in.
  abbrev pub received : Bytes
  received = contents (chunks_of db u.id) ++ payload

  abbrev pub failed_session : UploadSession
  failed_session = record moved {
    status = failed;
    computed_sha256 = some (digest H received);
    failure_reason = some mismatch_reason;
  }

  abbrev pub failed_db : Db
  failed_db = put_session failed_session moved_db

  module _ (L : IsLawful H) (tiles : Tiles H 0 (chunks_of db u.id) u.confirmed_offset)
      (filled : length payload ≡ n) (nonempty : 0 < n) where
    pub chunk-IsIntact : IsIntact H chunk
    chunk-IsIntact = record {
      span = refl;
      filled = filled;
      digested = refl;
      nonempty = omega arith;
    }

    pub chunks_of-chunk : chunks_of (add_chunk chunk db) u.id ≡ chunks_of db u.id ++ chunk ∷ []
    chunks_of-chunk =
        simp (chunks_of-add_chunk, =?_refl)
          (insert_by_offset-end H 0 (chunks_of db u.id) u.confirmed_offset chunk tiles
            (omega arith))

    pub Tiles-chunk : Tiles H 0 (chunks_of db u.id ++ chunk ∷ []) (u.confirmed_offset + n)
    Tiles-chunk =
        Tiles-append H 0 (chunks_of db u.id) u.confirmed_offset (chunk ∷ [])
          (u.confirmed_offset + n) tiles (chunk-IsIntact, refl, refl)

    pub contents-chunk : contents (chunks_of db u.id ++ chunk ∷ []) ≡ received
    contents-chunk =
        contents-append (chunks_of db u.id) (chunk ∷ [])
        ∙ ap (λ l. contents (chunks_of db u.id) ++ l) (append-nil payload)

    -- The unique constraint does not stop the chunk at the frontier.
    pub flush_chunk_lem :
        flush_chunk chunk (record { committed = db; working = db })
        ≡ (ok true, record { committed = db; working = add_chunk chunk db })
    unfolding flush_chunk insert_chunk
    flush_chunk_lem =
        rw
          (
            has_offset-end H 0 (chunks_of db u.id) u.confirmed_offset u.confirmed_offset tiles
                (omega arith),
            flush_chunk,
            insert_chunk,
          )
          refl

    recompute_lem :
        recompute H (chunks_of moved_db u.id) 0 (H.sha256 []) u.total_bytes
        ≡ (if u.confirmed_offset + n == u.total_bytes then some (digest H received) else none)
    recompute_lem =
        rw
          (
            chunks_of-put_session,
            chunks_of-chunk,
            recompute-Tiles H L _ _ u.total_bytes Tiles-chunk,
            contents-chunk,
          )
          refl

    -- Once the next chunk of a gapless archive is flushed, the checkpoint moves; a complete package is
    -- sealed if its digest is the registered one and the audit row is written, everything is rolled
    -- back if the audit row is refused, and the session fails if the digest is another one.
    pub accept_lem :
        accept H env u u.confirmed_offset n
          (digest H payload)
          (record { committed = db; working = add_chunk chunk db })
        ≡ (if u.confirmed_offset + n == u.total_bytes
            then (if digest H received =? u.whole_sha256
                then (if env.refuses_audit
                    then (
                      err (upload_error 500 audit_write_failed),
                      record { committed = db; working = db },
                    )
                    else (
                      ok (ack sealed_session u.confirmed_offset n (digest H payload) false),
                      record { committed = sealed_db; working = sealed_db },
                    ))
                else (
                  err (record (upload_error 422 whole_digest_mismatch) {
                    offset = some (pos u.total_bytes);
                    digest = some u.whole_sha256;
                    expected_digest = some (digest H received);
                  }),
                  record { committed = failed_db; working = failed_db },
                ))
            else (
              ok (ack moved u.confirmed_offset n (digest H payload) false),
              record { committed = moved_db; working = moved_db },
            ))
    unfolding accept finalize_at_end verify_and_finalize
    accept_lem = ground (
      arith,
      recompute_lem,
      add_audit_lem env sealed_session audit_sealed u.total_bytes u.whole_sha256 none none none
          (record { committed = db; working = put_session sealed_session moved_db }),
    )
