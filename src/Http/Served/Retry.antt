-- ===== src/Http/Served/Retry.antt =====
-- A PUT whose answer was lost on the way, sent again over HTTP.
use seismic_trace_resumable.Prelude.{joined, ℕ, ◌≡◌, ◌<◌, Text, Bytes, true, some, List, length}
use seismic_trace_resumable.Prelude.Int.{ℤ, pos}
use seismic_trace_resumable.Hashlib.{Hashlib, IsLawful}
use seismic_trace_resumable.Model.{UploadSession}
use seismic_trace_resumable.Storage.{Db, get_session}
use seismic_trace_resumable.Tx.{ok, serve}
use seismic_trace_resumable.Audit.{Env}
use seismic_trace_resumable.Invariant.{IsWellFormed}
use seismic_trace_resumable.Upload.Replay.{ack}
use seismic_trace_resumable.History.Lives.{Lives}
use seismic_trace_resumable.Http.Responses.{chunk_ack}
use seismic_trace_resumable.Http.Strings.{lower}
use seismic_trace_resumable.Http.Uploads.{upload_request}
use seismic_trace_resumable.Http.Served.{Server, Served}
use seismic_trace_resumable.Http.Served.Quiet.{IsQuiet}

module _ (H : Hashlib) (L : IsLawful H) (server : Server) (quiet : IsQuiet server) (env : Env)
    (db : Db) (w : IsWellFormed H db) (id : Text) (start count : ℤ) (sha256 : Text)
    (blocks : List Bytes) (nonempty : 0 < length (joined blocks)) where
  -- The answer to the same request at a later time.
  pub record IsReplayed (later : Env) (db' : Db) : Type 0 where
    pub session : UploadSession
    pub offset : ℕ
    pub found : get_session db' id ≡ some session
    pub starts : start ≡ pos offset
    pub again :
        serve (upload_request H later server.max_chunk_bytes id start count sha256 blocks) db'
        ≡ (ok (chunk_ack (ack session offset (length (joined blocks)) (lower sha256) true)), db')
