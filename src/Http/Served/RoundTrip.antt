-- ===== src/Http/Served/RoundTrip.antt =====
-- A package that goes through the routes: registered with POST /sessions, sent in PUT requests whose
-- bodies come in blocks, and read back with GET /content.
use seismic_trace_resumable.Prelude.{
  joined, AllNonempty, ℕ, ◌+◌, ◌≤◌, ◌≡◌, refl, ap, ◌∙◌, Text, Bytes, none, some, false, List, [],
  ◌∷◌, map, length,
}
use seismic_trace_resumable.Prelude.Int.{pos}
use mathlib.Core.Path.{subst}
use seismic_trace_resumable.Hashlib.{Hashlib, IsLawful, digest}
use seismic_trace_resumable.Model.{UploadSession}
use seismic_trace_resumable.Storage.{Db, get_session}
use seismic_trace_resumable.Tx.{Result, ok, serve}
use seismic_trace_resumable.Tx.Laws.{serve-pure_after}
use seismic_trace_resumable.Audit.{Env}
use seismic_trace_resumable.Invariant.{IsWellFormed}
use seismic_trace_resumable.Upload.Session.{create_session}
use seismic_trace_resumable.Upload.Put.{put_chunk}
use seismic_trace_resumable.History.{create, put, after}
use seismic_trace_resumable.History.Uploads.{send}
use seismic_trace_resumable.History.Lives.{Lives}
use seismic_trace_resumable.Http.Responses.{ChunkAck, session_to_response, chunk_ack}
use seismic_trace_resumable.Http.Content.{download_content}
use seismic_trace_resumable.Http.Content.Sealed.{whole_answer}
use seismic_trace_resumable.Http.Content.Lives.{send-download_content}
use seismic_trace_resumable.Http.Digests.{validate_sha256}
use seismic_trace_resumable.Http.Digests.Normal.{IsDigest}
use seismic_trace_resumable.Http.Uploads.Accepts.{upload_request-IsDigest}
use seismic_trace_resumable.Http.Sessions.{session_create, post_session}
use seismic_trace_resumable.Http.Served.{Server, register, upload, after_call, Served}
use seismic_trace_resumable.Http.Served.Quiet.{IsQuiet}
use seismic_trace_resumable.Http.Served.Lives.{Served-Lives}

-- `hexdigest` gives sixty-four hexadecimal digits in lower case.
pub record IsHexadecimal (H : Hashlib) : Type 0 where
  pub normal : (b : Bytes) → IsDigest (digest H b)

-- No body is longer than the limit.
abbrev pub AllWithin : ℕ → List (List Bytes) → Type 0
AllWithin limit [] = Unit
AllWithin limit (blocks ∷ bodies) = (length (joined blocks) ≤ limit) × AllWithin limit bodies

module _ (H : Hashlib) (L : IsLawful H) (server : Server) (env : Env) where
  -- One PUT after the other, each at the offset where the one before it ends.
  abbrev pub send_bodies : Text → ℕ → List (List Bytes) → Db → Db
  send_bodies id start [] db = db
  send_bodies id start (blocks ∷ bodies) db =
      let n = length (joined blocks) in
      send_bodies id (start + n) bodies (
        after_call H server env (upload id (pos start) (pos n) (digest H (joined blocks)) blocks)
          db)

  pub send_bodies-send :
      IsHexadecimal H
      → (id : Text) (start : ℕ) (bodies : List (List Bytes)) (db : Db)
      → AllWithin server.max_chunk_bytes bodies
      → send_bodies id start bodies db ≡ send H L env id start (map joined bodies) db
  send_bodies-send hex id start [] db within = refl
  send_bodies-send hex id start (blocks ∷ bodies) db (fits, within) = rw uploaded (
      send_bodies-send hex id (start + length (joined blocks)) bodies
        (after H env (put id (pos start) (pos n) (digest H payload) payload) db) within)
    where
      payload : Bytes
      payload = joined blocks

      n : ℕ
      n = length payload

      uploaded :
          after_call H server env (upload id (pos start) (pos n) (digest H payload) blocks) db
          ≡ after H env (put id (pos start) (pos n) (digest H payload) payload) db
      uploaded =
          ap (λ (r : Result ChunkAck × Db). r.1)
            (upload_request-IsDigest H env server.max_chunk_bytes db id start (digest H payload)
              blocks (hex.normal payload) fits)
          ∙ serve-pure_after chunk_ack
              (put_chunk H env id (pos start) (pos n) (digest H payload) payload) db

  register-create :
      (db : Db) (id : Text) (total : ℕ) (spelled whole : Text)
      → validate_sha256 spelled ≡ some whole
      → after_call H server env (register id (pos total) spelled) db
        ≡ after H env (create id total whole) db
  unfolding session_create post_session
  register-create db id total spelled whole valid =
      rw (valid, after_call, session_create)
        (serve-pure_after session_to_response (create_session H env id total whole) db)

  -- A package that is registered over POST /sessions, its digest in any spelling that the schema takes
  -- for it, and sent in PUT requests, none of them empty and none longer than the limit, whatever blocks
  -- their bodies come in, is answered by GET /content as it was: 200, exactly its bytes, their number
  -- and their digest. That holds at any later time, whatever calls of any routes come between, and the
  -- download writes nothing. The flush of the audit row is taken to succeed, and `hexdigest` to give
  -- sixty-four hexadecimal digits.
  pub send_bodies-download_content :
      IsHexadecimal H
      → IsQuiet server
      → (db : Db) → IsWellFormed H db
      → (id : Text) → get_session db id ≡ none
      → (body : List Bytes) (bodies : List (List Bytes))
      → let whole = joined (map joined (body ∷ bodies)) in
        AllNonempty (map joined (body ∷ bodies))
        → AllWithin server.max_chunk_bytes (body ∷ bodies)
        → (spelled : Text) → validate_sha256 spelled ≡ some (digest H whole)
        → env.refuses_audit ≡ false
        → (db' : Db)
        → Served H server
            (send_bodies id 0
              (body ∷ bodies)
              (after_call H server env (register id (pos (length whole)) spelled) db))
            db'
        → (u : UploadSession) × (u.whole_sha256 ≡ digest H whole)
          × (serve (download_content H server.digit_limit id []) db'
              ≡ (ok (whole_answer u whole), db'))
  send_bodies-download_content hex quiet db w id fresh body bodies some_bytes within spelled valid
        written db' served =
      send-download_content H L server.digit_limit env db w id fresh (joined body)
        (map joined bodies) some_bytes written db'
        (subst (λ (d : Db). Lives H d db') sent (Served-Lives H L server quiet served))
    where
      whole : Bytes
      whole = joined (map joined (body ∷ bodies))

      sent :
          send_bodies id 0
            (body ∷ bodies)
            (after_call H server env (register id (pos (length whole)) spelled) db)
          ≡ send H L env id 0
              (map joined (body ∷ bodies))
              (after H env (create id (length whole) (digest H whole)) db)
      sent =
          send_bodies-send hex id 0 (body ∷ bodies) _ within
          ∙ ap (send H L env id 0 (map joined (body ∷ bodies)))
              (register-create db id (length whole) spelled (digest H whole) valid)
