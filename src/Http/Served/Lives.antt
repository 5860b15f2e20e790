-- ===== src/Http/Served/Lives.antt =====
-- What the routes let through to the service: sequences of calls are sequences of the service's
-- requests and compactions.
use mathlib.Core.Path.{subst}
use seismic_trace_resumable.Prelude.{
  ◌≡◌, sym, ap, Text, Bytes, joined, Option-cases, none, inl, inr, List,
}
use seismic_trace_resumable.Prelude.Int.{ℤ, pos}
use seismic_trace_resumable.Hashlib.{Hashlib, IsLawful}
use seismic_trace_resumable.Errors.{integer}
use seismic_trace_resumable.Storage.{Db, get_session}
use seismic_trace_resumable.Tx.{Action, Result, serve, pure, ◌>>=◌}
use seismic_trace_resumable.Tx.Laws.{serve-pure_after}
use seismic_trace_resumable.Audit.{Env}
use seismic_trace_resumable.Invariant.{IsWellFormed}
use seismic_trace_resumable.Upload.Session.{create_session}
use seismic_trace_resumable.Upload.Put.{put_chunk}
use seismic_trace_resumable.Compact.{compact_sealed}
use seismic_trace_resumable.Compare.Record.{create_comparison}
use seismic_trace_resumable.History.{create, put, compare}
use seismic_trace_resumable.History.Lives.{Lives, begins, requested, compacts, Lives-IsWellFormed}
use seismic_trace_resumable.Http.Responses.{
  ChunkAck, session_to_response, chunk_ack, compact_response, comparison_to_response,
}
use seismic_trace_resumable.Http.Strings.{lower}
use seismic_trace_resumable.Http.Uploads.{upload_request}
use seismic_trace_resumable.Http.Uploads.Checks.{upload_request-cases}
use seismic_trace_resumable.Http.Sessions.{SessionCreate, session_create, post_session}
use seismic_trace_resumable.Http.Archives.{
  compact_request, compact_session, comparison_create, post_comparison,
}
use seismic_trace_resumable.Http.Served.{
  Server, Call, register, upload, repack, contrast, reads, IsDrawn, after_call, Served, opens,
  calls,
}
use seismic_trace_resumable.Http.Served.Quiet.{IsQuiet, after_read-unchanged}

module _ (H : Hashlib) (server : Server) (quiet : IsQuiet server) (env : Env) {old db : Db}
    (life : Lives H old db) where
  -- A route that passes the work on to an action, and makes a response of its result.
  passes_on :
      {A B : Type 0} (m : Action A) (f : A → B)
      → Lives H old (serve m db).1
      → Lives H old (serve (m >>= λ a. pure (f a)) db).1
  passes_on m f then_on = rw (serve-pure_after f m db) then_on

  registered :
      (id : Text) (payload : SessionCreate)
      → get_session db id ≡ none
      → Lives H old (serve (post_session H env id payload) db).1
  unfolding post_session
  registered id payload fresh =
      passes_on (create_session H env id payload.total_bytes payload.whole_sha256)
        session_to_response
        (requested life env (create id payload.total_bytes payload.whole_sha256) fresh)

  uploaded :
      (id : Text) (start count : ℤ) (sha256 : Text) (blocks : List Bytes)
      → Lives H old
          (serve (upload_request H env server.max_chunk_bytes id start count sha256 blocks) db).1
  uploaded id start count sha256 blocks =
      elim (upload_request-cases H env server.max_chunk_bytes db id sha256 start count blocks) [
        | inl (e, refused) ↦
            subst (Lives H old) (sym (ap (λ (r : Result ChunkAck × Db). r.1) refused)) life
        | inr (_, p) ↦ subst (Lives H old) (sym (ap (λ (r : Result ChunkAck × Db). r.1) p.stored)) (
            passes_on
              (put_chunk H env id (pos p.first) (pos p.declared) (lower sha256) (joined blocks))
              chunk_ack
              (requested life env
                (put id (pos p.first) (pos p.declared) (lower sha256) (joined blocks)) tt))
      ]

  call-Lives : (call : Call) → IsDrawn db call → Lives H old (after_call H server env call db)
  unfolding compact_session post_comparison
  call-Lives (register id total_bytes whole_sha256) fresh =
      elim (Option-cases (session_create total_bytes whole_sha256)) [
        | inl invalid ↦ rw (invalid, after_call) life
        | inr (payload, valid) ↦ rw (valid, after_call) (registered id payload fresh)
      ]
  call-Lives (upload id start count sha256 blocks) drawn = uploaded id start count sha256 blocks
  call-Lives (repack id target) drawn = elim (Option-cases (compact_request target)) [
    | inl invalid ↦ rw (invalid, after_call) life
    | inr (bytes, valid) ↦
        rw (valid, after_call)
          (passes_on (compact_sealed H env id (integer (pos bytes))) compact_response
            (compacts life env id (integer (pos bytes))))
  ]
  call-Lives (contrast id left_id right_id) fresh =
      elim (Option-cases (comparison_create left_id right_id)) [
        | inl invalid ↦ rw (invalid, after_call) life
        | inr ((a, b), valid) ↦
            rw (valid, after_call)
              (passes_on (create_comparison H env id a b) comparison_to_response
                (requested life env (compare id a b) fresh))
      ]
  call-Lives (reads r) drawn =
      subst (Lives H old) (sym (after_read-unchanged H server quiet r db)) life

module _ (H : Hashlib) (L : IsLawful H) (server : Server) (quiet : IsQuiet server) where
  -- Whatever calls reach the service, what they do to the database is what some of the service's own
  -- requests and compactions do to it.
  pub Served-Lives : {db db' : Db} → Served H server db db' → Lives H db db'
  Served-Lives opens = begins
  Served-Lives (calls so_far env call drawn) =
      call-Lives H server quiet env (Served-Lives so_far) call drawn

  -- Every sequence of calls of the routes keeps a well-formed database well formed.
  pub Served-IsWellFormed :
      {db db' : Db} → Served H server db db' → IsWellFormed H db → IsWellFormed H db'
  Served-IsWellFormed served w = Lives-IsWellFormed H L (Served-Lives served) w
