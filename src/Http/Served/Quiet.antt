-- ===== src/Http/Served/Quiet.antt =====
-- No GET writes anything.
use seismic_trace_resumable.Prelude.{
  ℕ, ◌≡◌, refl, Text, not, Option, none, some, List, [], ◌∷◌, arith, inl, inr, Bool-cases, codes,
  map,
}
use seismic_trace_resumable.Prelude.Int.{ℤ, pos, negsuc}
use seismic_trace_resumable.Hashlib.{Hashlib}
use seismic_trace_resumable.Model.{UploadSession, is_sealed}
use seismic_trace_resumable.Errors.{UploadError, upload_error, session_not_found, not_sealed}
use seismic_trace_resumable.Storage.{Db, get_session, chunks_of}
use seismic_trace_resumable.Tx.{
  Action, Result, ok, err, opened, query, raise, or_raise, pure, ◌>>=◌,
}
use seismic_trace_resumable.Tx.Laws.{IsPending, IsPending-bind, IsPending-raise_if}
use seismic_trace_resumable.Audit.{get_audit_trail}
use seismic_trace_resumable.Download.{Walked, verified_walk, released, verified_sealed_bytes}
use seismic_trace_resumable.Compare.Record.{get_comparison}
use seismic_trace_resumable.Http.Content.{ranged_content, content_of, download_content}
use seismic_trace_resumable.Http.Responses.{
  session_to_response, audit_event_response, comparison_to_response,
}
use seismic_trace_resumable.Http.Sessions.{
  page_of, checked_page, list_sessions, show_session, list_chunks, is_status,
}
use seismic_trace_resumable.Http.Archives.{health, audit_trail, show_comparison}
use seismic_trace_resumable.Http.Served.{
  Server, Read, read_health, read_sessions, read_session, read_chunks, read_audit, read_content,
  read_comparison, after_read,
}

IsPending-raise : (A : Type 0) (e : UploadError) → IsPending {A = A} (raise e)
unfolding IsPending
IsPending-raise A e t = refl

module _ {A : Type 0} where
  IsPending-pure : (a : A) → IsPending (pure a)
  unfolding IsPending
  IsPending-pure a t = refl

  IsPending-query : (f : Db → A) → IsPending (query f)
  unfolding IsPending
  IsPending-query f t = refl

  IsPending-or_raise : (e : UploadError) (o : Option A) → IsPending (or_raise e o)
  unfolding IsPending
  IsPending-or_raise e none t = refl
  IsPending-or_raise e (some a) t = refl

-- A result made of what a quiet action answers.
IsPending-then :
    {A B : Type 0} (m : Action A) (f : A → B) → IsPending m → IsPending (m >>= λ a. pure (f a))
IsPending-then m f quiet = IsPending-bind (λ a. pure (f a)) m quiet (λ a. IsPending-pure (f a))

show_session-IsPending : (id : Text) → IsPending (show_session id)
unfolding show_session IsPending
show_session-IsPending id t = ground arith

list_chunks-IsPending : (id : Text) → IsPending (list_chunks id)
unfolding list_chunks IsPending
list_chunks-IsPending id t = ground arith

get_audit_trail-IsPending : (id : Text) → IsPending (get_audit_trail id)
unfolding get_audit_trail IsPending
get_audit_trail-IsPending id t = ground arith

get_comparison-IsPending : (id : Text) → IsPending (get_comparison id)
unfolding get_comparison IsPending
get_comparison-IsPending id t = ground arith

module _ (H : Hashlib) (limit : ℕ) (u : UploadSession) where
  released-IsPending : (r : Result (Walked H)) → IsPending (released H u r)
  unfolding released IsPending
  released-IsPending (err e) t = refl
  released-IsPending (ok at) t = ground arith

  verified_sealed_bytes-IsPending :
      (begin end : ℕ) → IsPending (verified_sealed_bytes H u begin end)
  unfolding verified_sealed_bytes
  verified_sealed_bytes-IsPending begin end =
      IsPending-bind _ _ (IsPending-query (λ db. chunks_of db u.id)) λ chunks.
        released-IsPending
          (verified_walk H begin end chunks (record { cursor = 0; hasher = H.sha256 []; out = [] }))

  ranged_content-IsPending : (r : Result (ℕ × ℕ)) → IsPending (ranged_content H limit u r)
  unfolding ranged_content
  ranged_content-IsPending (err e) = IsPending-raise _ e
  ranged_content-IsPending (ok (begin, end)) =
      IsPending-then _ _ (verified_sealed_bytes-IsPending begin end)

  content_of-IsPending : (range_values : List Text) → IsPending (content_of H limit u range_values)
  unfolding content_of
  content_of-IsPending [] = IsPending-then _ _ (verified_sealed_bytes-IsPending 0 u.total_bytes)
  content_of-IsPending (range_value ∷ []) = ranged_content-IsPending _
  content_of-IsPending (range_value ∷ another ∷ more) = IsPending-raise _ _

download_content-IsPending :
    (H : Hashlib) (limit : ℕ) (id : Text) (range_values : List Text)
    → IsPending (download_content H limit id range_values)
unfolding download_content
download_content-IsPending H limit id range_values =
    IsPending-bind _ _ (IsPending-query (λ db. get_session db id)) λ found.
      IsPending-bind _ _ (IsPending-or_raise (upload_error 404 session_not_found) found) λ u.
        IsPending-bind _ _
          (IsPending-raise_if (not (is_sealed u.status))
            (record (upload_error 409 not_sealed) { expected_offset = some u.confirmed_offset }))
          λ _. content_of-IsPending H limit u range_values

module _ (negative : Action (List UploadSession)) (quiet : IsPending negative) where
  page_of-IsPending :
      (name : Option Text) (limit offset : ℤ) → IsPending (page_of negative name limit offset)
  unfolding page_of
  page_of-IsPending name (pos limit) offset = IsPending-query _
  page_of-IsPending name (negsuc n) offset = quiet

  checked_page-IsPending :
      (name : Option Text) (limit offset : ℤ) → IsPending (checked_page negative name limit offset)
  unfolding checked_page
  checked_page-IsPending none limit offset = page_of-IsPending none limit offset
  checked_page-IsPending (some name) limit offset = elim (Bool-cases (is_status name)) [
    | inl known ↦ rw known (page_of-IsPending (some name) limit offset)
    | inr unknown ↦ rw unknown (IsPending-raise _ _)
  ]

-- A statement that the database refuses, and one that reads nothing, commit nothing.
pub record IsQuiet (server : Server) : Type 0 where
  pub refusal : IsPending server.negative
  pub probe : IsPending server.select_one

-- No GET writes anything, whatever it asks for and whatever the rows of the database are.
pub after_read-unchanged :
    (H : Hashlib) (server : Server)
    → IsQuiet server
    → (r : Read) (db : Db) → after_read H server r db ≡ db
unfolding IsPending health list_sessions audit_trail show_comparison
after_read-unchanged H server q read_health db =
    IsPending-then server.select_one (λ _. codes "ok") q.probe (opened db)
after_read-unchanged H server q (read_sessions status limit offset) db =
    IsPending-then (checked_page server.negative status limit offset) (map session_to_response)
      (checked_page-IsPending server.negative q.refusal status limit offset) (opened db)
after_read-unchanged H server q (read_session id) db = show_session-IsPending id (opened db)
after_read-unchanged H server q (read_chunks id) db = list_chunks-IsPending id (opened db)
after_read-unchanged H server q (read_audit id) db =
    IsPending-then (get_audit_trail id)
      (λ events. record { id = id; events = map audit_event_response events })
      (get_audit_trail-IsPending id) (opened db)
after_read-unchanged H server q (read_content id range_values) db =
    download_content-IsPending H server.digit_limit id range_values (opened db)
after_read-unchanged H server q (read_comparison id) db =
    IsPending-then (get_comparison id) comparison_to_response (get_comparison-IsPending id)
      (opened db)
