-- ===== src/Examples/Hexed.antt =====
-- Data of the examples over HTTP: a hash with digests of sixty-four hexadecimal digits, a server, and a
-- package of three bytes of which two have come.
use mathlib.Core.Path.{subst}
use seismic_trace_resumable.Prelude.{
  ℕ, zero, suc, ◌+◌, true, Text, Bytes, ◌≡◌, refl, ap, ◌∙◌, some, [], ◌∷◌, ◌++◌, false, arith,
  =?_refl, leb, length, if◌then◌else◌,
}
use seismic_trace_resumable.Prelude.Int.{pos}
use seismic_trace_resumable.Hashlib.{Hashlib, IsLawful, digest}
use seismic_trace_resumable.Model.{UploadSession}
use seismic_trace_resumable.Storage.{Db, get_session, chunks_of}
use seismic_trace_resumable.Storage.Laws.{storage_laws}
use seismic_trace_resumable.Tx.{Result, ok, Tx, pure, serve}
use seismic_trace_resumable.Tx.Laws.{IsPending}
use seismic_trace_resumable.Layout.{Tiles, contents}
use seismic_trace_resumable.Invariant.{IsWellFormed}
use seismic_trace_resumable.Upload.Session.Creates.{
  new_session, new_db, create_session_lem, create_session-IsWellFormed,
}
use seismic_trace_resumable.Upload.Put.{put_chunk}
use seismic_trace_resumable.Upload.Put.Accept.{accept_lem, moved, moved_db}
use seismic_trace_resumable.Upload.Put.Branches.{IsChecked, put_active-forward}
use seismic_trace_resumable.Upload.Put.Request.{put_chunk-active}
use seismic_trace_resumable.Upload.Put.Stored.{moved_rows, bytes, moved_db-IsWellFormed}
use seismic_trace_resumable.Upload.Replay.{Ack, ack}
use seismic_trace_resumable.History.{empty_db}
use seismic_trace_resumable.History.Reached.{empty_db-IsWellFormed}
use seismic_trace_resumable.Http.Strings.{all_of}
use seismic_trace_resumable.Http.Digests.{is_lower_hex}
use seismic_trace_resumable.Http.Served.{Server}
use seismic_trace_resumable.Http.Served.Quiet.{IsQuiet}
use seismic_trace_resumable.Http.Served.RoundTrip.{IsHexadecimal}
use seismic_trace_resumable.Http.Served.Resume.{IsInterrupted}
use seismic_trace_resumable.Examples.Data.{env, sid, sid-fresh}

-- A digit of its own for each byte below ten.
abbrev digit_for : ℕ → ℕ
digit_for b = if leb b 9 then 48 + b else 97

abbrev padded : ℕ → Bytes → Text
padded zero bs = []
padded (suc n) [] = 48 ∷ padded n []
padded (suc n) (b ∷ bs) = digit_for b ∷ padded n bs

length-padded : (n : ℕ) (bs : Bytes) → length (padded n bs) ≡ n
length-padded zero bs = refl
length-padded (suc n) [] = ap suc (length-padded n [])
length-padded (suc n) (b ∷ bs) = ap suc (length-padded n bs)

digit_for-hex : (b : ℕ) → is_lower_hex (digit_for b) ≡ true
digit_for-hex b = ground arith

padded-hex : (n : ℕ) (bs : Bytes) → all_of is_lower_hex (padded n bs) ≡ true
padded-hex zero bs = refl
padded-hex (suc n) [] = padded-hex n []
padded-hex (suc n) (b ∷ bs) = rw (digit_for-hex b) (padded-hex n bs)

abbrev pub hexed : Hashlib
hexed = record {
  Hasher = Bytes;
  sha256 = λ b. b;
  update = λ a b. a ++ b;
  hexdigest = λ a. padded 64 a;
}

pub hexed-IsLawful : IsLawful hexed
hexed-IsLawful = record { update-sha256 = λ a b. refl }

pub hexed-IsHexadecimal : IsHexadecimal hexed
hexed-IsHexadecimal = record {
  normal = λ b. record { long = length-padded 64 b; hexadecimal = padded-hex 64 b };
}

abbrev pub server : Server
server = record {
  max_chunk_bytes = 8;
  digit_limit = 4300;
  negative = pure [];
  select_one = pure tt;
}

pub server-IsQuiet : IsQuiet server
unfolding IsPending
server-IsQuiet = record { refusal = λ t. refl; probe = λ t. refl }

pub empty-IsWellFormed : IsWellFormed hexed empty_db
empty-IsWellFormed = empty_db-IsWellFormed hexed hexed-IsLawful

abbrev pub three : Bytes
three = 1 ∷ 2 ∷ 3 ∷ []

abbrev pub opened_session : UploadSession
opened_session = new_session hexed env empty_db sid 3 (digest hexed three)

abbrev pub opened_db : Db
opened_db = new_db hexed env empty_db sid 3 (digest hexed three)

pub opened_db-found : get_session opened_db sid ≡ some opened_session
opened_db-found = simp (storage_laws, =?_refl)

pub opened_db-IsWellFormed : IsWellFormed hexed opened_db
opened_db-IsWellFormed =
    subst (IsWellFormed hexed)
      (ap (λ (answer : Result UploadSession × Db). answer.1)
        (create_session_lem hexed env empty_db sid 3 (digest hexed three)))
      (create_session-IsWellFormed hexed env empty_db sid 3 (digest hexed three) empty-IsWellFormed
        sid-fresh)

opened_db-empty : chunks_of opened_db sid ≡ []
opened_db-empty = simp storage_laws (unfold chunks_of in refl)

opened_db-Tiles : Tiles hexed 0 (chunks_of opened_db sid) 0
opened_db-Tiles = rw opened_db-empty refl

abbrev pub two : Bytes
two = 1 ∷ 2 ∷ []

-- Two of the three bytes have come.
abbrev pub halfway : Db
halfway = moved_db hexed env opened_db opened_session 2 two

pub halfway-stored :
    serve (put_chunk hexed env sid (pos 0) (pos 2) (digest hexed two) two) opened_db ≡ (
      ok (ack (moved hexed env opened_db opened_session 2 two) 0 2 (digest hexed two) false),
      halfway,
    )
halfway-stored =
    ap (λ (r : Result Ack × Tx). (r.0, r.1.committed))
      (put_chunk-active hexed env opened_db sid (digest hexed two) two opened_session 0 2
          opened_db-found refl checked
        ∙ put_active-forward hexed env hexed-IsLawful opened_db opened_session 2 (digest hexed two)
            two opened_db-Tiles checked (omega arith)
        ∙ accept_lem hexed env opened_db opened_session 2 two hexed-IsLawful opened_db-Tiles refl
            (omega arith))
  where
    checked : IsChecked hexed opened_session 0 2 (digest hexed two) two
    checked = record { filled = refl; digested = refl; fits = omega arith }

pub halfway-IsWellFormed : IsWellFormed hexed halfway
halfway-IsWellFormed =
    moved_db-IsWellFormed hexed env opened_db opened_session 2 two hexed-IsLawful
      opened_db-IsWellFormed opened_db-found refl refl (omega arith) (omega arith)

pub halfway-found : get_session halfway sid ≡ some (moved hexed env opened_db opened_session 2 two)
halfway-found = simp (storage_laws, =?_refl)

pub halfway-IsInterrupted : IsInterrupted hexed sid three halfway
halfway-IsInterrupted = record {
  session = moved hexed env opened_db opened_session 2 two;
  found = halfway-found;
  still_open = refl;
  long = refl;
  hashed = refl;
  so_far =
      ap contents (
        moved_rows hexed env opened_db opened_session 2 two hexed-IsLawful opened_db-IsWellFormed
          opened_db-found refl refl (omega arith))
      ∙ bytes hexed env opened_db opened_session 2 two hexed-IsLawful opened_db-IsWellFormed
          opened_db-found refl refl (omega arith)
      ∙ rw opened_db-empty refl;
}
