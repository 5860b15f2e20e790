-- ===== src/Examples/Data.antt =====
-- Data of the examples, over a hash that stands for SHA-256: the digest of a payload is the payload.
use mathlib.Core.Path.{subst}
use seismic_trace_resumable.Prelude.{
  true, Text, Bytes, ◌≡◌, refl, ap, none, some, [], ◌∷◌, ◌++◌, codes, text_dec, false, arith,
  =?_refl,
}
use seismic_trace_resumable.Hashlib.{Hashlib, IsLawful}
use seismic_trace_resumable.Model.{UploadSession, Chunk, sealed}
use seismic_trace_resumable.Storage.{Db, get_session, chunks_of, insert_by_offset}
use seismic_trace_resumable.Storage.Laws.{storage_laws}
use seismic_trace_resumable.Tx.{Result}
use seismic_trace_resumable.Audit.{Env}
use seismic_trace_resumable.Layout.{Tiles}
use seismic_trace_resumable.Invariant.{IsWellFormed}
use seismic_trace_resumable.Upload.Session.Creates.{
  new_session, new_db, create_session_lem, create_session-IsWellFormed,
}
use seismic_trace_resumable.History.{empty_db}
use seismic_trace_resumable.History.Reached.{empty_db-IsWellFormed}

abbrev pub plain : Hashlib
plain = record { Hasher = Bytes; sha256 = λ b. b; update = λ a b. a ++ b; hexdigest = λ a. a }

pub plain-IsLawful : IsLawful plain
plain-IsLawful = record { update-sha256 = λ a b. refl }

abbrev pub env : Env
env = record { now = 7; refuses_audit = false }

abbrev pub refusing : Env
refusing = record { now = 7; refuses_audit = true }

abbrev pub sid : Text
sid = codes "s"

abbrev pub whole : Bytes
whole = 10 ∷ 20 ∷ 30 ∷ []

pub sid-fresh : get_session empty_db sid ≡ none
unfolding get_session
sid-fresh = refl

pub empty-IsWellFormed : IsWellFormed plain empty_db
empty-IsWellFormed = empty_db-IsWellFormed plain plain-IsLawful

-- A package of three bytes, registered.
abbrev pub registered : UploadSession
registered = new_session plain env empty_db sid 3 whole

abbrev pub created : Db
created = new_db plain env empty_db sid 3 whole

pub created-found : get_session created sid ≡ some registered
created-found = simp (storage_laws, =?_refl)

pub created-IsWellFormed : IsWellFormed plain created
created-IsWellFormed =
    subst (IsWellFormed plain)
      (ap (λ (answer : Result UploadSession × Db). answer.1)
        (create_session_lem plain env empty_db sid 3 whole))
      (create_session-IsWellFormed plain env empty_db sid 3 whole empty-IsWellFormed sid-fresh)

pub created-empty : chunks_of created sid ≡ []
created-empty = simp storage_laws (unfold chunks_of in refl)

pub created-Tiles : Tiles plain 0 (chunks_of created sid) 0
created-Tiles = rw created-empty refl

-- A sealed archive of two chunks, as the tables hold it.
abbrev pub front : Chunk
front = record {
  session_id = sid;
  start_offset = 0;
  end_offset = 2;
  length = 2;
  sha256 = 10 ∷ 20 ∷ [];
  payload = 10 ∷ 20 ∷ [];
}

abbrev pub back : Chunk
back = record {
  session_id = sid;
  start_offset = 2;
  end_offset = 3;
  length = 1;
  sha256 = 30 ∷ [];
  payload = 30 ∷ [];
}

abbrev pub archived : UploadSession
archived = record registered { status = sealed; confirmed_offset = 3; computed_sha256 = some whole }

abbrev pub archive : Db
archive = record {
  sessions = archived ∷ [];
  chunks = back ∷ front ∷ [];
  audit_events = [];
  comparisons = [];
}

pub archive-rows : chunks_of archive sid ≡ front ∷ back ∷ []
unfolding chunks_of insert_by_offset text_dec
archive-rows = refl

pub archive-found : get_session archive sid ≡ some archived
unfolding get_session text_dec
archive-found = refl

pub archive-Tiles : Tiles plain 0 (chunks_of archive sid) 3
archive-Tiles = rw archive-rows (
  record { span = refl; filled = refl; digested = refl; nonempty = omega arith },
  refl,
  (record { span = refl; filled = refl; digested = refl; nonempty = omega arith }, refl, refl),
)
