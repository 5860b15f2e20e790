-- ===== src/Tx.antt =====
-- A SQLAlchemy session on one request: what is committed, and what the open transaction sees. An
-- action that raises leaves both as they stand; closing the session drops what is not committed.
pub mod Laws
use seismic_trace_resumable.Prelude.{Bool, true, false, Option, none, some}
use seismic_trace_resumable.Errors.{UploadError}
use seismic_trace_resumable.Storage.{Db}

pub data Result {ℓ} (A : Type ℓ) : Type ℓ where
  ok : A → Result A
  err : UploadError → Result A

pub record Tx : Type 0 where
  pub committed : Db
  pub working : Db

abbrev pub Action : Type 0 → Type 0
Action A = Tx → Result A × Tx

module _ {A : Type 0} where
  abbrev pub pure : A → Action A
  pure a t = (ok a, t)

  abbrev pub raise : UploadError → Action A
  raise e t = (err e, t)

  -- A query on what the transaction sees.
  abbrev pub query : (Db → A) → Action A
  query f t = (ok (f t.working), t)

  abbrev pub or_raise : UploadError → Option A → Action A
  or_raise e none = raise e
  or_raise e (some a) = pure a

infixl 5 ◌>>=◌ ◌>>◌
abbrev pub ◌>>=◌ : {A B : Type 0} → Action A → (A → Action B) → Action B
◌>>=◌ m f t = let (r, t') = m t in elim r [ ok a ↦ f a t' | err e ↦ (err e, t') ]

abbrev pub ◌>>◌ : {A B : Type 0} → Action A → Action B → Action B
m >> k = m >>= λ _. k

abbrev pub raise_if : Bool → UploadError → Action (Unit {0})
raise_if true e = raise e
raise_if false e = pure tt

-- Pending changes that a flush has sent.
abbrev pub modify : (Db → Db) → Action (Unit {0})
modify f t = (ok tt, record t { working = f t.working })

abbrev pub commit : Action (Unit {0})
commit t = (ok tt, record t { committed = t.working })

abbrev pub rollback : Action (Unit {0})
rollback t = (ok tt, record t { working = t.committed })

-- Between two statements of a request that has written nothing yet, others commit: the next statement
-- sees what they left (READ COMMITTED, the isolation that PostgreSQL begins with).
abbrev pub others_commit : Db → Action (Unit {0})
others_commit db t = (ok tt, record { committed = db; working = db })

-- A request begins on what is committed.
abbrev pub opened : Db → Tx
opened db = record { committed = db; working = db }

-- `get_db`: a request opens a session, and `db.close()` drops what is not committed.
abbrev pub serve : {A : Type 0} → Action A → Db → Result A × Db
serve m db = let (r, t) = m (opened db) in (r, t.committed)
