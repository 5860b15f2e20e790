-- ===== src/Tx/Laws.antt =====
-- Transactions that are all or nothing: rules that follow how an action is put together.
use seismic_trace_resumable.Prelude.{Bool, true, false, ◌≡◌, refl, ap, ◌∙◌, if◌then◌else◌}
use seismic_trace_resumable.Errors.{UploadError}
use seismic_trace_resumable.Storage.{Db}
use seismic_trace_resumable.Tx.{
  opened, serve, Tx, Action, Result, ok, err, raise_if, pure, commit, ◌>>=◌, ◌>>◌,
}

-- The action commits nothing.
unfoldable pub IsPending : {A : Type 0} → Action A → Type 0
IsPending m = (t : Tx) → (m t).1.committed ≡ t.committed

-- The action commits nothing when it raises.
unfoldable pub IsAtomic : {A : Type 0} → Action A → Type 0
IsAtomic m = (t : Tx) (e : UploadError) → (m t).0 ≡ err e → (m t).1.committed ≡ t.committed

pub ok_not_err : {A B : Type 0} {a : A} {e : UploadError} → ok a ≡ err e → B
ok_not_err h = absurd (cc)

module _ {A B : Type 0} (f : A → Action B) where
  -- What follows an action, on what the action came to.
  abbrev follow : Result A × Tx → Result B × Tx
  follow (r, t) = elim r [ ok a ↦ f a t | err e ↦ (err e, t) ]

  follow-IsPending :
      (p : Result A × Tx) → ((a : A) → IsPending (f a)) → (follow p).1.committed ≡ p.1.committed
  unfolding IsPending
  follow-IsPending (ok a, t) h = h a t
  follow-IsPending (err e, t) h = refl

  follow-IsAtomic :
      (p : Result A × Tx) (e : UploadError)
      → ((a : A) → IsAtomic (f a))
      → (follow p).0 ≡ err e
      → (follow p).1.committed ≡ p.1.committed
  unfolding IsAtomic
  follow-IsAtomic (ok a, t) e h raised = h a t e raised
  follow-IsAtomic (err x, t) e h raised = refl

  pub IsPending-bind :
      (m : Action A) → IsPending m → ((a : A) → IsPending (f a)) → IsPending (m >>= f)
  unfolding IsPending
  IsPending-bind m hm hf t = follow-IsPending (m t) hf ∙ hm t

  pub IsAtomic-bind : (m : Action A) → IsPending m → ((a : A) → IsAtomic (f a)) → IsAtomic (m >>= f)
  unfolding IsPending IsAtomic
  IsAtomic-bind m hm hf t e raised = follow-IsAtomic (m t) e hf raised ∙ hm t

module _ {A : Type 0} where
  pub IsAtomic-commit : (a : A) → IsAtomic (commit >> pure a)
  unfolding IsAtomic
  IsAtomic-commit a t e h = ok_not_err h

  pub IsAtomic-IsPending : (m : Action A) → IsPending m → IsAtomic m
  unfolding IsAtomic IsPending
  IsAtomic-IsPending m h t e _ = h t

  pub IsAtomic-if :
      (b : Bool) (m n : Action A) → IsAtomic m → IsAtomic n → IsAtomic (if b then m else n)
  IsAtomic-if true m n hm hn = hm
  IsAtomic-if false m n hm hn = hn

pub IsPending-raise_if : (b : Bool) (e : UploadError) → IsPending (raise_if b e)
unfolding IsPending
IsPending-raise_if true e t = refl
IsPending-raise_if false e t = refl

module _ {A B : Type 0} (f : A → B) (a : A) (db : Db) where
  follow-pure :
      (p : Result A × Tx)
      → p.0 ≡ ok a
      → p.1.committed ≡ db
      → ◌≡◌ {A = Result B × Db}
          ((follow (λ (x : A). pure (f x)) p).0, (follow (λ (x : A). pure (f x)) p).1.committed)
          (ok (f a), db)
  follow-pure (ok x, t) answered left = let e : x ≡ a = cc in rw (e, left) refl
  follow-pure (err e, t) answered left = absurd (cc)

  -- A result made of what a request answers.
  pub serve-pure :
      (m : Action A) (before : Db)
      → serve m before ≡ (ok a, db)
      → serve (m >>= λ x. pure (f x)) before ≡ (ok (f a), db)
  serve-pure m before h =
      follow-pure (m (opened before)) (ap (λ (answer : Result A × Db). answer.0) h)
        (ap (λ (answer : Result A × Db). answer.1) h)

module _ {A B : Type 0} (f : A → B) where
  follow-after : (p : Result A × Tx) → (follow (λ (x : A). pure (f x)) p).1 ≡ p.1
  follow-after (ok a, t) = refl
  follow-after (err e, t) = refl

  -- What is made of a result changes nothing of what is committed.
  pub serve-pure_after :
      (m : Action A) (db : Db) → (serve (m >>= λ x. pure (f x)) db).1 ≡ (serve m db).1
  serve-pure_after m db = ap (λ (t : Tx). t.committed) (follow-after (m (opened db)))

pub err_not_ok : {A B : Type 0} {a : A} {e : UploadError} → err e ≡ ok a → B
err_not_ok h = absurd (cc)

-- A check that did not raise.
pub passed :
    {A : Type 0} (b : Bool) (e : UploadError) (x : Result A) (a : A)
    → (if b then err e else x) ≡ ok a
    → (b ≡ false) × (x ≡ ok a)
passed true e x a h = absurd (cc)
passed false e x a h = (refl, h)

-- A step that did not raise, before the rest of a loop.
pub passed_step :
    {A : Type 0} (r : Result (Unit {0})) (rest : Result A) (a : A)
    → (elim r as (λ _. Result A) [ err e ↦ err e | ok _ ↦ rest ]) ≡ ok a
    → (r ≡ ok tt) × (rest ≡ ok a)
passed_step (ok tt) rest a h = (refl, h)
passed_step (err e) rest a h = absurd (cc)

module _ {A B : Type 0} (f : A → B) (b : B) where
  answered_by :
      (p : Result A × Tx)
      → (follow (λ (x : A). pure (f x)) p).0 ≡ ok b
      → (a : A) × (p.0 ≡ ok a) × (b ≡ f a)
  answered_by (ok a, t) h = (a, refl, cc)
  answered_by (err e, t) h = err_not_ok h

  -- What a result was made of.
  pub serve-pure_sound :
      (m : Action A) (db : Db)
      → (serve (m >>= λ x. pure (f x)) db).0 ≡ ok b
      → (a : A) × ((serve m db).0 ≡ ok a) × (b ≡ f a)
  serve-pure_sound m db h = answered_by (m (opened db)) h
