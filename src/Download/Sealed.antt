-- ===== src/Download/Sealed.antt =====
-- A read of a sealed session of a database that the service has made.
use mathlib.Core.Path.{subst}
use seismic_trace_resumable.Prelude.{ℕ, ◌-◌, ◌≤◌, ◌≡◌, Text, some, window}
use seismic_trace_resumable.Hashlib.{Hashlib, IsLawful}
use seismic_trace_resumable.Model.{UploadSession, sealed}
use seismic_trace_resumable.Storage.{Db, get_session, chunks_of, audit_of}
use seismic_trace_resumable.Tx.{ok, serve}
use seismic_trace_resumable.Layout.{contents, Tiles-Chain}
use seismic_trace_resumable.Invariant.{IsWellFormed, Settled}
use seismic_trace_resumable.Download.{verified_sealed_bytes}
use seismic_trace_resumable.Download.Verified.{IsGenuine, verified_sealed_bytes_complete}

module _ (H : Hashlib) (L : IsLawful H) (db : Db) (w : IsWellFormed H db) (id : Text)
    (u : UploadSession) (found : get_session db id ≡ some u) (is_sealed : u.status ≡ sealed) where
  sealed-IsGenuine : IsGenuine H L u db
  sealed-IsGenuine = record {
    chained = rw (← settled.0) (Tiles-Chain H 0 _ u.confirmed_offset (w.sound id u found).1.tiles);
    same = settled.1;
  }
    where
      settled : Settled H sealed u (contents (chunks_of db u.id)) (audit_of db u.id)
      settled =
          subst (λ s. Settled H s u (contents (chunks_of db u.id)) (audit_of db u.id)) is_sealed
            (w.sound id u found).1.settled

  -- The verified read of a sealed session never fails: it answers the bytes of the window.
  pub verified_sealed_bytes-sealed :
      (begin end : ℕ)
      → begin ≤ end
      → serve (verified_sealed_bytes H u begin end) db
        ≡ (ok (window begin (end - begin) (contents (chunks_of db u.id))), db)
  verified_sealed_bytes-sealed begin end le =
      verified_sealed_bytes_complete H L u db begin end le sealed-IsGenuine
