-- ===== src/Upload/Spec/Receive.antt =====
-- What a package becomes when the next piece comes.
use seismic_trace_resumable.Prelude.{
  Bool, ◌+◌, ◌≡◌, ◌<◌, Text, Bytes, false, ◌++◌, length, length-append, arith,
}
use seismic_trace_resumable.Model.{active, sealed}
use seismic_trace_resumable.Upload.Spec.{Package, receive, receive_open, append, complete}

module _ (hash : Bytes → Text) (p : Package) (payload : Bytes) (open_package : p.status ≡ active)
    (nonempty : 0 < length payload) where
  pub receive-more :
      (refuses : Bool)
      → length p.bytes + length payload < p.total
      → (receive hash refuses p (length p.bytes) payload).0
        ≡ record p { bytes = p.bytes ++ payload }
  unfolding receive receive_open append complete
  receive-more refuses room = ground (arith, length-append p.bytes payload)

  pub receive-last :
      length p.bytes + length payload ≡ p.total
      → hash (p.bytes ++ payload) ≡ p.whole
      → (receive hash false p (length p.bytes) payload).0
        ≡ record p { bytes = p.bytes ++ payload; status = sealed }
  unfolding receive receive_open append complete
  receive-last full same = ground (arith, length-append p.bytes payload)
