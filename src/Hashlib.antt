-- ===== src/Hashlib.antt =====
-- What the program takes from `hashlib`: SHA-256 over bytes, fed at once or piece by piece. The
-- function itself is a parameter. `IsLawful` is what the documentation of `update` says: feeding
-- two pieces one after the other is feeding their concatenation.
use seismic_trace_resumable.Prelude.{◌≡◌, Bytes, Text, ◌++◌}

pub record Hashlib : Type 1 where
  pub Hasher : Type 0
  -- `hashlib.sha256(b)`
  pub sha256 : Bytes → Hasher
  pub update : Hasher → Bytes → Hasher
  pub hexdigest : Hasher → Text

pub record IsLawful (H : Hashlib) : Type 0 where
  pub update-sha256 : (a b : Bytes) → H.update (H.sha256 a) b ≡ H.sha256 (a ++ b)

-- `hashlib.sha256(b).hexdigest()`
abbrev pub digest : (H : Hashlib) → Bytes → Text
digest H b = H.hexdigest (H.sha256 b)
