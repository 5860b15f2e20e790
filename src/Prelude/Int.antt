-- ===== src/Prelude/Int.antt =====
-- Signed integers over the native numbers: offsets and lengths as the client sends them.
use seismic_trace_resumable.Prelude.Tests.{leb, if◌then◌else◌}
use seismic_trace_resumable.Prelude.Lists.{length, take, drop}
use Prim.Native.Nat.{ℕ, suc, ◌-◌}
use mathlib.Core.List.{List}

-- `negsuc n` is -(n + 1).
pub data ℤ : Type 0 where
  pos : ℕ → ℤ
  negsuc : ℕ → ℤ

-- a - b, as an integer.
abbrev pub sub_ℕ : ℕ → ℕ → ℤ
sub_ℕ a b = if leb b a then pos (a - b) else negsuc (b - a - 1)

-- Python's `xs[i:j]` from an index that is not negative: a negative end counts from the back.
abbrev pub slice {ℓ} : {A : Type ℓ} → ℕ → ℤ → List A → List A
slice i (pos j) xs = take (j - i) (drop i xs)
slice i (negsuc n) xs = take (length xs - suc n - i) (drop i xs)
