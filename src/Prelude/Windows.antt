-- ===== src/Prelude/Windows.antt =====
-- Cuts out of the middle of a list, and how they meet a concatenation.
use Prim.Native.Nat.{ℕ, ◌+◌, ◌-◌, ◌≤◌}
use mathlib.Core.Path.{◌≡◌, refl, ap, ◌∙◌}
use mathlib.Core.List.{List, ◌++◌}
use native.Mathlib.Omega.{arith}
use seismic_trace_resumable.Prelude.Lists.{
  length, take, drop, length-drop, take-append_left, take-append_right, drop-append_left,
  drop-append_right, take-all,
}

-- A cut of `n` bytes from `k` on.
abbrev pub window {ℓ} : {A : Type ℓ} → ℕ → ℕ → List A → List A
window k n xs = take n (drop k xs)

module _ {ℓ} {A : Type ℓ} where
  -- A window inside the first list.
  pub window-append_left :
      (k n : ℕ) (xs ys : List A) → k + n ≤ length xs → window k n (xs ++ ys) ≡ window k n xs
  window-append_left k n xs ys h =
      ap (take n) (drop-append_left k xs ys (omega arith))
      ∙ take-append_left n (drop k xs) ys (omega (arith, length-drop k xs))

  -- A window behind the first list.
  pub window-append_right :
      (k n : ℕ) (xs ys : List A)
      → length xs ≤ k
      → window k n (xs ++ ys) ≡ window (k - length xs) n ys
  window-append_right k n xs ys h = ap (take n) (drop-append_right k xs ys h)

  -- A window that takes the last `m` bytes of the first list and reaches into the second.
  pub window-append_both :
      (k m n z r : ℕ) (xs ys : List A)
      → length xs ≡ k + m
      → z ≡ 0
      → m + r ≡ n
      → window k n (xs ++ ys) ≡ window k m xs ++ window z r ys
  window-append_both k m n z r xs ys e zero_start h =
      let kept : length (drop k xs) ≡ m = omega (arith, length-drop k xs) in
      let rest : n - length (drop k xs) ≡ r = omega arith in
      ap (take n) (drop-append_left k xs ys (omega arith))
      ∙ take-append_right n (drop k xs) ys (omega arith)
      ∙ rw (rest, zero_start, take-all m (drop k xs) (omega arith)) refl
