-- ===== src/Compare/Record/Conclusions.antt =====
-- What the stored conclusion says of the two archives.
use native.Mathlib.Decide.{ℕ_discrete}
use seismic_trace_resumable.Prelude.{
  ℕ, suc, zero, ◌+◌, ◌≤◌, ◌≡◌, ◌≢◌, refl, sym, ap, ◌∙◌, min, Bytes, ◌=?◌, =?_refl, =?_ne, ==_ne,
  ==_refl, Option, [], ◌∷◌, length, take, arith, if◌then◌else◌,
}
use seismic_trace_resumable.Model.{
  UploadSession, Conclusion, identical, content_differs, length_differs,
}
use seismic_trace_resumable.Compare.Streams.{Parting, same, parts_at}
use seismic_trace_resumable.Compare.Record.{conclude}

take-take : (n m : ℕ) (xs : Bytes) → n ≤ m → take n (take m xs) ≡ take n xs
take-take zero m xs h = refl
take-take (suc n) zero xs h = absurd (omega arith)
take-take (suc n) (suc m) [] h = refl
take-take (suc n) (suc m) (x ∷ xs) h = ap (λ l. x ∷ l) (take-take n m xs (omega arith))

-- The conclusion of two archives by their bytes: the same, the same as far as the shorter goes, or not.
abbrev pub conclusion_of : Bytes → Bytes → Conclusion
conclusion_of xs ys =
    let shorter = min (length xs) (length ys) in
    if xs =? ys
    then identical
    else if take shorter xs =? take shorter ys
    then length_differs
    else content_differs

module _ (left right : UploadSession) (xs ys : Bytes) (left_size : left.total_bytes ≡ length xs)
    (right_size : right.total_bytes ≡ length ys) where
  -- From the walk's answer over two archives of the registered lengths, the code concludes what their
  -- bytes say.
  pub conclude-Parting :
      (result : ℕ × Option ℕ)
      → Parting 0 xs ys result
      → conclude left right result.1 ≡ conclusion_of xs ys
  unfolding conclude
  conclude-Parting result (same e answer) = rw (answer, e, =?_refl) refl
  conclude-Parting result (parts_at k in_left in_right agree differ answer) =
      rw (answer, left_size, right_size, =?_ne xs ys (λ e. differ (ap (take (suc k)) e)))
        (elim (ℕ_discrete k (min (length xs) (length ys))) [
          | yes at_end ↦
              (let e : 0 + k ≡ min (length xs) (length ys) = omega (arith, at_end) in
                let agree' : take (min (length xs) (length ys)) xs
                    ≡ take (min (length xs) (length ys)) ys =
                  rw at_end at agree in
                rw (e, ==_refl, agree', =?_refl) refl)
          | no inside ↦
              (rw
                (
                  ==_ne (0 + k) (min (length xs) (length ys)) (omega (arith, inside)),
                  =?_ne (take (min (length xs) (length ys)) xs)
                      (take (min (length xs) (length ys)) ys) (further inside),
                )
                refl)
        ])
    where
      further :
          k ≢ min (length xs) (length ys)
          → take (min (length xs) (length ys)) xs ≢ take (min (length xs) (length ys)) ys
      further inside e = differ (
          sym (take-take (suc k) (min (length xs) (length ys)) xs (omega arith))
          ∙ ap (take (suc k)) e
          ∙ take-take (suc k) (min (length xs) (length ys)) ys (omega arith))
