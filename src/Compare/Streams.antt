-- ===== src/Compare/Streams.antt =====
-- The walk over blocks against the comparison of the two streams byte by byte.
use mathlib.Core.Path.{subst}
use seismic_trace_resumable.Prelude.{
  ℕ, suc, zero, ◌+◌, ◌≤◌, ◌<◌, ◌≡◌, ◌≢◌, refl, sym, ap, ◌∙◌, min, Bytes, ◌=?◌, =?_iff, Option,
  Bool-cases, ==_iff, ==_refl, inl, inr, none, some, List, [], ◌∷◌, ◌++◌, joined, AllNonempty,
  length, length-drop, take, drop, drop-all, arith, ◌==◌, if◌then◌else◌,
}
use seismic_trace_resumable.Compare.{
  unequal_in, unequal_at, advance, ended, walk, streams_first_difference,
}

-- Two streams, byte by byte from offset `o`: how far they agree, and where they part.
abbrev pub meet : ℕ → Bytes → Bytes → ℕ × Option ℕ
meet o [] [] = (o, none)
meet o [] (y ∷ ys) = (o, some o)
meet o (x ∷ xs) [] = (o, some o)
meet o (x ∷ xs) (y ∷ ys) = let rest = meet (o + 1) xs ys in if x == y then rest else (o, some o)

abbrev parted : ℕ → Option ℕ → ℕ × Option ℕ → ℕ × Option ℕ
parted o none rest = rest
parted o (some i) rest = (o + i, some (o + i))

-- The loop index counts from the first byte of the block.
later :
    (o : ℕ) (i : Option ℕ) (rest : ℕ × Option ℕ)
    → parted (o + 1) i rest ≡ parted o (elim i [ none ↦ none | some k ↦ some (suc k) ]) rest
later o none rest = refl
later o (some i) rest = let same : o + 1 + i ≡ o + suc i = omega arith in rw same refl

meet-unequal_in :
    (o : ℕ) (l r xs ys : Bytes)
    → meet o (l ++ xs) (r ++ ys)
      ≡ parted o (unequal_in l r) (
          meet
            (o + min (length l) (length r))
            (drop (min (length l) (length r)) l ++ xs)
            (drop (min (length l) (length r)) r ++ ys))
unfolding unequal_in
meet-unequal_in o [] r xs ys =
    let z : min 0 (length r) ≡ 0 = omega arith in
    let same : o + min 0 (length r) ≡ o = omega arith in rw (same, z) refl
meet-unequal_in o (x ∷ l) [] xs ys =
    let z : min (suc (length l)) 0 ≡ 0 = omega arith in
    let same : o + min (suc (length l)) 0 ≡ o = omega arith in rw (same, z) refl
meet-unequal_in o (x ∷ l) (y ∷ r) xs ys = elim (Bool-cases (x == y)) [
  | inr differ ↦ rw (differ, meet) (let z : o + 0 ≡ o = omega arith in rw z refl)
  | inl same ↦
      rw (same, meet)
        (let further : o + min (suc (length l)) (suc (length r))
              ≡ o + 1 + min (length l) (length r) =
            omega arith in
          let one_more : min (suc (length l)) (suc (length r)) ≡ suc (min (length l) (length r)) =
            omega arith in
          rw (further, one_more)
            (meet-unequal_in (o + 1) l r xs ys
              ∙ later o (unequal_in l r) (
                  meet (o + 1 + min (length l) (length r))
                    (drop (min (length l) (length r)) l ++ xs)
                    (drop (min (length l) (length r)) r ++ ys))))
]

-- Blocks that are the same have no unequal byte.
unequal_in-same :
    (n : ℕ) (l r : Bytes)
    → n ≡ min (length l) (length r)
    → take n l ≡ take n r
    → unequal_in l r ≡ none
unfolding unequal_in
unequal_in-same n [] r size same = refl
unequal_in-same n (x ∷ l) [] size same = refl
unequal_in-same zero (x ∷ l) (y ∷ r) size same = absurd (omega arith)
unequal_in-same (suc n) (x ∷ l) (y ∷ r) size same =
    let heads : x ≡ y = cc in
    let tails : take n l ≡ take n r = cc in
    rw (heads, ==_refl, unequal_in-same n l r (omega arith) tails) refl

unequal_at_lem : (l r : Bytes) → unequal_at (min (length l) (length r)) l r ≡ unequal_in l r
unfolding unequal_at
unequal_at_lem l r =
    elim (Bool-cases (take (min (length l) (length r)) l =? take (min (length l) (length r)) r)) [
      | inr differ ↦ rw differ refl
      | inl same ↦ rw (same, unequal_in-same _ l r refl ((=?_iff _ _).0 same)) refl
    ]

joined-advance :
    (n : ℕ) (seg : Bytes) (blocks : List Bytes)
    → joined (advance n seg blocks) ≡ drop n seg ++ joined blocks
unfolding advance
joined-advance n seg blocks = elim (Bool-cases (n == length seg)) [
  | inr some_left ↦ rw some_left refl
  | inl used ↦ rw (used, drop-all n seg (ground arith)) refl
]

AllNonempty-advance :
    (n : ℕ) (seg : Bytes) (blocks : List Bytes)
    → n ≤ length seg
    → AllNonempty blocks
    → AllNonempty (advance n seg blocks)
unfolding advance
AllNonempty-advance n seg blocks inside h = elim (Bool-cases (n == length seg)) [
  | inl used ↦ rw used h
  | inr some_left ↦ rw some_left ((ground (arith, length-drop n seg)), h)
]

length-advance :
    (n : ℕ) (seg : Bytes) (blocks : List Bytes)
    → length (advance n seg blocks)
      ≡ (if n == length seg then length blocks else suc (length blocks))
unfolding advance
length-advance n seg blocks = ground arith

meet-ended_left :
    (o : ℕ) (right : List Bytes) → AllNonempty right → ended [] right o ≡ meet o [] (joined right)
unfolding ended
meet-ended_left o [] h = refl
meet-ended_left o ((y ∷ r) ∷ right) h = refl
meet-ended_left o ([] ∷ right) h = absurd (omega (arith, h))

meet-ended_right :
    (o : ℕ) (l : Bytes) (left : List Bytes)
    → 0 < length l
    → ended (l ∷ left) [] o ≡ meet o (l ++ joined left) []
unfolding ended
meet-ended_right o (x ∷ l) left h = refl
meet-ended_right o [] left h = absurd (omega arith)

-- One turn of the loop.
turn-meet :
    (l r : Bytes) (left right : List Bytes) (o : ℕ) (rest : ℕ × Option ℕ)
    → let n = min (length l) (length r) in
      rest ≡ meet (o + n) (joined (advance n l left)) (joined (advance n r right))
      → (elim (unequal_at n l r) [ some i ↦ (o + i, some (o + i)) | none ↦ rest ])
        ≡ meet o (l ++ joined left) (r ++ joined right)
turn-meet l r left right o rest h =
    rw (unequal_at_lem l r)
      (turned (unequal_in l r) ∙ sym (meet-unequal_in o l r (joined left) (joined right)))
  where
    n : ℕ
    n = min (length l) (length r)

    turned :
        (i : Option ℕ)
        → (elim i [ some k ↦ (o + k, some (o + k)) | none ↦ rest ])
          ≡ parted o i (meet (o + n) (drop n l ++ joined left) (drop n r ++ joined right))
    turned none = h ∙ rw (joined-advance n l left, joined-advance n r right) refl
    turned (some k) = refl

-- A turn uses up the shorter of the two blocks.
advance-fewer :
    (l r : Bytes) (left right : List Bytes) (turns : ℕ)
    → suc (length left) + suc (length right) ≤ suc turns
    → let n = min (length l) (length r) in
      length (advance n l left) + length (advance n r right) ≤ turns
advance-fewer l r left right turns h = ground (
  arith,
  length-advance (min (length l) (length r)) l left,
  length-advance (min (length l) (length r)) r right,
)

-- With enough turns the walk over blocks is the comparison of the streams.
walk-meet :
    (turns : ℕ) (left right : List Bytes) (o : ℕ)
    → AllNonempty left
    → AllNonempty right
    → length left + length right ≤ turns
    → walk turns left right o ≡ meet o (joined left) (joined right)
unfolding walk
walk-meet zero [] right o hl hr enough = meet-ended_left o right hr
walk-meet zero (l ∷ left) right o hl hr enough = absurd (omega arith)
walk-meet (suc turns) [] right o hl hr enough = meet-ended_left o right hr
walk-meet (suc turns) (l ∷ left) [] o hl hr enough = meet-ended_right o l left hl.0
walk-meet (suc turns) (l ∷ left) (r ∷ right) o hl hr enough =
    let n : ℕ = min (length l) (length r) in
    turn-meet l r left right o _ (
      walk-meet turns (advance n l left) (advance n r right) (o + n)
        (AllNonempty-advance n l left (omega arith) hl.1)
        (AllNonempty-advance n r right (omega arith) hr.1)
        (advance-fewer l r left right turns (omega arith)))

-- Two streams, from offset `o` on, are the same, or agree on `k` bytes and no further: the next byte
-- differs, or one of them has none.
pub data Parting (o : ℕ) (xs ys : Bytes) (result : ℕ × Option ℕ) : Type 0 where
  same : xs ≡ ys → result ≡ (o + length xs, none) → Parting o xs ys result
  parts_at :
      (k : ℕ)
      → k ≤ length xs
      → k ≤ length ys
      → take k xs ≡ take k ys
      → take (suc k) xs ≢ take (suc k) ys
      → result ≡ (o + k, some (o + k))
      → Parting o xs ys result

parts-here : (o : ℕ) (xs ys : Bytes) → take 1 xs ≢ take 1 ys → Parting o xs ys (o, some o)
parts-here o xs ys differ =
    let z : o ≡ o + 0 = omega arith in
    parts_at 0 (omega arith) (omega arith) refl differ (ap (λ (k : ℕ). (k, some k)) z)

Parting-cons :
    (o x : ℕ) (xs ys : Bytes) (result : ℕ × Option ℕ)
    → Parting (o + 1) xs ys result
    → Parting o (x ∷ xs) (x ∷ ys) result
Parting-cons o x xs ys result (same e r) =
    same (ap (λ l. x ∷ l) e) (r ∙ ap (λ (k : ℕ). (k, none)) (omega arith))
Parting-cons o x xs ys result (parts_at k le_x le_y agree differ r) =
    parts_at (suc k) (omega arith) (omega arith) (ap (λ l. x ∷ l) agree)
      (λ e. differ (let e' : x ∷ take (suc k) xs ≡ x ∷ take (suc k) ys = e in cc))
      (r ∙ ap (λ (k : ℕ). (k, some k)) (omega arith))

pub meet-Parting : (o : ℕ) (xs ys : Bytes) → Parting o xs ys (meet o xs ys)
meet-Parting o [] [] = let z : o ≡ o + 0 = omega arith in same refl (ap (λ (k : ℕ). (k, none)) z)
meet-Parting o [] (y ∷ ys) = parts-here o [] (y ∷ ys) (λ e. absurd (cc))
meet-Parting o (x ∷ xs) [] = parts-here o (x ∷ xs) [] (λ e. absurd (cc))
meet-Parting o (x ∷ xs) (y ∷ ys) = elim (Bool-cases (x == y)) [
  | inl heads ↦
      rw (heads, meet)
        (subst (λ (v : ℕ). Parting o (x ∷ xs) (v ∷ ys) (meet (o + 1) xs ys)) ((==_iff x y).0 heads)
          (Parting-cons o x xs ys (meet (o + 1) xs ys) (meet-Parting (o + 1) xs ys)))
  | inr differ ↦
      rw (differ, meet)
        (parts-here o (x ∷ xs) (y ∷ ys)
          (λ e. let e' : x ∷ [] ≡ y ∷ [] = e in let h : x ≡ y = cc in ground arith))
]

-- Over blocks that are not empty the walk is the comparison byte by byte.
pub streams_first_difference-meet :
    (left right : List Bytes)
    → AllNonempty left
    → AllNonempty right
    → streams_first_difference left right ≡ meet 0 (joined left) (joined right)
unfolding streams_first_difference
streams_first_difference-meet left right hl hr =
    walk-meet (length left + length right) left right 0 hl hr (omega arith)

-- However two archives are cut into blocks that are not empty, the walk answers the length and no
-- difference if their bytes are the same, and otherwise the offset up to which they agree and where
-- the next byte differs or is of one of them only.
pub streams_first_difference_lem :
    (left right : List Bytes)
    → AllNonempty left
    → AllNonempty right
    → Parting 0 (joined left) (joined right) (streams_first_difference left right)
streams_first_difference_lem left right hl hr =
    rw (streams_first_difference-meet left right hl hr)
      (meet-Parting 0 (joined left) (joined right))
