-- ===== src/Http/Strings/Laws.antt =====
-- Cutting a text at a character, and putting it together again.
use seismic_trace_resumable.Prelude.{
  or_false, ℕ, suc, ◌+◌, ◌≡◌, inl, inr, refl, ap, Text, true, false, Bool-cases, ◌&&◌, [], ◌∷◌,
  ◌++◌, ◌==◌, ==_refl, arith,
}
use seismic_trace_resumable.Http.Strings.{
  contains, count, partition, all_of, is_digit, lower_char, lower,
}

-- The cut that `partition` makes, put together.
pub partition_sound :
    (c : ℕ) (t : Text)
    → (partition c t).1 ≡ true
    → (t ≡ (partition c t).0 ++ c ∷ (partition c t).2) × (contains c (partition c t).0 ≡ false)
unfolding partition
partition_sound c [] h = absurd (cc)
partition_sound c (x ∷ xs) h = elim (Bool-cases (x == c)) [
  | inl here ↦ rw here (let e : x ≡ c = ground arith in ap (λ (y : ℕ). y ∷ xs) e, refl)
  | inr other ↦
      let (whole, without) = partition_sound c xs (rw other at h) in
      rw other (ap (λ l. x ∷ l) whole, ground arith)
]

-- A text that is put together around the first `c` is cut there.
pub partition_complete :
    (c : ℕ) (a b : Text) → contains c a ≡ false → partition c (a ++ c ∷ b) ≡ (a, true, b)
unfolding partition
partition_complete c [] b h = rw (==_refl c) refl
partition_complete c (x ∷ xs) b h = elim (Bool-cases (x == c)) [
  | inl here ↦ absurd (ground arith)
  | inr other ↦ let rest = partition_complete c xs b (ground arith) in rw (other, rest) refl
]

pub partition-count : (c n : ℕ) (t : Text) → count c t ≡ suc n → (partition c t).1 ≡ true
unfolding partition
partition-count c n [] h = absurd (omega arith)
partition-count c n (x ∷ xs) h = elim (Bool-cases (x == c)) [
  | inl here ↦ rw here refl
  | inr other ↦ rw other (partition-count c n xs (rw other at h))
]

pub contains-append :
    (c : ℕ) (a b : Text) → contains c a ≡ false → contains c b ≡ false → contains c (a ++ b) ≡ false
contains-append c [] b ha hb = hb
contains-append c (x ∷ xs) b ha hb =
    let rest = contains-append c xs b (ground arith) hb in ground arith

pub count-append : (c : ℕ) (a b : Text) → count c (a ++ b) ≡ count c a + count c b
count-append c [] b = omega arith
count-append c (x ∷ xs) b = elim (Bool-cases (x == c)) [
  | inl here ↦ rw here (omega (arith, count-append c xs b))
  | inr other ↦ rw other (count-append c xs b)
]

pub count-contains : (c : ℕ) (a : Text) → contains c a ≡ false → count c a ≡ 0
count-contains c [] h = refl
count-contains c (x ∷ xs) h = elim (Bool-cases (x == c)) [
  | inl here ↦ absurd (ground arith)
  | inr other ↦ rw other (count-contains c xs (ground arith))
]

-- Digits are no separators.
pub contains-digits :
    (c : ℕ) → is_digit c ≡ false → (t : Text) → all_of is_digit t ≡ true → contains c t ≡ false
contains-digits c h [] d = refl
contains-digits c h (x ∷ xs) d = elim (Bool-cases (x == c)) [
  | inl here ↦
      let e : x ≡ c = ground arith in
      let d' : is_digit x && all_of is_digit xs ≡ true = d in
      let f : is_digit x ≡ false = rw e h in absurd (cc)
  | inr other ↦ rw other (contains-digits c h xs (ground arith))
]

-- A character that has no other case is found in lower case too.
pub contains-lower :
    (c : ℕ) → lower_char c ≡ c → (t : Text) → contains c (lower t) ≡ false → contains c t ≡ false
contains-lower c h [] d = refl
contains-lower c h (x ∷ xs) d = elim (Bool-cases (x == c)) [
  | inl here ↦
      let e : x ≡ c = ground arith in
      let f0 : (lower_char x == c) ≡ false = (or_false d).0 in
      let f : (lower_char c == c) ≡ false = rw e at f0 in
      let g : (lower_char c == c) ≡ true = rw h (==_refl c) in absurd (cc)
  | inr other ↦ rw other (contains-lower c h xs (or_false d).1)
]
