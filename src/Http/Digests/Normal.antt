-- ===== src/Http/Digests/Normal.antt =====
-- The normal form of a digest.
use mathlib.Core.Path.{ap₂, subst}
use seismic_trace_resumable.Prelude.{
  and_true, ℕ, zero, suc, ◌<◌, ◌≡◌, refl, sym, ap, ◌∙◌, Text, Bool, true, false, Bool-cases, inl,
  inr, ◌&&◌, none, some, [], ◌∷◌, ◌++◌, append-nil, length, ◌==◌, arith, if◌then◌else◌,
}
use seismic_trace_resumable.Http.Strings.{is_empty, all_of, lower_char, lower}
use seismic_trace_resumable.Http.Digests.{
  newline, is_lower_hex, is_hex, regex_match, is_space, lstrip, rstrip, strip, validate_sha256,
  is_sha256_query,
}

-- Sixty-four hexadecimal digits in lower case.
pub record IsDigest (text : Text) : Type 0 where
  pub long : length text ≡ 64
  pub hexadecimal : all_of is_lower_hex text ≡ true

ends_in : (ℕ → Bool) → Text → Bool
ends_in p [] = false
ends_in p (c ∷ []) = p c
ends_in p (c ∷ d ∷ cs) = ends_in p (d ∷ cs)

-- A match with no newline at its end is the characters alone.
regex_match-exact :
    (p : ℕ → Bool) (n : ℕ) (t : Text)
    → regex_match p n t ≡ true
    → ends_in (λ c. c == newline) t ≡ false
    → (length t ≡ n) × (all_of p t ≡ true)
unfolding ends_in
regex_match-exact p zero [] h e = (refl, refl)
regex_match-exact p zero (c ∷ []) h e = absurd (cc)
regex_match-exact p zero (c ∷ d ∷ cs) h e = absurd (cc)
regex_match-exact p (suc n) [] h e = absurd (cc)
regex_match-exact p (suc n) (c ∷ []) h e =
    let (head, rest) = and_true (p c) (regex_match p n []) h in
    let (size, all) = regex_match-exact p n [] rest refl in (omega (arith, size), rw head refl)
regex_match-exact p (suc n) (c ∷ d ∷ cs) h e =
    let (head, rest) = and_true (p c) (regex_match p n (d ∷ cs)) h in
    let (size, all) = regex_match-exact p n (d ∷ cs) rest e in (omega (arith, size), rw head all)

regex_match-all : (p : ℕ → Bool) (t : Text) → all_of p t ≡ true → regex_match p (length t) t ≡ true
regex_match-all p [] h = refl
regex_match-all p (c ∷ cs) h =
    let (head, rest) = and_true (p c) (all_of p cs) h in rw head (regex_match-all p cs rest)

rstrip-end : (t : Text) → ends_in is_space (rstrip t) ≡ false
unfolding ends_in
rstrip-end [] = refl
rstrip-end (c ∷ cs) = by_rest (rstrip cs) (rstrip-end cs)
  where
    by_rest :
        (rest : Text)
        → ends_in is_space rest ≡ false
        → ends_in is_space (if is_empty rest && is_space c then [] else c ∷ rest) ≡ false
    by_rest [] h = elim (Bool-cases (is_space c)) [
      | inl space ↦ rw space refl
      | inr not_space ↦ rw not_space not_space
    ]
    by_rest (d ∷ ds) h = h

lower-newline : (c : ℕ) → is_space c ≡ false → (lower_char c == newline) ≡ false
lower-newline c h = ground arith

lower-end : (t : Text) → ends_in is_space t ≡ false → ends_in (λ c. c == newline) (lower t) ≡ false
unfolding ends_in
lower-end [] h = refl
lower-end (c ∷ []) h = lower-newline c h
lower-end (c ∷ d ∷ cs) h = lower-end (d ∷ cs) h

hex-plain : (c : ℕ) → is_lower_hex c ≡ true → (is_space c ≡ false) × (lower_char c ≡ c)
hex-plain c h = (ground arith, ground arith)

hex-lower : (c : ℕ) → is_hex c ≡ true → (is_space c ≡ false) × (is_lower_hex (lower_char c) ≡ true)
hex-lower c h = (ground arith, ground arith)

lower-plain : (t : Text) → all_of is_lower_hex t ≡ true → lower t ≡ t
lower-plain [] h = refl
lower-plain (c ∷ cs) h =
    let (head, rest) = and_true (is_lower_hex c) (all_of is_lower_hex cs) h in
    ap₂ (λ (x : ℕ) (l : Text). x ∷ l) (hex-plain c head).1 (lower-plain cs rest)

all-lower : (t : Text) → all_of is_hex t ≡ true → all_of is_lower_hex (lower t) ≡ true
all-lower [] h = refl
all-lower (c ∷ cs) h =
    let (head, rest) = and_true (is_hex c) (all_of is_hex cs) h in
    rw (hex-lower c head).1 (all-lower cs rest)

length-lower : (t : Text) → length (lower t) ≡ length t
length-lower [] = refl
length-lower (c ∷ cs) = ap suc (length-lower cs)

lstrip-spaces : (a t : Text) → all_of is_space a ≡ true → lstrip (a ++ t) ≡ lstrip t
lstrip-spaces [] t h = refl
lstrip-spaces (c ∷ cs) t h =
    let (head, rest) = and_true (is_space c) (all_of is_space cs) h in
    rw head (lstrip-spaces cs t rest)

rstrip-spaces : (b : Text) → all_of is_space b ≡ true → rstrip b ≡ []
rstrip-spaces [] h = refl
rstrip-spaces (c ∷ cs) h =
    let (head, rest) = and_true (is_space c) (all_of is_space cs) h in
    rw (rstrip-spaces cs rest, head) refl

rstrip-hex : (t b : Text) → all_of is_hex t ≡ true → all_of is_space b ≡ true → rstrip (t ++ b) ≡ t
rstrip-hex [] b h s = rstrip-spaces b s
rstrip-hex (c ∷ cs) b h s =
    let (head, rest) = and_true (is_hex c) (all_of is_hex cs) h in
    let plain : is_space c ≡ false = (hex-lower c head).0 in
    rw (rstrip-hex cs b rest s) (kept (is_empty cs) (is_space c) plain)
  where
    kept : (b x : Bool) → x ≡ false → (if b && x then [] else c ∷ cs) ≡ c ∷ cs
    kept true x e = rw e refl
    kept false x e = refl

lstrip-hex : (t b : Text) → all_of is_hex t ≡ true → 0 < length t → lstrip (t ++ b) ≡ t ++ b
lstrip-hex [] b h some_digits = absurd (omega arith)
lstrip-hex (c ∷ cs) b h some_digits =
    let (head, rest) = and_true (is_hex c) (all_of is_hex cs) h in rw (hex-lower c head).0 refl

-- Sixty-four hexadecimal digits in any case, with white space before and behind, are taken, and what is
-- kept of them is the digits in lower case.
pub validate_sha256_complete :
    (a t b : Text)
    → all_of is_space a ≡ true
    → all_of is_hex t ≡ true
    → length t ≡ 64
    → all_of is_space b ≡ true
    → validate_sha256 (a ++ (t ++ b)) ≡ some (lower t)
unfolding validate_sha256
validate_sha256_complete a t b before hexadecimal long behind =
    let stripped : strip (a ++ (t ++ b)) ≡ t =
      ap rstrip (lstrip-spaces a (t ++ b) before ∙ lstrip-hex t b hexadecimal (omega (arith, long)))
      ∙ rstrip-hex t b hexadecimal behind in
    let all : regex_match is_lower_hex (length (lower t)) (lower t) ≡ true =
      regex_match-all is_lower_hex (lower t) (all-lower t hexadecimal) in
    let size : length (lower t) ≡ 64 = length-lower t ∙ long in
    let all64 : regex_match is_lower_hex 64 (lower t) ≡ true = rw size at all in
    rw (stripped, all64) refl

hex-any : (t : Text) → all_of is_lower_hex t ≡ true → all_of is_hex t ≡ true
hex-any [] h = refl
hex-any (c ∷ cs) h =
    let (head, rest) = and_true (is_lower_hex c) (all_of is_lower_hex cs) h in
    let any : is_hex c ≡ true = rw head refl in rw any (hex-any cs rest)

-- A digest in normal form is taken as it is.
validate-IsDigest : (d : Text) → IsDigest d → validate_sha256 d ≡ some d
validate-IsDigest d h =
    ap validate_sha256 (sym (append-nil d))
    ∙ validate_sha256_complete [] d [] refl (hex-any d h.hexadecimal) h.long refl
    ∙ ap some (lower-plain d h.hexadecimal)

-- A digest in normal form passes the check of a chunk's digest, and its case is the kept one.
pub is_sha256_query-IsDigest : (d : Text) → IsDigest d → (is_sha256_query d ≡ true) × (lower d ≡ d)
unfolding is_sha256_query
is_sha256_query-IsDigest d h = (
  subst (λ n. regex_match is_hex n d ≡ true) h.long
      (regex_match-all is_hex d (hex-any d h.hexadecimal)),
  lower-plain d h.hexadecimal,
)

normal-IsDigest :
    (t : Text) → regex_match is_lower_hex 64 (lower (strip t)) ≡ true → IsDigest (lower (strip t))
normal-IsDigest t h =
    let (long, all) =
      regex_match-exact is_lower_hex 64 (lower (strip t)) h
        (lower-end (strip t) (rstrip-end (lstrip t))) in
    record { long = long; hexadecimal = all }

-- What is kept of a digest is sixty-four hexadecimal digits in lower case, with no white space, and is
-- taken as it is when it is sent again.
pub validate_sha256_sound :
    (text d : Text) → validate_sha256 text ≡ some d → IsDigest d × (validate_sha256 d ≡ some d)
unfolding validate_sha256
validate_sha256_sound text d h =
    elim (Bool-cases (regex_match is_lower_hex 64 (lower (strip text)))) [
      | inr refused ↦ let e : none ≡ some d = rw refused at h in absurd (cc)
      | inl matched ↦
          let e : some (lower (strip text)) ≡ some d = rw matched at h in
          let same : lower (strip text) ≡ d = cc in
          let normal : IsDigest d = subst IsDigest same (normal-IsDigest text matched) in
          (normal, validate-IsDigest d normal)
    ]
