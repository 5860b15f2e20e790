-- ===== src/Http/Digests/Form.antt =====
-- What the pattern of a chunk's digest takes, character by character.
use seismic_trace_resumable.Prelude.{
  and_true, ==_iff, ℕ, zero, suc, ◌≤◌, ◌≡◌, ◌⊎◌, inl, inr, refl, ap, Text, true, [], ◌∷◌, ◌++◌,
  length, arith,
}
use seismic_trace_resumable.Http.Digests.{newline, is_hex, regex_match, is_sha256_query}

-- `0` to `9`, `a` to `f` or `A` to `F`.
abbrev pub IsHexDigit : ℕ → Type 0
IsHexDigit c = ((48 ≤ c) × (c ≤ 57)) ⊎ (((97 ≤ c) × (c ≤ 102)) ⊎ ((65 ≤ c) × (c ≤ 70)))

abbrev pub AllHexDigits : Text → Type 0
AllHexDigits [] = Unit
AllHexDigits (c ∷ cs) = IsHexDigit c × AllHexDigits cs

-- So many hexadecimal digits, with a line feed behind them or none.
pub record IsHexText (n : ℕ) (text : Text) : Type 0 where
  pub digits : Text
  pub long : length digits ≡ n
  pub hexadecimal : AllHexDigits digits
  pub ends : (text ≡ digits) ⊎ (text ≡ digits ++ 10 ∷ [])

is_hex-IsHexDigit : (c : ℕ) → is_hex c ≡ true → IsHexDigit c
is_hex-IsHexDigit c h = ground arith

regex_match-IsHexText : (n : ℕ) (t : Text) → regex_match is_hex n t ≡ true → IsHexText n t
regex_match-IsHexText zero [] h = record {
  digits = [];
  long = refl;
  hexadecimal = tt;
  ends = inl refl;
}
regex_match-IsHexText zero (c ∷ []) h =
    let feed : c ≡ newline = (==_iff c newline).0 h in
    record { digits = []; long = refl; hexadecimal = tt; ends = inr (ap (λ (x : ℕ). x ∷ []) feed) }
regex_match-IsHexText zero (c ∷ d ∷ cs) h = absurd (cc)
regex_match-IsHexText (suc n) [] h = absurd (cc)
regex_match-IsHexText (suc n) (c ∷ cs) h =
    let (head, rest) = and_true (is_hex c) (regex_match is_hex n cs) h in
    let more = regex_match-IsHexText n cs rest in
    record {
      digits = c ∷ more.digits;
      long = ap suc more.long;
      hexadecimal = (is_hex-IsHexDigit c head, more.hexadecimal);
      ends = elim more.ends [
        | inl e ↦ inl (ap (λ (l : Text). c ∷ l) e)
        | inr e ↦ inr (ap (λ (l : Text). c ∷ l) e)
      ];
    }

-- The pattern takes nothing but sixty-four hexadecimal digits, with a line feed behind them or none.
pub is_sha256_query-IsHexText : (t : Text) → is_sha256_query t ≡ true → IsHexText 64 t
unfolding is_sha256_query
is_sha256_query-IsHexText t h = regex_match-IsHexText 64 t h
