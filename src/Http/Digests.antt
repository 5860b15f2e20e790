-- ===== src/Http/Digests.antt =====
-- The two checks of a SHA-256 that a client sends: `_validate_sha256` of app/schemas.py and
-- `SHA256_QUERY_RE` of app/main.py.
pub mod Normal
pub mod Form
use seismic_trace_resumable.Prelude.{
  ℕ, zero, suc, Text, Bool, true, false, ◌&&◌, ◌||◌, Option, none, some, List, [], ◌∷◌, leb, ◌==◌,
  if◌then◌else◌,
}
use seismic_trace_resumable.Http.Strings.{is_empty, is_digit, lower}

abbrev pub newline : ℕ
newline = 10

abbrev pub is_lower_hex : ℕ → Bool
is_lower_hex c = is_digit c || (leb 97 c && leb c 102)

abbrev pub is_hex : ℕ → Bool
is_hex c = is_lower_hex c || (leb 65 c && leb c 70)

-- `re.match(r"^[…]{n}$", text)`: the `$` also stands before a newline that ends the text.
abbrev pub regex_match : (ℕ → Bool) → ℕ → Text → Bool
regex_match p zero [] = true
regex_match p zero (c ∷ []) = c == newline
regex_match p zero (c ∷ d ∷ cs) = false
regex_match p (suc n) [] = false
regex_match p (suc n) (c ∷ cs) = p c && regex_match p n cs

-- `c.isspace()`
abbrev pub is_space : ℕ → Bool
is_space c =
    (leb 9 c && leb c 13)
    || (leb 28 c && leb c 32)
    || c == 133
    || c == 160
    || c == 5760
    || (leb 8192 c && leb c 8202)
    || c == 8232
    || c == 8233
    || c == 8239
    || c == 8287
    || c == 12288

abbrev pub lstrip : Text → Text
lstrip [] = []
lstrip (c ∷ cs) = if is_space c then lstrip cs else c ∷ cs

abbrev pub rstrip : Text → Text
rstrip [] = []
rstrip (c ∷ cs) = let rest = rstrip cs in if is_empty rest && is_space c then [] else c ∷ rest

-- `text.strip()`
abbrev pub strip : Text → Text
strip text = rstrip (lstrip text)

-- `none` is the ValueError.
unfoldable pub validate_sha256 : Text → Option Text
validate_sha256 text =
    let normalized : Text = lower (strip text) in
    if regex_match is_lower_hex 64 normalized then some normalized else none

-- `SHA256_QUERY_RE.match(text)`
unfoldable pub is_sha256_query : Text → Bool
is_sha256_query text = regex_match is_hex 64 text
