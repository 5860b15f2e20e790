-- ===== src/Http/Strings.antt =====
-- Python's `str` methods that app/main.py and app/schemas.py use, on code points. `lower` is that of
-- Latin-1; no further code point has a lower case within ASCII that `_parse_single_range` or
-- `_validate_sha256` looks for.
pub mod Laws
use seismic_trace_resumable.Prelude.{
  ℕ, suc, ◌+◌, ◌-◌, ◌*◌, Text, Bool, true, false, not, ◌&&◌, ◌||◌, Option, none, some, List, [],
  ◌∷◌, map, length, ltb, leb, ◌==◌, if◌then◌else◌,
}

-- `c in text`
abbrev pub contains : ℕ → Text → Bool
contains c [] = false
contains c (x ∷ xs) = x == c || contains c xs

-- `text.count(c)`
abbrev pub count : ℕ → Text → ℕ
count c [] = 0
count c (x ∷ xs) = let rest = count c xs in if x == c then suc rest else rest

-- `text.partition(c)`: what stands before the first `c`, whether there is one, and what follows.
unfoldable pub partition : ℕ → Text → Text × Bool × Text
partition c [] = ([], false, [])
partition c (x ∷ xs) =
    let (before, found, behind) = partition c xs in
    if x == c then ([], true, xs) else (x ∷ before, found, behind)

abbrev pub all_of : (ℕ → Bool) → Text → Bool
all_of p [] = true
all_of p (x ∷ xs) = p x && all_of p xs

abbrev pub is_empty : Text → Bool
is_empty [] = true
is_empty (x ∷ xs) = false

abbrev pub is_digit : ℕ → Bool
is_digit c = leb 48 c && leb c 57

-- `text.isascii() and text.isdigit()`
abbrev pub is_digits : Text → Bool
is_digits text = not (is_empty text) && all_of is_digit text

abbrev pub value_from : ℕ → Text → ℕ
value_from n [] = n
value_from n (c ∷ cs) = value_from (n * 10 + (c - 48)) cs

-- `int(text)` of ASCII digits. The interpreter refuses more of them than `sys.get_int_max_str_digits()`,
-- where 0 stands for no limit.
unfoldable pub int_of : ℕ → Text → Option ℕ
int_of limit text =
    if not (limit == 0) && ltb limit (length text) then none else some (value_from 0 text)

abbrev pub lower_char : ℕ → ℕ
lower_char c =
    if (leb 65 c && leb c 90) || (leb 192 c && leb c 222 && not (c == 215)) then c + 32 else c

-- `text.lower()`
abbrev pub lower : Text → Text
lower text = map lower_char text
