-- ===== src/Http/Ranges/Grammar/Complete.antt =====
-- Every range that is written as the grammar says is read as it is meant.
use seismic_trace_resumable.Prelude.{
  ℕ, ◌+◌, ◌-◌, ◌≤◌, ◌<◌, ◌≡◌, ◌⊎◌, inl, inr, le-or-lt, min, refl, Text, true, false, Bool-cases,
  ◌||◌, =?_refl, some, [], ◌∷◌, ◌++◌, codes, length, lt→leb, le→leb, le→ltb, lt→ltb, ◌==◌, arith,
}
use seismic_trace_resumable.Http.Strings.{
  contains, count, is_empty, all_of, is_digit, is_digits, int_of, lower,
}
use seismic_trace_resumable.Http.Strings.Laws.{
  partition_complete, contains-append, count-append, count-contains, contains-digits,
  contains-lower,
}
use seismic_trace_resumable.Http.Ranges.{
  comma, dash, equals, unsatisfiable, invalid, suffix_span, open_span, closed_span, started_span,
  parse_boundaries, parse_spec, parse_single_range,
}
use seismic_trace_resumable.Http.Ranges.Grammar.{
  Form, suffix, from, between, text_of, value, IsForm, Reading, served, outside, reversed,
}

int_of_lem :
    (limit : ℕ) (t : Text) → (limit ≡ 0) ⊎ (length t ≤ limit) → int_of limit t ≡ some (value t)
unfolding int_of
int_of_lem limit t (inl unlimited) = rw unlimited refl
int_of_lem limit t (inr short) = elim (Bool-cases (limit == 0)) [
  | inl unlimited ↦ rw unlimited refl
  | inr limited ↦ rw (limited, le→ltb limit (length t) short) refl
]

digits-nonempty : (t : Text) → is_digits t ≡ true → is_empty t ≡ false
digits-nonempty [] h = absurd (cc)
digits-nonempty (x ∷ xs) h = refl

digits-all : (t : Text) → is_digits t ≡ true → all_of is_digit t ≡ true
digits-all [] h = absurd (cc)
digits-all (x ∷ xs) h = h

module _ (limit : ℕ) (v : Text) (total : ℕ) where
  suffix_span-Reading :
      (last : Text) → Reading v (suffix last) total (suffix_span limit v total (some (value last)))
  unfolding suffix_span
  suffix_span-Reading last = elim (Bool-cases (value last == 0 || total == 0)) [
    | inl none_left ↦
        rw none_left
          (outside (unsatisfiable v total) tt (λ i inside named. ground arith) refl refl refl refl)
    | inr some_left ↦ rw some_left (
        served (total - value last) total (ground arith) (omega arith) (λ i. (
          (λ (between_them : (total - value last ≤ i) × (i < total)).
              (between_them.1, omega (arith, between_them.0))),
          (λ (inside : (i < total) × (total ≤ i + value last)).
              (omega (arith, inside.1), inside.0)),
        )))
  ]

  open_span-Reading :
      (first : Text) → Reading v (from first) total (open_span limit v total (value first))
  unfolding open_span
  open_span-Reading first = elim (le-or-lt total (value first)) [
    | inl beyond ↦ rw (le→leb total (value first) beyond) (
        outside (unsatisfiable v total) tt (λ i inside named. omega (arith, inside, named, beyond))
          refl refl refl refl)
    | inr before ↦ rw (lt→leb total (value first) before) (
        served (value first) total before (omega arith) (λ i. (
          (λ (p : (value first ≤ i) × (i < total)). (p.1, p.0)),
          (λ (p : (i < total) × (value first ≤ i)). (p.1, p.0)),
        )))
  ]

  closed_span-Reading :
      (first last : Text)
      → Reading v
          (between first last)
          total
          (closed_span limit v total (value first) (some (value last)))
  unfolding closed_span
  closed_span-Reading first last = elim (le-or-lt (value first) (value last)) [
    | inr backwards ↦
        rw (lt→ltb (value last) (value first) backwards)
          (reversed (invalid v) first last refl backwards refl refl refl refl)
    | inl forwards ↦ elim (le-or-lt total (value first)) [
      | inl beyond ↦
          rw (le→ltb (value last) (value first) forwards, le→leb total (value first) beyond)
            (outside (unsatisfiable v total) forwards
              (λ i inside named. omega (arith, inside, named.0, beyond)) refl refl refl refl)
      | inr before ↦
          rw (le→ltb (value last) (value first) forwards, lt→leb total (value first) before)
            (served (value first) (min (value last + 1) total) (omega (arith, forwards, before))
              (omega arith)
              (λ i. (
                (λ (p : (value first ≤ i) × (i < min (value last + 1) total)).
                    (omega (arith, p.1), (p.0, omega (arith, p.1)))),
                (λ (p : (i < total) × ((value first ≤ i) × (i ≤ value last))).
                    (p.1.0, omega (arith, p.0, p.1.1))),
              )))
    ]
  ]

  -- A boundary on each side of the dash, or on one.
  boundaries_of : Form → Text × Text
  boundaries_of (suffix last) = ([], last)
  boundaries_of (from first) = (first, [])
  boundaries_of (between first last) = (first, last)

  parse_boundaries-Reading :
      (form : Form)
      → IsForm limit form
      → Reading v form total
          (parse_boundaries limit v total (boundaries_of form).0 (boundaries_of form).1)
  unfolding parse_boundaries started_span boundaries_of
  parse_boundaries-Reading (suffix last) (digits, short) =
      rw (digits-nonempty last digits, digits-all last digits, int_of_lem limit last short)
        (suffix_span-Reading last)
  parse_boundaries-Reading (from first) (digits, short) =
      rw (digits-nonempty first digits, digits-all first digits, int_of_lem limit first short)
        (open_span-Reading first)
  parse_boundaries-Reading (between first last) ((digits1, short1), (digits2, short2)) =
      rw
        (
          digits-nonempty first digits1,
          digits-all first digits1,
          int_of_lem limit first short1,
          digits-nonempty last digits2,
          digits-all last digits2,
          int_of_lem limit last short2,
        )
        (closed_span-Reading first last)

-- No separator stands in a numeral.
separator-free :
    (c : ℕ) → is_digit c ≡ false → (t : Text) → is_digits t ≡ true → contains c t ≡ false
separator-free c h t digits = contains-digits c h t (digits-all t digits)

module _ (limit : ℕ) (v : Text) (total : ℕ) where
  -- A text with one dash and no comma is cut at the dash.
  parse_spec-dash :
      (first last : Text)
      → contains dash first ≡ false
      → contains dash last ≡ false
      → contains comma first ≡ false
      → contains comma last ≡ false
      → parse_spec limit v total (first ++ dash ∷ last) ≡ parse_boundaries limit v total first last
  unfolding parse_spec
  parse_spec-dash first last d1 d2 c1 c2 =
      let one : count dash (first ++ dash ∷ last) ≡ 1 = omega (
        arith,
        count-append dash first (dash ∷ last),
        count-contains dash first d1,
        count-contains dash last d2,
      ) in
      rw
        (
          partition_complete dash first last d1,
          contains-append comma first (dash ∷ last) c1 c2,
          one,
        )
        refl

  parse_spec-text_of :
      (form : Form)
      → IsForm limit form
      → parse_spec limit v total (text_of form)
        ≡ parse_boundaries limit v total
            (boundaries_of limit v total form).0
            (boundaries_of limit v total form).1
  unfolding boundaries_of
  parse_spec-text_of (suffix last) (digits, short) =
      parse_spec-dash [] last refl (separator-free dash refl last digits) refl
        (separator-free comma refl last digits)
  parse_spec-text_of (from first) (digits, short) =
      parse_spec-dash first [] (separator-free dash refl first digits) refl
        (separator-free comma refl first digits) refl
  parse_spec-text_of (between first last) ((digits1, short1), (digits2, short2)) =
      parse_spec-dash first last (separator-free dash refl first digits1)
        (separator-free dash refl last digits2) (separator-free comma refl first digits1)
        (separator-free comma refl last digits2)

-- A header of the grammar, the unit in any case, is answered with 400 when it ends before it begins;
-- otherwise with the span of the positions that it names, and with 416 and the package's length when
-- it names none, as on an empty package or for a suffix of length zero.
pub parse_single_range_complete :
    (limit total : ℕ) (unit : Text) (form : Form)
    → lower unit ≡ codes "bytes"
    → IsForm limit form
    → let v = unit ++ equals ∷ text_of form in
      Reading v form total (parse_single_range limit v total)
unfolding parse_single_range
parse_single_range_complete limit total unit form named well_formed =
    let no_equals : contains equals unit ≡ false =
      contains-lower equals refl unit (rw named refl) in
    rw
      (
        partition_complete equals unit (text_of form) no_equals,
        named,
        =?_refl (codes "bytes"),
        parse_spec-text_of limit (unit ++ equals ∷ text_of form) total form well_formed,
      )
      (parse_boundaries-Reading limit (unit ++ equals ∷ text_of form) total form well_formed)
