-- ===== src/Http/Ranges/Grammar/Sound.antt =====
-- A header that is answered with a span is one of the grammar.
use seismic_trace_resumable.Prelude.{
  or_false, unnegated, ℕ, ◌≤◌, ◌≡◌, ◌⊎◌, inl, inr, Bool-cases, ==_iff, le-or-lt, refl, sym, ap, ◌∙◌,
  Text, true, not, ◌||◌, ◌=?◌, =?_iff, Option, none, some, [], ◌∷◌, ◌++◌, codes, length, lt→ltb,
  ◌==◌, arith,
}
use seismic_trace_resumable.Tx.{ok}
use seismic_trace_resumable.Http.Strings.{contains, count, partition, is_digits, int_of, lower}
use seismic_trace_resumable.Tx.Laws.{passed}
use seismic_trace_resumable.Http.Strings.Laws.{partition_sound, partition-count}
use seismic_trace_resumable.Http.Ranges.{
  comma, dash, equals, invalid, suffix_span, closed_span, started_span, parse_boundaries,
  parse_spec, parse_single_range,
}
use seismic_trace_resumable.Http.Ranges.Grammar.{
  Form, suffix, from, between, text_of, IsNumeral, IsForm,
}

int_of-short :
    (limit : ℕ) (t : Text) (n : ℕ) → int_of limit t ≡ some n → (limit ≡ 0) ⊎ (length t ≤ limit)
unfolding int_of
int_of-short limit t n h = elim (Bool-cases (limit == 0)) [
  | inl unlimited ↦ inl ((==_iff limit 0).0 unlimited)
  | inr limited ↦ elim (le-or-lt (length t) limit) [
    | inl short ↦ inr short
    | inr long ↦
        let e : none ≡ some n = rw (limited, lt→ltb limit (length t) long) at h in absurd (cc)
  ]
]

module _ (limit : ℕ) (v : Text) (total : ℕ) (s : ℕ × ℕ) where
  suffix_span-some : (o : Option ℕ) → suffix_span limit v total o ≡ ok s → (n : ℕ) × (o ≡ some n)
  unfolding suffix_span
  suffix_span-some none h = absurd (cc)
  suffix_span-some (some n) h = (n, refl)

  started_span-some :
      (last : Text) (o : Option ℕ)
      → started_span limit v total last o ≡ ok s
      → (n : ℕ) × (o ≡ some n)
  unfolding started_span
  started_span-some last none h = absurd (cc)
  started_span-some last (some n) h = (n, refl)

  closed_span-some :
      (start : ℕ) (o : Option ℕ) → closed_span limit v total start o ≡ ok s → (n : ℕ) × (o ≡ some n)
  unfolding closed_span
  closed_span-some start none h = absurd (cc)
  closed_span-some start (some n) h = (n, refl)

  abbrev Read : Text → Text → Type 0
  Read first last = (form : Form) × IsForm limit form × (text_of form ≡ first ++ dash ∷ last)

  numeral :
      (t : Text) → is_digits t ≡ true → ((n : ℕ) × (int_of limit t ≡ some n)) → IsNumeral limit t
  numeral t digits (n, converted) = (digits, int_of-short limit t n converted)

  parse_boundaries-IsForm :
      (first last : Text) → parse_boundaries limit v total first last ≡ ok s → Read first last
  unfolding parse_boundaries started_span
  parse_boundaries-IsForm [] [] h = absurd (cc)
  parse_boundaries-IsForm [] (y ∷ ys) h =
      let (digits, span) = passed (not (is_digits (y ∷ ys))) (invalid v) _ s h in
      (suffix (y ∷ ys), numeral (y ∷ ys) (unnegated digits) (suffix_span-some _ span), refl)
  parse_boundaries-IsForm (x ∷ xs) [] h =
      let (digits, span) = passed (not (is_digits (x ∷ xs))) (invalid v) _ s h in
      (from (x ∷ xs), numeral (x ∷ xs) (unnegated digits) (started_span-some [] _ span), refl)
  parse_boundaries-IsForm (x ∷ xs) (y ∷ ys) h =
      let (digits1, rest) = passed (not (is_digits (x ∷ xs))) (invalid v) _ s h in
      let (digits2, span) = passed (not (is_digits (y ∷ ys))) (invalid v) _ s rest in
      let (n, converted) = started_span-some (y ∷ ys) _ span in
      let closed : closed_span limit v total n (int_of limit (y ∷ ys)) ≡ ok s =
        rw converted at span in
      (
        between (x ∷ xs) (y ∷ ys),
        (
          numeral (x ∷ xs) (unnegated digits1) (n, converted),
          numeral (y ∷ ys) (unnegated digits2) (closed_span-some n _ closed),
        ),
        refl,
      )

  parse_spec-IsForm :
      (spec : Text)
      → parse_spec limit v total spec ≡ ok s
      → (form : Form) × IsForm limit form × (spec ≡ text_of form)
  unfolding parse_spec
  parse_spec-IsForm spec h =
      let (no_comma, rest) = passed (contains comma spec) (invalid v) _ s h in
      let (one, span) = passed (not (count dash spec == 1)) (invalid v) _ s rest in
      let counted : (count dash spec == 1) ≡ true = unnegated one in
      let (whole, _) = partition_sound dash spec (partition-count dash 0 spec (ground arith)) in
      let (form, well_formed, as_written) = parse_boundaries-IsForm _ _ span in
      (form, well_formed, whole ∙ sym as_written)

  -- A span is answered only for a header of the grammar: the unit `bytes` in any case, one `=`, one
  -- dash, digits alone on each side of it or on one, and nothing else.
  pub parse_single_range_sound :
      parse_single_range limit v total ≡ ok s
      → (unit : Text) × (form : Form) × (lower unit ≡ codes "bytes")
        × IsForm limit form
        × (v ≡ unit ++ equals ∷ text_of form)
  unfolding parse_single_range
  parse_single_range_sound h =
      let (checks, span) =
        passed (not (partition equals v).1 || not (lower (partition equals v).0 =? codes "bytes"))
          (invalid v) _ s h in
      let (found, named) = or_false checks in
      let (whole, _) = partition_sound equals v (unnegated found) in
      let (form, well_formed, as_written) = parse_spec-IsForm (partition equals v).2 span in
      (
        (partition equals v).0,
        form,
        (=?_iff _ _).0 (unnegated named),
        well_formed,
        whole ∙ ap (λ t. (partition equals v).0 ++ equals ∷ t) as_written,
      )
