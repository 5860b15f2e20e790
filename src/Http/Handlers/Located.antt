-- ===== src/Http/Handlers/Located.antt =====
-- Where a request that does not validate is said to be wrong.
use seismic_trace_resumable.Prelude.{
  ℕ, suc, ◌≡◌, refl, ap, Text, false, Bool-cases, inl, inr, ◌=?◌, ◌||◌, codes, List, [], ◌∷◌,
  length, if◌then◌else◌,
}
use seismic_trace_resumable.Http.Strings.{is_empty}
use seismic_trace_resumable.Http.Handlers.{field_name, contains_text, where_of, fields_of}

abbrev pub AllNamed : List Text → Type 0
AllNamed [] = Unit
AllNamed (field ∷ fields) = (is_empty field ≡ false) × AllNamed fields

-- The errors that name a part of the request.
abbrev pub named : List (List Text) → ℕ
named [] = 0
named (loc ∷ locs) = let rest = named locs in if is_empty (field_name loc) then rest else suc rest

where_of-nonempty : (name : Text) → is_empty name ≡ false → is_empty (where_of name) ≡ false
where_of-nonempty name h = elim (Bool-cases (name =? codes "start" || name =? codes "length")) [
  | inl offset ↦ rw offset refl
  | inr other ↦ rw other (elim (Bool-cases (contains_text (codes "sha256") name)) [
    | inl digest ↦ rw digest refl
    | inr plain ↦ rw plain h
  ])
]

-- No field is without a name, and every error that names a part of the request has its field.
pub fields_of-AllNamed :
    (locs : List (List Text)) → AllNamed (fields_of locs) × (length (fields_of locs) ≡ named locs)
unfolding fields_of
fields_of-AllNamed [] = (tt, refl)
fields_of-AllNamed (loc ∷ locs) = elim (Bool-cases (is_empty (field_name loc))) [
  | inl anonymous ↦ rw anonymous (fields_of-AllNamed locs)
  | inr some_name ↦
      let (all, count) = fields_of-AllNamed locs in
      rw some_name ((where_of-nonempty (field_name loc) some_name, all), ap suc count)
]
