-- ===== src/Http/Handlers.antt =====
-- The two exception handlers of app/main.py. What FastAPI lists of a request that does not validate is a
-- parameter: a type of errors, each with its `loc`.
pub mod Located
use seismic_trace_resumable.Prelude.{
  ℕ, Text, Bool, true, false, not, ◌&&◌, ◌||◌, ◌=?◌, ◌==◌, codes, Option, List, [], ◌∷◌, ◌++◌,
  keep_if, if◌then◌else◌,
}
use seismic_trace_resumable.Errors.{UploadError, Body, to_body}
use seismic_trace_resumable.Http.Strings.{is_empty}

-- `content_range` is the length in the one header that an error sets.
pub record ErrorResponse : Type 0 where
  pub status_code : ℕ
  pub content : Body
  pub content_range : Option ℕ

unfoldable pub upload_error_handler : UploadError → ErrorResponse
upload_error_handler exc = record {
  status_code = exc.status_code;
  content = to_body exc;
  content_range = exc.content_range;
}

abbrev pub is_section : Text → Bool
is_section part = part =? codes "query" || part =? codes "body" || part =? codes "header"

-- `".".join(parts)`
abbrev pub join_dots : List Text → Text
join_dots [] = []
join_dots (p ∷ []) = p
join_dots (p ∷ q ∷ parts) = p ++ 46 ∷ join_dots (q ∷ parts)

abbrev pub field_name : List Text → Text
field_name loc = join_dots (keep_if (λ part. not (is_section part)) loc)

abbrev pub has_prefix : Text → Text → Bool
has_prefix [] text = true
has_prefix (c ∷ cs) [] = false
has_prefix (c ∷ cs) (d ∷ ds) = c == d && has_prefix cs ds

-- `needle in text`
abbrev pub contains_text : Text → Text → Bool
contains_text needle [] = is_empty needle
contains_text needle (c ∷ cs) = has_prefix needle (c ∷ cs) || contains_text needle cs

abbrev pub where_of : Text → Text
where_of name =
    if name =? codes "start" || name =? codes "length"
    then codes "offset"
    else if contains_text (codes "sha256") name
    then codes "digest"
    else name

-- The loop over the errors.
unfoldable pub fields_of : List (List Text) → List Text
fields_of [] = []
fields_of (loc ∷ locs) =
    let rest = fields_of locs in
    if is_empty (field_name loc) then rest else where_of (field_name loc) ∷ rest

module _ {E : Type 0} (loc : E → List Text) where
  -- `fields` and `validation` stand under `details`, with the code `validation_error`.
  pub record ValidationResponse : Type 0 where
    pub status_code : ℕ
    pub fields : List Text
    pub validation : List E

  locs : List E → List (List Text)
  locs [] = []
  locs (e ∷ errors) = loc e ∷ locs errors

  unfoldable pub validation_handler : List E → ValidationResponse
  unfolding locs
  validation_handler errors = record {
    status_code = 422;
    fields = fields_of (locs errors);
    validation = errors;
  }
