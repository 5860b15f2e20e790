-- ===== src/Errors.antt =====
-- app/errors.py: the one error type, its machine-readable code and the place it points at. The
-- prose of a message is left out. `Details` has one constructor for each shape of the dictionary
-- that the code attaches.
use seismic_trace_resumable.Prelude.{ℕ, Text, Bool, Option, none, some, List}
use seismic_trace_resumable.Prelude.Int.{ℤ}
use seismic_trace_resumable.Model.{Status}

pub data Code : Type 0 where
  whole_digest_mismatch session_not_found stale_offset session_failed_terminal : Code
  sealed_content_conflict session_sealed audit_write_failed invalid_offset : Code
  invalid_length length_mismatch chunk_digest_mismatch chunk_beyond_total : Code
  sealed_integrity_error invalid_target_chunk_bytes compaction_state_conflict : Code
  compaction_integrity_error comparison_integrity_error comparison_state_conflict : Code
  comparison_not_found invalid_status chunk_too_large invalid_digest : Code
  range_not_satisfiable invalid_range not_sealed : Code
  -- An exception that no handler takes: the server answers a plain 500.
  unhandled : Code

pub data Side : Type 0 where
  baseline candidate : Side

-- An argument that should be an integer; `bool` is a subclass of `int`, and any other value is
-- carried by its print.
pub data Argument : Type 0 where
  integer : ℤ → Argument
  boolean : Bool → Argument
  other : Text → Argument

pub data Details : Type 0 where
  no_details : Details
  at_length : ℤ → Details
  lengths : ℕ → ℕ → Details
  bounds : ℕ → ℕ → Details
  computed : Option Text → Details
  at_target : Argument → Details
  in_status : Status → Details
  at_side : Side → Text → Details
  side_status : Side → Text → Status → Details
  at_range : Text → Details
  at_ranges : List Text → Details
  range_total : Text → ℕ → Details
  received_limit : ℕ → ℕ → Details

-- `content_range` is the length in the one header that an error sets, `bytes */<total>`.
pub record UploadError : Type 0 where
  pub status_code : ℕ
  pub code : Code
  pub offset : Option ℤ
  pub expected_offset : Option ℕ
  pub digest : Option Text
  pub expected_digest : Option Text
  pub details : Details
  pub content_range : Option ℕ

-- `UploadError(status_code, code, message)` with its keyword arguments left out.
abbrev pub upload_error : ℕ → Code → UploadError
upload_error status_code code = record {
  status_code = status_code;
  code = code;
  offset = none;
  expected_offset = none;
  digest = none;
  expected_digest = none;
  details = no_details;
  content_range = none;
}

pub record Location : Type 0 where
  pub offset : Option ℤ
  pub expected_offset : Option ℕ
  pub digest : Option Text
  pub expected_digest : Option Text

pub record Body : Type 0 where
  pub code : Code
  pub location : Option Location
  pub details : Option Details

-- A location that names nothing is not sent.
location_of : Option ℤ → Option ℕ → Option Text → Option Text → Option Location
location_of none none none none = none
location_of offset expected digest expected_digest = some (record {
  offset = offset;
  expected_offset = expected;
  digest = digest;
  expected_digest = expected_digest;
})

details_of : Details → Option Details
details_of no_details = none
details_of details = some details

unfoldable pub to_body : UploadError → Body
unfolding location_of details_of
to_body e = record {
  code = e.code;
  location = location_of e.offset e.expected_offset e.digest e.expected_digest;
  details = details_of e.details;
}
