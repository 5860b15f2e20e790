-- ===== src/Examples/Routes.antt =====
-- Range headers, digests, and requests to the routes.
use seismic_trace_resumable.Prelude.{
  inr, ap, true, ℕ, ◌≡◌, ◌≤◌, ◌⊎◌, refl, Text, Bytes, joined, List, [], ◌∷◌, ◌++◌, some, codes,
  text_dec, arith, length,
}
use seismic_trace_resumable.Prelude.Int.{pos}
use seismic_trace_resumable.Model.{UploadSession, is_sealed}
use seismic_trace_resumable.Errors.{UploadError}
use seismic_trace_resumable.Storage.{chunks_of, Db, get_session}
use seismic_trace_resumable.Tx.{ok, err, serve, Result}
use seismic_trace_resumable.Layout.{contents}
use seismic_trace_resumable.Http.Strings.{partition, lower, int_of}
use seismic_trace_resumable.Http.Ranges.{equals, parse_single_range}
use seismic_trace_resumable.Http.Ranges.Grammar.{Form, between, text_of, IsForm, Reading}
use seismic_trace_resumable.Http.Ranges.Grammar.Complete.{parse_single_range_complete}
use seismic_trace_resumable.Http.Ranges.Grammar.Sound.{parse_single_range_sound}
use seismic_trace_resumable.Http.Content.{Content, full_content, download_content}
use seismic_trace_resumable.Http.Content.Sealed.{answer_of, download_content-sealed}
use seismic_trace_resumable.Http.Content.Genuine.{IsReleased, download_content_sound}
use seismic_trace_resumable.Http.Digests.{validate_sha256}
use seismic_trace_resumable.Http.Digests.Normal.{IsDigest, validate_sha256_sound}
use seismic_trace_resumable.Http.Uploads.{upload_request}
use seismic_trace_resumable.Http.Uploads.Checks.{IsPassed, upload_request-cases}
use seismic_trace_resumable.Examples.Data.{plain, plain-IsLawful, env, sid, created}
use seismic_trace_resumable.Examples.Histories.{finished, finished-IsWellFormed, at_last}

-- The digits that CPython's `int` takes unless told otherwise.
abbrev digits : ℕ
digits = 4300

parse_single_range_complete_example :
    Reading
      (codes "Bytes" ++ equals ∷ text_of (between (codes "2") (codes "05")))
      (between (codes "2") (codes "05"))
      10
      (parse_single_range digits
        (codes "Bytes" ++ equals ∷ text_of (between (codes "2") (codes "05")))
        10)
parse_single_range_complete_example =
    parse_single_range_complete digits 10 (codes "Bytes") (between (codes "2") (codes "05")) refl
      ((refl, inr (omega arith)), (refl, inr (omega arith)))

last_four : parse_single_range digits (codes "bytes=-4") 10 ≡ ok (6, 10)
unfolding parse_single_range partition int_of text_dec
last_four = refl

parse_single_range_sound_example :
    (unit : Text) × (form : Form) × (lower unit ≡ codes "bytes")
    × IsForm digits form
    × (codes "bytes=-4" ≡ unit ++ equals ∷ text_of form)
parse_single_range_sound_example =
    parse_single_range_sound digits (codes "bytes=-4") 10 (6, 10) last_four

download_content-sealed_example :
    serve (download_content plain digits sid (codes "bytes=1-" ∷ [])) finished ≡ (
      answer_of digits at_last.0
          (contents (chunks_of finished at_last.0.id))
          (codes "bytes=1-" ∷ []),
      finished,
    )
download_content-sealed_example =
    download_content-sealed plain plain-IsLawful digits finished finished-IsWellFormed sid at_last.0
      at_last.1 at_last.2 (codes "bytes=1-" ∷ [])

-- A digest in upper case, between spaces.
abbrev shouted : Text
shouted = codes " ABCDEF00ABCDEF00ABCDEF00ABCDEF00ABCDEF00ABCDEF00ABCDEF00ABCDEF00 "

abbrev plain_digest : Text
plain_digest = codes "abcdef00abcdef00abcdef00abcdef00abcdef00abcdef00abcdef00abcdef00"

shouted-taken : validate_sha256 shouted ≡ some plain_digest
unfolding validate_sha256
shouted-taken = refl

validate_sha256_sound_example :
    IsDigest plain_digest × (validate_sha256 plain_digest ≡ some plain_digest)
validate_sha256_sound_example = validate_sha256_sound shouted plain_digest shouted-taken

abbrev blocks : List Bytes
blocks = (10 ∷ []) ∷ (20 ∷ []) ∷ []

upload_request-cases_example :
    ((e : UploadError) × (serve
          (upload_request plain env 8 sid (pos 0) (pos 2) plain_digest blocks)
          created
        ≡ (err e, created)))
    ⊎ ((length (joined blocks) ≤ 8)
        × IsPassed plain env 8 created sid
            (pos 0)
            (pos 2)
            plain_digest
            (joined blocks)
            (serve (upload_request plain env 8 sid (pos 0) (pos 2) plain_digest blocks) created))
upload_request-cases_example =
    upload_request-cases plain env 8 created sid plain_digest (pos 0) (pos 2) blocks

abbrev all_of_it : Content
all_of_it = full_content at_last.0 (contents (chunks_of finished at_last.0.id))

download_content_sound_example :
    (u : UploadSession) × (get_session finished sid ≡ some u)
    × (is_sealed u.status ≡ true)
    × IsReleased plain plain-IsLawful digits finished u all_of_it
download_content_sound_example =
    download_content_sound plain plain-IsLawful digits finished sid [] all_of_it (
      ap (λ (answer : Result Content × Db). answer.0)
        (download_content-sealed plain plain-IsLawful digits finished finished-IsWellFormed sid
          at_last.0 at_last.1 at_last.2 []))
