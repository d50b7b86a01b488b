-- ===== src/Lane/Gate.antt =====
-- upload_service.py: the completeness gate, and which slots Step 8 may mark optional.
use edpbilling_file_upload.Base.{◌&&◌, ◌||◌, Bool, not, List, filter, Text, one_of}
use edpbilling_file_upload.Cbos.Value.{is_none}
use edpbilling_file_upload.Cbos.Reservation.{
  UploadCandidate, expects_a_file, already_in_cbos, needs_upload,
}

-- `empty_slots`
unfoldable pub empty_slots : List UploadCandidate → List Text → List UploadCandidate
empty_slots candidates filled =
    filter (λ c. needs_upload c && not (one_of c.upload_id filled)) candidates

-- `missing_required`, of the empty slots
unfoldable pub missing_required : List UploadCandidate → List Text → List UploadCandidate
missing_required empty allowed =
    filter (λ c. expects_a_file c && not (one_of c.upload_id allowed)) empty

-- The first Step 8 loop: optional slots that never take a file.
unfoldable pub optional_step : UploadCandidate → Bool
optional_step c = not (not c.is_optional || expects_a_file c || is_none c.step_no)

-- The second Step 8 loop: optional file slots that got none, now or before.
unfoldable pub unused_optional : List Text → UploadCandidate → Bool
unused_optional filled c = not (
    not c.is_optional
    || not (expects_a_file c)
    || is_none c.step_no
    || one_of c.upload_id filled
    || already_in_cbos c)
