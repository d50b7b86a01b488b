-- ===== src/Outcome.antt =====
-- app/services/upload_outcome.py: the routing decision for one file. The sentence that goes into
-- `cbos_response` is the constructor of `Response` with the values that it quotes.
pub mod Kinds
use Kinds.{Destination, Outcome, FileStatus}
use edpbilling_file_upload.Base.{Bool, true, false, Option, none, some, List, Text}
use edpbilling_file_upload.Cbos.Reservation.{CbosError}
use edpbilling_file_upload.Matching.{FileRejected}

pub data Response : Type 0 where
  -- "Uploaded and registered in CBOS", with the FILEUPLOAD reading
  registered : Text → Response
  -- "Registered in CBOS; FILEUPLOAD good-to-go not confirmed by uploader", with the reading
  not_confirmed : Text → Response
  -- "Skipped - already uploaded (idempotent)"
  skipped : Response
  -- "Registered in CBOS; batch parked INCOMPLETE", with the unfilled slots
  parked : List Text → Response
  -- "Rejected before upload: …"
  rejected_locally : FileRejected → Response
  -- the text of the error
  call_failed : CbosError → Response

pub record FileOutcome : Type 0 where
  pub outcome : Outcome
  pub destination : Destination
  pub status : FileStatus
  pub cbos_response : Response
  pub validation_error : Option FileRejected
  pub counts_as_retry : Bool
  pub stamp_uploaded_at : Bool

unfoldable pub confirmed : Text → FileOutcome
confirmed poll_message = record {
  outcome = Outcome.confirmed;
  destination = Destination.uploaded;
  status = FileStatus.uploaded;
  cbos_response = registered poll_message;
  validation_error = none;
  counts_as_retry = false;
  stamp_uploaded_at = true;
}

unfoldable pub unconfirmed : Text → FileOutcome
unconfirmed poll_message = record {
  outcome = Outcome.unconfirmed;
  destination = Destination.uploaded;
  status = FileStatus.uploaded;
  cbos_response = not_confirmed poll_message;
  validation_error = none;
  counts_as_retry = false;
  stamp_uploaded_at = true;
}

unfoldable pub idempotent_skip : FileOutcome
idempotent_skip = record {
  outcome = Outcome.idempotent_skip;
  destination = Destination.uploaded;
  status = FileStatus.uploaded;
  cbos_response = skipped;
  validation_error = none;
  counts_as_retry = false;
  stamp_uploaded_at = false;
}

unfoldable pub gate_parked : List Text → FileOutcome
gate_parked missing_slots = record {
  outcome = Outcome.gate_parked;
  destination = Destination.uploaded;
  status = FileStatus.uploaded;
  cbos_response = parked missing_slots;
  validation_error = none;
  counts_as_retry = false;
  stamp_uploaded_at = true;
}

unfoldable pub rejected : FileRejected → FileOutcome
rejected error = record {
  outcome = Outcome.rejected;
  destination = Destination.failed;
  status = FileStatus.failed;
  cbos_response = rejected_locally error;
  validation_error = some error;
  counts_as_retry = true;
  stamp_uploaded_at = false;
}

unfoldable pub failed : CbosError → FileOutcome
failed error = record {
  outcome = Outcome.failed;
  destination = Destination.failed;
  status = FileStatus.failed;
  cbos_response = call_failed error;
  validation_error = none;
  counts_as_retry = true;
  stamp_uploaded_at = false;
}

unfoldable pub from_poll_result : Text → FileOutcome
unfolding confirmed
from_poll_result poll_message = confirmed poll_message
