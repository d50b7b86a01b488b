-- ===== src/Lane/Client.antt =====
-- What app/services/upload_service.py asks of its surroundings: the client's interface
-- (app/clients/cbos_client.py), settings, and the contents of files. A call takes the state of the
-- server and returns what it answers, or the exception that it raises, with the state after it.
use edpbilling_file_upload.Base.{ℕ, Bool, Option, List, Text}
use edpbilling_file_upload.Cbos.Value.{Scalar}
use edpbilling_file_upload.Cbos.Reservation.{CbosError, ProcessReservation}
use edpbilling_file_upload.Cbos.Rule.{UploadRule}
use edpbilling_file_upload.UploadName.{Expected}
use edpbilling_file_upload.Files.{FilePath}
use edpbilling_file_upload.Matching.{MatchSettings}
use edpbilling_file_upload.Matching.Columns.{Lines}

-- CBOSUploadError, or any other exception.
pub data Failure : Type 0 where
  cbos : CbosError → Failure
  file_not_found integrity_error no_attempt unexpected : Failure

pub data Reply {ℓ} (A : Type ℓ) : Type ℓ where
  answer : A → Reply A
  raise : Failure → Reply A

-- A Step 5 transfer: the (chunks_done, total_chunks) that it reported on its way, and how it ended.
pub record Transfer (Server : Type 0) : Type 0 where
  pub reports : List (ℕ × ℕ)
  pub reply : Reply (Unit {0})
  pub server : Server

-- Step 4's answer for a slot, as `upload_settings` reads it: none, a rule, or no usable pattern,
-- with what `_parse_upload_rule` makes of another one.
pub data Settings : Type 0 where
  no_settings : Settings
  usable : UploadRule → Settings
  no_pattern : (Text → Option UploadRule) → Settings

pub record Env : Type 1 where
  pub Server : Type 0
  pub may_begin_upload : Text → Text → Server → Reply Bool × Server
  pub find_existing_process_id : Text → Text → Server → Reply (Option Text) × Server
  pub reserve_process : Text → Text → Text → Server → Reply ProcessReservation × Server
  -- Step 4: UploadID, the slot's name
  pub upload_settings : Text → Text → Server → Reply Settings × Server
  -- _expected_name_pattern, which makes Step 40: segment, UploadID, trade date
  pub expected_name_pattern : Text → Text → Text → Server → Reply (Option Text) × Server
  -- get_expected_filename and its decoding, `none` for any exception: segment, UploadID, trade date
  pub expected_filename : Text → Text → Text → Server → Option Expected × Server
  pub check_process_exists : Text → Text → Server → Reply Text × Server
  pub upload_file : FilePath → Text → Text → Text → Server → Transfer Server
  pub register_file : Text → Text → Text → Text → Text → Server → Reply (Unit {0}) × Server
  pub existing_process : Text → Text → Server → Reply (Unit {0}) × Server
  pub mark_step_optional : Text → Scalar → Server → Reply (Unit {0}) × Server
  pub confirm_upload : Text → Text → Server → Reply Text × Server
  -- uuid.uuid4()
  pub new_guid : Server → Text × Server
  -- optional_slots.allowlisted
  pub allowlisted : Text → List Text
  -- edpb_core's CORP_ACTION_SEGMENT
  pub corp_action_segment : Text
  pub match_settings : MatchSettings
  pub cbos_holiday_check_enforced : Bool
  pub cbos_rewrite_upload_filename_date : Bool
  pub cbos_max_retries : ℕ
  -- what reading the file as text yields
  pub content : FilePath → Lines
