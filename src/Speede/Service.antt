-- ===== src/Speede/Service.antt =====
-- app/services/nsdl_speede_service.py: the upload of the selected reports and the status query. The
-- client is a parameter, which Speede/Client fills. `commit` is left out: what is flushed stays, and
-- each flush of the service is followed by a commit, but for the correlation id of a known row. The
-- settings cache of a call stands in the world.
pub mod Steps
pub mod Requests
pub mod Once
pub mod Settled
pub mod Answered
use edpbilling_file_upload.Base.{
  ℕ, suc, ◌+◌, ◌==◌, Bool, true, false, not, ◌&&◌, Option, none, some, List, [], ◌∷◌, ◌++◌, find,
  length, Text, if◌then◌else◌, or_default,
}
use edpbilling_file_upload.Base.Program.{
  Try, returned, raised, Program, pure, throw, gets, modify, catch, of_try, ◌>>=◌, ◌>>◌, for_each,
}
use edpbilling_file_upload.Speede.{
  UploadCategory, UploadSettings, UploadStatus, Verdict, poll_success, poll_failed,
  poll_in_progress, SpeedeError, Failure, speede, unknown_upload, other,
}
use edpbilling_file_upload.Speede.Catalogue.{
  SpeedeFile, Selector, resolve_selection, resolve_category, transmit_name,
}
use edpbilling_file_upload.Speede.Folder.{Folders, DayFile, LocateError, bad_date, locate}
use edpbilling_file_upload.Speede.Table.{
  Upload, UploadState, Step, ErrorDetail, Key, find_upload, is_keyed, get, new_upload, update,
  given,
}

pub data Call : Type 0 where
  list_categories : Text → Call
  get_upload_settings : ℕ → Call
  -- folder and name of the file, transmitted name
  upload_chunks : Text → Text → Text → Call
  -- UPLOADID, transmitted name, GUID, PARAM1, and what came back
  finalize_upload : ℕ → Text → Text → Text → Try Failure Text → Call
  check_status_once poll_status : Text → Call

-- `BaseNsdlSpeedeClient`, as the service uses it.
pub record Client (Server : Type 0) : Type 0 where
  pub list_categories : Text → Server → Try Failure (List UploadCategory) × Server
  pub get_upload_settings : ℕ → Server → Try Failure UploadSettings × Server
  pub validate_file : DayFile → Text → UploadSettings → Try Failure (Unit {0})
  pub upload_chunks : DayFile → Text → Server → Try Failure (Text × ℕ × ℕ) × Server
  pub finalize_upload : ℕ → Text → Text → Text → Server → Try Failure Text × Server
  pub check_status_once : Text → Server → Try Failure UploadStatus × Server
  pub poll_status : Text → Server → Try Failure UploadStatus × Server

pub record World (Server : Type 0) : Type 0 where
  pub server : Server
  pub uploads : List Upload
  pub next_id : ℕ
  pub settings_cache : List (ℕ × UploadSettings)
  pub trace : List Call

abbrev pub Action : Type 0 → Type 0 → Type 0
Action Server A = Program (World Server) Failure A

-- `detail` of a result
pub data Detail : Type 0 where
  already_uploaded : Detail
  upload_text : Text → Detail
  failure : ErrorDetail → Detail

-- `_result`: the row as it stands, with the entry that it belongs to.
pub record FileResult : Type 0 where
  pub upload : Upload
  pub account : Text
  pub report : Text
  pub detail : Option Detail

-- `record.upload_status or None`
unfoldable pub status_detail : Upload → Option Detail
unfolding given
status_detail u =
    if given u.upload_status then some (upload_text (or_default u.upload_status [])) else none

unfoldable pub state_of : Verdict → UploadState
state_of poll_success = UploadState.success
state_of poll_failed = UploadState.failed
state_of poll_in_progress = UploadState.in_progress

-- The fields that `_apply_status` writes.
unfoldable pub with_status : UploadStatus → Upload → Upload
unfolding state_of
with_status s u = record u {
  status = state_of s.verdict;
  last_step = some Step.poll_details;
  upload_status = some s.upload_status;
  process_status = some s.process_status;
  error_detail = elim s.verdict [
    | poll_failed ↦ some (ErrorDetail.reported s.upload_status)
    | _ ↦ none
  ];
}

unfoldable pub is_success : UploadState → Bool
is_success UploadState.success = true
is_success _ = false

unfoldable pub is_failed : UploadState → Bool
is_failed UploadState.failed = true
is_failed _ = false

unfoldable pub is_in_progress : UploadState → Bool
is_in_progress UploadState.in_progress = true
is_in_progress _ = false
