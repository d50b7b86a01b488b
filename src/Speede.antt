-- ===== src/Speede.antt =====
-- The NSDL SPEED-e uploads: the data that app/services/nsdl_speede_service.py and
-- app/clients/nsdl_speede_client.py pass between each other. A `detail` carries the error itself in
-- place of its text.
pub mod Catalogue
pub mod Folder
pub mod Table
pub mod Service
pub mod Client
use edpbilling_file_upload.Base.{ℕ, Option, List, Text}

-- `UploadCategory`, less the columns that are only reported
pub record UploadCategory : Type 0 where
  pub upload_id : ℕ
  pub upload_name : Text

-- `UploadSettings`, less its name and the raw row
pub record UploadSettings : Type 0 where
  pub upload_id : ℕ
  pub file_name_contains : Text
  pub file_extension : Text
  pub column_count : ℕ

-- POLL_SUCCESS, POLL_FAILED, POLL_IN_PROGRESS
pub data Verdict : Type 0 where
  poll_success poll_failed poll_in_progress : Verdict

-- `UploadStatus`, less the dates and the login
pub record UploadStatus : Type 0 where
  pub tran_id : ℕ
  pub upload_status : Text
  pub process_status : Text
  pub verdict : Verdict

-- NsdlSpeedeError, by the place that raises it.
pub data SpeedeError : Type 0 where
  no_categories no_settings no_result no_tran_id : SpeedeError
  -- the wanted upload name
  unknown_category : Text → SpeedeError
  -- actual, expected
  wrong_extension : Text → Text → SpeedeError
  -- transmitted name, token
  name_lacks_token : Text → Text → SpeedeError
  empty_file : SpeedeError
  -- actual, expected
  wrong_columns : ℕ → ℕ → SpeedeError
  no_line_ending : SpeedeError
  -- chunk, Status
  bad_chunk_status : ℕ → Text → SpeedeError
  -- fCount, totalChunks
  chunks_missing : Option ℕ → ℕ → SpeedeError
  -- an HTTP status, or a body that is no JSON object
  remote : Text → SpeedeError

-- What leaves a call as an exception: `other` is every one that is no NsdlSpeedeError.
pub data Failure : Type 0 where
  speede : SpeedeError → Failure
  -- UnknownSpeedeFileError, with the account and the report
  unknown_file : Text → Text → Failure
  -- UnknownNsdlSpeedeUploadError
  unknown_upload : ℕ → Failure
  other : Failure
