-- ===== src/Speede/Table.antt =====
-- app/models/nsdl_speede_upload.py and app/repositories/nsdl_speede_upload_repository.py: the
-- nsdl_speede_uploads table. `id` is its primary key. The timestamps are left out.
pub mod Keys
use edpbilling_file_upload.Base.{
  ℕ, ◌+◌, ◌==◌, Bool, true, false, ◌&&◌, Option, none, some, List, [], ◌∷◌, ◌++◌, filter, find,
  Text, text_eq, truthy, if◌then◌else◌,
}
use edpbilling_file_upload.Base.Program.{Try, returned, raised}
use edpbilling_file_upload.Speede.{SpeedeError, Failure, other}
use edpbilling_file_upload.Speede.Folder.{LocateError}

pub data UploadState : Type 0 where
  pending validating uploading uploaded registered polling success in_progress failed : UploadState

pub data Step : Type 0 where
  locate_file get_settings save_chunks save_file poll_details : Step

-- `error_detail`: the error that was recorded, or the upload status that CBOS reported.
pub data ErrorDetail : Type 0 where
  not_located : LocateError → ErrorDetail
  api_error : SpeedeError → ErrorDetail
  reported : Text → ErrorDetail

pub record Upload : Type 0 where
  pub id : ℕ
  pub trade_date : Text
  pub account : Text
  pub report : Text
  pub file_version : Option ℕ
  pub upload_name : Option Text
  pub upload_id : Option ℕ
  pub file_name : Text
  pub transmit_file_name : Option Text
  pub guid : Option Text
  pub tran_id : Option Text
  pub total_chunks : Option ℕ
  pub data_bytes : Option ℕ
  pub status : UploadState
  pub last_step : Option Step
  pub upload_status : Option Text
  pub process_status : Option Text
  pub retry_count : ℕ
  pub correlation_id : Option Text
  pub error_detail : Option ErrorDetail

-- What `find` asks for, and uq_nsdl_speede_file_per_day keeps apart.
pub record Key : Type 0 where
  pub trade_date : Text
  pub account : Text
  pub report : Text
  pub file_version : Option ℕ

unfoldable pub same_version : Option ℕ → Option ℕ → Bool
same_version none none = true
same_version (some m) (some n) = m == n
same_version none (some _) = false
same_version (some _) none = false

unfoldable pub is_keyed : Key → Upload → Bool
unfolding text_eq same_version
is_keyed k u =
    text_eq u.trade_date k.trade_date
    && text_eq u.account k.account
    && text_eq u.report k.report
    && same_version u.file_version k.file_version

-- `one_or_none()`
one_of_rows : List Upload → Try Failure (Option Upload)
one_of_rows [] = returned none
one_of_rows (u ∷ []) = returned (some u)
one_of_rows (_ ∷ _ ∷ _) = raised other

unfoldable pub find_upload : Key → List Upload → Try Failure (Option Upload)
unfolding is_keyed one_of_rows
find_upload k uploads = one_of_rows (filter (is_keyed k) uploads)

abbrev pub has_id : ℕ → Upload → Bool
has_id n u = u.id == n

-- `get`
unfoldable pub get : ℕ → List Upload → Option Upload
get n uploads = find (has_id n) uploads

-- The row that `NsdlSpeedeUpload(**fields)` makes, with the fields that `insert` is given.
unfoldable pub new_upload : ℕ → Key → Text → Option Text → Upload
new_upload n k name correlation = record {
  id = n;
  trade_date = k.trade_date;
  account = k.account;
  report = k.report;
  file_version = k.file_version;
  upload_name = none;
  upload_id = none;
  file_name = name;
  transmit_file_name = none;
  guid = none;
  tran_id = none;
  total_chunks = none;
  data_bytes = none;
  status = pending;
  last_step = none;
  upload_status = none;
  process_status = none;
  retry_count = 0;
  correlation_id = correlation;
  error_detail = none;
}

-- `update`, on the row of that primary key
unfoldable pub update : ℕ → (Upload → Upload) → List Upload → List Upload
update n f [] = []
update n f (u ∷ uploads) =
    let rest = update n f uploads in if has_id n u then f u ∷ uploads else u ∷ rest

-- `if record.tran_id:`
unfoldable pub given : Option Text → Bool
given none = false
given (some t) = truthy t
