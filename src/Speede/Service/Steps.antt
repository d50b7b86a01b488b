-- ===== src/Speede/Service/Steps.antt =====
-- app/services/nsdl_speede_service.py: `_upload_one`, `_record_locate_failure`, `_process_entry`,
-- `process_upload` and `check_status`, statement by statement. An
-- insert follows a `find` that came back empty, so the unique constraint cannot strike.
use edpbilling_file_upload.Base.{
  ℕ, suc, ◌+◌, ◌==◌, Bool, not, ◌&&◌, Option, none, some, List, [], ◌∷◌, ◌++◌, find, Text,
  if◌then◌else◌, or_default,
}
use edpbilling_file_upload.Base.Program.{
  Try, returned, raised, pure, throw, gets, modify, catch, of_try, ◌>>=◌, ◌>>◌,
}
use edpbilling_file_upload.Speede.{
  UploadCategory, UploadSettings, UploadStatus, Failure, speede, other,
}
use edpbilling_file_upload.Speede.Catalogue.{SpeedeFile, resolve_category, transmit_name}
use edpbilling_file_upload.Speede.Folder.{Folders, DayFile, LocateError, bad_date, locate}
use edpbilling_file_upload.Speede.Table.{
  Upload, UploadState, Step, ErrorDetail, Key, find_upload, get, new_upload, update, given,
}
use edpbilling_file_upload.Speede.Service.{
  Call, get_upload_settings, upload_chunks, finalize_upload, check_status_once, poll_status, Client,
  Action, Detail, already_uploaded, failure, FileResult, status_detail, with_status, is_success,
}

unfoldable pub with_correlation : Option Text → Upload → Upload
unfolding given
with_correlation c u = record u { correlation_id = if given c then c else u.correlation_id }

-- The fields that a failure writes; `last_step` only where one is given.
unfoldable pub with_failure : Option Step → ErrorDetail → Upload → Upload
with_failure step e u = record u {
  status = UploadState.failed;
  last_step = elim step [ none ↦ u.last_step | some s ↦ some s ];
  error_detail = some e;
}

-- What the rows of one entry are looked up by.
unfoldable pub key_of : Text → SpeedeFile → Option ℕ → Key
key_of trade_date entry version = record {
  trade_date = trade_date;
  account = entry.account;
  report = entry.report;
  file_version = version;
}

module _ {Server : Type 0} where
  -- One call of the client, put on the trace with what it came back with.
  unfoldable pub perform :
      {A : Type 0} → (Try Failure A → Call) → (Server → Try Failure A × Server) → Action Server A
  perform call act w =
      let (r, s) = act w.server in (r, record w { server = s; trace = w.trace ++ (call r ∷ []) })

  unfoldable pub update_row : ℕ → (Upload → Upload) → Action Server (Unit {0})
  update_row n f = modify (λ w. record w { uploads = update n f w.uploads })

  unfoldable pub found : Option Upload → Action Server Upload
  found none = throw other
  found (some u) = pure u

  -- The record as it stands.
  unfoldable pub fetch : ℕ → Action Server Upload
  fetch n = gets (λ w. get n w.uploads) >>= found

  unfoldable pub result : ℕ → SpeedeFile → (Upload → Option Detail) → Action Server FileResult
  result n entry detail = fetch n >>= λ u.
      pure
        (record { upload = u; account = entry.account; report = entry.report; detail = detail u })

  unfoldable pub find_row : Key → Action Server (Option Upload)
  find_row k w = (find_upload k w.uploads, w)

  unfoldable pub insert_row : Key → Text → Option Text → Action Server ℕ
  insert_row k name correlation_id w = (
    returned w.next_id,
    record w {
      uploads = w.uploads ++ (new_upload w.next_id k name correlation_id ∷ []);
      next_id = suc w.next_id;
    },
  )

  -- The row of a key, made if there is none.
  unfoldable pub open_row : Key → Text → Option Text → Option Upload → Action Server ℕ
  open_row k name correlation_id none = insert_row k name correlation_id
  open_row k name correlation_id (some u) =
      update_row u.id (with_correlation correlation_id) >> pure u.id

  unfoldable pub apply_status : ℕ → UploadStatus → Action Server (Unit {0})
  apply_status n status = update_row n (with_status status)

  unfoldable pub fail_row : ℕ → Option Step → ErrorDetail → Action Server (Unit {0})
  fail_row n step e = update_row n (with_failure step e)

module _ {Server : Type 0} (client : Client Server) (folders : Folders) (trade_date : Text) where
  -- From `finalize_upload` on, with what the chunks were sent under.
  unfoldable pub register : ℕ → SpeedeFile → UploadCategory → Text → Text → Action Server FileResult
  register n entry category name guid =
      perform (finalize_upload category.upload_id name guid trade_date)
        (client.finalize_upload category.upload_id name guid trade_date)
      >>= λ tran_id.
          update_row n (λ u. record u {
            status = UploadState.registered;
            last_step = some Step.save_file;
            tran_id = some tran_id;
          })
          >> update_row n (λ u. record u { status = UploadState.polling })
          >> perform (λ _. poll_status tran_id) (client.poll_status tran_id)
          >>= λ status. apply_status n status >> result n entry status_detail

  unfoldable pub upload_one :
      ℕ → SpeedeFile → UploadCategory → UploadSettings → DayFile → Action Server FileResult
  upload_one n entry category config file =
      let name = transmit_name entry config in
      update_row n (λ u. record u {
        file_name = file.name;
        upload_name = some category.upload_name;
        upload_id = some category.upload_id;
        transmit_file_name = some name;
        status = UploadState.validating;
        last_step = some Step.get_settings;
      })
      >> of_try (client.validate_file file name config)
      >> update_row n
          (λ u. record u { status = UploadState.uploading; last_step = some Step.save_chunks })
      >> perform (λ _. upload_chunks file.folder file.name name) (client.upload_chunks file name)
      >>= λ sent.
          let (guid, total_chunks, data_bytes) = sent in
          update_row n (λ u. record u {
            status = UploadState.uploaded;
            last_step = some Step.save_chunks;
            guid = some guid;
            total_chunks = some total_chunks;
            data_bytes = some data_bytes;
          })
          >> register n entry category name guid

  -- The settings of a category, asked for once in a call.
  unfoldable pub settings_of : ℕ → Action Server UploadSettings
  settings_of upload_id = gets (λ w. find (λ p. p.0 == upload_id) w.settings_cache) >>= λ cached.
      elim cached [
        | some p ↦ pure p.1
        | none ↦
            perform (λ _. get_upload_settings upload_id) (client.get_upload_settings upload_id)
            >>= λ config.
                modify (λ w. record w { settings_cache = (upload_id, config) ∷ w.settings_cache })
                >> pure config
      ]

  unfoldable pub send : List UploadCategory → ℕ → SpeedeFile → DayFile → Action Server FileResult
  send categories n entry file =
      update_row n (λ u. record u { retry_count = u.retry_count + 1 })
      >> of_try (resolve_category entry categories)
      >>= λ category.
          settings_of category.upload_id >>= λ config. upload_one n entry category config file

  unfoldable pub poll_again : ℕ → SpeedeFile → Text → Action Server FileResult
  poll_again n entry tran_id =
      perform (λ _. check_status_once tran_id) (client.check_status_once tran_id) >>= λ status.
      apply_status n status >> result n entry status_detail

  -- The body of the `try`.
  unfoldable pub attempt :
      Bool → List UploadCategory → SpeedeFile → DayFile → Upload → Action Server FileResult
  attempt force categories entry file u =
      if given u.tran_id && force
      then update_row u.id (λ v. record v {
        tran_id = none;
        guid = none;
        status = UploadState.pending;
        error_detail = none;
      })
        >> send categories u.id entry file
      else if given u.tran_id
      then poll_again u.id entry (or_default u.tran_id [])
      else send categories u.id entry file

  -- `except NsdlSpeedeError`
  unfoldable pub on_failure : ℕ → SpeedeFile → Failure → Action Server FileResult
  on_failure n entry (speede e) =
      fail_row n none (ErrorDetail.api_error e)
      >> result n entry (λ _. some (failure (ErrorDetail.api_error e)))
  on_failure n entry e = throw e

  unfoldable pub answer_or_attempt :
      Bool → List UploadCategory → SpeedeFile → DayFile → Upload → Action Server FileResult
  answer_or_attempt force categories entry file u =
      if is_success u.status && not force
      then result u.id entry (λ _. some already_uploaded)
      else catch (attempt force categories entry file u) (on_failure u.id entry)

  unfoldable pub record_locate_failure :
      SpeedeFile → Option Text → LocateError → Action Server FileResult
  record_locate_failure entry correlation_id e =
      let k = key_of trade_date entry none in
      find_row k >>= λ row. open_row k entry.file_name correlation_id row >>= λ n.
      fail_row n (some Step.locate_file) (ErrorDetail.not_located e)
      >> result n entry (λ _. some (failure (ErrorDetail.not_located e)))

  unfoldable pub at_file :
      Bool
      → Option Text
      → List UploadCategory
      → SpeedeFile
      → Try LocateError (DayFile × ℕ)
      → Action Server FileResult
  at_file force correlation_id categories entry (returned (file, version)) =
      let k = key_of trade_date entry (some version) in
      find_row k >>= λ row. open_row k file.name correlation_id row >>= λ n.
      fetch n >>= answer_or_attempt force categories entry file
  at_file force correlation_id categories entry (raised bad_date) = throw other
  at_file force correlation_id categories entry (raised e) =
      record_locate_failure entry correlation_id e

  unfoldable pub process_entry :
      Bool → Option Text → List UploadCategory → SpeedeFile × Option ℕ → Action Server FileResult
  process_entry force correlation_id categories (entry, version) =
      at_file force correlation_id categories entry (locate folders entry trade_date version)
