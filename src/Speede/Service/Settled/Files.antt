-- ===== src/Speede/Service/Settled/Files.antt =====
-- app/services/nsdl_speede_service.py, `_process_entry`: the status in which each of its branches leaves
-- a file, and what it raises.
use edpbilling_file_upload.Base.{
  ℕ, ◌≡◌, refl, ap, ◌∙◌, Bool, true, false, not, ◌&&◌, Option, none, some, List, Text,
  if◌then◌else◌,
}
use edpbilling_file_upload.Base.Program.{
  Try, returned, raised, Ensures, catch, ◌>>◌, throw-Ensures, if-Ensures, catch-Ensures, adapt,
  bind-Ensures,
}
use edpbilling_file_upload.Speede.{
  UploadCategory, UploadSettings, UploadStatus, Failure, speede, other, unknown_file,
  unknown_upload,
}
use edpbilling_file_upload.Speede.Catalogue.{SpeedeFile}
use edpbilling_file_upload.Speede.Folder.{
  Folders, DayFile, LocateError, bad_date, no_folder, no_file, no_version, locate,
}
use edpbilling_file_upload.Speede.Table.{Upload, Step, ErrorDetail, get}
use edpbilling_file_upload.Speede.Table.Keys.{get-id}
use edpbilling_file_upload.Speede.Service.{
  Client, World, Action, Detail, FileResult, with_status, is_success, already_uploaded,
}
use edpbilling_file_upload.Speede.Service.Steps.{
  result, apply_status, fail_row, register, upload_one, send, poll_again, attempt, on_failure,
  answer_or_attempt, record_locate_failure, at_file, process_entry, with_failure,
}
use edpbilling_file_upload.Base.Program.{anything, NoClaim}
use edpbilling_file_upload.Speede.Service.{is_failed, is_in_progress}
use edpbilling_file_upload.Speede.Service.Settled.{
  AnyWorld, Settles, Escapes, state_of_settled, finish-Ensures, Reads, fetch-Reads,
  repeated_settled, find_row-Escapes, open_row-Escapes,
}

module _ {Server : Type 0} (client : Client Server) (folders : Folders) (trade_date : Text) where
  status_settled :
      (n : ℕ) (entry : SpeedeFile) (status : UploadStatus) (detail : Upload → Option Detail)
      {P : World Server → Type 0}
      → Ensures P (apply_status n status >> result n entry detail) Settles Escapes
  unfolding apply_status with_status
  status_settled n entry status detail =
      finish-Ensures n _ entry detail (λ u. (refl, refl)) (λ u. state_of_settled status.verdict)

  failure_settled :
      (n : ℕ) (step : Option Step) (e : ErrorDetail) (entry : SpeedeFile)
      (detail : Upload → Option Detail) {P : World Server → Type 0}
      → Ensures P (fail_row n step e >> result n entry detail) Settles Escapes
  unfolding fail_row with_failure is_success is_failed is_in_progress
  failure_settled n step e entry detail =
      finish-Ensures n (with_failure step e) entry detail (λ u. (refl, refl)) (λ u. refl)

  -- Inside the `try` nothing is said of what is raised.
  tried :
      {P : World Server → Type 0} {m : Action Server FileResult}
      → Ensures P m Settles Escapes
      → Ensures P m Settles NoClaim
  tried = adapt (λ w p. p) (λ a w p. p) (λ e w p. tt)

  register_settled :
      (n : ℕ) (entry : SpeedeFile) (category : UploadCategory) (name guid : Text)
      → Ensures AnyWorld
          (register client folders trade_date n entry category name guid)
          Settles
          NoClaim
  unfolding register
  register_settled n entry category name guid =
      bind-Ensures _ _ (anything _)
        (λ t. bind-Ensures _ _ (anything _) (λ status. tried (status_settled n entry status _)))

  upload_one_settled :
      (n : ℕ) (entry : SpeedeFile) (category : UploadCategory) (config : UploadSettings)
      (file : DayFile)
      → Ensures AnyWorld
          (upload_one client folders trade_date n entry category config file)
          Settles
          NoClaim
  unfolding upload_one
  upload_one_settled n entry category config file =
      bind-Ensures _ _ (anything _)
        (λ sent_chunks. bind-Ensures _ _ (anything _) (λ _. register_settled n entry category _ _))

  send_settled :
      (categories : List UploadCategory) (n : ℕ) (entry : SpeedeFile) (file : DayFile)
      → Ensures AnyWorld (send client folders trade_date categories n entry file) Settles NoClaim
  unfolding send
  send_settled categories n entry file = bind-Ensures _ _ (anything _) (λ category.
      bind-Ensures _ _ (anything _) (λ config. upload_one_settled n entry category config file))

  poll_again_settled :
      (n : ℕ) (entry : SpeedeFile) (tran_id : Text)
      → Ensures AnyWorld (poll_again client folders trade_date n entry tran_id) Settles NoClaim
  unfolding poll_again
  poll_again_settled n entry tran_id =
      bind-Ensures _ _ (anything _) (λ status. tried (status_settled n entry status _))

  attempt_settled :
      (force : Bool) (categories : List UploadCategory) (entry : SpeedeFile) (file : DayFile)
      (u : Upload)
      → Ensures AnyWorld
          (attempt client folders trade_date force categories entry file u)
          Settles
          NoClaim
  unfolding attempt
  attempt_settled force categories entry file u =
      if-Ensures _ _ _
        (bind-Ensures _ _ (anything _) (λ _. send_settled categories u.id entry file))
        (if-Ensures _ _ _ (poll_again_settled u.id entry _)
          (send_settled categories u.id entry file))

  on_failure_settled :
      (n : ℕ) (entry : SpeedeFile) (e : Failure)
      → Ensures AnyWorld (on_failure client folders trade_date n entry e) Settles Escapes
  unfolding on_failure
  on_failure_settled n entry (speede e) = failure_settled n none _ entry _
  on_failure_settled n entry other = throw-Ensures other (λ w p. refl)
  on_failure_settled n entry (unknown_file a r) = throw-Ensures _ (λ w p. refl)
  on_failure_settled n entry (unknown_upload m) = throw-Ensures _ (λ w p. refl)

  answer_or_attempt_settled :
      (force : Bool) (categories : List UploadCategory) (entry : SpeedeFile) (file : DayFile)
      (u : Upload)
      → Ensures
          (Reads u.id u)
          (answer_or_attempt client folders trade_date force categories entry file u)
          Settles
          Escapes
  unfolding answer_or_attempt
  answer_or_attempt_settled force categories entry file u = go (is_success u.status) refl
    where
      retry :
          Ensures
            (Reads u.id u)
            (catch
              (attempt client folders trade_date force categories entry file u)
              (on_failure client folders trade_date u.id entry))
            Settles
            Escapes
      retry =
          catch-Ensures _ _
            (adapt (λ w p. tt) (λ a w p. p) (λ e w p. p)
              (attempt_settled force categories entry file u))
            (on_failure_settled u.id entry)

      go :
          (b : Bool)
          → is_success u.status ≡ b
          → Ensures
              (Reads u.id u)
              (if b && not force
                then result u.id entry (λ _. some already_uploaded)
                else catch
                    (attempt client folders trade_date force categories entry file u)
                    (on_failure client folders trade_date u.id entry))
              Settles
              Escapes
      go true e = if-Ensures _ _ _ (repeated_settled u.id u entry _ e) retry
      go false e = retry

  record_locate_failure_settled :
      (entry : SpeedeFile) (correlation_id : Option Text) (e : LocateError)
      → Ensures AnyWorld
          (record_locate_failure client folders trade_date entry correlation_id e)
          Settles
          Escapes
  unfolding record_locate_failure
  record_locate_failure_settled entry correlation_id e =
      bind-Ensures _ _ (find_row-Escapes _)
        (λ row. bind-Ensures _ _ (open_row-Escapes _ _ _ row) (λ n. failure_settled n _ _ entry _))

  at_file_settled :
      (force : Bool) (correlation_id : Option Text) (categories : List UploadCategory)
      (entry : SpeedeFile) (located : Try LocateError (DayFile × ℕ))
      → Ensures AnyWorld
          (at_file client folders trade_date force correlation_id categories entry located)
          Settles
          Escapes
  unfolding at_file
  at_file_settled force correlation_id categories entry (returned (file, version)) =
      bind-Ensures _ _ (find_row-Escapes _) (λ row.
        bind-Ensures _ _ (open_row-Escapes _ _ _ row) (λ n. bind-Ensures _ _ (fetch-Reads n) (λ u.
          adapt (λ w q. ap (λ m. get m w.uploads) (get-id n w.uploads q) ∙ q) (λ a w p. p)
            (λ e w p. p) (answer_or_attempt_settled force categories entry file u))))
  at_file_settled force correlation_id categories entry (raised bad_date) =
      throw-Ensures other (λ w p. refl)
  at_file_settled force correlation_id categories entry (raised no_folder) =
      record_locate_failure_settled entry correlation_id no_folder
  at_file_settled force correlation_id categories entry (raised no_file) =
      record_locate_failure_settled entry correlation_id no_file
  at_file_settled force correlation_id categories entry (raised (no_version n)) =
      record_locate_failure_settled entry correlation_id (no_version n)

  -- One file's outcome, from any state of the table and whatever the API answers or raises: the row
  -- that is reported stands at success, failed or in_progress, or an exception other than
  -- NsdlSpeedeError leaves the call.
  pub process_entry-Ensures :
      (force : Bool) (correlation_id : Option Text) (categories : List UploadCategory)
      (request : SpeedeFile × Option ℕ)
      → Ensures AnyWorld
          (process_entry client folders trade_date force correlation_id categories request)
          Settles
          Escapes
  unfolding process_entry
  process_entry-Ensures force correlation_id categories (entry, version) =
      at_file_settled force correlation_id categories entry
        (locate folders entry trade_date version)
