-- ===== src/Speede/Service/Once/Entries.antt =====
-- app/services/nsdl_speede_service.py: the same account over `_process_entry`, `process_upload` and
-- `check_status`.
use edpbilling_file_upload.Base.{
  ℕ, ◌≡◌, refl, sym, ap, ◌∙◌, Bool, true, false, ◌&&◌, Option, none, some, List, [], Text,
  if◌then◌else◌, or_default,
}
use edpbilling_file_upload.Base.Program.{
  Try, returned, raised, Post, Ensures, pure-Ensures, throw-Ensures, of_try-Ensures, if-Ensures,
  catch-Ensures, adapt, modify-Ensures, bind-Ensures, for_each-Ensures,
}
use edpbilling_file_upload.Speede.{
  UploadCategory, Failure, speede, other, unknown_file, unknown_upload,
}
use edpbilling_file_upload.Speede.Catalogue.{SpeedeFile, Selector}
use edpbilling_file_upload.Speede.Folder.{
  Folders, DayFile, LocateError, bad_date, no_folder, no_file, no_version, locate,
}
use edpbilling_file_upload.Speede.Table.{
  Upload, Step, ErrorDetail, Key, find_upload, get, new_upload, given,
}
use edpbilling_file_upload.Speede.Table.Keys.{
  get-id, sent-insert, insert-KeysDiffer, find_upload-none,
}
use edpbilling_file_upload.Speede.Service.{list_categories, Client, World, Action, FileResult}
use edpbilling_file_upload.Speede.Service.Steps.{
  find_row, insert_row, with_correlation, open_row, fail_row, send, poll_again, attempt, on_failure,
  answer_or_attempt, record_locate_failure, at_file, process_entry, with_failure,
}
use edpbilling_file_upload.Speede.Service.Once.{
  IsLawful, With, Always, Anything, perform_quiet, update_any, fetch-Ensures, result_quiet,
}
use edpbilling_file_upload.Speede.Service.Once.Uploads.{send-Ensures, poll_again-Ensures}
use edpbilling_file_upload.Speede.Service.Requests.{process_upload}

-- The row that the service holds is the one in the table.
abbrev Held : Upload → List Upload → Type 0
Held u us = get u.id us ≡ some u

module _ {Server : Type 0} where
  fail_row-Ensures :
      (n : ℕ) (step : Option Step) (e : ErrorDetail)
      → Ensures (With Anything) (fail_row {Server = Server} n step e) (λ _. With Anything) Always
  unfolding fail_row with_failure
  fail_row-Ensures n step e = update_any n _ (λ u. (refl, refl)) (λ u. refl)

  find_row-Ensures :
      (k : Key)
      → Ensures
          (With Anything)
          (find_row {Server = Server} k)
          (λ row w. With Anything w × (find_upload k w.uploads ≡ returned row))
          Always
  unfolding find_row
  find_row-Ensures k = record { run = λ w p. go w p (find_upload k w.uploads) refl }
    where
      go :
          (w : World Server)
          → With Anything w
          → (r : Try Failure (Option Upload)) → find_upload k w.uploads ≡ r
          → Post (λ row w. With Anything w × (find_upload k w.uploads ≡ returned row)) Always r w
      go w p (returned row) e = (p, e)
      go w p (raised x) e = p

  open_row-Ensures :
      (k : Key) (name : Text) (correlation_id : Option Text) (row : Option Upload)
      → Ensures
          (λ w. With Anything w × (find_upload k w.uploads ≡ returned row))
          (open_row {Server = Server} k name correlation_id row)
          (λ _. With Anything)
          Always
  unfolding open_row insert_row new_upload with_correlation
  open_row-Ensures k name correlation_id none = record {
    run = λ w ((e, d, t), free). (
      e ∙ sym (sent-insert w.uploads _ refl),
      insert-KeysDiffer w.uploads _ (find_upload-none k w.uploads free) d,
      tt,
    );
  }
  open_row-Ensures k name correlation_id (some u) =
      bind-Ensures _ _
        (adapt (λ w p. p.0) (λ _ w p. p) (λ _ w p. p)
          (update_any u.id _ (λ v. (refl, refl)) (λ v. refl)))
        (λ _. pure-Ensures u.id (λ w p. p))

  known_reply :
      {A : Type 0} (r : Try Failure A) (w : World Server)
      → With Anything w
      → Post (λ _. With Anything) Always r w
  known_reply (returned a) w p = p
  known_reply (raised x) w p = p

module _ {Server : Type 0} (client : Client Server) (lawful : IsLawful client) (folders : Folders)
    (trade_date : Text) where
  attempt-Ensures :
      (categories : List UploadCategory) (entry : SpeedeFile) (file : DayFile) (u : Upload)
      → Ensures
          (With (Held u))
          (attempt client folders trade_date false categories entry file u)
          (λ _. With Anything)
          Always
  unfolding attempt
  attempt-Ensures categories entry file u = go _ (given u.tran_id) refl
    where
      go :
          (forced : Action Server FileResult) (b : Bool)
          → given u.tran_id ≡ b
          → Ensures
              (With (Held u))
              (if b && false
                then forced
                else if b
                then poll_again client folders trade_date u.id entry (or_default u.tran_id [])
                else send client folders trade_date categories u.id entry file)
              (λ _. With Anything)
              Always
      go forced true g =
          adapt (λ w (e, d, h). (e, d, tt)) (λ _ w p. p) (λ _ w p. p)
            (poll_again-Ensures client lawful folders trade_date u.id entry _)
      go forced false g =
          adapt (λ w (e, d, h). (e, d, (u, h, g))) (λ _ w p. p) (λ _ w p. p)
            (send-Ensures client lawful folders trade_date categories u.id entry file)

  on_failure-Ensures :
      (n : ℕ) (entry : SpeedeFile) (e : Failure)
      → Ensures
          (With Anything)
          (on_failure client folders trade_date n entry e)
          (λ _. With Anything)
          Always
  unfolding on_failure
  on_failure-Ensures n entry (speede e) =
      bind-Ensures _ _ (fail_row-Ensures n none _) (λ _. result_quiet n entry _)
  on_failure-Ensures n entry other = throw-Ensures other (λ w p. p)
  on_failure-Ensures n entry (unknown_file a r) = throw-Ensures _ (λ w p. p)
  on_failure-Ensures n entry (unknown_upload m) = throw-Ensures _ (λ w p. p)

  answer_or_attempt-Ensures :
      (categories : List UploadCategory) (entry : SpeedeFile) (file : DayFile) (u : Upload)
      → Ensures
          (With (Held u))
          (answer_or_attempt client folders trade_date false categories entry file u)
          (λ _. With Anything)
          Always
  unfolding answer_or_attempt
  answer_or_attempt-Ensures categories entry file u =
      if-Ensures _ _ _
        (adapt (λ w (e, d, h). (e, d, tt)) (λ _ w p. p) (λ _ w p. p) (result_quiet u.id entry _))
        (catch-Ensures _ _ (attempt-Ensures categories entry file u)
          (on_failure-Ensures u.id entry))

  record_locate_failure-Ensures :
      (entry : SpeedeFile) (correlation_id : Option Text) (e : LocateError)
      → Ensures
          (With Anything)
          (record_locate_failure client folders trade_date entry correlation_id e)
          (λ _. With Anything)
          Always
  unfolding record_locate_failure
  record_locate_failure-Ensures entry correlation_id e =
      bind-Ensures _ _ (find_row-Ensures _) (λ row.
        bind-Ensures _ _ (open_row-Ensures _ entry.file_name correlation_id row)
          (λ n. bind-Ensures _ _ (fail_row-Ensures n _ _) (λ _. result_quiet n entry _)))

  at_file-Ensures :
      (correlation_id : Option Text) (categories : List UploadCategory) (entry : SpeedeFile)
      (located : Try LocateError (DayFile × ℕ))
      → Ensures
          (With Anything)
          (at_file client folders trade_date false correlation_id categories entry located)
          (λ _. With Anything)
          Always
  unfolding at_file
  at_file-Ensures correlation_id categories entry (returned (file, version)) =
      bind-Ensures _ _ (find_row-Ensures _) (λ row.
        bind-Ensures _ _ (open_row-Ensures _ file.name correlation_id row) (λ n.
          bind-Ensures _ _ (fetch-Ensures Anything n) (λ u.
            adapt (λ w (e, d, (a, q)). (e, d, ap (λ m. get m w.uploads) (get-id n w.uploads q) ∙ q))
              (λ _ w p. p) (λ _ w p. p) (answer_or_attempt-Ensures categories entry file u))))
  at_file-Ensures correlation_id categories entry (raised bad_date) = throw-Ensures other (λ w p. p)
  at_file-Ensures correlation_id categories entry (raised no_folder) =
      record_locate_failure-Ensures entry correlation_id no_folder
  at_file-Ensures correlation_id categories entry (raised no_file) =
      record_locate_failure-Ensures entry correlation_id no_file
  at_file-Ensures correlation_id categories entry (raised (no_version n)) =
      record_locate_failure-Ensures entry correlation_id (no_version n)

  pub process_upload-Ensures :
      (selectors : List Selector) (correlation_id : Option Text)
      → Ensures
          (With Anything)
          (process_upload client folders trade_date selectors correlation_id false)
          (λ _. With Anything)
          Always
  unfolding process_upload process_entry
  process_upload-Ensures selectors correlation_id =
      bind-Ensures _ _ (of_try-Ensures {Q = λ _. With Anything} _ (known_reply _)) (λ requests.
        bind-Ensures _ _ (perform_quiet Anything (λ _. list_categories trade_date) _ (λ r. refl))
          (λ categories.
            bind-Ensures _ _
              (bind-Ensures {R = λ _. With Anything} _ _ (modify-Ensures _ (λ w p. p)) (λ _.
                for_each-Ensures _
                  (λ p.
                    at_file-Ensures correlation_id categories p.0
                      (locate folders p.0 trade_date p.1))
                  requests))
              (λ results. pure-Ensures _ (λ w p. p))))
