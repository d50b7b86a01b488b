-- ===== src/Speede/Service/Once.antt =====
-- app/services/nsdl_speede_service.py: the account of what CBOS was made to append against the rows
-- of the nsdl_speede_uploads table.
pub mod Uploads
pub mod Entries
pub mod History
use edpbilling_file_upload.Base.{
  ℕ, suc, ◌==◌, ◌≡◌, refl, sym, ap, ◌∙◌, Bool, true, false, not, ◌&&◌, Option, none, some, List, [],
  ◌∷◌, ◌++◌, find, any, Text, if◌then◌else◌, or_default, Bool-cases, Option-cases, inl, inr, arith,
  ==_iff, ◌⊎◌,
}
use edpbilling_file_upload.Base.Program.{
  Try, returned, raised, Program, Post, Ensures, pure, throw, gets, modify, catch, of_try, ◌>>=◌,
  ◌>>◌, for_each, pure-Ensures, throw-Ensures, gets-Ensures, of_try-Ensures, if-Ensures,
  catch-Ensures, adapt, modify-Ensures, bind-Ensures, for_each-Ensures,
}
use edpbilling_file_upload.Speede.{
  UploadCategory, UploadSettings, UploadStatus, SpeedeError, Failure, speede, other, unknown_file,
  unknown_upload,
}
use edpbilling_file_upload.Speede.Catalogue.{
  SpeedeFile, Selector, resolve_selection, resolve_category, transmit_name,
}
use edpbilling_file_upload.Speede.Folder.{
  Folders, DayFile, LocateError, bad_date, no_folder, no_file, no_version, locate,
}
use edpbilling_file_upload.Speede.Table.{
  Upload, UploadState, Step, ErrorDetail, Key, find_upload, is_keyed, get, new_upload, update,
  given,
}
use edpbilling_file_upload.Speede.Table.Keys.{
  key, KeysDiffer, sent, KeepsKey, KeepsSent, sent-update, get-update, sent-update_one,
  update-KeysDiffer, sent-insert, insert-KeysDiffer, find_upload-none,
}
use edpbilling_file_upload.Speede.Service.{
  Call, list_categories, get_upload_settings, upload_chunks, finalize_upload, check_status_once,
  poll_status, Client, World, Action, Detail, FileResult, with_status, is_success,
}
use edpbilling_file_upload.Speede.Service.Steps.{
  perform, update_row, found, fetch, result, find_row, insert_row, with_correlation, open_row,
  key_of, apply_status, fail_row, register, upload_one, settings_of, send, poll_again, attempt,
  on_failure, answer_or_attempt, record_locate_failure, at_file, process_entry,
}

-- A `finalize_upload` that was answered: CBOS has appended the file.
abbrev pub is_append : Call → Bool
is_append (finalize_upload _ _ _ _ (returned _)) = true
is_append _ = false

abbrev pub appends : List Call → ℕ
appends [] = 0
appends (c ∷ cs) = let rest = appends cs in if is_append c then suc rest else rest

appends-append :
    (cs : List Call) (c : Call)
    → appends (cs ++ (c ∷ [])) ≡ (if is_append c then suc (appends cs) else appends cs)
appends-append [] c = refl
appends-append (d ∷ cs) c = ground (arith, appends-append cs c)

-- What the service relies on: the TRANID that finalizing answers is not empty.
pub record IsLawful {Server : Type 0} (client : Client Server) : Type 0 where
  pub finalize_answers :
      (upload_id : ℕ) (name guid param1 : Text) (s : Server) (tran_id : Text)
      → (client.finalize_upload upload_id name guid param1 s).0 ≡ returned tran_id
      → given (some tran_id) ≡ true

module _ {Server : Type 0} where
  -- As many files were appended as rows carry a TRANID, and no two rows are of one file version.
  abbrev pub IsOnce : World Server → Type 0
  IsOnce w = (appends w.trace ≡ sent w.uploads) × KeysDiffer w.uploads

  -- With a condition on the rows.
  abbrev With : (List Upload → Type 0) → World Server → Type 0
  With R w = (appends w.trace ≡ sent w.uploads) × KeysDiffer w.uploads × R w.uploads

abbrev Anything : List Upload → Type 0
Anything _ = Unit {0}

abbrev Always : {Server E : Type 0} → E → World Server → Type 0
Always _ = With Anything

-- The row with this id has no TRANID.
abbrev Unsent : ℕ → List Upload → Type 0
Unsent n us = (u : Upload) × (get n us ≡ some u) × (given u.tran_id ≡ false)

update-Unsent :
    (n : ℕ) (f : Upload → Upload) (us : List Upload)
    → KeepsKey f
    → KeepsSent f
    → Unsent n us
    → Unsent n (update n f us)
update-Unsent n f us h k (u, e, g) = (f u, get-update n f us h e, ap given (k u) ∙ g)

module _ {Server : Type 0} where
  perform_quiet :
      {A : Type 0} (R : List Upload → Type 0) (call : Try Failure A → Call)
      (act : Server → Try Failure A × Server)
      → ((r : Try Failure A) → is_append (call r) ≡ false)
      → Ensures (With R) (perform call act) (λ _. With R) Always
  unfolding perform
  perform_quiet {A} R call act h = record { run = λ w p. go w p (act w.server) }
    where
      go :
          (w : World Server)
          → With R w
          → (x : Try Failure A × Server)
          → Post
              (λ _. With R)
              Always
              x.0
              (record w { server = x.1; trace = w.trace ++ (call x.0 ∷ []) })
      go w (e, d, r) (returned a, s) =
          (rw (appends-append w.trace (call (returned a)), h (returned a)) e, d, r)
      go w (e, d, r) (raised x, s) =
          (rw (appends-append w.trace (call (raised x)), h (raised x)) e, d, tt)

  update_quiet :
      (R R' : List Upload → Type 0) (n : ℕ) (f : Upload → Upload)
      → KeepsKey f
      → KeepsSent f
      → ((us : List Upload) → R us → R' (update n f us))
      → Ensures (With R) (update_row {Server = Server} n f) (λ _. With R') Always
  unfolding update_row
  update_quiet R R' n f h k g = modify-Ensures _ (λ w p.
      let (e, d, r) = p in
      (e ∙ sym (sent-update n f w.uploads k), update-KeysDiffer n f w.uploads h d, g w.uploads r))

  -- A column of a row that waits for its TRANID is written.
  update_waiting :
      (n : ℕ) (f : Upload → Upload)
      → KeepsKey f
      → KeepsSent f
      → Ensures (With (Unsent n)) (update_row {Server = Server} n f) (λ _. With (Unsent n)) Always
  update_waiting n f h k =
      update_quiet (Unsent n) (Unsent n) n f h k (λ us. update-Unsent n f us h k)

  update_any :
      (n : ℕ) (f : Upload → Upload)
      → KeepsKey f
      → KeepsSent f
      → Ensures (With Anything) (update_row {Server = Server} n f) (λ _. With Anything) Always
  update_any n f h k = update_quiet Anything Anything n f h k (λ us r. r)

  fetch-Ensures :
      (R : List Upload → Type 0) (n : ℕ)
      → Ensures
          (With R)
          (fetch {Server = Server} n)
          (λ u. With (λ us. R us × (get n us ≡ some u)))
          Always
  unfolding fetch found
  fetch-Ensures R n =
      bind-Ensures (gets _) found
        (gets-Ensures {Q = λ o. With (λ us. R us × (get n us ≡ o))} _
          (λ w (e, d, r). (e, d, (r, refl))))
        go
    where
      go :
          (o : Option Upload)
          → Ensures
              (With (λ us. R us × (get n us ≡ o)))
              (found {Server = Server} o)
              (λ u. With (λ us. R us × (get n us ≡ some u)))
              Always
      go none = throw-Ensures other (λ w (e, d, r). (e, d, tt))
      go (some u) = pure-Ensures u (λ w p. p)

  result_quiet :
      (n : ℕ) (entry : SpeedeFile) (detail : Upload → Option Detail)
      → Ensures
          (With Anything)
          (result {Server = Server} n entry detail)
          (λ _. With Anything)
          Always
  unfolding result
  result_quiet n entry detail =
      bind-Ensures (fetch n) _ (fetch-Ensures Anything n)
        (λ u. pure-Ensures _ (λ w (e, d, (r, q)). (e, d, r)))

  -- An answer or an error that is already there, while a row waits for its TRANID.
  waiting_reply :
      {A : Type 0} (n : ℕ) (r : Try Failure A) (w : World Server)
      → With (Unsent n) w
      → Post (λ _. With (Unsent n)) Always r w
  waiting_reply n (returned a) w p = p
  waiting_reply n (raised x) w (e, d, u) = (e, d, tt)
