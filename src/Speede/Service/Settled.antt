-- ===== src/Speede/Service/Settled.antt =====
-- app/services/nsdl_speede_service.py, `_process_entry`: the status in which it leaves a file, and what it
-- raises.
pub mod Files
use edpbilling_file_upload.Base.{
  ℕ, suc, ◌==◌, ◌≡◌, refl, sym, ap, ◌∙◌, Bool, true, false, not, ◌&&◌, Option, none, some, List, [],
  ◌∷◌, ◌++◌, find, any, Text, if◌then◌else◌, or_default, Bool-cases, Option-cases, inl, inr, arith,
  ==_iff, ◌⊎◌, ◌||◌,
}
use edpbilling_file_upload.Base.Program.{
  Try, returned, raised, Program, Post, Ensures, pure, throw, gets, modify, catch, of_try, ◌>>=◌,
  ◌>>◌, for_each, pure-Ensures, throw-Ensures, gets-Ensures, of_try-Ensures, if-Ensures,
  catch-Ensures, adapt, modify-Ensures, bind-Ensures, for_each-Ensures,
}
use edpbilling_file_upload.Speede.{
  UploadCategory, UploadSettings, UploadStatus, SpeedeError, Failure, speede, other, unknown_file,
  unknown_upload,
}
use edpbilling_file_upload.Speede.Catalogue.{
  SpeedeFile, Selector, resolve_selection, resolve_category, transmit_name,
}
use edpbilling_file_upload.Speede.Folder.{
  Folders, DayFile, LocateError, bad_date, no_folder, no_file, no_version, locate,
}
use edpbilling_file_upload.Speede.Table.{
  Upload, UploadState, Step, ErrorDetail, Key, find_upload, is_keyed, get, new_upload, update,
  given, has_id,
}
use edpbilling_file_upload.Speede.Table.Keys.{
  key, KeysDiffer, sent, KeepsKey, KeepsSent, sent-update, get-update, sent-update_one,
  update-KeysDiffer, sent-insert, insert-KeysDiffer, find_upload-none, find_upload-raised, get-id,
}
use edpbilling_file_upload.Speede.Service.{
  Call, list_categories, get_upload_settings, upload_chunks, finalize_upload, check_status_once,
  poll_status, Client, World, Action, Detail, FileResult, with_status, is_success, already_uploaded,
}
use edpbilling_file_upload.Speede.Service.Steps.{
  perform, update_row, found, fetch, result, find_row, insert_row, with_correlation, open_row,
  key_of, apply_status, fail_row, register, upload_one, settings_of, send, poll_again, attempt,
  on_failure, answer_or_attempt, record_locate_failure, at_file, process_entry, with_failure,
}
use edpbilling_file_upload.Base.Program.{anything, NoClaim}
use edpbilling_file_upload.Speede.{Verdict, poll_success, poll_failed, poll_in_progress}
use edpbilling_file_upload.Speede.Service.{state_of, is_failed, is_in_progress}

-- success, failed or in_progress
abbrev pub is_settled : UploadState → Bool
is_settled s = is_success s || is_failed s || is_in_progress s

abbrev pub is_speede : Failure → Bool
is_speede (speede _) = true
is_speede _ = false

-- What is said of a call that returned, and of one that raised.
abbrev pub AnyWorld : {S : Type 0} → S → Type 0
AnyWorld _ = Unit {0}

abbrev pub Settles : {Server : Type 0} → FileResult → World Server → Type 0
Settles r w = is_settled r.upload.status ≡ true

abbrev pub Escapes : {Server : Type 0} → Failure → World Server → Type 0
Escapes e w = is_speede e ≡ false

state_of_settled : (v : Verdict) → is_settled (state_of v) ≡ true
unfolding state_of is_success is_failed is_in_progress
state_of_settled poll_success = refl
state_of_settled poll_failed = refl
state_of_settled poll_in_progress = refl

get-updated :
    (n : ℕ) (f : Upload → Upload) (us : List Upload) {u : Upload}
    → KeepsKey f
    → get n (update n f us) ≡ some u
    → (v : Upload) × (u ≡ f v)
unfolding get update
get-updated n f [] h e = cc
get-updated n f (v ∷ us) {u} h e = elim (Bool-cases (has_id n v)) [
  | inl p ↦ let kept : has_id n (f v) ≡ true = ap (λ i. i == n) (h v).0 ∙ p in (v, ground arith)
  | inr p ↦ get-updated n f us h (ground arith)
]

module _ {Server : Type 0} where
  -- A row is written, so that its status is settled, and read back.
  finish-Ensures :
      (n : ℕ) (f : Upload → Upload) (entry : SpeedeFile) (detail : Upload → Option Detail)
      {P : World Server → Type 0}
      → KeepsKey f
      → ((u : Upload) → is_settled (f u).status ≡ true)
      → Ensures P (update_row n f >> result n entry detail) Settles Escapes
  unfolding update_row result fetch found
  finish-Ensures n f entry detail k h =
      bind-Ensures {R = λ _ w. (us : List Upload) × (w.uploads ≡ update n f us)} _ _
        (modify-Ensures _ (λ w p. (w.uploads, refl)))
        (λ _.
          bind-Ensures {R = λ u w. is_settled u.status ≡ true} _ _
            (bind-Ensures {R = λ o w. (us : List Upload) × (o ≡ get n (update n f us))} _ _
              (gets-Ensures _ (λ w (us, e). (us, ap (get n) e))) go)
            (λ u. pure-Ensures _ (λ w p. p)))
    where
      go :
          (o : Option Upload)
          → Ensures
              (λ w. (us : List Upload) × (o ≡ get n (update n f us)))
              (found {Server = Server} o)
              (λ u w. is_settled u.status ≡ true)
              Escapes
      go none = throw-Ensures other (λ w p. refl)
      go (some u) = pure-Ensures u (λ w (us, e).
          let (v, q) = get-updated n f us k (sym e) in ap (λ x. is_settled x.status) q ∙ h v)

module _ {Server : Type 0} where
  -- The row that the service holds is the one in the table.
  abbrev Reads : ℕ → Upload → World Server → Type 0
  Reads n u w = get n w.uploads ≡ some u

  fetch-Reads : {P : World Server → Type 0} (n : ℕ) → Ensures P (fetch n) (Reads n) Escapes
  unfolding fetch found
  fetch-Reads n =
      bind-Ensures {R = λ o w. get n w.uploads ≡ o} _ _ (gets-Ensures _ (λ w p. refl)) go
    where
      go :
          (o : Option Upload)
          → Ensures (λ w. get n w.uploads ≡ o) (found {Server = Server} o) (Reads n) Escapes
      go none = throw-Ensures other (λ w p. refl)
      go (some u) = pure-Ensures u (λ w p. p)

  repeated_settled :
      (n : ℕ) (u : Upload) (entry : SpeedeFile) (detail : Upload → Option Detail)
      → is_success u.status ≡ true
      → Ensures (Reads n u) (result n entry detail) Settles Escapes
  unfolding result fetch found
  repeated_settled n u entry detail h =
      bind-Ensures {R = λ v w. is_settled v.status ≡ true} _ _
        (bind-Ensures {R = λ o w. o ≡ some u} _ _ (gets-Ensures _ (λ w p. p)) go)
        (λ v. pure-Ensures _ (λ w p. p))
    where
      go :
          (o : Option Upload)
          → Ensures
              (λ w. o ≡ some u)
              (found {Server = Server} o)
              (λ v w. is_settled v.status ≡ true)
              Escapes
      go none = throw-Ensures other (λ w p. refl)
      go (some v) = pure-Ensures v (λ w e.
          let same : v ≡ u = ground arith in
          ap (λ x. is_settled x.status) same
          ∙ ap (λ b. b || is_failed u.status || is_in_progress u.status) h)

  find_row-Escapes : (k : Key) → Ensures AnyWorld (find_row {Server = Server} k) NoClaim Escapes
  unfolding find_row
  find_row-Escapes k = record {
    run = λ w p. go w (find_upload k w.uploads) (find_upload-raised k w.uploads);
  }
    where
      go :
          (w : World Server) (r : Try Failure (Option Upload))
          → ((e : Failure) → r ≡ raised e → e ≡ other)
          → Post NoClaim Escapes r w
      go w (returned row) h = tt
      go w (raised e) h = ap is_speede (h e refl)

  open_row-Escapes :
      (k : Key) (name : Text) (correlation_id : Option Text) (row : Option Upload)
      → Ensures AnyWorld (open_row {Server = Server} k name correlation_id row) NoClaim Escapes
  unfolding open_row insert_row update_row
  open_row-Escapes k name correlation_id none = record { run = λ w p. tt }
  open_row-Escapes k name correlation_id (some u) =
      bind-Ensures {R = NoClaim} _ _ (modify-Ensures _ (λ w p. tt))
        (λ _. pure-Ensures u.id (λ w p. tt))
