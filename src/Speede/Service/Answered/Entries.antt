-- ===== src/Speede/Service/Answered/Entries.antt =====
-- app/services/nsdl_speede_service.py, `process_upload`: the files that an answer reports are those of
-- the selection, in its order.
use edpbilling_file_upload.Base.{
  ℕ, ◌≡◌, refl, ap, ◌∙◌, not, ◌&&◌, Bool, Option, List, [], ◌∷◌, map, Text,
}
use edpbilling_file_upload.Base.Program.{
  Try, returned, raised, Program, Ensures, for_each, pure-Ensures, throw-Ensures, of_try-Ensures,
  if-Ensures, catch-Ensures, adapt, bind-Ensures, anything, NoClaim, frame, ◌>>=◌, Post,
}
use edpbilling_file_upload.Speede.{UploadCategory, UploadSettings, Failure, speede}
use edpbilling_file_upload.Speede.Catalogue.{SpeedeFile, Selector, resolve_selection}
use edpbilling_file_upload.Speede.Folder.{Folders, DayFile, LocateError, bad_date}
use edpbilling_file_upload.Speede.Table.{Upload, given}
use edpbilling_file_upload.Speede.Service.{Client, World, FileResult, Detail, is_success}
use edpbilling_file_upload.Speede.Service.Steps.{
  result, register, upload_one, send, poll_again, attempt, on_failure, answer_or_attempt,
  record_locate_failure, at_file, process_entry,
}
use edpbilling_file_upload.Speede.Service.Requests.{Response, respond, process_upload}
use edpbilling_file_upload.Speede.Service.Settled.{AnyWorld}

-- The report is of the entry.
abbrev pub IsOf : {S : Type 0} → SpeedeFile → FileResult → S → Type 0
IsOf entry r _ = (r.account ≡ entry.account) × (r.report ≡ entry.report)

abbrev pub name_of_result : FileResult → Text × Text
name_of_result r = (r.account, r.report)

abbrev pub name_of_request : SpeedeFile × Option ℕ → Text × Text
name_of_request p = (p.0.account, p.0.report)

-- The files of the response are of the entries that the selectors resolve to, one for each and in
-- their order.
abbrev pub IsOfSelection : List Selector → Response → Type 0
IsOfSelection selectors r =
    (requests : List (SpeedeFile × Option ℕ)) × (resolve_selection selectors ≡ returned requests)
    × (map name_of_result r.files ≡ map name_of_request requests)

-- Where nothing is known of the first statement.
then-Ensures :
    {S E A B : Type 0} {Q : B → S → Type 0} (m : Program S E A) (f : A → Program S E B)
    → ((a : A) → Ensures (λ _. Unit {0}) (f a) Q NoClaim)
    → Ensures (λ _. Unit {0}) (m >>= f) Q NoClaim
then-Ensures m f h = bind-Ensures {R = NoClaim} m f (anything m) h

result-IsOf :
    {Server : Type 0} (n : ℕ) (entry : SpeedeFile) (detail : Upload → Option Detail)
    → Ensures AnyWorld (result {Server = Server} n entry detail) (IsOf entry) NoClaim
unfolding result
result-IsOf n entry detail = then-Ensures _ _ (λ u. pure-Ensures _ (λ w p. (refl, refl)))

module _ {Server : Type 0} (client : Client Server) (folders : Folders) (trade_date : Text) where
  upload_one-IsOf :
      (n : ℕ) (entry : SpeedeFile) (category : UploadCategory) (config : UploadSettings)
      (file : DayFile)
      → Ensures AnyWorld
          (upload_one client folders trade_date n entry category config file)
          (IsOf entry)
          NoClaim
  unfolding upload_one register
  upload_one-IsOf n entry category config file = then-Ensures _ _ (λ sent. then-Ensures _ _ (λ _.
      then-Ensures _ _
        (λ tran_id. then-Ensures _ _ (λ status. then-Ensures _ _ (λ _. result-IsOf n entry _)))))

  send-IsOf :
      (categories : List UploadCategory) (n : ℕ) (entry : SpeedeFile) (file : DayFile)
      → Ensures AnyWorld
          (send client folders trade_date categories n entry file)
          (IsOf entry)
          NoClaim
  unfolding send
  send-IsOf categories n entry file =
      then-Ensures _ _
        (λ category. then-Ensures _ _ (λ config. upload_one-IsOf n entry category config file))

  attempt-IsOf :
      (force : Bool) (categories : List UploadCategory) (entry : SpeedeFile) (file : DayFile)
      (u : Upload)
      → Ensures AnyWorld
          (attempt client folders trade_date force categories entry file u)
          (IsOf entry)
          NoClaim
  unfolding attempt poll_again
  attempt-IsOf force categories entry file u =
      if-Ensures (given u.tran_id && force) _ _
        (then-Ensures _ _ (λ _. send-IsOf categories u.id entry file))
        (if-Ensures (given u.tran_id) _ _
          (then-Ensures _ _ (λ status. then-Ensures _ _ (λ _. result-IsOf u.id entry _)))
          (send-IsOf categories u.id entry file))

  on_failure-IsOf :
      (n : ℕ) (entry : SpeedeFile) (e : Failure)
      → Ensures AnyWorld (on_failure client folders trade_date n entry e) (IsOf entry) NoClaim
  unfolding on_failure
  on_failure-IsOf n entry (speede e) = then-Ensures _ _ (λ _. result-IsOf n entry _)
  on_failure-IsOf n entry e = throw-Ensures _ (λ w p. tt)

  answer_or_attempt-IsOf :
      (force : Bool) (categories : List UploadCategory) (entry : SpeedeFile) (file : DayFile)
      (u : Upload)
      → Ensures AnyWorld
          (answer_or_attempt client folders trade_date force categories entry file u)
          (IsOf entry)
          NoClaim
  unfolding answer_or_attempt
  answer_or_attempt-IsOf force categories entry file u =
      if-Ensures (is_success u.status && not force) _ _ (result-IsOf u.id entry _) (
        catch-Ensures _ _ (attempt-IsOf force categories entry file u) (on_failure-IsOf u.id entry))

  at_file-IsOf :
      (force : Bool) (correlation_id : Option Text) (categories : List UploadCategory)
      (entry : SpeedeFile) (located : Try LocateError (DayFile × ℕ))
      → Ensures AnyWorld
          (at_file client folders trade_date force correlation_id categories entry located)
          (IsOf entry)
          NoClaim
  unfolding at_file record_locate_failure
  at_file-IsOf force correlation_id categories entry (returned (file, version)) =
      then-Ensures _ _ (λ row.
        then-Ensures _ _
          (λ n. then-Ensures _ _ (λ u. answer_or_attempt-IsOf force categories entry file u)))
  at_file-IsOf force correlation_id categories entry (raised bad_date) = throw-Ensures _ (λ w p. tt)
  at_file-IsOf force correlation_id categories entry (raised e) =
      then-Ensures _ _
        (λ row. then-Ensures _ _ (λ n. then-Ensures _ _ (λ _. result-IsOf n entry _)))

  entries-IsOf :
      (force : Bool) (correlation_id : Option Text) (categories : List UploadCategory)
      (requests : List (SpeedeFile × Option ℕ))
      → Ensures AnyWorld
          (for_each
            (process_entry client folders trade_date force correlation_id categories)
            requests)
          (λ rs _. map name_of_result rs ≡ map name_of_request requests)
          NoClaim
  unfolding for_each process_entry
  entries-IsOf force correlation_id categories [] = pure-Ensures [] (λ w p. refl)
  entries-IsOf force correlation_id categories ((entry, version) ∷ requests) =
      bind-Ensures _ _ (at_file-IsOf force correlation_id categories entry _) (λ r.
        bind-Ensures
          {R = λ rs w.
            ((r.account ≡ entry.account) × (r.report ≡ entry.report))
            × (map name_of_result rs ≡ map name_of_request requests)}
          _ _
          (frame ((r.account ≡ entry.account) × (r.report ≡ entry.report))
            (entries-IsOf force correlation_id categories requests))
          (λ rs. pure-Ensures (r ∷ rs) (λ w ((a, b), k).
            ap (λ x. (x, r.report) ∷ map name_of_result rs) a
            ∙ ap (λ x. (entry.account, x) ∷ map name_of_result rs) b
            ∙ ap (λ xs. (entry.account, entry.report) ∷ xs) k)))

  pub process_upload-IsOfSelection :
      (selectors : List Selector) (correlation_id : Option Text) (force : Bool)
      → Ensures AnyWorld
          (process_upload client folders trade_date selectors correlation_id force)
          (λ r _. IsOfSelection selectors r)
          NoClaim
  unfolding process_upload respond
  process_upload-IsOfSelection selectors correlation_id force =
      bind-Ensures {R = λ requests w. resolve_selection selectors ≡ returned requests} _ _
        (of_try-Ensures _ (λ w p. selected (resolve_selection selectors) refl w))
        (λ requests.
          adapt (λ w p. p) (λ r w k. k) (λ e w x. x)
            (bind-Ensures {R = λ c w. resolve_selection selectors ≡ returned requests} _ _ (kept _)
              (λ categories.
                bind-Ensures
                  {R = λ rs w.
                    (resolve_selection selectors ≡ returned requests)
                    × (map name_of_result rs ≡ map name_of_request requests)}
                  _ _
                  (frame (resolve_selection selectors ≡ returned requests)
                    (then-Ensures _ _ (λ _. entries-IsOf force correlation_id categories requests)))
                  (λ rs. pure-Ensures _ (λ w (e, k). (requests, e, k))))))
    where
      selected :
          (x : Try Failure (List (SpeedeFile × Option ℕ)))
          → resolve_selection selectors ≡ x
          → (w : World Server)
          → Post (λ requests _. resolve_selection selectors ≡ returned requests) NoClaim x w
      selected (returned requests) e w = e
      selected (raised f) e w = tt

      kept :
          {F A : Type 0} (m : Program (World Server) Failure A)
          → Ensures (λ _. F) m (λ _ _. F) NoClaim
      kept {F} m = adapt (λ w p. p) (λ a w p. p.0) (λ e w x. x) (frame F (anything m))
