-- ===== src/Speede/Service/Once/Uploads.antt =====
-- app/services/nsdl_speede_service.py: the same account over `_upload_one`, the statements that lead to it, and the
-- poll of a known TRANID.
use edpbilling_file_upload.Base.{
  ℕ, suc, ◌≡◌, refl, sym, ap, ◌∙◌, true, Option, none, some, List, [], ◌∷◌, ◌++◌, Text,
}
use edpbilling_file_upload.Base.Program.{
  Try, returned, raised, Post, Ensures, pure, modify, ◌>>=◌, ◌>>◌, pure-Ensures, gets-Ensures,
  of_try-Ensures, modify-Ensures, bind-Ensures,
}
use edpbilling_file_upload.Speede.{UploadCategory, UploadSettings, Failure}
use edpbilling_file_upload.Speede.Catalogue.{SpeedeFile}
use edpbilling_file_upload.Speede.Folder.{Folders, DayFile}
use edpbilling_file_upload.Speede.Table.{UploadState, Step, given}
use edpbilling_file_upload.Speede.Table.Keys.{KeysDiffer, sent, sent-update_one, update-KeysDiffer}
use edpbilling_file_upload.Speede.Service.{
  get_upload_settings, upload_chunks, finalize_upload, check_status_once, poll_status, Client,
  World, with_status,
}
use edpbilling_file_upload.Speede.Service.Steps.{
  perform, update_row, apply_status, register, upload_one, settings_of, send, poll_again,
}
use edpbilling_file_upload.Speede.Service.Once.{
  appends, appends-append, IsLawful, With, Anything, Always, Unsent, perform_quiet, update_waiting,
  update_any, result_quiet, waiting_reply,
}

module _ {Server : Type 0} (client : Client Server) (lawful : IsLawful client) (folders : Folders)
    (trade_date : Text) where
  -- Between the answer of `finalize_upload` and the write of its TRANID.
  Answered : ℕ → Text → World Server → Type 0
  Answered n tran_id w =
      (appends w.trace ≡ suc (sent w.uploads))
      × KeysDiffer w.uploads
      × Unsent n w.uploads
      × (given (some tran_id) ≡ true)

  finalize-Ensures :
      (n upload_id : ℕ) (name guid : Text)
      → Ensures
          (With (Unsent n))
          (perform
            (finalize_upload upload_id name guid trade_date)
            (client.finalize_upload upload_id name guid trade_date))
          (Answered n)
          Always
  unfolding perform Answered
  finalize-Ensures n upload_id name guid = record {
    run = λ w p.
        go w p (client.finalize_upload upload_id name guid trade_date w.server)
          (lawful.finalize_answers upload_id name guid trade_date w.server);
  }
    where
      go :
          (w : World Server)
          → With (Unsent n) w
          → (x : Try Failure Text × Server)
          → ((t : Text) → x.0 ≡ returned t → given (some t) ≡ true)
          → Post (Answered n) Always x.0 (record w {
            server = x.1;
            trace = w.trace ++ (finalize_upload upload_id name guid trade_date x.0 ∷ []);
          })
      go w (e, d, u) (returned t, s) h = (appends-append w.trace _ ∙ ap suc e, d, u, h t refl)
      go w (e, d, u) (raised x, s) h = (appends-append w.trace _ ∙ e, d, tt)

  store-Ensures :
      (n : ℕ) (tran_id : Text)
      → Ensures
          (Answered n tran_id)
          (update_row n (λ u. record u {
            status = UploadState.registered;
            last_step = some Step.save_file;
            tran_id = some tran_id;
          }))
          (λ _. With Anything)
          Always
  unfolding update_row Answered
  store-Ensures n tran_id = modify-Ensures _ (λ w (e, d, (u, q, g), h). (
    e ∙ sym (sent-update_one n _ w.uploads (λ v. h) q g),
    update-KeysDiffer n _ w.uploads (λ v. (refl, refl)) d,
    tt,
  ))

  register-Ensures :
      (n : ℕ) (entry : SpeedeFile) (category : UploadCategory) (name guid : Text)
      → Ensures
          (With (Unsent n))
          (register client folders trade_date n entry category name guid)
          (λ _. With Anything)
          Always
  unfolding register apply_status with_status
  register-Ensures n entry category name guid =
      bind-Ensures _ _ (finalize-Ensures n category.upload_id name guid) (λ t.
        bind-Ensures _ _
          (bind-Ensures _ _
            (bind-Ensures _ _ (store-Ensures n t)
              (λ _. update_any n _ (λ u. (refl, refl)) (λ u. refl)))
            (λ _. perform_quiet Anything (λ _. poll_status t) (client.poll_status t) (λ r. refl)))
          (λ status.
            bind-Ensures _ _ (update_any n _ (λ u. (refl, refl)) (λ u. refl))
              (λ _. result_quiet n entry _)))

  upload_one-Ensures :
      (n : ℕ) (entry : SpeedeFile) (category : UploadCategory) (config : UploadSettings)
      (file : DayFile)
      → Ensures
          (With (Unsent n))
          (upload_one client folders trade_date n entry category config file)
          (λ _. With Anything)
          Always
  unfolding upload_one
  upload_one-Ensures n entry category config file =
      bind-Ensures _ _
        (bind-Ensures _ _
          (bind-Ensures _ _
            (bind-Ensures _ _ (update_waiting n _ (λ u. (refl, refl)) (λ u. refl))
              (λ _. of_try-Ensures _ (waiting_reply n _)))
            (λ _. update_waiting n _ (λ u. (refl, refl)) (λ u. refl)))
          (λ _.
            perform_quiet (Unsent n) (λ _. upload_chunks file.folder file.name _) _ (λ r. refl)))
        (λ sent_chunks.
          bind-Ensures _ _ (update_waiting n _ (λ u. (refl, refl)) (λ u. refl))
            (λ _. register-Ensures n entry category _ _))

  settings_of-Ensures :
      (n upload_id : ℕ)
      → Ensures
          (With (Unsent n))
          (settings_of client folders trade_date upload_id)
          (λ _. With (Unsent n))
          Always
  unfolding settings_of
  settings_of-Ensures n upload_id =
      bind-Ensures _ _ (gets-Ensures {Q = λ _. With (Unsent n)} _ (λ w p. p)) go
    where
      go :
          (o : Option (ℕ × UploadSettings))
          → Ensures
              (With (Unsent n))
              (elim o [
                | some p ↦ pure p.1
                | none ↦
                    perform
                      (λ _. get_upload_settings upload_id)
                      (client.get_upload_settings upload_id)
                    >>= λ config.
                        modify (λ w. record w {
                          settings_cache = (upload_id, config) ∷ w.settings_cache;
                        })
                        >> pure config
              ])
              (λ _. With (Unsent n))
              Always
      go (some p) = pure-Ensures p.1 (λ w h. h)
      go none =
          bind-Ensures _ _
            (perform_quiet (Unsent n) (λ _. get_upload_settings upload_id) _ (λ r. refl))
            (λ config.
              bind-Ensures {R = λ _. With (Unsent n)} _ _ (modify-Ensures _ (λ w h. h))
                (λ _. pure-Ensures config (λ w h. h)))

  pub send-Ensures :
      (categories : List UploadCategory) (n : ℕ) (entry : SpeedeFile) (file : DayFile)
      → Ensures
          (With (Unsent n))
          (send client folders trade_date categories n entry file)
          (λ _. With Anything)
          Always
  unfolding send
  send-Ensures categories n entry file =
      bind-Ensures _ _
        (bind-Ensures _ _ (update_waiting n _ (λ u. (refl, refl)) (λ u. refl))
          (λ _. of_try-Ensures _ (waiting_reply n _)))
        (λ category.
          bind-Ensures _ _ (settings_of-Ensures n category.upload_id)
            (λ config. upload_one-Ensures n entry category config file))

  pub poll_again-Ensures :
      (n : ℕ) (entry : SpeedeFile) (tran_id : Text)
      → Ensures
          (With Anything)
          (poll_again client folders trade_date n entry tran_id)
          (λ _. With Anything)
          Always
  unfolding poll_again apply_status with_status
  poll_again-Ensures n entry tran_id =
      bind-Ensures _ _ (perform_quiet Anything (λ _. check_status_once tran_id) _ (λ r. refl))
        (λ status.
          bind-Ensures _ _ (update_any n _ (λ u. (refl, refl)) (λ u. refl))
            (λ _. result_quiet n entry _))
