-- ===== src/Lane/Setup/Reserving.antt =====
-- upload_service.py, `_process_batch`: the calls to CBOS up to the reservation.
use edpbilling_file_upload.Base.{
  ℕ, zero, suc, ◌≡◌, refl, Bool, true, false, not, ◌||◌, List, [], ◌∷◌, Text, text_eq, truthy,
}
use edpbilling_file_upload.Cbos.Reservation.{UploadCandidate, Result, ok, err}
use edpbilling_file_upload.Files.{FilePath}
use edpbilling_file_upload.Queue.Task.{SegmentBatchTask}
use edpbilling_file_upload.Lane.Client.{Env, Settings, no_settings, usable, no_pattern}
use edpbilling_file_upload.Lane.Action.{
  Call, begin_file_upload, get_existing_process, get_new_trade_process, get_upload_settings,
  get_expected_filename,
}
use edpbilling_file_upload.Lane.Calls.{
  Makes, bind-Makes, catch-Makes, perform-Makes, pure-Makes, throw-Makes, if-Makes,
}
use edpbilling_file_upload.Lane.Records.Silent.{set_batch_status-Makes, fail_all_files-Makes}
use edpbilling_file_upload.Lane.Setup.{
  supplied, lift, on_settings, settings_of_slot, ask_settings, fetch_upload_rules, holiday_check,
  supplied_setup, reserve, attempts, set_up,
}

-- Step 1, 6, 2, 4 or 40.
abbrev pub is_reserving : Call → Bool
is_reserving (begin_file_upload _ _) = true
is_reserving (get_existing_process _ _) = true
is_reserving (get_new_trade_process _ _ _) = true
is_reserving (get_upload_settings _) = true
is_reserving (get_expected_filename _ _ _) = true
is_reserving _ = false

abbrev pub IsReserving : Call → Type 0
IsReserving c = is_reserving c ≡ true

module _ (env : Env) where
  open env use {Server}

  on_settings-Makes :
      (segment trade_date upload_id : Text) (s : Settings)
      → Makes IsReserving (on_settings env segment trade_date upload_id s)
  unfolding on_settings
  on_settings-Makes segment trade_date upload_id no_settings = pure-Makes _
  on_settings-Makes segment trade_date upload_id (usable rule) = pure-Makes _
  on_settings-Makes segment trade_date upload_id (no_pattern parse) =
      if-Makes (truthy segment) _ _ (bind-Makes _ _ (perform-Makes _ _ refl) (λ _. pure-Makes _))
        (pure-Makes _)

  ask_settings-Makes :
      (segment trade_date : Text) (slots : List UploadCandidate)
      → Makes IsReserving (ask_settings env segment trade_date slots)
  unfolding ask_settings settings_of_slot
  ask_settings-Makes segment trade_date [] = pure-Makes _
  ask_settings-Makes segment trade_date (c ∷ slots) =
      bind-Makes _ _
        (bind-Makes _ _ (perform-Makes _ _ refl) (on_settings-Makes segment trade_date c.upload_id))
        (λ _. bind-Makes _ _ (ask_settings-Makes segment trade_date slots) (λ _. pure-Makes _))

  fetch_upload_rules-Makes :
      (slots : List UploadCandidate) (segment trade_date : Text)
      → Makes IsReserving (fetch_upload_rules env slots segment trade_date)
  unfolding fetch_upload_rules
  fetch_upload_rules-Makes slots segment trade_date = ask_settings-Makes segment trade_date _

  pub holiday_check-Makes : (task : SegmentBatchTask) → Makes IsReserving (holiday_check env task)
  unfolding holiday_check
  holiday_check-Makes task =
      if-Makes (text_eq task.segment env.corp_action_segment || supplied task.process_id) _ _
        (pure-Makes _)
        (catch-Makes _ _
          (bind-Makes _ _ (perform-Makes _ _ refl) (λ proceeding.
            if-Makes (proceeding || not env.cbos_holiday_check_enforced) _ _ (pure-Makes _)
              (bind-Makes _ _ (set_batch_status-Makes _ task _ _) (λ _. pure-Makes _))))
          (λ e. pure-Makes _))

  lift-Makes : {A : Type 0} (r : Result A) → Makes IsReserving (lift {Server = Server} r)
  unfolding lift
  lift-Makes (ok a) = pure-Makes a
  lift-Makes (err e) = throw-Makes _

  supplied_setup-Makes :
      (task : SegmentBatchTask) (files : List (FilePath × Text)) (process_id : Text)
      → Makes IsReserving (supplied_setup env task files process_id)
  unfolding supplied_setup
  supplied_setup-Makes task files process_id =
      catch-Makes _ _
        (bind-Makes _ _ (lift-Makes _) (λ reservation.
          bind-Makes _ _ (fetch_upload_rules-Makes reservation.candidates _ _) (λ _. pure-Makes _)))
        (λ e.
          bind-Makes _ _ (fail_all_files-Makes _ task e files)
            (λ _. bind-Makes _ _ (set_batch_status-Makes _ task _ _) (λ _. pure-Makes _)))

  reserve-Makes :
      (task : SegmentBatchTask) (existing : Text) → Makes IsReserving (reserve env task existing)
  unfolding reserve
  reserve-Makes task existing = bind-Makes _ _ (perform-Makes _ _ refl) (λ reservation.
      bind-Makes _ _ (fetch_upload_rules-Makes reservation.candidates _ _) (λ _. pure-Makes _))

  attempts-Makes :
      (task : SegmentBatchTask) (files : List (FilePath × Text)) (existing : Text) (left : ℕ)
      → Makes IsReserving (attempts env task files existing left)
  unfolding attempts
  attempts-Makes task files existing zero = throw-Makes _
  attempts-Makes task files existing (suc zero) =
      catch-Makes _ _ (reserve-Makes task existing) (λ e.
        bind-Makes _ _ (fail_all_files-Makes _ task e files)
          (λ _. bind-Makes _ _ (set_batch_status-Makes _ task _ _) (λ _. pure-Makes _)))
  attempts-Makes task files existing (suc (suc left)) =
      catch-Makes _ _ (reserve-Makes task existing)
        (λ _. attempts-Makes task files existing (suc left))

  -- Resolving the reservation and its rules makes no call but Step 1, 6, 2, 4 and 40 calls, through
  -- every retry and every failure: nothing is sent, registered or marked on the way.
  pub set_up-Makes :
      (task : SegmentBatchTask) (files : List (FilePath × Text))
      → Makes IsReserving (set_up env task files)
  unfolding set_up
  set_up-Makes task files =
      if-Makes (supplied task.process_id) _ _ (supplied_setup-Makes task files _) (
        bind-Makes _ _ (perform-Makes _ _ refl)
          (λ _. attempts-Makes task files _ env.cbos_max_retries))
