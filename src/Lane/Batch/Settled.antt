-- ===== src/Lane/Batch/Settled.antt =====
-- upload_service.py, `process_batch`: the batch's row where the processing returns.
use edpbilling_file_upload.Base.{
  Bool, true, false, not, Option, none, some, List, [], ◌∷◌, Text, if◌then◌else◌,
}
use edpbilling_file_upload.Cbos.Reservation.{UploadCandidate, ProcessReservation}
use edpbilling_file_upload.Files.{FilePath}
use edpbilling_file_upload.Batches.{Batch}
use edpbilling_file_upload.Batches.Settled.{IsSettled}
use edpbilling_file_upload.Queue.Task.{SegmentBatchTask, Mode, upload, proceed}
use edpbilling_file_upload.Lane.Client.{Env}
use edpbilling_file_upload.Lane.Action.{Action, World, pure, modify, ◌>>=◌}
use edpbilling_file_upload.Lane.Outcomes.{
  Ensures, any_state, pure-Ensures, if-Ensures, catch-Ensures, bind-Ensures, then-Ensures,
}
use edpbilling_file_upload.Lane.Records.{set_batch_status}
use edpbilling_file_upload.Lane.Records.Settled.{IsFor, set_batch_status-Ensures}
use edpbilling_file_upload.Lane.Setup.{Setup, stopped, ready, set_up}
use edpbilling_file_upload.Lane.Setup.Settled.{
  GoesOn, IsReady, holiday_check-Ensures, set_up-Ensures,
}
use edpbilling_file_upload.Lane.Finish.Settled.{run_reservation-Ensures}
use edpbilling_file_upload.Lane.Batch.{
  all_gone, after_setup, run_files, upload_batch, finish_proceed, check_missing, check_requested,
  on_reservation, refetch, proceed_on, proceed_batch, run_mode, process_batch, mark_batch_failed,
}

mark_batch_failed-Ensures :
    {Server : Type 0} (task : SegmentBatchTask) (id : Text)
    → IsFor task id
    → Ensures {Server = Server} (λ _. Unit {0}) (mark_batch_failed task) (λ _ bs. IsSettled id bs)
unfolding mark_batch_failed
mark_batch_failed-Ensures task id named = set_batch_status-Ensures task id named _ _ (λ e. cc)

pub mark_batch_failed-IsSettled :
    {Server : Type 0} (task : SegmentBatchTask) (id : Text)
    → IsFor task id
    → (w : World Server) → IsSettled id (mark_batch_failed task w).1.batches
unfolding mark_batch_failed set_batch_status modify
mark_batch_failed-IsSettled task id named w = (mark_batch_failed-Ensures task id named).run w tt

module _ (env : Env) (task : SegmentBatchTask) (id : Text) (named : IsFor task id) where
  -- The task's batch is settled where the statement returns.
  abbrev Settles : Action env.Server (Unit {0}) → Type 0
  Settles m = Ensures (λ _. Unit {0}) m (λ _ bs. IsSettled id bs)

  after_setup-Ensures :
      (files : List (FilePath × Text)) (setup : Setup)
      → Ensures (IsReady id setup) (after_setup env task files setup) (λ _ bs. IsSettled id bs)
  unfolding after_setup
  after_setup-Ensures files stopped = pure-Ensures tt (λ bs p. p)
  after_setup-Ensures files (ready reservation rules) =
      any_state (run_reservation-Ensures env task id named files reservation rules)

  go_on-Ensures :
      (files : List (FilePath × Text)) (proceeding : Bool)
      → Ensures
          (GoesOn id proceeding)
          (if not proceeding
            then pure tt
            else (do setup ← set_up env task files; after_setup env task files setup))
          (λ _ bs. IsSettled id bs)
  go_on-Ensures files false = pure-Ensures tt (λ bs p. p)
  go_on-Ensures files true = any_state (
      bind-Ensures _ _ (set_up-Ensures env task id named files)
        (λ setup. after_setup-Ensures files setup))

  run_files-Ensures : (files : List (FilePath × Text)) → Settles (run_files env task files)
  unfolding run_files
  run_files-Ensures files =
      if-Ensures (all_gone task.files files) _ _
        (set_batch_status-Ensures task id named _ _ (λ e. cc))
        (then-Ensures _ _
          (λ _. bind-Ensures _ _ (holiday_check-Ensures env task id named) (go_on-Ensures files)))

  finish_proceed-Ensures :
      (reservation : ProcessReservation) (empty : List UploadCandidate)
      → Settles (finish_proceed env task reservation empty)
  unfolding finish_proceed
  finish_proceed-Ensures reservation empty =
      then-Ensures _ _
        (λ _. then-Ensures _ _ (λ polled. set_batch_status-Ensures task id named _ _ (λ e. cc)))

  check_missing-Ensures :
      (reservation : ProcessReservation) (empty missing : List UploadCandidate)
      → Settles (check_missing env task reservation empty missing)
  unfolding check_missing
  check_missing-Ensures reservation empty [] = finish_proceed-Ensures reservation empty
  check_missing-Ensures reservation empty (c ∷ missing) =
      set_batch_status-Ensures task id named _ _ (λ e. cc)

  check_requested-Ensures :
      (reservation : ProcessReservation) (empty : List UploadCandidate) (unknown : List Text)
      → Settles (check_requested env task reservation empty unknown)
  unfolding check_requested
  check_requested-Ensures reservation empty [] = check_missing-Ensures reservation empty _
  check_requested-Ensures reservation empty (slot ∷ unknown) =
      set_batch_status-Ensures task id named _ _ (λ e. cc)

  -- Where there is no reservation, the batch is settled already.
  abbrev HasFetched : Option ProcessReservation → List Batch → Type 0
  HasFetched none bs = IsSettled id bs
  HasFetched (some _) bs = Unit {0}

  on_reservation-Ensures :
      (fetched : Option ProcessReservation)
      → Ensures (HasFetched fetched) (on_reservation env task fetched) (λ _ bs. IsSettled id bs)
  unfolding on_reservation
  on_reservation-Ensures none = pure-Ensures tt (λ bs p. p)
  on_reservation-Ensures (some reservation) = any_state (check_requested-Ensures reservation _ _)

  refetch-Ensures :
      (existing : Text) → Ensures (λ _. Unit {0}) (refetch env task existing) HasFetched
  unfolding refetch
  refetch-Ensures existing =
      catch-Ensures _ _ (then-Ensures _ _ (λ reservation. pure-Ensures _ (λ bs p. tt))) (λ e.
        bind-Ensures _ _ (set_batch_status-Ensures task id named _ _ (λ d. cc))
          (λ _. pure-Ensures _ (λ bs p. p)))

  proceed_on-Ensures : (existing : Option Text) → Settles (proceed_on env task existing)
  unfolding proceed_on
  proceed_on-Ensures (some (c ∷ existing)) =
      bind-Ensures _ _ (refetch-Ensures (c ∷ existing)) on_reservation-Ensures
  proceed_on-Ensures (some []) = set_batch_status-Ensures task id named _ _ (λ e. cc)
  proceed_on-Ensures none = set_batch_status-Ensures task id named _ _ (λ e. cc)

  run_mode-Ensures : (mode : Mode) → Settles (run_mode env mode task)
  unfolding run_mode upload_batch proceed_batch
  run_mode-Ensures upload = then-Ensures _ _ run_files-Ensures
  run_mode-Ensures proceed = then-Ensures _ _ proceed_on-Ensures

  pub process_batch-Ensures :
      Ensures (λ _. Unit {0}) (process_batch env task) (λ _ bs. IsSettled id bs)
  unfolding process_batch
  process_batch-Ensures = run_mode-Ensures task.mode
