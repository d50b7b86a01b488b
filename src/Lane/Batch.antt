-- ===== src/Lane/Batch.antt =====
-- upload_service.py: `process_batch`, `_process_batch`, `_proceed_batch` and `mark_batch_failed`.
pub mod Phases
pub mod Proceeding
pub mod Settled
use edpbilling_file_upload.Base.{
  ℕ, ◌&&◌, Bool, true, false, not, Option, none, some, List, [], ◌∷◌, ◌++◌, map, filter, length,
  Text, one_of, if◌then◌else◌,
}
use edpbilling_file_upload.Cbos.Reservation.{
  CbosError, UploadCandidate, ProcessReservation, expects_a_file, needs_upload,
}
use edpbilling_file_upload.Files.{FilePath, exists_on}
use edpbilling_file_upload.Batches.{
  BatchStatus, superseded, started, crashed, no_process, refetch_failed, not_unfilled,
  still_missing, proceed_complete,
}
use edpbilling_file_upload.Queue.Task.{SegmentBatchTask, Mode, upload, proceed}
use edpbilling_file_upload.Lane.Client.{Env}
use edpbilling_file_upload.Lane.Action.{
  Action, World, get_existing_process, get_new_trade_process, pure, gets, perform, catch_cbos,
  ◌>>=◌, ◌>>◌,
}
use edpbilling_file_upload.Lane.Records.{set_batch_status}
use edpbilling_file_upload.Lane.Setup.{Setup, stopped, ready, holiday_check, set_up, supplied}
use edpbilling_file_upload.Lane.Gate.{missing_required}
use edpbilling_file_upload.Lane.Finish.{mark_all, poll, run_reservation}

-- Were files declared, and is none of them there any more?
all_gone : List (FilePath × Text) → List (FilePath × Text) → Bool
all_gone (_ ∷ _) [] = true
all_gone _ _ = false

-- `mark_batch_failed`
unfoldable pub mark_batch_failed : {Server : Type 0} → SegmentBatchTask → Action Server (Unit {0})
mark_batch_failed task = set_batch_status task BatchStatus.failed crashed

module _ (env : Env) where
  open env use {Server}

  -- The files of the task that are still on disk.
  pub present : SegmentBatchTask → World Server → List (FilePath × Text)
  present task w = filter (λ (path, _). exists_on w.disk path) task.files

  after_setup : SegmentBatchTask → List (FilePath × Text) → Setup → Action Server (Unit {0})
  after_setup task files stopped = pure tt
  after_setup task files (ready reservation rules) =
      run_reservation env task files reservation rules

  run_files : SegmentBatchTask → List (FilePath × Text) → Action Server (Unit {0})
  unfolding all_gone after_setup
  run_files task files =
      if all_gone task.files files
      then set_batch_status task BatchStatus.unconfirmed superseded
      else (do
        set_batch_status task BatchStatus.uploading (started 0 (length files))
        proceeding ← holiday_check env task
        if not proceeding
            then pure tt
            else do setup ← set_up env task files; after_setup task files setup)

  -- `_process_batch`
  unfoldable pub upload_batch : SegmentBatchTask → Action Server (Unit {0})
  unfolding present run_files
  upload_batch task = do files ← gets (present task); run_files task files

  ids : List UploadCandidate → List Text
  ids = map (λ c. c.upload_id)

  -- Every empty slot is marked, and the batch is confirmed.
  finish_proceed :
      SegmentBatchTask → ProcessReservation → List UploadCandidate → Action Server (Unit {0})
  finish_proceed task reservation empty = do
    mark_all env reservation.process_id empty
    polled ← poll env task
    set_batch_status task BatchStatus.confirmed
        (proceed_complete task.proceed_slots polled.0 polled.1)

  -- `still_missing`
  check_missing :
      SegmentBatchTask
      → ProcessReservation
      → List UploadCandidate
      → List UploadCandidate
      → Action Server (Unit {0})
  unfolding finish_proceed
  check_missing task reservation empty [] = finish_proceed task reservation empty
  check_missing task reservation empty (c ∷ missing) =
      set_batch_status task BatchStatus.incomplete (still_missing (c ∷ missing) task.proceed_slots)

  -- `unknown`: the requested slots that are no unfilled file slots
  check_requested :
      SegmentBatchTask
      → ProcessReservation
      → List UploadCandidate
      → List Text
      → Action Server (Unit {0})
  unfolding check_missing ids
  check_requested task reservation empty [] =
      check_missing task reservation empty
        (missing_required empty (env.allowlisted task.segment ++ task.proceed_slots))
  check_requested task reservation empty (slot ∷ unknown) =
      set_batch_status task BatchStatus.incomplete
        (not_unfilled (slot ∷ unknown) (ids (filter expects_a_file empty)))

  on_reservation : SegmentBatchTask → Option ProcessReservation → Action Server (Unit {0})
  unfolding check_requested ids
  on_reservation task none = pure tt
  on_reservation task (some reservation) =
      let empty = filter needs_upload reservation.candidates in
      check_requested task reservation empty
        (filter (λ slot. not (one_of slot (ids (filter expects_a_file empty)))) task.proceed_slots)

  -- The PROCESSID's reservation; where the call fails the batch has been recorded.
  refetch : SegmentBatchTask → Text → Action Server (Option ProcessReservation)
  refetch task existing =
      catch_cbos
        (do
          reservation ←
              perform (get_new_trade_process task.segment task.folder_date existing)
                (env.reserve_process task.segment task.folder_date existing)
          pure (some reservation))
        (λ e. do set_batch_status task BatchStatus.incomplete (refetch_failed e); pure none)

  proceed_on : SegmentBatchTask → Option Text → Action Server (Unit {0})
  unfolding refetch on_reservation
  proceed_on task (some (c ∷ existing)) = do
    reservation ← refetch task (c ∷ existing)
    on_reservation task reservation
  proceed_on task _ = set_batch_status task BatchStatus.incomplete no_process

  -- `_proceed_batch`
  unfoldable pub proceed_batch : SegmentBatchTask → Action Server (Unit {0})
  unfolding proceed_on
  proceed_batch task = do
    existing ←
        perform (get_existing_process task.segment task.folder_date)
          (env.find_existing_process_id task.segment task.folder_date)
    proceed_on task existing

  run_mode : Mode → SegmentBatchTask → Action Server (Unit {0})
  run_mode proceed task = proceed_batch task
  run_mode upload task = upload_batch task

  -- `process_batch`
  unfoldable pub process_batch : SegmentBatchTask → Action Server (Unit {0})
  unfolding run_mode
  process_batch task = run_mode task.mode task
