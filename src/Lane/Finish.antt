-- ===== src/Lane/Finish.antt =====
-- upload_service.py, `_process_batch` from the reservation on: Steps 3 and 6 to 9 and the gate.
pub mod Marking
pub mod Order
pub mod Settled
use edpbilling_file_upload.Base.{
  ◌&&◌, Bool, true, false, not, Option, none, some, List, [], ◌∷◌, ◌++◌, map, filter, length, Text,
  codes, if◌then◌else◌, ℕ,
}
use edpbilling_file_upload.Cbos.Value.{Scalar, is_none}
use edpbilling_file_upload.Cbos.Reservation.{UploadCandidate, ProcessReservation, no_step_no}
use edpbilling_file_upload.Cbos.Rule.{UploadRule}
use edpbilling_file_upload.Files.{FilePath}
use edpbilling_file_upload.Outcome
use edpbilling_file_upload.Outcome.{FileOutcome, gate_parked, from_poll_result}
use edpbilling_file_upload.Audit.{LogEntry, gate_incomplete, process_status}
use edpbilling_file_upload.Batches.{
  BatchStatus, deferred_not_runnable, nothing_uploaded, missing_slots, upload_complete,
}
use edpbilling_file_upload.Queue.Task.{SegmentBatchTask}
use edpbilling_file_upload.Lane.Client.{Env, cbos}
use edpbilling_file_upload.Lane.Action.{
  Action, update_is_mandatory, check_process_id, get_existing_process, file_upload_status, pure,
  throw, perform, catch_cbos, ◌>>=◌, ◌>>◌,
}
use edpbilling_file_upload.Lane.Records.{set_batch_status, apply_outcome}
use edpbilling_file_upload.Lane.Transfer.{Sent, Uploaded, send_files, register_files}
use edpbilling_file_upload.Lane.Gate.{empty_slots, missing_required, optional_step, unused_optional}

upload_ids : List UploadCandidate → List Text
upload_ids = map (λ c. c.upload_id)

-- Were files declared, and none of them reached or was found in CBOS?
nothing_reached : List (FilePath × Text) → List Uploaded → List Text → Bool
nothing_reached (_ ∷ _) [] [] = true
nothing_reached _ _ _ = false

-- The message that stands for a failed poll.
abbrev poll_unknown : Text
poll_unknown = codes "UNKNOWN (Step 9 poll failed)"

module _ (env : Env) where
  open env use {Server}

  -- `client.mark_step_optional`, which refuses a slot with no STEPNO
  unfoldable pub mark_step_optional : Text → Scalar → Action Server (Unit {0})
  mark_step_optional process_id step_no =
      if is_none step_no
      then throw (cbos no_step_no)
      else perform (update_is_mandatory process_id step_no)
          (env.mark_step_optional process_id step_no)

  -- A loop that marks slots optional; a failure is logged and passed over.
  unfoldable pub mark_all : Text → List UploadCandidate → Action Server (Unit {0})
  unfolding mark_step_optional
  mark_all process_id [] = pure tt
  mark_all process_id (c ∷ rest) = do
    catch_cbos (mark_step_optional process_id c.step_no) (λ _. pure tt)
    mark_all process_id rest

  -- One outcome for every file that was registered, with an entry in its log.
  conclude_files : FileOutcome → LogEntry → List Uploaded → Action Server (Unit {0})
  conclude_files outcome entry [] = pure tt
  conclude_files outcome entry (u ∷ rest) = do
    apply_outcome u.id u.file_path outcome (some (u.request_log ++ (entry ∷ [])))
    conclude_files outcome entry rest

  park : SegmentBatchTask → List UploadCandidate → List Uploaded → Action Server (Unit {0})
  unfolding conclude_files upload_ids
  park task missing uploaded = do
    conclude_files (gate_parked (upload_ids missing)) (gate_incomplete (upload_ids missing))
        uploaded
    set_batch_status task BatchStatus.incomplete (missing_slots missing)

  -- Step 9: the reading, and whether the poll failed
  unfoldable pub poll : SegmentBatchTask → Action Server (Text × Bool)
  poll task =
      catch_cbos
        (do
          message ←
              perform (file_upload_status task.segment task.folder_date)
                (env.confirm_upload task.segment task.folder_date)
          pure (message, false))
        (λ _. pure (poll_unknown, true))

  confirm : SegmentBatchTask → List Uploaded → Action Server (Unit {0})
  unfolding poll conclude_files
  confirm task uploaded = do
    polled ← poll task
    conclude_files (from_poll_result polled.0) (process_status polled.0) uploaded
    set_batch_status task BatchStatus.confirmed
        (upload_complete (length uploaded) polled.0 polled.1)

  gate : SegmentBatchTask → List UploadCandidate → List Uploaded → Action Server (Unit {0})
  unfolding park confirm
  gate task [] uploaded = confirm task uploaded
  gate task (c ∷ missing) uploaded = park task (c ∷ missing) uploaded

  -- From the completeness check of the files on: Step 6, the second Step 8 loop, the gate.
  unfoldable pub conclude :
      SegmentBatchTask → ProcessReservation → List Uploaded → List Text → Action Server (Unit {0})
  unfolding nothing_reached gate mark_all
  conclude task reservation uploaded filled =
      if nothing_reached task.files uploaded filled
      then set_batch_status task BatchStatus.failed nothing_uploaded
      else (do
        catch_cbos
            (perform (get_existing_process task.segment task.folder_date)
              (env.existing_process task.segment task.folder_date))
            (λ _. pure tt)
        mark_all reservation.process_id (filter (unused_optional filled) reservation.candidates)
        gate task
            (missing_required (empty_slots reservation.candidates filled)
              (env.allowlisted task.segment))
            uploaded)

  -- Step 3, which decides nothing.
  pub check_process : SegmentBatchTask → Action Server (Unit {0})
  check_process task =
      catch_cbos
        (do
          perform (check_process_id task.segment task.folder_date)
              (env.check_process_exists task.segment task.folder_date)
          pure tt)
        (λ _. pure tt)

  unfoldable pub run_reservation :
      SegmentBatchTask
      → List (FilePath × Text)
      → ProcessReservation
      → List UploadRule
      → Action Server (Unit {0})
  unfolding check_process mark_all conclude
  run_reservation task files reservation rules =
      if not reservation.is_runnable
      then set_batch_status task BatchStatus.queued (deferred_not_runnable reservation.process_id)
      else (do
        mark_all reservation.process_id (filter optional_step reservation.candidates)
        check_process task
        sent ← send_files env task reservation rules 0 (length files) files
        registered ← register_files env task reservation.process_id sent.pending
        conclude task reservation registered.0 (registered.1 ++ sent.filled))
