-- ===== src/Lane/Records.antt =====
-- upload_service.py: recording a verdict on the batch's row, and carrying a file's outcome out.
pub mod Silent
pub mod Settled
pub mod Carried
use edpbilling_file_upload.Base.{
  ℕ, suc, ◌+◌, Bool, true, false, Option, none, some, List, [], ◌∷◌, ◌++◌, Text, or_default,
  is_some, if◌then◌else◌,
}
use edpbilling_file_upload.Cbos.Reservation.{CbosError}
use edpbilling_file_upload.Matching.{FileRejected}
use edpbilling_file_upload.Files.{FilePath, Disk, move_to_uploaded, move_to_failed}
use edpbilling_file_upload.Outcome.{FileOutcome, failed}
use edpbilling_file_upload.Outcome.Kinds.{Destination}
use edpbilling_file_upload.Audit.{
  UploadedFile, Table, LogEntry, setup_error, update_row, create_audit_record, claim_file_path,
}
use edpbilling_file_upload.Batches.{Batch, BatchStatus, StatusDetail, set_status}
use edpbilling_file_upload.Queue.Task.{SegmentBatchTask, text_or}
use edpbilling_file_upload.Lane.Client.{file_not_found, integrity_error}
use edpbilling_file_upload.Lane.Action.{Action, World, pure, throw, gets, modify, ◌>>=◌, ◌>>◌}

-- `if not task.batch_id: return`, and the row if there is one
recorded : Option Text → BatchStatus → StatusDetail → List Batch → List Batch
recorded (some (c ∷ t)) status detail batches = set_status (c ∷ t) status (some detail) batches
recorded _ status detail batches = batches

later : {A : Type 0} → Option A → Option A → Option A
later none old = old
later (some a) old = some a

-- The `fields` of the update; `request_log` is None where no CBOS call was made.
outcome_fields : FileOutcome → Option (List LogEntry) → UploadedFile → UploadedFile
unfolding later
outcome_fields outcome request_log r = record r {
  status = outcome.status;
  cbos_response = some outcome.cbos_response;
  validation_error = later outcome.validation_error r.validation_error;
  retry_count = if outcome.counts_as_retry then r.retry_count + 1 else r.retry_count;
  uploaded_at = if outcome.stamp_uploaded_at then true else r.uploaded_at;
  request_log = later request_log r.request_log;
}

module _ {Server : Type 0} where
  -- `_set_batch_status`
  unfoldable pub set_batch_status :
      SegmentBatchTask → BatchStatus → StatusDetail → Action Server (Unit {0})
  unfolding recorded modify
  set_batch_status task status detail =
      modify (λ w. record w { batches = recorded task.batch_id status detail w.batches })

  -- `repo.update(record, …)` with the commit
  unfoldable pub update_record : ℕ → (UploadedFile → UploadedFile) → Action Server (Unit {0})
  unfolding modify
  update_record id f = modify (λ w. record w { table = update_row id f w.table })

  -- `repo.create_audit_record(…)`
  unfoldable pub open_record : SegmentBatchTask → FilePath → Text → Action Server ℕ
  open_record task path exchange w =
      elim (create_audit_record path task.folder_date task.segment exchange task.correlation_id
        task.batch_id w.table) [
          | none ↦ throw integrity_error w
          | some (id, t) ↦ pure id (record w { table = t })
        ]

  -- `move(file_path)`
  move_away : Destination → FilePath → Action Server FilePath
  move_away Destination.uploaded path w = elim (move_to_uploaded w.disk path) [
    | none ↦ throw file_not_found w
    | some (dest, disk) ↦ pure dest (record w { disk = disk })
  ]
  move_away Destination.failed path w = elim (move_to_failed w.disk path) [
    | none ↦ throw file_not_found w
    | some (dest, disk) ↦ pure dest (record w { disk = disk })
  ]

  -- `repo.claim_file_path(record, dest_path)`
  claim : ℕ → FilePath → Action Server (Unit {0})
  claim id dest w = elim (claim_file_path id dest w.table) [
    | none ↦ throw integrity_error w
    | some t ↦ pure tt (record w { table = t })
  ]

  unfoldable pub apply_outcome :
      ℕ → FilePath → FileOutcome → Option (List LogEntry) → Action Server FilePath
  unfolding move_away claim outcome_fields ◌>>=◌ update_record
  apply_outcome id path outcome request_log = do
    dest ← move_away outcome.destination path
    claim id dest
    update_record id (outcome_fields outcome request_log)
    pure dest

  -- `_fail_all_files`
  unfoldable pub fail_all_files :
      SegmentBatchTask → CbosError → List (FilePath × Text) → Action Server (Unit {0})
  unfolding ◌>>=◌
  fail_all_files task error [] = pure tt
  fail_all_files task error ((path, exchange) ∷ files) = do
    id ← open_record task path exchange
    apply_outcome id path (failed error) (some (setup_error error ∷ []))
    fail_all_files task error files
