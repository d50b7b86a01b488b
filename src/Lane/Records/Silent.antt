-- ===== src/Lane/Records/Silent.antt =====
-- upload_service.py: the calls to CBOS of the statements that record a verdict or move a file.
use edpbilling_file_upload.Base.{arith, ℕ, ◌≡◌, refl, Option, List, [], ◌∷◌, Text}
use edpbilling_file_upload.Cbos.Reservation.{CbosError}
use edpbilling_file_upload.Files.{FilePath}
use edpbilling_file_upload.Outcome.{FileOutcome}
use edpbilling_file_upload.Outcome.Kinds.{Destination}
use edpbilling_file_upload.Audit.{UploadedFile, LogEntry}
use edpbilling_file_upload.Batches.{BatchStatus, StatusDetail}
use edpbilling_file_upload.Queue.Task.{SegmentBatchTask}
use edpbilling_file_upload.Lane.Action.{Call, World, pure, throw, modify, gets}
use edpbilling_file_upload.Lane.Calls.{Makes, Only-nil, silent, bind-Makes, pure-Makes}
use edpbilling_file_upload.Lane.Records.{
  set_batch_status, update_record, open_record, move_away, claim, apply_outcome, fail_all_files,
}

module _ {Server : Type 0} (C : Call → Type 0) where
  pub set_batch_status-Makes :
      (task : SegmentBatchTask) (status : BatchStatus) (detail : StatusDetail)
      → Makes C (set_batch_status {Server = Server} task status detail)
  unfolding set_batch_status modify
  set_batch_status-Makes task status detail = silent _ (λ w. refl) (λ r. Only-nil C)

  pub update_record-Makes :
      (id : ℕ) (f : UploadedFile → UploadedFile) → Makes C (update_record {Server = Server} id f)
  unfolding update_record modify
  update_record-Makes id f = silent _ (λ w. refl) (λ r. Only-nil C)

  pub gets-Makes : {A : Type 0} (f : World Server → A) → Makes C (gets {Server = Server} f)
  unfolding gets
  gets-Makes f = silent _ (λ w. refl) (λ r. Only-nil C)

  pub open_record-Makes :
      (task : SegmentBatchTask) (path : FilePath) (exchange : Text)
      → Makes C (open_record {Server = Server} task path exchange)
  unfolding open_record pure throw
  open_record-Makes task path exchange = silent _ same (λ r. Only-nil C)
    where
      same :
          (w : World Server)
          → (open_record {Server = Server} task path exchange w).1.trace ≡ w.trace
      same w = ground arith

  move_away-Makes :
      (d : Destination) (path : FilePath) → Makes C (move_away {Server = Server} d path)
  unfolding move_away pure throw
  move_away-Makes Destination.uploaded path = silent _ (λ w. ground arith) (λ r. Only-nil C)
  move_away-Makes Destination.failed path = silent _ (λ w. ground arith) (λ r. Only-nil C)

  claim-Makes : (id : ℕ) (dest : FilePath) → Makes C (claim {Server = Server} id dest)
  unfolding claim pure throw
  claim-Makes id dest = silent _ (λ w. ground arith) (λ r. Only-nil C)

  pub apply_outcome-Makes :
      (id : ℕ) (path : FilePath) (outcome : FileOutcome) (request_log : Option (List LogEntry))
      → Makes C (apply_outcome {Server = Server} id path outcome request_log)
  unfolding apply_outcome
  apply_outcome-Makes id path outcome request_log =
      bind-Makes _ _ (move_away-Makes outcome.destination path) (λ dest.
        bind-Makes _ _ (claim-Makes id dest)
          (λ _. bind-Makes _ _ (update_record-Makes id _) (λ _. pure-Makes dest)))

  pub fail_all_files-Makes :
      (task : SegmentBatchTask) (error : CbosError) (files : List (FilePath × Text))
      → Makes C (fail_all_files {Server = Server} task error files)
  unfolding fail_all_files
  fail_all_files-Makes task error [] = pure-Makes tt
  fail_all_files-Makes task error ((path, exchange) ∷ files) =
      bind-Makes _ _ (open_record-Makes task path exchange) (λ id.
        bind-Makes _ _ (apply_outcome-Makes id path _ _)
          (λ _. fail_all_files-Makes task error files))
