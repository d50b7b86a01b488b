-- ===== src/Lane/Finish/Settled.antt =====
-- upload_service.py, `_process_batch`: the batch's row at the end of the batch.
use edpbilling_file_upload.Base.{not, List, [], ◌∷◌, ◌++◌, Text}
use edpbilling_file_upload.Cbos.Reservation.{UploadCandidate, ProcessReservation}
use edpbilling_file_upload.Cbos.Rule.{UploadRule}
use edpbilling_file_upload.Files.{FilePath}
use edpbilling_file_upload.Batches.Settled.{IsSettled}
use edpbilling_file_upload.Queue.Task.{SegmentBatchTask}
use edpbilling_file_upload.Lane.Client.{Env}
use edpbilling_file_upload.Lane.Action.{Action}
use edpbilling_file_upload.Lane.Outcomes.{Ensures, if-Ensures, then-Ensures}
use edpbilling_file_upload.Lane.Records.Settled.{IsFor, set_batch_status-Ensures}
use edpbilling_file_upload.Lane.Transfer.{Uploaded}
use edpbilling_file_upload.Lane.Finish.{
  nothing_reached, park, confirm, gate, conclude, run_reservation,
}

module _ (env : Env) (task : SegmentBatchTask) (id : Text) (named : IsFor task id) where
  abbrev Settles : Action env.Server (Unit {0}) → Type 0
  Settles m = Ensures (λ _. Unit {0}) m (λ _ bs. IsSettled id bs)

  gate-Ensures :
      (missing : List UploadCandidate) (uploaded : List Uploaded)
      → Settles (gate env task missing uploaded)
  unfolding gate park confirm
  gate-Ensures [] uploaded =
      then-Ensures _ _
        (λ polled. then-Ensures _ _ (λ _. set_batch_status-Ensures task id named _ _ (λ e. cc)))
  gate-Ensures (c ∷ missing) uploaded =
      then-Ensures _ _ (λ _. set_batch_status-Ensures task id named _ _ (λ e. cc))

  conclude-Ensures :
      (reservation : ProcessReservation) (uploaded : List Uploaded) (filled : List Text)
      → Settles (conclude env task reservation uploaded filled)
  unfolding conclude
  conclude-Ensures reservation uploaded filled =
      if-Ensures (nothing_reached task.files uploaded filled) _ _
        (set_batch_status-Ensures task id named _ _ (λ e. cc))
        (then-Ensures _ _ (λ _. then-Ensures _ _ (λ _. gate-Ensures _ uploaded)))

  pub run_reservation-Ensures :
      (files : List (FilePath × Text)) (reservation : ProcessReservation) (rules : List UploadRule)
      → Ensures
          (λ _. Unit {0})
          (run_reservation env task files reservation rules)
          (λ _ bs. IsSettled id bs)
  unfolding run_reservation
  run_reservation-Ensures files reservation rules =
      if-Ensures (not reservation.is_runnable) _ _
        (set_batch_status-Ensures task id named _ _ (λ e. cc))
        (then-Ensures _ _ (λ _. then-Ensures _ _ (λ _. then-Ensures _ _ (λ sent.
          then-Ensures _ _ (λ registered.
            conclude-Ensures reservation registered.0 (registered.1 ++ sent.filled))))))
