-- ===== src/Lane/Setup/Settled.antt =====
-- upload_service.py, `_process_batch`: the batch's row where the set-up ends the batch.
use edpbilling_file_upload.Base.{ℕ, zero, suc, Bool, true, false, not, ◌||◌, List, Text, text_eq}
use edpbilling_file_upload.Files.{FilePath}
use edpbilling_file_upload.Batches.{Batch}
use edpbilling_file_upload.Batches.Settled.{IsSettled}
use edpbilling_file_upload.Queue.Task.{SegmentBatchTask}
use edpbilling_file_upload.Lane.Client.{Env}
use edpbilling_file_upload.Lane.Outcomes.{
  Ensures, pure-Ensures, throw-Ensures, if-Ensures, catch-Ensures, bind-Ensures, then-Ensures,
}
use edpbilling_file_upload.Lane.Records.Settled.{IsFor, set_batch_status-Ensures}
use edpbilling_file_upload.Lane.Setup.{
  Setup, stopped, ready, supplied, holiday_check, supplied_setup, reserve, attempts, set_up,
}

-- A batch that does not go on is settled.
abbrev pub GoesOn : Text → Bool → List Batch → Type 0
GoesOn id true bs = Unit {0}
GoesOn id false bs = IsSettled id bs

abbrev pub IsReady : Text → Setup → List Batch → Type 0
IsReady id stopped bs = IsSettled id bs
IsReady id (ready _ _) bs = Unit {0}

module _ (env : Env) (task : SegmentBatchTask) (id : Text) (named : IsFor task id) where
  pub holiday_check-Ensures : Ensures (λ _. Unit {0}) (holiday_check env task) (GoesOn id)
  unfolding holiday_check
  holiday_check-Ensures =
      if-Ensures (text_eq task.segment env.corp_action_segment || supplied task.process_id) _ _
        (pure-Ensures true (λ bs p. tt))
        (catch-Ensures _ _
          (then-Ensures _ _ (λ proceeding.
            if-Ensures (proceeding || not env.cbos_holiday_check_enforced) _ _
              (pure-Ensures true (λ bs p. tt))
              (bind-Ensures _ _ (set_batch_status-Ensures task id named _ _ (λ e. cc))
                (λ _. pure-Ensures false (λ bs p. p)))))
          (λ e. pure-Ensures true (λ bs p. tt)))

  supplied_setup-Ensures :
      (files : List (FilePath × Text)) (process_id : Text)
      → Ensures (λ _. Unit {0}) (supplied_setup env task files process_id) (IsReady id)
  unfolding supplied_setup
  supplied_setup-Ensures files process_id =
      catch-Ensures _ _
        (then-Ensures _ _ (λ reservation. then-Ensures _ _ (λ rules. pure-Ensures _ (λ bs p. tt))))
        (λ e. then-Ensures _ _ (λ _.
          bind-Ensures _ _ (set_batch_status-Ensures task id named _ _ (λ e. cc))
            (λ _. pure-Ensures _ (λ bs p. p))))

  reserve-Ensures :
      (existing : Text) → Ensures (λ _. Unit {0}) (reserve env task existing) (IsReady id)
  unfolding reserve
  reserve-Ensures existing =
      then-Ensures _ _ (λ reservation. then-Ensures _ _ (λ rules. pure-Ensures _ (λ bs p. tt)))

  attempts-Ensures :
      (files : List (FilePath × Text)) (existing : Text) (left : ℕ)
      → Ensures (λ _. Unit {0}) (attempts env task files existing left) (IsReady id)
  unfolding attempts
  attempts-Ensures files existing zero = throw-Ensures _
  attempts-Ensures files existing (suc zero) = catch-Ensures _ _ (reserve-Ensures existing) (λ e.
      then-Ensures _ _ (λ _.
        bind-Ensures _ _ (set_batch_status-Ensures task id named _ _ (λ e. cc))
          (λ _. pure-Ensures _ (λ bs p. p))))
  attempts-Ensures files existing (suc (suc left)) =
      catch-Ensures _ _ (reserve-Ensures existing) (λ _. attempts-Ensures files existing (suc left))

  pub set_up-Ensures :
      (files : List (FilePath × Text))
      → Ensures (λ _. Unit {0}) (set_up env task files) (IsReady id)
  unfolding set_up
  set_up-Ensures files =
      if-Ensures (supplied task.process_id) _ _ (supplied_setup-Ensures files _)
        (then-Ensures _ _ (λ _. attempts-Ensures files _ env.cbos_max_retries))
