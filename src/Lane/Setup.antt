-- ===== src/Lane/Setup.antt =====
-- upload_service.py, `_process_batch` up to the reservation: Steps 1, 2 and 4, with
-- `fetch_upload_rules` of app/services/upload_matching.py.
pub mod Reserving
pub mod Settled
use edpbilling_file_upload.Base.{
  ℕ, zero, suc, ◌||◌, Bool, true, false, not, Option, none, some, List, [], ◌∷◌, Text, codes,
  text_eq, one_of, or_default, truthy, if◌then◌else◌,
}
use edpbilling_file_upload.Cbos.Reservation.{
  CbosError, Result, ok, err, UploadCandidate, ProcessReservation, expects_a_file,
  build_reservation,
}
use edpbilling_file_upload.Cbos.Rule.{UploadRule}
use edpbilling_file_upload.Files.{FilePath}
use edpbilling_file_upload.Batches.{
  BatchStatus, deferred_holiday, invalid_reservation, setup_exhausted,
}
use edpbilling_file_upload.Queue.Task.{SegmentBatchTask, text_or}
use edpbilling_file_upload.Lane.Client.{
  Env, Failure, cbos, no_attempt, Settings, no_settings, usable, no_pattern,
}
use edpbilling_file_upload.Lane.Action.{
  Action, begin_file_upload, get_existing_process, get_new_trade_process, get_upload_settings,
  get_expected_filename, pure, throw, perform, catch_cbos, ◌>>=◌, ◌>>◌,
}
use edpbilling_file_upload.Lane.Records.{set_batch_status, fail_all_files}

-- `if value:` of a string that may be None
unfoldable pub supplied : Option Text → Bool
supplied (some (_ ∷ _)) = true
supplied _ = false

-- The candidates that `fetch_upload_rules` asks about: each UploadID once, and only where a file is
-- expected.
unfoldable pub distinct_slots : List Text → List UploadCandidate → List UploadCandidate
distinct_slots seen [] = []
distinct_slots seen (c ∷ rest) = elim (not (expects_a_file c) || one_of c.upload_id seen) [
  | true ↦ distinct_slots seen rest
  | false ↦ c ∷ distinct_slots (c.upload_id ∷ seen) rest
]

add_rule : Option UploadRule → List UploadRule → List UploadRule
add_rule none rules = rules
add_rule (some r) rules = r ∷ rules

with_override : (Text → Option UploadRule) → Option Text → Option UploadRule
with_override parse none = none
with_override parse (some pattern) = parse pattern

pub data Setup : Type 0 where
  -- the batch ended here
  stopped : Setup
  ready : ProcessReservation → List UploadRule → Setup

lift : {Server A : Type 0} → Result A → Action Server A
unfolding pure throw
lift (ok a) = pure a
lift (err e) = throw (cbos e)

module _ (env : Env) where
  open env use {Server}

  -- The rule of a slot, from the pattern of Step 40 where Step 4 has none.
  on_settings : Text → Text → Text → Settings → Action Server (Option UploadRule)
  unfolding with_override
  on_settings segment trade_date upload_id no_settings = pure none
  on_settings segment trade_date upload_id (usable rule) = pure (some rule)
  on_settings segment trade_date upload_id (no_pattern parse) =
      if truthy segment
      then (do
        pattern ←
            perform (get_expected_filename segment upload_id trade_date)
              (env.expected_name_pattern segment upload_id trade_date)
        pure (with_override parse pattern))
      else pure none

  -- `upload_settings` of the client
  settings_of_slot : Text → Text → UploadCandidate → Action Server (Option UploadRule)
  unfolding on_settings
  settings_of_slot segment trade_date c = do
    settings ← perform (get_upload_settings c.upload_id) (env.upload_settings c.upload_id c.name)
    on_settings segment trade_date c.upload_id settings

  ask_settings : Text → Text → List UploadCandidate → Action Server (List UploadRule)
  unfolding add_rule settings_of_slot
  ask_settings segment trade_date [] = pure []
  ask_settings segment trade_date (c ∷ rest) = do
    rule ← settings_of_slot segment trade_date c
    rules ← ask_settings segment trade_date rest
    pure (add_rule rule rules)

  unfoldable pub fetch_upload_rules :
      List UploadCandidate → Text → Text → Action Server (List UploadRule)
  unfolding ask_settings distinct_slots
  fetch_upload_rules candidates segment trade_date =
      ask_settings segment trade_date (distinct_slots [] candidates)

  -- Step 1. `true` means that the batch goes on.
  unfoldable pub holiday_check : SegmentBatchTask → Action Server Bool
  unfolding supplied
  holiday_check task =
      if text_eq task.segment env.corp_action_segment || supplied task.process_id
      then pure true
      else catch_cbos
          (do
            proceeding ←
                perform (begin_file_upload task.segment task.folder_date)
                  (env.may_begin_upload task.segment task.folder_date)
            if proceeding || not env.cbos_holiday_check_enforced
                then pure true
                else do set_batch_status task BatchStatus.queued deferred_holiday; pure false)
          (λ _. pure true)

  -- The reservation that the Automation Agent supplied.
  supplied_setup : SegmentBatchTask → List (FilePath × Text) → Text → Action Server Setup
  unfolding lift
  supplied_setup task files process_id =
      catch_cbos
        (do
          reservation ← lift (
              build_reservation (or_default task.table1 []) (or_default task.table2 [])
                (some process_id))
          rules ← fetch_upload_rules reservation.candidates task.segment task.folder_date
          pure (ready reservation rules))
        (λ e. do
          fail_all_files task e files
          set_batch_status task BatchStatus.failed (invalid_reservation e)
          pure stopped)

  reserve : SegmentBatchTask → Text → Action Server Setup
  reserve task existing = do
    reservation ←
        perform (get_new_trade_process task.segment task.folder_date existing)
          (env.reserve_process task.segment task.folder_date existing)
    rules ← fetch_upload_rules reservation.candidates task.segment task.folder_date
    pure (ready reservation rules)

  -- The retry loop, with the attempts that are left. With none at all the source goes on to read an
  -- attribute of None.
  unfoldable pub attempts :
      SegmentBatchTask → List (FilePath × Text) → Text → ℕ → Action Server Setup
  unfolding reserve
  attempts task files existing zero = throw no_attempt
  attempts task files existing (suc zero) = catch_cbos (reserve task existing) (λ e. do
    fail_all_files task e files
    set_batch_status task BatchStatus.failed (setup_exhausted e)
    pure stopped)
  attempts task files existing (suc (suc left)) =
      catch_cbos (reserve task existing) (λ _. attempts task files existing (suc left))

  -- Steps 2 and 4.
  unfoldable pub set_up : SegmentBatchTask → List (FilePath × Text) → Action Server Setup
  unfolding supplied_setup attempts supplied
  set_up task files =
      if supplied task.process_id
      then supplied_setup task files (or_default task.process_id [])
      else (do
        existing ←
            perform (get_existing_process task.segment task.folder_date)
              (env.find_existing_process_id task.segment task.folder_date)
        attempts task files (text_or existing (codes "0")) env.cbos_max_retries)
