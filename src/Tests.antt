-- ===== src/Tests.antt =====
-- Small concrete inputs: each property whose statement has binders holds of one of them, and a
-- whole batch is run on a client that answers everything.
pub mod Runs
pub mod Parts
pub mod Speede
pub mod Intake
use edpbilling_file_upload.Base.{
  ℕ, ◌≡◌, ◌≢◌, ◌↔◌, ◌≤◌, refl, Bool, true, false, Option, none, some, List, [], ◌∷◌, ◌++◌, In, inl,
  inr, length, Text, codes, upper, text_eq, one_of, map, ◌⊎◌, find, text_ops, if◌then◌else◌, ap,
  sym, ◌∙◌, ◌<◌, arith,
}
use edpbilling_file_upload.Cbos.Value.{
  ℤ, pos, Scalar, null, int, str, bool, show_ℕ, show_ℤ, py_str, py_bool, is_none,
}
use edpbilling_file_upload.Cbos.Reservation.{
  UploadCandidate, ProcessReservation, ProcessRow, SlotRow, ok, already_in_cbos, build_reservation,
  parse_isoptional, expects_a_file, needs_upload, to_candidate,
}
use edpbilling_file_upload.Cbos.Reservation.Slots.{IsFilled, already_in_cbos_iff}
use edpbilling_file_upload.Cbos.Rule.{UploadRule}
use edpbilling_file_upload.Matching.{
  MatchSettings, Match, matched, rejected, match_file, normal_operator, pattern_matches,
  matches_rule, disambiguate, qualifies, check_columns, no_matching_upload_rule, has_width,
}
use edpbilling_file_upload.Matching.Columns.{
  Lines, end, line, prepend, collect, sniff_lines, fields_from, count_fields, candidate_delimiters,
  count_columns,
}
use edpbilling_file_upload.Matching.Choice.Verdict.{match_file-matched, match_file-no_matching}
use edpbilling_file_upload.Files.{
  FilePath, Disk, move_file, path_eq, exists_on, move_to_uploaded, move_to_failed,
}
use edpbilling_file_upload.Files.Moves.{IsMoved, move_file-IsMoved}
use edpbilling_file_upload.Audit.{
  Table, UploadedFile, at, superseded, create_audit_record, claim_file_path, location_eq,
  update_row, find_completed, find_for_batch,
}
use edpbilling_file_upload.Batches.{
  Batch, BatchStatus, find_by_batch_id, set_status, uploading, upload_complete, create,
  record_proceed,
}
use edpbilling_file_upload.Queue.Task.{SegmentBatchTask, Mode, upload, key, text_or}
use edpbilling_file_upload.Lane.Client.{Env, usable, no_pattern, Reply, answer}
use edpbilling_file_upload.Lane.Action.{
  World, Call, pure, throw, gets, perform, settle, catch_cbos, modify, continue, ◌>>=◌,
}
use edpbilling_file_upload.Lane.Calls.{Yields, Makes, Only}
use edpbilling_file_upload.Lane.Finish.{
  run_reservation, conclude, mark_step_optional, mark_all, poll,
}
use edpbilling_file_upload.Lane.Finish.Order.{IsOrdered, run_reservation-IsOrdered}
use edpbilling_file_upload.Lane.Batch.{
  upload_batch, mark_batch_failed, proceed_batch, process_batch,
}
use edpbilling_file_upload.Lane.Batch.Phases.{IsPhased, upload_batch-IsPhased}
use edpbilling_file_upload.Lane.Worker.{process_one}
use edpbilling_file_upload.Lane.Worker.Settled.{process_one-settles}
use edpbilling_file_upload.Outcome.{
  confirmed, unconfirmed, idempotent_skip, gate_parked, failed, from_poll_result,
}
use edpbilling_file_upload.Queue.{
  release, enqueue, get, request_shutdown, task_done, fresh, System, Reaches, stays, moves, claims,
  puts, is_full, put, picks, Item,
}
use edpbilling_file_upload.Matching.FileName.{split_suffix, stem, suffix}
use edpbilling_file_upload.Lane.Transfer.{candidate_for, send_files, register_files, Pending}
use edpbilling_file_upload.Lane.Setup.{
  supplied, distinct_slots, fetch_upload_rules, holiday_check, attempts, set_up,
}
use edpbilling_file_upload.Lane.Gate.{empty_slots, missing_required, optional_step, unused_optional}
use edpbilling_file_upload.Lane.Records.{
  set_batch_status, update_record, open_record, apply_outcome, fail_all_files,
}
use edpbilling_file_upload.Lane.Finish.Marking.{Closes, conclude-Makes, missing_required-none}
use edpbilling_file_upload.Lane.Transfer.Sending.{IsChunks, AllPosted, send_files-Yields}
use edpbilling_file_upload.Lane.Transfer.Registering.{Registers, AllEntered, register_files-Yields}
use edpbilling_file_upload.Lane.Setup.Reserving.{IsReserving, set_up-Makes}
use edpbilling_file_upload.Queue.Guard.{IsGuarded}
use edpbilling_file_upload.Queue.Guard.Reachable.{reachable-IsGuarded}
use edpbilling_file_upload.Outcome.Kinds.{FileStatus}
use edpbilling_file_upload.Audit.Claims.{IsConsistent, location_eq_iff, at-ne-superseded}
use edpbilling_file_upload.Audit.Claims.Takeover.{claim_file_path-succeeds}
use edpbilling_file_upload.Matching.Widths.{HasLine, HasWidth, AllSingle, check_columns_iff}

-- Opens the definitions that a run of a batch computes.
lane_ops : Unit {0}
unfolding text_ops find_by_batch_id create set_status record_proceed confirmed unconfirmed
    idempotent_skip gate_parked edpbilling_file_upload.Outcome.rejected failed from_poll_result
    path_eq exists_on move_file move_to_uploaded move_to_failed location_eq update_row
    create_audit_record claim_file_path find_completed find_for_batch normal_operator
    pattern_matches matches_rule disambiguate qualifies check_columns match_file release is_full put
    enqueue get request_shutdown task_done fresh text_or key parse_isoptional expects_a_file
    already_in_cbos needs_upload to_candidate build_reservation show_ℕ show_ℤ py_str py_bool is_none
    prepend collect sniff_lines fields_from count_fields candidate_delimiters count_columns
    split_suffix stem suffix pure throw gets perform settle catch_cbos modify continue ◌>>=◌
    candidate_for send_files register_files mark_step_optional mark_all poll conclude
    run_reservation supplied distinct_slots fetch_upload_rules holiday_check attempts set_up
    empty_slots missing_required optional_step unused_optional mark_batch_failed upload_batch
    proceed_batch process_batch set_batch_status
    edpbilling_file_upload.UploadName.resolve_upload_name update_record open_record apply_outcome
    fail_all_files process_one
lane_ops = tt

abbrev slot : UploadCandidate
slot = record {
  upload_id = codes "81";
  step_no = int (pos 3);
  name = codes "SCRIP";
  status = none;
  status_desc = none;
  is_optional = false;
}

abbrev done_slot : UploadCandidate
done_slot = record {
  upload_id = codes "82";
  step_no = int (pos 4);
  name = codes "BHAV";
  status = some (codes " completed");
  status_desc = none;
  is_optional = false;
}

abbrev rule : UploadRule
rule = record {
  upload_id = codes "81";
  name = codes "SCRIP";
  file_name_pattern = codes "SCRIP";
  compare_operator = codes "STARTSWITH";
  extension = codes "csv";
  column_count = none;
}

abbrev scrip : FilePath
scrip = record { parent = codes "in" ∷ []; name = codes "scrip_1.csv" }

abbrev disk : Disk
disk = scrip ∷ []

abbrev task : SegmentBatchTask
task = record {
  folder_date = codes "2026-08-03";
  segment = codes "EQ";
  files = (scrip, codes "NA") ∷ [];
  batch_id = some (codes "b1");
  correlation_id = none;
  mode = upload;
  proceed_slots = [];
  proceed_reason = none;
  process_id = none;
  table1 = none;
  table2 = none;
}

abbrev reservation : ProcessReservation
reservation = record {
  process_id = codes "7";
  is_runnable = true;
  candidates = slot ∷ done_slot ∷ [];
}

-- A client that answers every call.
abbrev env : Env
env = record {
  Server = Unit {0};
  may_begin_upload = λ segment trade_date s. (answer true, s);
  find_existing_process_id = λ segment trade_date s. (answer none, s);
  reserve_process = λ segment trade_date existing s. (answer reservation, s);
  upload_settings = λ upload_id name s.
      (answer (if text_eq upload_id (codes "81") then usable rule else no_pattern (λ _. none)), s);
  expected_name_pattern = λ segment upload_id trade_date s. (answer none, s);
  expected_filename = λ segment upload_id trade_date s. (none, s);
  check_process_exists = λ segment trade_date s. (answer (codes "7"), s);
  upload_file =
      λ path upload_id guid name s. record { reports = (1, 1) ∷ []; reply = answer tt; server = s };
  register_file = λ upload_id guid name process_id trade_date s. (answer tt, s);
  existing_process = λ segment trade_date s. (answer tt, s);
  mark_step_optional = λ process_id step_no s. (answer tt, s);
  confirm_upload = λ segment trade_date s. (answer (codes "OK"), s);
  new_guid = λ s. (codes "g1", s);
  allowlisted = λ segment. [];
  corp_action_segment = codes "CA";
  match_settings = record { validate_columns = false; delimiter = 0 };
  cbos_holiday_check_enforced = true;
  cbos_rewrite_upload_filename_date = true;
  cbos_max_retries = 3;
  content = λ path. end;
}

abbrev empty_table : Table
empty_table = record { rows = []; next_id = 1 }

abbrev batch : Batch
batch = record {
  batch_id = codes "b1";
  segment = codes "EQ";
  trade_date = codes "2026-08-03";
  folder_date = codes "2026-08-03";
  manifest_path = codes "m";
  correlation_id = none;
  status = BatchStatus.queued;
  status_detail = none;
  proceed_slots = none;
  proceed_reason = none;
}

abbrev world : World (Unit {0})
world = record { server = tt; disk = disk; table = empty_table; batches = batch ∷ []; trace = [] }
