-- ===== src/Lane/Transfer.antt =====
-- upload_service.py, `_process_batch`: what happens to each file. Step 5 for every file comes first,
-- then Step 7 for every file that was sent.
pub mod Sending
pub mod Registering
pub mod Skipping
use edpbilling_file_upload.Base.{
  ℕ, zero, suc, ◌+◌, ◌%◌, ◌&&◌, ◌||◌, Bool, true, false, not, Option, none, some, List, [], ◌∷◌,
  ◌++◌, length, Text, codes, text_eq, ◌==◌, if◌then◌else◌, find,
}
use mathlib.Core.List.{reverse}
use edpbilling_file_upload.Cbos.Reservation.{UploadCandidate, ProcessReservation, already_in_cbos}
use edpbilling_file_upload.Cbos.Rule.{UploadRule}
use edpbilling_file_upload.Files.{FilePath}
use edpbilling_file_upload.Matching.{Match, matched, rejected, match_file}
use edpbilling_file_upload.Outcome
use edpbilling_file_upload.Outcome.{FileOutcome, idempotent_skip}
use edpbilling_file_upload.Audit.{
  UploadedFile, LogEntry, skip_by_cbos, skip_by_row, chunks_sent, entry_created, call_error,
  filename_date_rewritten, find_completed,
}
use edpbilling_file_upload.UploadName.{Expected, Rewritten, resolve_upload_name}
use edpbilling_file_upload.Batches.{BatchStatus, progress}
use edpbilling_file_upload.Queue.Task.{SegmentBatchTask}
use edpbilling_file_upload.Lane.Client.{Env, Reply, Transfer}
use edpbilling_file_upload.Lane.Action.{
  Action, World, get_expected_filename, save_chunks, save_upload_file, pure, gets, perform,
  catch_cbos, ◌>>=◌, ◌>>◌,
}
use edpbilling_file_upload.Lane.Records.{
  set_batch_status, update_record, open_record, apply_outcome,
}

-- An entry of `pending_registration`: Step 5 is done and Step 7 is not.
pub record Pending : Type 0 where
  pub id : ℕ
  pub file_path : FilePath
  pub upload_id : Text
  pub guid : Text
  pub request_log : List LogEntry
  pub send_name : Text

-- An entry of `uploaded_candidates`.
pub record Uploaded : Type 0 where
  pub id : ℕ
  pub file_path : FilePath
  pub request_log : List LogEntry

-- `pending_registration` and `filled_upload_ids` after the loop over the files.
pub record Sent : Type 0 where
  pub pending : List Pending
  pub filled : List Text

-- What became of one file of the loop.
pub data Handled : Type 0 where
  dropped : Handled
  already_filled : Text → Handled
  sent : Pending → Handled

note_handled : Handled → Sent → Sent
note_handled dropped s = s
note_handled (already_filled upload_id) s = record s { filled = upload_id ∷ s.filled }
note_handled (sent p) s = record s { pending = p ∷ s.pending }

-- `candidates_by_upload_id.get(upload_id)`: of two candidates with one UploadID the later wins.
unfoldable pub candidate_for : Text → List UploadCandidate → Option UploadCandidate
candidate_for upload_id candidates = find (λ c. text_eq c.upload_id upload_id) (reverse candidates)

-- The slot's STATUS, if CBOS reports the slot as done.
done_status : Option UploadCandidate → Option (Option Text)
done_status none = none
done_status (some c) = if already_in_cbos c then some c.status else none

-- `None if exchange == NO_EXCHANGE else exchange`
pub match_exchange : Text → Option Text
match_exchange exchange = if text_eq exchange (codes "NA") then none else some exchange

-- The name that CBOS is told, with the entry of `request_log` on a rewriting.
noted : Text × Option Rewritten → Text × Option LogEntry
noted (name, none) = (name, none)
noted (name, some why) = (name, some (filename_date_rewritten why))

with_note : Option LogEntry → List LogEntry
with_note none = []
with_note (some note) = note ∷ []

module _ (env : Env) where
  open env use {Server}

  -- The callback of Step 5 for one report: every tenth chunk and the last one are recorded.
  emit_progress : SegmentBatchTask → ℕ → ℕ → Text → ℕ × ℕ → Action Server (Unit {0})
  emit_progress task files_done files_total name (done, total) =
      if done == total || done % 10 == 0
      then set_batch_status task BatchStatus.uploading
          (progress files_done files_total name done total)
      else pure tt

  emit_all : SegmentBatchTask → ℕ → ℕ → Text → List (ℕ × ℕ) → Action Server (Unit {0})
  unfolding emit_progress
  emit_all task files_done files_total name [] = pure tt
  emit_all task files_done files_total name (report ∷ reports) = do
    emit_progress task files_done files_total name report
    emit_all task files_done files_total name reports

  -- Step 5 as a call: the reports and how it ended, whether it raised or not.
  call_chunks :
      FilePath → Text → Text → Text → Server → Reply (List (ℕ × ℕ) × Reply (Unit {0})) × Server
  call_chunks path upload_id guid name s =
      let t = env.upload_file path upload_id guid name s in
      (Reply.answer (t.reports, t.reply), t.server)

  -- Ends as the call did.
  ended_as : Reply (Unit {0}) → Action Server (Unit {0})
  ended_as r w = (r, w)

  fresh_guid : Action Server Text
  fresh_guid w =
      let (guid, s) = env.new_guid w.server in (Reply.answer guid, record w { server = s })

  -- Step 40 within its `try`: it always answers.
  expected : Text → Text → Text → Server → Reply (Option Expected) × Server
  expected segment upload_id trade_date s =
      let (e, s') = env.expected_filename segment upload_id trade_date s in (Reply.answer e, s')

  -- `resolve_upload_name`, which returns before its call where the setting is off
  resolve_name : SegmentBatchTask → Text → Text → Action Server (Text × Option LogEntry)
  unfolding expected noted
  resolve_name task upload_id name =
      if env.cbos_rewrite_upload_filename_date
      then (do
        e ←
            perform (get_expected_filename task.segment upload_id task.folder_date)
              (expected task.segment upload_id task.folder_date)
        pure (noted (resolve_upload_name true e upload_id name task.folder_date)))
      else pure (name, none)

  -- Step 5 of one file, with the progress that it reports.
  send_chunks : SegmentBatchTask → ℕ → ℕ → FilePath → Text → Text → Text → Action Server (Unit {0})
  unfolding call_chunks emit_all ended_as
  send_chunks task files_done files_total path upload_id guid name = do
    transfer ← perform (save_chunks upload_id guid name) (call_chunks path upload_id guid name)
    emit_all task files_done files_total path.name transfer.0
    ended_as transfer.1

  -- Step 5 within its `try`, under the name that was resolved and with the note on that.
  try_send :
      SegmentBatchTask
      → ℕ
      → ℕ
      → ℕ
      → FilePath
      → UploadRule
      → Text
      → Text × Option LogEntry
      → Action Server Handled
  unfolding send_chunks with_note
  try_send task files_done files_total id path rule guid (name, why) =
      catch_cbos
        (do
          send_chunks task files_done files_total path rule.upload_id guid name
          pure (
              sent (record {
                id = id;
                file_path = path;
                upload_id = rule.upload_id;
                guid = guid;
                request_log = with_note why ++ (chunks_sent rule.upload_id guid ∷ []);
                send_name = name;
              })))
        (λ e. do
          apply_outcome id path (Outcome.failed e) (some (with_note why ++ (call_error e ∷ [])))
          pure dropped)

  -- A matched file that is not in CBOS yet.
  send_file : SegmentBatchTask → ℕ → ℕ → ℕ → FilePath → UploadRule → Action Server Handled
  unfolding fresh_guid resolve_name try_send
  send_file task files_done files_total id path rule = do
    guid ← fresh_guid
    update_record id (λ r. record r { guid = some guid })
    named ← resolve_name task rule.upload_id path.name
    try_send task files_done files_total id path rule guid named

  -- A file that reached CBOS before is only moved.
  skip_file : ℕ → FilePath → Text → LogEntry → Action Server Handled
  skip_file id path upload_id why = do
    apply_outcome id path idempotent_skip (some (why ∷ []))
    pure (already_filled upload_id)

  send_or_skip :
      SegmentBatchTask
      → ℕ
      → ℕ
      → ℕ
      → FilePath
      → UploadRule
      → Option (Option Text)
      → Option UploadedFile
      → Action Server Handled
  unfolding send_file skip_file
  send_or_skip task files_done files_total id path rule (some status) completed =
      skip_file id path rule.upload_id (skip_by_cbos status)
  send_or_skip task files_done files_total id path rule none (some row) =
      skip_file id path rule.upload_id skip_by_row
  send_or_skip task files_done files_total id path rule none none =
      send_file task files_done files_total id path rule

  on_match :
      SegmentBatchTask → ProcessReservation → ℕ → ℕ → ℕ → FilePath → Match → Action Server Handled
  unfolding send_or_skip done_status
  on_match task reservation files_done files_total id path (rejected why) = do
    apply_outcome id path (Outcome.rejected why) none
    pure dropped
  on_match task reservation files_done files_total id path (matched rule) = do
    update_record id (λ r. record r {
      cbos_upload_id = some rule.upload_id;
      process_id = some reservation.process_id;
    })
    completed ←
        gets (λ w. find_completed task.segment task.folder_date rule.upload_id path.name w.table)
    send_or_skip task files_done files_total id path rule
        (done_status (candidate_for rule.upload_id reservation.candidates)) completed

  -- One round of the loop over the files.
  pub process_file :
      SegmentBatchTask
      → ProcessReservation
      → List UploadRule
      → ℕ
      → ℕ
      → FilePath
      → Text
      → Action Server Handled
  unfolding on_match match_exchange
  process_file task reservation rules files_done files_total path exchange = do
    id ← open_record task path exchange
    on_match task reservation files_done files_total id path
        (match_file env.match_settings path.name (env.content path) rules (match_exchange exchange))

  -- The loop over the files, from the number of those done.
  unfoldable pub send_files :
      SegmentBatchTask
      → ProcessReservation
      → List UploadRule
      → ℕ
      → ℕ
      → List (FilePath × Text)
      → Action Server Sent
  unfolding process_file note_handled
  send_files task reservation rules files_done files_total [] =
      pure (record { pending = []; filled = [] })
  send_files task reservation rules files_done files_total ((path, exchange) ∷ files) = do
    handled ← process_file task reservation rules files_done files_total path exchange
    rest ← send_files task reservation rules (suc files_done) files_total files
    pure (note_handled handled rest)

  -- Step 7 of one file: its entry of `uploaded_candidates` if it was registered.
  register : SegmentBatchTask → Text → Pending → Action Server (Option Uploaded)
  register task process_id p =
      catch_cbos
        (do
          perform (save_upload_file p.upload_id p.guid p.send_name process_id task.folder_date)
              (env.register_file p.upload_id p.guid p.send_name process_id task.folder_date)
          pure (
              some (record {
                id = p.id;
                file_path = p.file_path;
                request_log = p.request_log ++ (entry_created p.upload_id ∷ []);
              })))
        (λ e. do
          apply_outcome p.id p.file_path (Outcome.failed e)
              (some (p.request_log ++ (call_error e ∷ [])))
          pure none)

  note_registered : Text → Option Uploaded → List Uploaded × List Text → List Uploaded × List Text
  note_registered upload_id none acc = acc
  note_registered upload_id (some u) (uploaded, filled) = (u ∷ uploaded, upload_id ∷ filled)

  -- The loop over `pending_registration`: what was uploaded, and the UploadIDs that this fills.
  unfoldable pub register_files :
      SegmentBatchTask → Text → List Pending → Action Server (List Uploaded × List Text)
  unfolding register note_registered
  register_files task process_id [] = pure ([], [])
  register_files task process_id (p ∷ pending) = do
    done ← register task process_id p
    rest ← register_files task process_id pending
    pure (note_registered p.upload_id done rest)
