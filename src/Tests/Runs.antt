-- ===== src/Tests/Runs.antt =====
-- A whole batch on a client that answers everything, and the parts of the run.
use edpbilling_file_upload.Base.{
  ◌⊎◌, ◌≡◌, ◌≢◌, refl, false, some, List, [], ◌∷◌, codes, ◌⊎◌, ℕ, zero, suc, length, join, max, ◌*◌,
  ◌++◌,
}
use edpbilling_file_upload.Cbos.Reservation.{no_candidates}
use edpbilling_file_upload.Batches.{
  Batch, BatchStatus, find_by_batch_id, uploading, upload_complete,
}
use edpbilling_file_upload.Lane.Action.{World, Call}
use edpbilling_file_upload.Lane.Runs.{Runs}
use edpbilling_file_upload.Lane.Calls.{Yields, Makes, Only}
use edpbilling_file_upload.Lane.Finish.{run_reservation, conclude}
use edpbilling_file_upload.Lane.Finish.Order.{IsOrdered, run_reservation-IsOrdered}
use edpbilling_file_upload.Lane.Batch.{upload_batch, proceed_batch}
use edpbilling_file_upload.Lane.Batch.Phases.{IsPhased, upload_batch-IsPhased}
use edpbilling_file_upload.Lane.Worker.{Database, process_one}
use edpbilling_file_upload.Lane.Worker.Settled.{IsUnrecorded, process_one-settles}
use edpbilling_file_upload.Lane.Transfer.{send_files, register_files, Pending}
use edpbilling_file_upload.Lane.Setup.{set_up}
use edpbilling_file_upload.Lane.Finish.Marking.{Closes, conclude-Makes}
use edpbilling_file_upload.Lane.Transfer.Sending.{IsSending, AllPosted, send_files-Yields}
use edpbilling_file_upload.Lane.Transfer.Registering.{Registers, AllEntered, register_files-Yields}
use edpbilling_file_upload.Lane.Setup.Reserving.{IsReserving, set_up-Makes}
use edpbilling_file_upload.Tests.{lane_ops, rule, scrip, task, reservation, env, batch, world}
use edpbilling_file_upload.Lane.Batch.Proceeding.{Proceeds, proceed_batch-Runs}
use edpbilling_file_upload.Queue.Task.{SegmentBatchTask, Mode}
use edpbilling_file_upload.Lane.Chunks.{upload_file}
use edpbilling_file_upload.Lane.Chunks.Complete.{
  recording, enumerate, AllWithin, counted, upload_file-Completes,
}
use edpbilling_file_upload.Lane.Client.{Reply, Failure, answer}

-- The whole batch: Step 5 comes before Step 7, and the batch is confirmed.
abbrev calls_of : World (Unit {0}) → List Call
calls_of w = w.trace

upload_batch_trace :
    calls_of (upload_batch env task world).1
    ≡ Call.begin_file_upload (codes "EQ") (codes "2026-08-03")
      ∷ Call.get_existing_process (codes "EQ") (codes "2026-08-03")
      ∷ Call.get_new_trade_process (codes "EQ") (codes "2026-08-03") (codes "0")
      ∷ Call.get_upload_settings (codes "81")
      ∷ Call.get_upload_settings (codes "82")
      ∷ Call.get_expected_filename (codes "EQ") (codes "82") (codes "2026-08-03")
      ∷ Call.check_process_id (codes "EQ") (codes "2026-08-03")
      ∷ Call.get_expected_filename (codes "EQ") (codes "81") (codes "2026-08-03")
      ∷ Call.save_chunks (codes "81") (codes "g1") (codes "scrip_1.csv")
      ∷ Call.save_upload_file
          (codes "81")
          (codes "g1")
          (codes "scrip_1.csv")
          (codes "7")
          (codes "2026-08-03")
      ∷ Call.get_existing_process (codes "EQ") (codes "2026-08-03")
      ∷ Call.file_upload_status (codes "EQ") (codes "2026-08-03")
      ∷ []
unfolding lane_ops
upload_batch_trace = refl

upload_batch-IsPhased_example : Runs world (upload_batch env task) (IsPhased env task world)
upload_batch-IsPhased_example = upload_batch-IsPhased env task world

run_reservation-IsOrdered_example :
    Runs world
      (run_reservation env task task.files reservation (rule ∷ []))
      (IsOrdered env task reservation task.files (rule ∷ []) world)
run_reservation-IsOrdered_example =
    run_reservation-IsOrdered env task reservation task.files (rule ∷ []) world

abbrev pub done_batch : Batch
done_batch = record batch {
  status = BatchStatus.confirmed;
  status_detail = some (upload_complete 1 (codes "OK") false);
}

abbrev reliable : Database (Unit {0})
reliable = λ w. answer tt

worker_confirms :
    find_by_batch_id (codes "b1") (process_one env reliable task world).batches ≡ some done_batch
unfolding lane_ops
worker_confirms = refl

process_one-settles_example : (done_batch.status ≢ uploading) ⊎ IsUnrecorded env reliable task world
process_one-settles_example =
    process_one-settles env reliable task (codes "b1") world done_batch
      (record { id_of = refl; nonempty = λ e. cc }) worker_confirms

conclude-Makes_example : Makes (Closes env task reservation (codes "81" ∷ [])) (
    conclude env task reservation
      ((record { id = 1; file_path = scrip; request_log = [] }) ∷ [])
      (codes "81" ∷ []))
conclude-Makes_example =
    conclude-Makes env task reservation
      ((record { id = 1; file_path = scrip; request_log = [] }) ∷ []) (codes "81" ∷ [])

send_files-Yields_example :
    Yields
      (send_files env task reservation (rule ∷ []) 0 1 task.files)
      (λ new r. Only IsSending new × AllPosted r new)
send_files-Yields_example = send_files-Yields env task reservation (rule ∷ []) 0 1 task.files

abbrev pending : Pending
pending = record {
  id = 1;
  file_path = scrip;
  upload_id = codes "81";
  guid = codes "g1";
  request_log = [];
  send_name = codes "scrip_1.csv";
}

register_files-Yields_example :
    Yields (register_files env task (codes "7") (pending ∷ [])) (λ new r.
      Only (Registers (codes "7") (codes "2026-08-03") (pending ∷ [])) new
      × AllEntered (codes "7") (codes "2026-08-03") r new)
register_files-Yields_example = register_files-Yields env task (codes "7") (pending ∷ [])

set_up-Makes_example : Makes IsReserving (set_up env task task.files)
set_up-Makes_example = set_up-Makes env task task.files

-- The operators name the one slot that is unfilled.
abbrev proceed_task : SegmentBatchTask
proceed_task = record task { mode = Mode.proceed; proceed_slots = codes "81" ∷ [] }

proceed_batch-Runs_example :
    Runs world (proceed_batch env proceed_task) (Only (Proceeds env proceed_task world))
proceed_batch-Runs_example = proceed_batch-Runs env proceed_task world

-- The first attempt fails, the later ones go through.
abbrev flaky : List ℕ → ℕ → ℕ → ℕ → Reply (Unit {0}) × ℕ
flaky bytes current_chunk total zero = (Reply.raise (Failure.cbos no_candidates), 1)
flaky bytes current_chunk total (suc n) = (answer tt, suc n)

second_attempt : (upload_file (recording flaky) 1 3 (7 ∷ 8 ∷ 9 ∷ []) (0, [])).reply ≡ answer tt
unfolding upload_file recording
second_attempt = refl

upload_file-Completes_example :
    (chunks : List (List ℕ)) × ((upload_file
        (recording flaky)
        1
        3
        (7 ∷ 8 ∷ 9 ∷ [])
        (0, [])).server.1
      ≡ [] ++ enumerate 0 chunks)
    × (join chunks ≡ 7 ∷ 8 ∷ 9 ∷ [])
    × AllWithin (max 1 1 * 1024) chunks
    × ((upload_file (recording flaky) 1 3 (7 ∷ 8 ∷ 9 ∷ []) (0, [])).reports
        ≡ counted (length chunks) 0 chunks)
upload_file-Completes_example = upload_file-Completes flaky 1 3 (7 ∷ 8 ∷ 9 ∷ []) 0 [] second_attempt
