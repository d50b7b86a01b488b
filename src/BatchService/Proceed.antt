-- ===== src/BatchService/Proceed.antt =====
-- app/services/batch_service.py, `request_proceed`: what an accepted force-proceed has done.
use edpbilling_file_upload.Base.{◌≡◌, true, some, List, Text}
use edpbilling_file_upload.Batches.{Batch, find_by_batch_id}
use edpbilling_file_upload.Queue.InFlight.{IsAccepted}
use edpbilling_file_upload.BatchService.{Store, is_incomplete, proceed_task}

-- The batch was incomplete, its row carries the decision and has the status that it had, and the
-- proceed task was accepted by the queue.
abbrev pub IsProceeding : Text → List Text → Text → Store → Store → Type 0
IsProceeding batch_id slots reason w w' =
    (b : Batch) × (find_by_batch_id batch_id w.batches ≡ some b)
    × (is_incomplete b.status ≡ true)
    × (find_by_batch_id batch_id w'.batches
        ≡ some (record b { proceed_slots = some slots; proceed_reason = some reason }))
    × IsAccepted (proceed_task b slots reason) w.queue w'.queue
