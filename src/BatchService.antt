-- ===== src/BatchService.antt =====
-- app/services/batch_service.py over the batches table, the queue and the manifests. `meanwhile` is what
-- other requests commit between the lookup of a batch id and the insert of its row. The dates of the
-- rows are left out.
pub mod Repeat
pub mod Proceed
use edpbilling_file_upload.Base.{
  ℕ, suc, Bool, true, false, not, ◌||◌, Option, none, some, List, [], ◌∷◌, ◌++◌, Text, truthy,
  if◌then◌else◌,
}
use edpbilling_file_upload.Base.Program.{Try, returned, raised, Program, pure, throw, ◌>>=◌, ◌>>◌}
use edpbilling_file_upload.Cbos.Reservation.{ProcessRow, SlotRow}
use edpbilling_file_upload.Audit.{Table, UploadedFile, find_for_batch}
use edpbilling_file_upload.Batches.{
  Batch, BatchStatus, StatusDetail, create, find_by_batch_id, record_proceed,
}
use edpbilling_file_upload.Queue.{
  BatchQueue, Enqueued, added, already_in_flight, queue_full, enqueue,
}
use edpbilling_file_upload.Queue.Task.{SegmentBatchTask, Mode}
use edpbilling_file_upload.Manifest.{
  Intake, ManifestError, ChecksumError, LoadedManifest, load_manifest, verify_checksums, to_task,
  location_text,
}
use edpbilling_file_upload.SafePath.{Location}

-- ManifestError, ChecksumMismatchError, QueueFullError, IntegrityError, UnknownBatchError and
-- ProceedNotAllowedError
pub data ServiceError : Type 0 where
  bad_manifest : ManifestError → ServiceError
  checksum_mismatch : ChecksumError → ServiceError
  no_room integrity_error : ServiceError
  unknown_batch : Text → ServiceError
  proceed_not_allowed : BatchStatus → ServiceError

pub record Store : Type 0 where
  pub batches : List Batch
  pub queue : BatchQueue

pub record IntakeResult : Type 0 where
  pub batch_id : Text
  pub status : BatchStatus
  pub already_known : Bool

-- `process_id`, `table1` and `table2` of the request
pub record Reserved : Type 0 where
  pub process_id : Option Text
  pub table1 : Option (List ProcessRow)
  pub table2 : Option (List SlotRow)

abbrev pub Service : Type 0 → Type 0
Service A = Program Store ServiceError A

-- The row of a manifest.
unfoldable pub new_batch : LoadedManifest → Location → BatchStatus → Option StatusDetail → Batch
unfolding location_text
new_batch m path s detail = record {
  batch_id = m.batch_id;
  segment = m.segment;
  trade_date = m.trade_date;
  folder_date = m.folder_date;
  manifest_path = location_text path;
  correlation_id = m.correlation_id;
  status = s;
  status_detail = detail;
  proceed_slots = none;
  proceed_reason = none;
}

answer_of : Enqueued → Try ServiceError (Unit {0})
answer_of added = returned tt
answer_of already_in_flight = returned tt
answer_of queue_full = raised no_room

-- `queue.enqueue(task)`; a duplicate that is dropped is only logged.
unfoldable pub enqueue_task : SegmentBatchTask → Service (Unit {0})
unfolding enqueue answer_of
enqueue_task task w = let (r, q) = enqueue task w.queue in (answer_of r, record w { queue = q })

unfoldable pub enqueue_checked : LoadedManifest → Reserved → Service (Unit {0})
unfolding enqueue_task to_task
enqueue_checked m r = enqueue_task (to_task m r.process_id r.table1 r.table2)

-- QUEUED or UPLOADING
unfoldable pub is_pending : BatchStatus → Bool
is_pending BatchStatus.queued = true
is_pending BatchStatus.uploading = true
is_pending _ = false

unfoldable pub known_result : Batch → IntakeResult
known_result b = record { batch_id = b.batch_id; status = b.status; already_known = true }

unfoldable pub acknowledge_known : LoadedManifest → Reserved → Batch → Service IntakeResult
unfolding is_pending known_result enqueue_checked pure ◌>>=◌
acknowledge_known m r existing =
    if is_pending existing.status
    then enqueue_checked m r >> pure (known_result existing)
    else pure (known_result existing)

kept_or : Option (List Batch) → List Batch → List Batch
kept_or none batches = batches
kept_or (some new) batches = new

module _ (intake : Intake) (meanwhile : Store → Store) where
  -- A checksum error is recorded, unless another request has recorded the batch.
  unfoldable pub reject : LoadedManifest → Location → ChecksumError → Service IntakeResult
  unfolding create new_batch kept_or
  reject m path e w =
      let w' = meanwhile w in
      let row = new_batch m path BatchStatus.rejected (some StatusDetail.checksum_mismatch) in
      (
        raised (checksum_mismatch e),
        record w' { batches = kept_or (create row w'.batches) w'.batches },
      )

  -- After a lost race, the row of the other request.
  acknowledge_winner : LoadedManifest → Reserved → Option Batch → Service IntakeResult
  unfolding acknowledge_known throw
  acknowledge_winner m r none = throw integrity_error
  acknowledge_winner m r (some existing) = acknowledge_known m r existing

  after_create : LoadedManifest → Reserved → Option (List Batch) → Service IntakeResult
  unfolding acknowledge_winner find_by_batch_id enqueue_checked pure ◌>>=◌
  after_create m r none w = acknowledge_winner m r (find_by_batch_id m.batch_id w.batches) w
  after_create m r (some batches) w =
      (enqueue_checked m r
          >> pure (record {
            batch_id = m.batch_id;
            status = BatchStatus.queued;
            already_known = false;
          }))
        (record w { batches = batches })

  checked : LoadedManifest → Location → Reserved → Option ChecksumError → Service IntakeResult
  unfolding reject after_create create new_batch
  checked m path r (some e) w = reject m path e w
  checked m path r none w =
      let w' = meanwhile w in
      after_create m r (create (new_batch m path BatchStatus.queued none) w'.batches) w'

  known_or_new : LoadedManifest → Location → Reserved → Option Batch → Service IntakeResult
  unfolding checked acknowledge_known verify_checksums
  known_or_new m path r (some existing) = acknowledge_known m r existing
  known_or_new m path r none = checked m path r (verify_checksums intake path m.raw)

  loaded : Location → Reserved → Try ManifestError LoadedManifest → Service IntakeResult
  unfolding known_or_new find_by_batch_id
  loaded path r (raised e) w = (raised (bad_manifest e), w)
  loaded path r (returned m) w = known_or_new m path r (find_by_batch_id m.batch_id w.batches) w

  unfoldable pub submit_manifest : Location → Reserved → Service IntakeResult
  unfolding loaded load_manifest
  submit_manifest manifest_path r = loaded manifest_path r (load_manifest intake manifest_path)

unfoldable pub nothing_reserved : Reserved
nothing_reserved = record { process_id = none; table1 = none; table2 = none }

-- What `rescan` reports: the batch ids that it queued, and how many manifests it skipped.
pub record Rescan : Type 0 where
  pub queued : List Text
  pub skipped : ℕ

with_result : IntakeResult → Rescan → Rescan
with_result r so_far =
    if r.already_known then so_far else record so_far { queued = r.batch_id ∷ so_far.queued }

with_outcome : (Rescan → Rescan) → Try ServiceError Rescan × Store → Try ServiceError Rescan × Store
with_outcome f (returned so_far, w) = (returned (f so_far), w)
with_outcome f (raised e, w) = (raised e, w)

one_skipped : Rescan → Rescan
one_skipped so_far = record so_far { skipped = suc so_far.skipped }

module _ (intake : Intake) (meanwhile : Store → Store) where
  -- One manifest, with the rest of the loop; only two of the errors are caught.
  after_submit :
      Try ServiceError IntakeResult
      → (Store → Try ServiceError Rescan × Store)
      → Store
      → Try ServiceError Rescan × Store
  unfolding with_result with_outcome one_skipped
  after_submit (returned r) rest w = with_outcome (with_result r) (rest w)
  after_submit (raised (bad_manifest e)) rest w = with_outcome one_skipped (rest w)
  after_submit (raised (checksum_mismatch e)) rest w = with_outcome one_skipped (rest w)
  after_submit (raised other) rest w = (raised other, w)

  -- Over the manifests that `find_manifests` lists.
  unfoldable pub rescan : List Location → Service Rescan
  unfolding submit_manifest after_submit nothing_reserved
  rescan [] w = (returned (record { queued = []; skipped = 0 }), w)
  rescan (path ∷ paths) w =
      let (r, w') = submit_manifest intake meanwhile path nothing_reserved w in
      after_submit r (rescan paths) w'

-- What `get_batch_details` reports of a batch.
pub record BatchDetails : Type 0 where
  pub batch : Batch
  pub proceed : Option (List Text × Option Text)
  pub files : List UploadedFile

-- `if batch.proceed_slots`
unfoldable pub proceed_of : Batch → Option (List Text × Option Text)
proceed_of b = elim b.proceed_slots [ none ↦ none | some slots ↦ some (slots, b.proceed_reason) ]

unfoldable pub get_batch_details : Table → Text → Store → Try ServiceError BatchDetails
unfolding find_by_batch_id find_for_batch proceed_of
get_batch_details table batch_id w = elim (find_by_batch_id batch_id w.batches) [
  | none ↦ raised (unknown_batch batch_id)
  | some b ↦ returned (record {
    batch = b;
    proceed = proceed_of b;
    files = find_for_batch b.batch_id b.folder_date b.segment table;
  })
]

unfoldable pub proceed_task : Batch → List Text → Text → SegmentBatchTask
proceed_task b slots reason = record {
  folder_date = b.folder_date;
  segment = b.segment;
  files = [];
  batch_id = some b.batch_id;
  correlation_id = b.correlation_id;
  mode = Mode.proceed;
  proceed_slots = slots;
  proceed_reason = some reason;
  process_id = none;
  table1 = none;
  table2 = none;
}

unfoldable pub is_incomplete : BatchStatus → Bool
is_incomplete BatchStatus.incomplete = true
is_incomplete _ = false

-- From the row that was found on; the batch id and the slots are answered.
unfoldable pub proceed_on : Option Batch → Text → List Text → Text → Service (Text × List Text)
unfolding is_incomplete proceed_task enqueue_task record_proceed pure ◌>>=◌
proceed_on none batch_id slots reason w = (raised (unknown_batch batch_id), w)
proceed_on (some b) batch_id slots reason w =
    if is_incomplete b.status
    then (enqueue_task (proceed_task b slots reason) >> pure (batch_id, slots))
        (record w { batches = record_proceed b.batch_id slots reason w.batches })
    else (raised (proceed_not_allowed b.status), w)

unfoldable pub request_proceed : Text → List Text → Text → Service (Text × List Text)
unfolding proceed_on find_by_batch_id
request_proceed batch_id slots reason w =
    proceed_on (find_by_batch_id batch_id w.batches) batch_id slots reason w
