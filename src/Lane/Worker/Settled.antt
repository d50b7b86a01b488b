-- ===== src/Lane/Worker/Settled.antt =====
-- app/workers/upload_worker.py, `run`: the batch's row once the worker is done with it.
use edpbilling_file_upload.Base.{◌≡◌, ◌≢◌, refl, some, Text, ◌⊎◌, inl, inr}
use edpbilling_file_upload.Batches.{Batch, find_by_batch_id, uploading}
use edpbilling_file_upload.Batches.Settled.{IsSettled}
use edpbilling_file_upload.Queue.Task.{SegmentBatchTask}
use edpbilling_file_upload.Lane.Client.{Env, Failure, Reply, answer, raise}
use edpbilling_file_upload.Lane.Action.{World}
use edpbilling_file_upload.Lane.Outcomes.{OnAnswer}
use edpbilling_file_upload.Lane.Records.Settled.{IsFor}
use edpbilling_file_upload.Lane.Batch.{process_batch}
use edpbilling_file_upload.Lane.Batch.Settled.{process_batch-Ensures, mark_batch_failed-IsSettled}
use edpbilling_file_upload.Lane.Worker.{Database, mark_or_log, record_crash, process_one}

-- The processing raised, and the write of that to the batch's row raised too, so that all is left as
-- it was when the processing raised.
abbrev pub IsUnrecorded :
    (env : Env) → Database env.Server → SegmentBatchTask → World env.Server → Type 0
IsUnrecorded env database task w =
    (e : Failure) × (d : Failure) × ((process_batch env task w).0 ≡ raise e)
    × (database (process_batch env task w).1 ≡ raise d)
    × (process_one env database task w ≡ (process_batch env task w).1)

-- Once the worker is done with the task of a submitted batch, whether the processing returned or
-- raised, the row that is found by the batch's id does not have the status `uploading`, unless the
-- processing raised and the database refused to record that.
pub process_one-settles :
    (env : Env) (database : Database env.Server) (task : SegmentBatchTask) (id : Text)
    (w : World env.Server) (b : Batch)
    → IsFor task id
    → find_by_batch_id id (process_one env database task w).batches ≡ some b
    → (b.status ≢ uploading) ⊎ IsUnrecorded env database task w
unfolding process_one record_crash mark_or_log
process_one-settles env database task id w b named found =
    go (process_batch env task w) ((process_batch-Ensures env task id named).run w tt)
      (database (process_batch env task w).1) found
  where
    Unrecorded : Reply (Unit {0}) × World env.Server → Reply (Unit {0}) → Type 0
    Unrecorded x r =
        (e : Failure) × (d : Failure) × (x.0 ≡ raise e)
        × (r ≡ raise d)
        × (record_crash task x r ≡ x.1)

    go :
        (x : Reply (Unit {0}) × World env.Server)
        → OnAnswer (λ _ bs. IsSettled id bs) x.0 x.1.batches
        → (r : Reply (Unit {0})) → find_by_batch_id id (record_crash task x r).batches ≡ some b
        → (b.status ≢ uploading) ⊎ Unrecorded x r
    go (answer _, w') h r f = inl (h b f)
    go (raise e, w') h (answer _) f = inl (mark_batch_failed-IsSettled task id named w' b f)
    go (raise e, w') h (raise d) f = inr (e, d, refl, refl, refl)
