-- ===== src/Lane/Worker.antt =====
-- app/workers/upload_worker.py, `run`: what the worker does with one batch that it took. Its
-- `finally` is the steps `completes` and `releases` of the queue.
pub mod Settled
use edpbilling_file_upload.Queue.Task.{SegmentBatchTask}
use edpbilling_file_upload.Lane.Client.{Env, Reply, answer, raise}
use edpbilling_file_upload.Lane.Action.{World}
use edpbilling_file_upload.Lane.Batch.{mark_batch_failed, process_batch}

-- What the database answers when `mark_batch_failed` writes.
abbrev pub Database : Type 0 → Type 0
Database Server = World Server → Reply (Unit {0})

-- The inner `try`: a write that raises is logged, and the row stays as it is.
mark_or_log : {Server : Type 0} → SegmentBatchTask → Reply (Unit {0}) → World Server → World Server
mark_or_log task (answer _) w = (mark_batch_failed task w).1
mark_or_log task (raise _) w = w

-- `except Exception`, with what the database would answer to the write
record_crash :
    {Server : Type 0}
    → SegmentBatchTask
    → Reply (Unit {0}) × World Server
    → Reply (Unit {0})
    → World Server
unfolding mark_or_log
record_crash task (answer _, w) written = w
record_crash task (raise _, w) written = mark_or_log task written w

unfoldable pub process_one :
    (env : Env) → Database env.Server → SegmentBatchTask → World env.Server → World env.Server
unfolding record_crash
process_one env database task w =
    let done = process_batch env task w in record_crash task done (database done.1)
