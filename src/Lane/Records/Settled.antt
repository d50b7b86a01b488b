-- ===== src/Lane/Records/Settled.antt =====
-- upload_service.py, `_set_batch_status`: what it leaves in the batches table.
use mathlib.Core.Option.{some_inj}
use edpbilling_file_upload.Base.{◌≡◌, ◌≢◌, sym, ◌∙◌, subst, Option, none, some, List, [], ◌∷◌, Text}
use edpbilling_file_upload.Batches.{Batch, BatchStatus, StatusDetail, uploading}
use edpbilling_file_upload.Batches.Settled.{IsSettled, find_by_batch_id-set_status}
use edpbilling_file_upload.Queue.Task.{SegmentBatchTask}
use edpbilling_file_upload.Lane.Action.{modify}
use edpbilling_file_upload.Lane.Outcomes.{Ensures}
use edpbilling_file_upload.Lane.Records.{recorded, set_batch_status}

-- The task is that of a submitted batch.
pub record IsFor (task : SegmentBatchTask) (id : Text) : Type 0 where
  pub id_of : task.batch_id ≡ some id
  pub nonempty : id ≢ []

recorded-IsSettled :
    (o : Option Text) (id : Text) (status : BatchStatus) (detail : StatusDetail) (bs : List Batch)
    → o ≡ some id
    → id ≢ []
    → status ≢ uploading
    → IsSettled id (recorded o status detail bs)
unfolding recorded
recorded-IsSettled none id status detail bs e n h = cc
recorded-IsSettled (some []) id status detail bs e n h = absurd (n (sym (some_inj.0 e)))
recorded-IsSettled (some (c ∷ t)) id status detail bs e n h =
    subst (λ i. IsSettled i (recorded (some (c ∷ t)) status detail bs)) (some_inj.0 e)
      (λ b f same. h (sym (find_by_batch_id-set_status (c ∷ t) status (some detail) bs b f) ∙ same))

pub set_batch_status-Ensures :
    {Server : Type 0} {P : List Batch → Type 0} (task : SegmentBatchTask) (id : Text)
    → IsFor task id
    → (status : BatchStatus) (detail : StatusDetail) → status ≢ uploading
    → Ensures P (set_batch_status {Server = Server} task status detail) (λ _ bs. IsSettled id bs)
unfolding set_batch_status modify
set_batch_status-Ensures task id named status detail h = record {
  run = λ w p.
      recorded-IsSettled task.batch_id id status detail w.batches named.id_of named.nonempty h;
}
