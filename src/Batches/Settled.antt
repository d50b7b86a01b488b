-- ===== src/Batches/Settled.antt =====
-- app/repositories/batch_repository.py, `set_status`: the status of a batch once it is set.
use edpbilling_file_upload.Base.{
  ap, arith, ◌≡◌, ◌≢◌, Option, some, List, [], ◌∷◌, Text, Bool-cases, inl, inr,
}
use edpbilling_file_upload.Batches.{
  Batch, BatchStatus, StatusDetail, uploading, has_id, find_by_batch_id, set_status, record_proceed,
  change,
}

-- The batch is not left at `uploading`.
abbrev pub IsSettled : Text → List Batch → Type 0
IsSettled batch_id bs = (b : Batch) → find_by_batch_id batch_id bs ≡ some b → b.status ≢ uploading

-- After `set_status`, the row that is found by the batch id has the status that was set.
pub find_by_batch_id-set_status :
    (batch_id : Text) (status : BatchStatus) (detail : Option StatusDetail) (bs : List Batch)
    (b : Batch)
    → find_by_batch_id batch_id (set_status batch_id status detail bs) ≡ some b
    → b.status ≡ status
unfolding find_by_batch_id set_status change
find_by_batch_id-set_status batch_id status detail [] b h = cc
find_by_batch_id-set_status batch_id status detail (x ∷ bs) b h =
    elim (Bool-cases (has_id batch_id x)) [
      | inl e ↦ ground (arith, e)
      | inr e ↦ find_by_batch_id-set_status batch_id status detail bs b (ground (arith, e))
    ]

-- The row that is found after `record_proceed` is the one that was found before, with the decision.
pub find_by_batch_id-record_proceed :
    (batch_id : Text) (slots : List Text) (reason : Text) (bs : List Batch) (b : Batch)
    → find_by_batch_id batch_id bs ≡ some b
    → find_by_batch_id batch_id (record_proceed batch_id slots reason bs)
      ≡ some (record b { proceed_slots = some slots; proceed_reason = some reason })
unfolding find_by_batch_id record_proceed change
find_by_batch_id-record_proceed batch_id slots reason [] b h = cc
find_by_batch_id-record_proceed batch_id slots reason (x ∷ bs) b h =
    elim (Bool-cases (has_id batch_id x)) [
      | inl e ↦
          let same : x ≡ b = ground (arith, e) in
          rw (e, e)
            (ap {A = Batch}
              (λ y. some (record y { proceed_slots = some slots; proceed_reason = some reason }))
              same)
      | inr e ↦
          rw (e, e) (find_by_batch_id-record_proceed batch_id slots reason bs b (ground (arith, e)))
    ]
