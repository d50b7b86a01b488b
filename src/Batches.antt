-- ===== src/Batches.antt =====
-- app/repositories/batch_repository.py over app/models/batch.py: the batches table. `BatchStatus`
-- has the members of edpb_core.batch_api that the program names. The timestamps are left out.
pub mod Settled
use edpbilling_file_upload.Base.{
  ℕ, ◌≡◌, Bool, Option, none, some, List, [], ◌∷◌, ◌++◌, find, map, any, Text, text_eq,
  if◌then◌else◌, or_default, is_some,
}
use edpbilling_file_upload.Cbos.Reservation.{CbosError, UploadCandidate}

pub data BatchStatus : Type 0 where
  queued uploading confirmed unconfirmed incomplete failed rejected : BatchStatus

-- `status_detail`, by the place that writes it.
pub data StatusDetail : Type 0 where
  superseded deferred_holiday nothing_uploaded no_process checksum_mismatch crashed : StatusDetail
  -- files_done, files_total
  started : ℕ → ℕ → StatusDetail
  -- files_done, files_total, current_file, chunks_done, total_chunks
  progress : ℕ → ℕ → Text → ℕ → ℕ → StatusDetail
  deferred_not_runnable : Text → StatusDetail
  invalid_reservation setup_exhausted refetch_failed : CbosError → StatusDetail
  missing_slots : List UploadCandidate → StatusDetail
  not_unfilled : List Text → List Text → StatusDetail
  still_missing : List UploadCandidate → List Text → StatusDetail
  -- files_in_cbos, FILEUPLOAD's reading, poll_failed
  upload_complete : ℕ → Text → Bool → StatusDetail
  -- proceed_slots, FILEUPLOAD's reading, poll_failed; files_in_cbos is 0
  proceed_complete : List Text → Text → Bool → StatusDetail

pub record Batch : Type 0 where
  pub batch_id : Text
  pub segment : Text
  pub trade_date : Text
  pub folder_date : Text
  pub manifest_path : Text
  pub correlation_id : Option Text
  pub status : BatchStatus
  pub status_detail : Option StatusDetail
  pub proceed_slots : Option (List Text)
  pub proceed_reason : Option Text

abbrev pub has_id : Text → Batch → Bool
has_id batch_id b = text_eq b.batch_id batch_id

unfoldable pub find_by_batch_id : Text → List Batch → Option Batch
find_by_batch_id batch_id batches = find (has_id batch_id) batches

-- `create`; `none` is the IntegrityError of uq_batches_batch_id.
unfoldable pub create : Batch → List Batch → Option (List Batch)
create b batches = if any (has_id b.batch_id) batches then none else some (batches ++ (b ∷ []))

change : Text → (Batch → Batch) → List Batch → List Batch
change batch_id f = map (λ b. if has_id batch_id b then f b else b)

-- A detail that is given replaces the old one.
new_detail : Option StatusDetail → Option StatusDetail → Option StatusDetail
new_detail none old = old
new_detail (some d) old = some d

-- `set_status` on the row of that batch id
unfoldable pub set_status : Text → BatchStatus → Option StatusDetail → List Batch → List Batch
unfolding change new_detail
set_status batch_id status detail =
    change batch_id
      (λ b. record b { status = status; status_detail = new_detail detail b.status_detail })

unfoldable pub record_proceed : Text → List Text → Text → List Batch → List Batch
unfolding change
record_proceed batch_id slots reason =
    change batch_id (λ b. record b { proceed_slots = some slots; proceed_reason = some reason })
