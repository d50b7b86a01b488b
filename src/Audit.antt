-- ===== src/Audit.antt =====
-- app/repositories/uploaded_file_repository.py over app/models/uploaded_file.py: the audit table.
-- A row names its file by a path on disk, or by the marker that `claim_file_path` retires it with.
-- `none` stands for the IntegrityError that the UNIQUE constraint on file_path raises. The columns
-- of text that are only written, and `uploaded_at` but for its presence, are left out.
pub mod Claims
use edpbilling_file_upload.UploadName.{Rewritten}
use edpbilling_file_upload.Base.{
  ℕ, suc, ◌&&◌, Bool, true, false, not, Option, none, some, List, [], ◌∷◌, ◌++◌, any, find, filter,
  map, Text, text_eq, ◌==◌, if◌then◌else◌, truthy, is_some,
}
use edpbilling_file_upload.Cbos.Reservation.{CbosError}
use edpbilling_file_upload.Files.{FilePath, path_eq}
use edpbilling_file_upload.Matching.{FileRejected}
use edpbilling_file_upload.Outcome.{Response}
use edpbilling_file_upload.Outcome.Kinds.{FileStatus, pending, uploaded}

pub data Location : Type 0 where
  at : FilePath → Location
  -- the path, and the id of the row that took it over
  superseded : FilePath → ℕ → Location

unfoldable pub location_eq : Location → Location → Bool
location_eq (at p) (at q) = path_eq p q
location_eq (superseded p i) (superseded q j) = path_eq p q && i == j
location_eq (at _) (superseded _ _) = false
location_eq (superseded _ _) (at _) = false

-- The entries of `request_log`.
pub data LogEntry : Type 0 where
  setup_error call_error : CbosError → LogEntry
  -- STATUS of a slot that CBOS reports as done, or none for a row that was found
  skip_by_cbos : Option Text → LogEntry
  skip_by_row : LogEntry
  filename_date_rewritten : Rewritten → LogEntry
  chunks_sent : Text → Text → LogEntry
  entry_created : Text → LogEntry
  gate_incomplete : List Text → LogEntry
  process_status : Text → LogEntry

pub record UploadedFile : Type 0 where
  pub id : ℕ
  pub file_name : Text
  pub file_path : Location
  pub folder_date : Text
  pub segment : Text
  pub exchange : Text
  pub status : FileStatus
  pub cbos_response : Option Response
  pub retry_count : ℕ
  pub process_id : Option Text
  pub cbos_upload_id : Option Text
  pub guid : Option Text
  pub correlation_id : Option Text
  pub batch_id : Option Text
  pub validation_error : Option FileRejected
  pub request_log : Option (List LogEntry)
  pub uploaded_at : Bool

pub record Table : Type 0 where
  pub rows : List UploadedFile
  pub next_id : ℕ

-- `update`, and the assignments to a row's attributes
unfoldable pub update_row : ℕ → (UploadedFile → UploadedFile) → Table → Table
update_row id f t = record t { rows = map (λ r. if r.id == id then f r else r) t.rows }

-- `if value: row.column = value`
overwrite : Option Text → Option Text → Option Text
overwrite (some (c ∷ t)) old = some (c ∷ t)
overwrite _ old = old

reset_row : Text → Text → Text → Option Text → Option Text → UploadedFile → UploadedFile
unfolding overwrite
reset_row folder_date segment exchange correlation_id batch_id r = record r {
  status = pending;
  folder_date = folder_date;
  segment = segment;
  exchange = exchange;
  correlation_id = overwrite correlation_id r.correlation_id;
  batch_id = overwrite batch_id r.batch_id;
}

new_row : ℕ → FilePath → Text → Text → Text → Option Text → Option Text → UploadedFile
new_row id path folder_date segment exchange correlation_id batch_id = record {
  id = id;
  file_name = path.name;
  file_path = at path;
  folder_date = folder_date;
  segment = segment;
  exchange = exchange;
  status = pending;
  cbos_response = none;
  retry_count = 0;
  process_id = none;
  cbos_upload_id = none;
  guid = none;
  correlation_id = correlation_id;
  batch_id = batch_id;
  validation_error = none;
  request_log = none;
  uploaded_at = false;
}

-- `insert`: the new row's id and the table
insert : (ℕ → UploadedFile) → Table → Option (ℕ × Table)
insert row t =
    if any (λ r. location_eq r.file_path (row t.next_id).file_path) t.rows
    then none
    else some (t.next_id, record { rows = t.rows ++ (row t.next_id ∷ []); next_id = suc t.next_id })

-- `create_audit_record`: the id of the row that now stands for the file
unfoldable pub create_audit_record :
    FilePath → Text → Text → Text → Option Text → Option Text → Table → Option (ℕ × Table)
unfolding insert reset_row new_row
create_audit_record path folder_date segment exchange correlation_id batch_id t =
    elim (find (λ r. location_eq r.file_path (at path)) t.rows) [
      | some existing ↦ some (
        existing.id,
        update_row existing.id (reset_row folder_date segment exchange correlation_id batch_id) t,
      )
      | none ↦ insert (λ id. new_row id path folder_date segment exchange correlation_id batch_id) t
    ]

-- An assignment to `file_path` and the flush that checks it.
set_path : ℕ → Location → Table → Option Table
set_path id path t =
    if any (λ r. not (r.id == id) && location_eq r.file_path path) t.rows
    then none
    else some (update_row id (λ r. record r { file_path = path }) t)

unfoldable pub claim_file_path : ℕ → FilePath → Table → Option Table
unfolding set_path
claim_file_path id new_path t =
    elim (find (λ r. location_eq r.file_path (at new_path) && not (r.id == id)) t.rows) [
      | none ↦ set_path id (at new_path) t
      | some stale ↦ (elim (set_path stale.id (superseded new_path id) t) [
        | none ↦ none
        | some t' ↦ set_path id (at new_path) t'
      ])
    ]

-- Is there a row for this file that reached 'uploaded'?
unfoldable pub find_completed : Text → Text → Text → Text → Table → Option UploadedFile
find_completed segment folder_date upload_id file_name t =
    find
      (λ r.
        text_eq r.segment segment
        && text_eq r.folder_date folder_date
        && (elim r.cbos_upload_id [ none ↦ false | some u ↦ text_eq u upload_id ])
        && text_eq r.file_name file_name
        && (elim r.status [ FileStatus.uploaded ↦ true | _ ↦ false ]))
      t.rows

has_batch : Text → UploadedFile → Bool
has_batch batch_id r = elim r.batch_id [ none ↦ false | some b ↦ text_eq b batch_id ]

-- A row written before rows carried a batch id.
is_legacy : Text → Text → UploadedFile → Bool
is_legacy folder_date segment r =
    text_eq r.folder_date folder_date && text_eq r.segment segment && not (is_some r.batch_id)

-- `find_for_batch`
unfoldable pub find_for_batch : Text → Text → Text → Table → List UploadedFile
unfolding has_batch is_legacy
find_for_batch batch_id folder_date segment t = elim (filter (has_batch batch_id) t.rows) [
  | [] ↦ filter (is_legacy folder_date segment) t.rows
  | r ∷ rest ↦ r ∷ rest
]
