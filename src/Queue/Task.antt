-- ===== src/Queue/Task.antt =====
-- `SegmentBatchTask` of app/core/queue.py.
use edpbilling_file_upload.Base.{
  Option, none, some, List, ◌++◌, ◌∷◌, Text, codes, truthy, if◌then◌else◌,
}
use edpbilling_file_upload.Cbos.Reservation.{ProcessRow, SlotRow}
use edpbilling_file_upload.Files.{FilePath}

pub data Mode : Type 0 where
  upload proceed : Mode

pub record SegmentBatchTask : Type 0 where
  pub folder_date : Text
  pub segment : Text
  pub files : List (FilePath × Text)
  pub batch_id : Option Text
  pub correlation_id : Option Text
  pub mode : Mode
  pub proceed_slots : List Text
  pub proceed_reason : Option Text
  pub process_id : Option Text
  pub table1 : Option (List ProcessRow)
  pub table2 : Option (List SlotRow)

-- `value or default` of a string that may be None
unfoldable pub text_or : Option Text → Text → Text
text_or none default = default
text_or (some t) default = if truthy t then t else default

mode_name : Mode → Text
mode_name upload = codes "upload"
mode_name proceed = codes "proceed"

-- `f"{folder_date}|{segment}|{mode}|{batch_id or 'scan'}"`
unfoldable pub key : SegmentBatchTask → Text
unfolding mode_name text_or
key t =
    t.folder_date
    ++ (b'|'
        ∷ (t.segment ++ (b'|' ∷ (mode_name t.mode ++ (b'|' ∷ text_or t.batch_id (codes "scan"))))))
