-- ===== src/Tests/Intake.antt =====
-- The intake of a manifest on small inputs: it is posted, posted again, and force-proceeded.
use edpbilling_file_upload.Base.{
  ◌≡◌, ◌≢◌, refl, Bool, true, false, none, some, List, [], ◌∷◌, Text, codes, inl,
}
use edpbilling_file_upload.Base.Program.{Try, returned, pure, throw, continue, ◌>>=◌}
use edpbilling_file_upload.Base.Words.{split_on, partition_on, numeral, is_digit}
use edpbilling_file_upload.Batches.{BatchStatus}
use edpbilling_file_upload.SafePath.{
  Location, segments, is_absolute, parents, lies_within, location_eq, resolve_within, assert_within,
}
use edpbilling_file_upload.SafePath.Confined.{IsBelow, IsConfined, resolve_within-IsConfined}
use edpbilling_file_upload.Manifest.{
  FileEntry, Manifest, Intake, LoadedManifest, parent, locate_files, load_manifest, skip_pair,
  checksum_skip_set, is_skipped, check_files, verify_checksums, to_task, location_text, file_path,
  no_exchange,
}
use edpbilling_file_upload.Manifest.Within.{load_manifest-FilesBelow}
use edpbilling_file_upload.BatchService.{
  Store, IntakeResult, ServiceError, new_batch, enqueue_task, enqueue_checked, is_pending,
  known_result, acknowledge_known, submit_manifest, nothing_reserved, is_incomplete, proceed_task,
  proceed_on, request_proceed,
}
use edpbilling_file_upload.BatchService.Repeat.{AnswersAgain, submit_manifest-AnswersAgain}
use edpbilling_file_upload.Cbos.Value.{str, py_bool, py_str}
use edpbilling_file_upload.UploadName.{
  Expected, text_or_empty, max_late_stamp_days, is_leap, days_in, days_before, ordinal, slice,
  as_date, find_all, first_date, replace_first, found_in, rewrite, for_session, resolve_upload_name,
}
use edpbilling_file_upload.UploadName.Late.{IsLateName, resolve_upload_name-IsLateName}
use edpbilling_file_upload.OptionalSlots.{Document, reload}
use edpbilling_file_upload.OptionalSlots.Cached.{slots_in, answers, answers-slots_in}
use edpbilling_file_upload.Tests.{lane_ops, batch}

intake_ops : Unit {0}
unfolding lane_ops split_on partition_on segments is_absolute parents lies_within location_eq
    resolve_within assert_within parent locate_files load_manifest skip_pair checksum_skip_set
    is_skipped check_files verify_checksums to_task location_text file_path no_exchange new_batch
    enqueue_task enqueue_checked is_pending known_result acknowledge_known submit_manifest
    nothing_reserved is_incomplete proceed_task proceed_on request_proceed continue ◌>>=◌ pure throw
intake_ops = tt

abbrev entry : FileEntry
entry = record {
  name = codes "SCRIP.txt";
  exchange = some (codes "BSE");
  kind = none;
  size_bytes = 3;
  sha256 = codes "ab";
}

abbrev manifest : Manifest
manifest = record {
  batch_id = codes "b9";
  segment = codes "EQ";
  trade_date = codes "2026-08-04";
  correlation_id = none;
  files = entry ∷ [];
}

abbrev manifest_path : Location
manifest_path = codes "in" ∷ codes "d" ∷ codes "EQ" ∷ codes "manifest.json" ∷ []

-- Files are the paths of four segments.
abbrev is_deep : Location → Bool
is_deep (a ∷ b ∷ c ∷ d ∷ p) = true
is_deep _ = false

abbrev intake : Intake
intake = record {
  resolve = λ p. p;
  is_file = is_deep;
  read_manifest = λ p. returned manifest;
  file_size = λ p. 3;
  sha256_of = λ p. codes "ab";
  folder_date_of = λ t. codes "04-08-2026";
  file_root_path = codes "in" ∷ [];
  checksum_skip_kinds = codes "MCX:product_master,EQ:trade";
}

abbrev store : Store
store = record {
  batches = record batch { status = BatchStatus.incomplete } ∷ [];
  queue = record { maxsize = 5; waiting = []; in_flight = []; unfinished = 0 };
}

abbrev submitted : Try ServiceError IntakeResult × Store
submitted = submit_manifest intake (λ v. v) manifest_path nothing_reserved store

abbrev fresh_answer : IntakeResult
fresh_answer = record { batch_id = codes "b9"; status = BatchStatus.queued; already_known = false }

accepted_once : submitted ≡ (returned fresh_answer, submitted.1)
unfolding intake_ops
accepted_once = refl

submit_manifest-AnswersAgain_example :
    AnswersAgain
      (submit_manifest intake (λ v. v) manifest_path nothing_reserved)
      fresh_answer
      submitted.1
submit_manifest-AnswersAgain_example =
    submit_manifest-AnswersAgain intake (λ v. v) manifest_path nothing_reserved nothing_reserved
      store submitted.1 fresh_answer accepted_once

abbrev proceeded : Try ServiceError (Text × List Text) × Store
proceeded = request_proceed batch.batch_id (codes "81" ∷ []) (codes "late") store

resolve_within-IsConfined_example :
    IsConfined
      (λ p. p)
      (codes "in" ∷ [])
      (codes "d/x.txt")
      (resolve_within (λ p. p) (codes "in" ∷ []) (codes "d/x.txt"))
resolve_within-IsConfined_example =
    resolve_within-IsConfined (λ p. p) (codes "in" ∷ []) (codes "d/x.txt")

abbrev listed : Location × Text
listed = (codes "in" ∷ codes "d" ∷ codes "EQ" ∷ codes "SCRIP.txt" ∷ [], codes "BSE")

abbrev loaded_manifest : LoadedManifest
loaded_manifest = record {
  raw = manifest;
  batch_id = codes "b9";
  segment = codes "EQ";
  trade_date = codes "2026-08-04";
  folder_date = codes "04-08-2026";
  correlation_id = none;
  manifest_path = manifest_path;
  files = listed ∷ [];
}

loads : load_manifest intake manifest_path ≡ returned loaded_manifest
unfolding intake_ops
loads = refl

root_apart : (p : Location) → is_deep p ≡ true → p ≢ codes "in" ∷ []
root_apart (a ∷ b ∷ c ∷ d ∷ p) h e = cc
root_apart [] h e = cc
root_apart (a ∷ []) h e = cc
root_apart (a ∷ b ∷ []) h e = cc
root_apart (a ∷ b ∷ c ∷ []) h e = cc

load_manifest-FilesBelow_example : IsBelow (codes "in" ∷ []) listed.0
load_manifest-FilesBelow_example =
    load_manifest-FilesBelow intake (λ q p rest e. refl) root_apart manifest_path loaded_manifest
      loads listed (inl refl)

-- Saturday's stamp, where CBOS wants Friday's.
abbrev friday : Expected
friday = record {
  date_basis = str (codes "T-1");
  input_trade_date = str (codes "2026-08-17");
  last_trading_date = str (codes "14082026");
}

renamed :
    (resolve_upload_name true
      (some friday)
      (codes "83")
      (codes "Map_15082026.csv")
      (codes "2026-08-17")).0
    ≡ codes "Map_14082026.csv"
unfolding intake_ops resolve_upload_name text_or_empty for_session as_date found_in rewrite
    replace_first max_late_stamp_days ordinal days_in days_before is_leap first_date find_all slice
    numeral is_digit py_bool py_str
renamed = refl

resolve_upload_name-IsLateName_example :
    IsLateName true (some friday) (codes "Map_15082026.csv") (codes "2026-08-17") (
      resolve_upload_name true
        (some friday)
        (codes "83")
        (codes "Map_15082026.csv")
        (codes "2026-08-17"))
resolve_upload_name-IsLateName_example =
    resolve_upload_name-IsLateName true (some friday) (codes "83") (codes "Map_15082026.csv")
      (codes "2026-08-17")

-- Two entries of one segment, and the file that replaces this one.
abbrev slots_file : Document
slots_file =
    (str (codes "cm"), some (str (codes "83") ∷ []))
    ∷ (str (codes "CM"), some (str (codes "84") ∷ str (codes "85") ∷ []))
    ∷ []

abbrev later_file : Document
later_file = (str (codes "CM"), none) ∷ []

answers-slots_in_example :
    answers
      ((some slots_file, codes "FO")
        ∷ (some later_file, codes "cm")
        ∷ (some slots_file, codes "CM")
        ∷ [])
      (reload (some []))
    ≡ slots_in (some slots_file) (codes "FO")
      ∷ slots_in (some slots_file) (codes "cm")
      ∷ slots_in (some slots_file) (codes "CM")
      ∷ []
answers-slots_in_example =
    answers-slots_in (some []) (some slots_file) (codes "FO")
      ((some later_file, codes "cm") ∷ (some slots_file, codes "CM") ∷ [])
