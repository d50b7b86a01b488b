-- ===== src/Manifest.antt =====
-- app/services/manifest_service.py: a manifest that is loaded, checked and turned into a task. Reading
-- and parsing the file, its validation by edpb_core's schema, the disk and SHA-256 are parameters.
pub mod Within
use edpbilling_file_upload.Base.{
  ℕ, Bool, true, false, not, ◌&&◌, Option, none, some, List, [], ◌∷◌, ◌++◌, map, any, Text, text_eq,
  codes, lower, upper, strip, truthy, ◌==◌, if◌then◌else◌,
}
use edpbilling_file_upload.Base.Program.{Try, returned, raised}
use edpbilling_file_upload.Base.Words.{split_on, partition_on}
use edpbilling_file_upload.Cbos.Reservation.{ProcessRow, SlotRow}
use edpbilling_file_upload.Files.{FilePath}
use edpbilling_file_upload.Queue.Task.{SegmentBatchTask, Mode, text_or}
use edpbilling_file_upload.SafePath.{Location, UnsafePath, resolve_within, assert_within}

pub record FileEntry : Type 0 where
  pub name : Text
  pub exchange : Option Text
  pub kind : Option Text
  pub size_bytes : ℕ
  pub sha256 : Text

-- A manifest that the schema accepts.
pub record Manifest : Type 0 where
  pub batch_id : Text
  pub segment : Text
  pub trade_date : Text
  pub correlation_id : Option Text
  pub files : List FileEntry

-- ManifestError, by the place that raises it.
pub data ManifestError : Type 0 where
  not_found unreadable schema_invalid : ManifestError
  unsafe_manifest unsafe_name : UnsafePath → ManifestError

-- ChecksumMismatchError, with the name of the file.
pub data ChecksumError : Type 0 where
  unsafe_entry missing wrong_size wrong_digest : Text → ChecksumError

-- What the service asks of the disk and of its settings.
pub record Intake : Type 0 where
  pub resolve : Location → Location
  pub is_file : Location → Bool
  -- read, parsed and validated
  pub read_manifest : Location → Try ManifestError Manifest
  pub file_size : Location → ℕ
  pub sha256_of : Location → Text
  -- strptime(trade_date, "%Y-%m-%d").strftime(settings.date_folder_format)
  pub folder_date_of : Text → Text
  pub file_root_path : Location
  pub checksum_skip_kinds : Text

pub record LoadedManifest : Type 0 where
  pub raw : Manifest
  pub batch_id : Text
  pub segment : Text
  pub trade_date : Text
  pub folder_date : Text
  pub correlation_id : Option Text
  pub manifest_path : Location
  pub files : List (Location × Text)

-- `path.parent`
unfoldable pub parent : Location → Location
parent [] = []
parent (s ∷ []) = []
parent (s ∷ t ∷ p) = s ∷ parent (t ∷ p)

-- file_service.NO_EXCHANGE
unfoldable pub no_exchange : Text
no_exchange = codes "NA"

add_file :
    Text
    → Try UnsafePath Location
    → Try ManifestError (List (Location × Text))
    → Try ManifestError (List (Location × Text))
add_file exchange (raised e) rest = raised (unsafe_name e)
add_file exchange (returned p) (raised e) = raised e
add_file exchange (returned p) (returned rest) = returned ((p, exchange) ∷ rest)

module _ (intake : Intake) where
  -- The paths of the listed files, with their exchanges.
  unfoldable pub locate_files :
      Location → List FileEntry → Try ManifestError (List (Location × Text))
  unfolding add_file resolve_within text_or no_exchange
  locate_files base [] = returned []
  locate_files base (f ∷ files) =
      add_file (text_or f.exchange no_exchange) (resolve_within intake.resolve base f.name)
        (locate_files base files)

  with_files :
      Location
      → Manifest
      → Try ManifestError (List (Location × Text))
      → Try ManifestError LoadedManifest
  with_files path m (raised e) = raised e
  with_files path m (returned files) = returned (record {
    raw = m;
    batch_id = m.batch_id;
    segment = m.segment;
    trade_date = m.trade_date;
    folder_date = intake.folder_date_of m.trade_date;
    correlation_id = m.correlation_id;
    manifest_path = path;
    files = files;
  })

  after_reading : Location → Try ManifestError Manifest → Try ManifestError LoadedManifest
  unfolding with_files locate_files parent
  after_reading path (raised e) = raised e
  after_reading path (returned m) = with_files path m (locate_files (parent path) m.files)

  after_confining : Try UnsafePath Location → Try ManifestError LoadedManifest
  unfolding after_reading
  after_confining (raised e) = raised (unsafe_manifest e)
  after_confining (returned path) = after_reading path (intake.read_manifest path)

  unfoldable pub load_manifest : Location → Try ManifestError LoadedManifest
  unfolding after_confining assert_within
  load_manifest manifest_path =
      if intake.is_file manifest_path
      then after_confining (assert_within intake.resolve intake.file_root_path manifest_path)
      else raised not_found

  -- A token of `checksum_skip_kinds`, normalised.
  unfoldable pub skip_pair : Text → Text × Text
  unfolding partition_on strip upper lower
  skip_pair token =
      let (exchange, kind) = partition_on b':' token in (upper (strip exchange), lower (strip kind))

  skip_pairs : List Text → List (Text × Text)
  unfolding skip_pair strip
  skip_pairs [] = []
  skip_pairs (token ∷ tokens) =
      let rest = skip_pairs tokens in
      if truthy (strip token) then skip_pair (strip token) ∷ rest else rest

  -- `_checksum_skip_set`
  unfoldable pub checksum_skip_set : List (Text × Text)
  unfolding skip_pairs split_on
  checksum_skip_set = skip_pairs (split_on b',' intake.checksum_skip_kinds)

  -- `key in skip_set`
  unfoldable pub is_skipped : FileEntry → Bool
  unfolding checksum_skip_set text_eq upper lower text_or
  is_skipped f =
      let exchange = upper (text_or f.exchange []) in
      let kind = lower (text_or f.kind []) in
      any (λ p. text_eq p.0 exchange && text_eq p.1 kind) checksum_skip_set

  -- The body of the loop; `none` where the file passes.
  check_file : FileEntry → Try UnsafePath Location → Option ChecksumError
  unfolding is_skipped text_eq
  check_file f (raised e) = some (unsafe_entry f.name)
  check_file f (returned path) =
      if not (intake.is_file path)
      then some (missing f.name)
      else if is_skipped f
      then none
      else if not (intake.file_size path == f.size_bytes)
      then some (wrong_size f.name)
      else if not (text_eq (intake.sha256_of path) f.sha256)
      then some (wrong_digest f.name)
      else none

  or_rest : Option ChecksumError → Option ChecksumError → Option ChecksumError
  or_rest none rest = rest
  or_rest (some e) rest = some e

  -- The error of the first file that does not pass.
  unfoldable pub check_files : Location → List FileEntry → Option ChecksumError
  unfolding check_file or_rest resolve_within
  check_files base [] = none
  check_files base (f ∷ files) =
      or_rest (check_file f (resolve_within intake.resolve base f.name)) (check_files base files)

  unfoldable pub verify_checksums : Location → Manifest → Option ChecksumError
  unfolding check_files parent
  verify_checksums manifest_path m = check_files (parent manifest_path) m.files

-- A path as the upload lane holds it.
unfoldable pub file_path : Location → FilePath
unfolding parent
file_path p = record { parent = parent p; name = last_of p }
  where
    last_of : Location → Text
    last_of [] = []
    last_of (s ∷ []) = s
    last_of (s ∷ t ∷ p) = last_of (t ∷ p)

unfoldable pub to_task :
    LoadedManifest
    → Option Text
    → Option (List ProcessRow)
    → Option (List SlotRow)
    → SegmentBatchTask
unfolding file_path
to_task m process_id table1 table2 = record {
  folder_date = m.folder_date;
  segment = m.segment;
  files = map (λ f. (file_path f.0, f.1)) m.files;
  batch_id = some m.batch_id;
  correlation_id = m.correlation_id;
  mode = Mode.upload;
  proceed_slots = [];
  proceed_reason = none;
  process_id = process_id;
  table1 = table1;
  table2 = table2;
}

-- `str(path)`
unfoldable pub location_text : Location → Text
location_text [] = []
location_text (s ∷ p) = b'/' ∷ s ++ location_text p
