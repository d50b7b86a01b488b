-- ===== src/Speede/Client/Wire.antt =====
-- app/clients/nsdl_speede_client.py: the readings of the single calls, and the local validation of a
-- file.
use edpbilling_file_upload.Base.{
  ℕ, ◌==◌, Bool, not, ◌&&◌, ◌||◌, Option, none, some, List, [], ◌∷◌, ◌++◌, any, take, drop,
  starts_with, Text, codes, text_eq, lower, upper, strip, lstrip_by, occurs_in, truthy,
  if◌then◌else◌,
}
use edpbilling_file_upload.Base.Program.{Try, returned, raised, Program, pure, throw, of_try, ◌>>=◌}
use edpbilling_file_upload.Base.Words.{squeeze, count_parts}
use mathlib.Core.List.{reverse}
use edpbilling_file_upload.Cbos.Value.{show_ℕ}
use edpbilling_file_upload.Speede.{Failure}
use edpbilling_file_upload.Speede.Folder.{DayFile}
use edpbilling_file_upload.Speede.Client.{
  Field, absent, number, string, Row, Body, Api, ClientSettings, field, either, text_or_empty,
  int_of, first_row,
}
use edpbilling_file_upload.Matching.FileName.{suffix}
use edpbilling_file_upload.Speede.{
  UploadCategory, UploadSettings, UploadStatus, Verdict, poll_success, poll_failed,
  poll_in_progress, speede, no_categories, no_settings, no_result, no_tran_id, wrong_extension,
  name_lacks_token, empty_file, wrong_columns,
}

-- `_TAG_RE.sub("", text)`, in two states: outside a tag, and behind a `<` with what followed it.
mutual
  outside_tag : Text → Text
  outside_tag [] = []
  outside_tag (c ∷ s) =
      let opened = inside_tag [] s in
      let plain = c ∷ outside_tag s in if c == b'<' then opened else plain

  inside_tag : Text → Text → Text
  inside_tag seen [] = b'<' ∷ seen
  inside_tag [] (c ∷ s) =
      let empty_tag = b'<' ∷ b'>' ∷ outside_tag s in
      let longer = inside_tag (c ∷ []) s in if c == b'>' then empty_tag else longer
  inside_tag (d ∷ seen) (c ∷ s) =
      let closed = outside_tag s in
      let longer = inside_tag (d ∷ seen ++ (c ∷ [])) s in if c == b'>' then closed else longer

-- `_strip_html`, of a field that may be missing
unfoldable pub strip_html : (Text → Text) → Field → Text
unfolding outside_tag squeeze show_ℕ
strip_html unescape absent = []
strip_html unescape (number n) = squeeze (unescape (outside_tag (show_ℕ n)))
strip_html unescape (string t) = squeeze (unescape (outside_tag t))

unfoldable pub failure_markers : List Text
failure_markers = codes "FAIL" ∷ codes "ERROR" ∷ codes "REJECT" ∷ codes "INVALID" ∷ []

unfoldable pub success_marker : Text
success_marker = codes "SUCCESS"

unfoldable pub classify : Text → Text → Verdict
unfolding failure_markers success_marker upper occurs_in
classify upload_status process_status =
    let combined = upper (upload_status ++ (b' ' ∷ process_status)) in
    if any (λ marker. occurs_in marker combined) failure_markers
    then poll_failed
    else if occurs_in success_marker (upper upload_status)
        && occurs_in success_marker (upper process_status)
    then poll_success
    else poll_in_progress

-- What `int` yields put to use.
unfoldable pub with_int : {A : Type 0} → Try Failure ℕ → (ℕ → A) → Try Failure A
with_int (returned n) f = returned (f n)
with_int (raised e) f = raised e

unfoldable pub parse_status_row : (Text → Text) → Text → Row → Try Failure UploadStatus
unfolding strip_html either field int_of classify with_int
parse_status_row unescape tran_id row =
    let upload =
      strip_html unescape
        (either (field (codes "UPLOAD STATUS") row) (field (codes "Upload Status") row)) in
    let process =
      strip_html unescape
        (either (field (codes "PROCESS STATUS") row) (field (codes "Process Status") row)) in
    with_int
      (int_of (
        either (either (field (codes "TRANID") row) (field (codes "TranId") row)) (string tran_id)))
      (λ n. record {
        tran_id = n;
        upload_status = upload;
        process_status = process;
        verdict = classify upload process;
      })

-- `int(value or 0)`
unfoldable pub int_or_zero : Field → Try Failure ℕ
unfolding int_of either
int_or_zero f = int_of (either f (number 0))

-- The list that `list_categories` builds.
unfoldable pub read_categories : List Row → Try Failure (List UploadCategory)
unfolding int_or_zero field text_or_empty
read_categories [] = returned []
read_categories (row ∷ rows) = elim (int_or_zero (field (codes "UPLOADID") row)) [
  | raised e ↦ raised e
  | returned n ↦ elim (read_categories rows) [
    | raised e ↦ raised e
    | returned rest ↦ returned (
        record { upload_id = n; upload_name = text_or_empty (field (codes "UPLOADNAME") row) }
        ∷ rest)
  ]
]

unfoldable pub is_dot : ℕ → Bool
is_dot c = c == b'.'

-- The settings in the first row of call 2.
unfoldable pub read_settings : ℕ → Row → Try Failure UploadSettings
unfolding int_of either field int_or_zero text_or_empty strip lstrip_by is_dot
read_settings upload_id row = elim (int_of (either (field (codes "ID") row) (number upload_id))) [
  | raised e ↦ raised e
  | returned n ↦ elim (int_or_zero (field (codes "NO. OF COLUMNS") row)) [
    | raised e ↦ raised e
    | returned columns ↦ returned (record {
      upload_id = n;
      file_name_contains = strip (text_or_empty (field (codes "FILE NAME (CONTAINS)") row));
      file_extension = lstrip_by is_dot (strip (text_or_empty (field (codes "FILEEXTENSION") row)));
      column_count = columns;
    })
  ]
]

unfoldable pub utf8_bom : List ℕ
utf8_bom = 0xef ∷ 0xbb ∷ 0xbf ∷ []

unfoldable pub header_scan_bytes : ℕ
header_scan_bytes = 65536

-- `head.partition(b"\n")`, the first part
unfoldable pub first_line : List ℕ → List ℕ
first_line [] = []
first_line (b ∷ bytes) = let rest = b ∷ first_line bytes in if b == 10 then [] else rest

-- `line.rstrip(b"\r")`
unfoldable pub rstrip_returns : List ℕ → List ℕ
unfolding lstrip_by
rstrip_returns line = reverse (lstrip_by (λ b. b == 13) (reverse line))

unfoldable pub read_header : List ℕ → List ℕ
unfolding utf8_bom header_scan_bytes starts_with first_line rstrip_returns
read_header content =
    let head = take header_scan_bytes content in
    let text = if starts_with utf8_bom head then drop 3 head else head in
    rstrip_returns (first_line text)

-- The column check at the end of `validate_file`.
unfoldable pub check_header : ℕ → List ℕ → Try Failure (Unit {0})
unfolding count_parts
check_header column_count [] = raised (speede empty_file)
check_header column_count (b ∷ header) =
    let columns = count_parts b',' (b ∷ header) in
    if columns == column_count
    then returned tt
    else raised (speede (wrong_columns columns column_count))

unfoldable pub validate_file :
    ClientSettings → DayFile → Text → UploadSettings → Try Failure (Unit {0})
unfolding lower lstrip_by is_dot suffix text_eq occurs_in read_header check_header
validate_file settings file transmit_name config =
    let expected = lower config.file_extension in
    let actual = lower (lstrip_by is_dot (suffix file.name)) in
    let token = config.file_name_contains in
    if truthy expected && not (text_eq actual expected)
    then raised (speede (wrong_extension actual expected))
    else if truthy token && not (occurs_in (lower token) (lower transmit_name))
    then raised (speede (name_lacks_token transmit_name token))
    else if not settings.validate_columns || config.column_count == 0
    then returned tt
    else check_header config.column_count (read_header (settings.content file))

module _ {Server : Type 0} (api : Api Server) where
  unfoldable pub categories_of : Text → Body → Program Server Failure (List UploadCategory)
  unfolding of_try read_categories throw
  categories_of trade_date body = elim body.rows [
    | [] ↦ throw (speede no_categories)
    | (row ∷ rows) ↦ of_try (read_categories (row ∷ rows))
  ]

  unfoldable pub list_categories : Text → Program Server Failure (List UploadCategory)
  unfolding categories_of ◌>>=◌
  list_categories trade_date = api.get_common_uploads trade_date >>= categories_of trade_date

  unfoldable pub settings_in : ℕ → Option Row → Program Server Failure UploadSettings
  unfolding of_try read_settings throw
  settings_in upload_id none = throw (speede no_settings)
  settings_in upload_id (some row) = of_try (read_settings upload_id row)

  unfoldable pub get_upload_settings : ℕ → Program Server Failure UploadSettings
  unfolding settings_in first_row ◌>>=◌
  get_upload_settings upload_id =
      api.get_upload_settings upload_id >>= λ body. settings_in upload_id (first_row body.rows)

  -- `tran_id` of the answer, which must be there.
  unfoldable pub tran_id_in : Option Row → Program Server Failure Text
  unfolding field text_or_empty throw pure
  tran_id_in none = throw (speede no_result)
  tran_id_in (some row) =
      let tran_id = text_or_empty (field (codes "TRANID") row) in
      if truthy tran_id then pure tran_id else throw (speede no_tran_id)

  unfoldable pub finalize_upload : ℕ → Text → Text → Text → Program Server Failure Text
  unfolding tran_id_in first_row ◌>>=◌
  finalize_upload upload_id transmit_name guid param1 =
      api.finalize_upload upload_id transmit_name guid param1 >>= λ body.
      tran_id_in (first_row body.rows)
