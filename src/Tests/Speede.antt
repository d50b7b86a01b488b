-- ===== src/Tests/Speede.antt =====
-- The SPEED-e uploads on small inputs: a report goes through the mock adapter, and is posted again.
use edpbilling_file_upload.Base.{
  max, ◌*◌, ℕ, suc, any, ◌≡◌, ◌≤◌, ◌+◌, max, refl, true, false, none, some, List, [], ◌∷◌, ◌++◌,
  length, drop, codes, text_ops, lstrip_by, is_space,
}
use edpbilling_file_upload.Base.Program.{
  Try, returned, raised, Ensures, pure, throw, gets, of_try, settle, catch, modify, continue, ◌>>=◌,
  for_each,
}
use edpbilling_file_upload.Base.Words.{squeeze, numeral, count_parts, is_digit}
use edpbilling_file_upload.Cbos.Value.{show_ℕ}
use edpbilling_file_upload.Matching.FileName.{suffix}
use edpbilling_file_upload.Speede.{Failure, UploadStatus}
use edpbilling_file_upload.Speede.Catalogue.{
  SpeedeFile, Selector, catalogue, by_key, pick, lookup_all, arrange, resolve_selection, normalise,
  resolve_category, transmit_name,
}
use edpbilling_file_upload.Speede.Catalogue.Selected.{IsSelection, resolve_selection-IsSelection}
use edpbilling_file_upload.Speede.Folder.{
  Folders, day_folder, numbered_name, candidates, highest, locate_in, locate,
}
use edpbilling_file_upload.Speede.Folder.Latest.{IsLatest, locate_in-IsLatest}
use edpbilling_file_upload.Speede.Table.{find_upload, get, new_upload, update, given}
use edpbilling_file_upload.Speede.Service.{
  Client, World, status_detail, with_status, is_success, is_failed, is_in_progress,
}
use edpbilling_file_upload.Speede.Service.Steps.{
  perform, update_row, found, fetch, result, find_row, insert_row, with_correlation, open_row,
  key_of, apply_status, with_failure, fail_row, register, upload_one, settings_of, send, poll_again,
  attempt, on_failure, answer_or_attempt, record_locate_failure, at_file, process_entry,
}
use edpbilling_file_upload.Speede.Service.Requests.{
  Response, all_success, respond, summarise, overall_of, process_upload, Request, upload, status,
  is_forced, serve, serve_all, check_status, answer_status, refresh, is_open,
}
use edpbilling_file_upload.Speede.Service.Once.{IsOnce}
use edpbilling_file_upload.Speede.Service.Once.History.{serve_all-IsOnce}
use edpbilling_file_upload.Speede.Service.Settled.{Settles, Escapes, AnyWorld}
use edpbilling_file_upload.Speede.Service.Settled.Files.{process_entry-Ensures}
use edpbilling_file_upload.Speede.Service.Answered.{IsAnswer, process_upload-IsAnswer}
use edpbilling_file_upload.Speede.Service.Answered.Entries.{IsOfSelection}
use edpbilling_file_upload.Speede.Client.{
  Api, Body, absent, ClientSettings, field, is_given, either, text_or_empty, int_of, first_row,
}
use edpbilling_file_upload.Speede.Client.Wire.{
  strip_html, classify, with_int, parse_status_row, read_categories, read_settings, read_header,
  check_header, validate_file, categories_of, list_categories, settings_in, get_upload_settings,
  tran_id_in, finalize_upload,
}
use edpbilling_file_upload.Speede.Client.Chunks.{
  data_offset, offset_of, terminator, chunk_size, total_chunks, chunks, check_answer, plan_from,
  send_chunk, send_plan, upload_chunks,
}
use edpbilling_file_upload.Speede.Client.Chunks.Sent.{
  IsClosed, bytes_of, InOrder, plan_from-carries,
}
use edpbilling_file_upload.Speede.Client.Polling.{
  is_open_verdict, reading, check_status_once, poll_rest, poll_status,
}
use edpbilling_file_upload.Speede.Client.Polling.Bound.{poll_status-bounded}
use edpbilling_file_upload.Speede.Client.Interface.{speede_client, speede_client-IsLawful}
use edpbilling_file_upload.Speede.Client.Mock.{MockState, mock_start, mock_api, mock_categories}

-- Opens the definitions that an upload computes.
speede_ops : Unit {0}
unfolding text_ops lstrip_by is_space squeeze numeral count_parts is_digit show_ℕ suffix pure throw
    gets of_try settle catch modify continue ◌>>=◌ for_each catalogue by_key pick lookup_all arrange
    resolve_selection normalise resolve_category transmit_name day_folder numbered_name candidates
    highest locate_in locate find_upload get new_upload update given status_detail with_status
    is_success is_failed is_in_progress perform update_row found fetch result find_row insert_row
    with_correlation open_row key_of apply_status with_failure fail_row register upload_one
    settings_of send poll_again attempt on_failure answer_or_attempt record_locate_failure at_file
    process_entry respond summarise overall_of process_upload is_forced serve serve_all check_status
    answer_status refresh is_open field is_given either text_or_empty int_of first_row strip_html
    classify with_int parse_status_row read_categories read_settings read_header check_header
    validate_file categories_of list_categories settings_in get_upload_settings tran_id_in
    finalize_upload data_offset offset_of terminator chunk_size total_chunks chunks check_answer
    plan_from send_chunk send_plan upload_chunks is_open_verdict reading check_status_once poll_rest
    poll_status speede_client mock_start mock_api mock_categories
speede_ops = tt

-- A header, and one row without a newline at its end.
abbrev report_bytes : List ℕ
report_bytes = codes "A,B" ++ (10 ∷ codes "1,2")

abbrev client_settings : ClientSettings
client_settings = record {
  chunk_size_kb = 1;
  strip_header = true;
  append_trailing_newline = true;
  validate_columns = false;
  poll_max_attempts = 3;
  unescape = λ t. t;
  content = λ file. report_bytes;
}

abbrev folders : Folders
folders = record {
  root = codes "/nsdl";
  date_folder_format = [];
  format_date = λ trade_date pattern. none;
  files_in = λ folder. some (codes "NSDL CMPA pledge 2.csv" ∷ codes "NSDL CMPA pledge 10.csv" ∷ []);
}

abbrev client : Client MockState
client = speede_client (mock_api 1) client_settings

abbrev start : World MockState
start = record {
  server = mock_start (codes "g1" ∷ []);
  uploads = [];
  next_id = 1;
  settings_cache = [];
  trace = [];
}

abbrev selector : Selector
selector = record { account = codes " cmpa"; report = codes "Pledge"; version = none }

abbrev pledge : SpeedeFile
pledge = record {
  account = codes "CMPA";
  report = codes "pledge";
  upload_name = codes "NSDL MARGIN PLEDGE";
  file_name = codes "NSDL CMPA pledge.csv";
}

abbrev empty_body : Body
empty_body = record { rows = []; status = absent; f_count = absent }

abbrev answer_in : Try Failure Response → Response
answer_in (returned r) = r
answer_in (raised e) = record {
  overall = all_success;
  summary = record { total = 0; success = 0; in_progress = 0; failed = 0 };
  files = [];
}

abbrev first_answer : Response
first_answer =
    answer_in
      (process_upload client folders (codes "2026-08-05") (selector ∷ []) none false start).0

answered :
    (process_upload client folders (codes "2026-08-05") (selector ∷ []) none false start).0
    ≡ returned first_answer
unfolding speede_ops
answered = refl

succeeded : first_answer.overall ≡ all_success
unfolding speede_ops
succeeded = refl

-- The same request twice, with a look at the row in between.
abbrev requests : List Request
requests =
    upload folders (codes "2026-08-05") (selector ∷ []) none false
    ∷ status 1
    ∷ upload folders (codes "2026-08-05") (selector ∷ []) none false
    ∷ []

no_force : any is_forced requests ≡ false
unfolding is_forced
no_force = refl

serve_all-IsOnce_example : IsOnce (serve_all client requests start)
serve_all-IsOnce_example =
    serve_all-IsOnce client (speede_client-IsLawful (mock_api 1) client_settings) requests start
      no_force (refl, tt)

process_upload-IsAnswer_example : IsOfSelection (selector ∷ []) first_answer × IsAnswer first_answer
process_upload-IsAnswer_example =
    process_upload-IsAnswer client folders (codes "2026-08-05") (selector ∷ []) none false start
      first_answer answered

process_entry-Ensures_example :
    Ensures AnyWorld
      (process_entry client folders (codes "2026-08-05") true none [] (pledge, some 7))
      Settles
      Escapes
process_entry-Ensures_example =
    process_entry-Ensures client folders (codes "2026-08-05") true none [] (pledge, some 7)

locate_in-IsLatest_example :
    IsLatest
      (codes "NSDL CMPA pledge")
      (codes "NSDL CMPA pledge 2.csv" ∷ [])
      (locate_in (codes "NSDL CMPA pledge") none (codes "NSDL CMPA pledge 2.csv" ∷ []))
locate_in-IsLatest_example =
    locate_in-IsLatest (codes "NSDL CMPA pledge") (codes "NSDL CMPA pledge 2.csv" ∷ [])

resolve_selection-IsSelection_example :
    IsSelection (selector ∷ []) (resolve_selection (selector ∷ []))
resolve_selection-IsSelection_example = resolve_selection-IsSelection selector []

plan_from-carries_example :
    let plan = plan_from client_settings report_bytes 4 in
    IsClosed client_settings (drop 4 report_bytes) (bytes_of plan.parts)
    × InOrder (max 1 client_settings.chunk_size_kb * 1024) 0 plan.parts
    × (length plan.parts ≡ plan.total)
    × (plan.send_bytes ≡ length (bytes_of plan.parts))
plan_from-carries_example = plan_from-carries client_settings report_bytes 4

-- A server that counts the status calls, and never has a row to answer.
abbrev counting_api : Api ℕ
counting_api = record {
  get_common_uploads = λ trade_date s. (returned empty_body, s);
  get_upload_settings = λ upload_id s. (returned empty_body, s);
  upload_chunk = λ guid name bytes i total s. (returned empty_body, s);
  finalize_upload = λ upload_id name guid param1 s. (returned empty_body, s);
  get_upload_status = λ tran_id s. (returned empty_body, suc s);
  new_guid = λ s. (returned [], s);
}

poll_status-bounded_example :
    let (r, s') = poll_status counting_api client_settings (codes "7") 0 in
    (s' ≤ 0 + max 1 client_settings.poll_max_attempts)
    × ((status : UploadStatus)
        → r ≡ returned status
        → is_open_verdict status.verdict ≡ true
        → s' ≡ 0 + max 1 client_settings.poll_max_attempts)
poll_status-bounded_example =
    poll_status-bounded counting_api client_settings (λ s. s) (λ t s. refl) (codes "7") 0
