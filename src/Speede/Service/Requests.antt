-- ===== src/Speede/Service/Requests.antt =====
-- app/services/nsdl_speede_service.py: `process_upload` with the summary that it answers, and
-- `check_status`.
use edpbilling_file_upload.Base.{
  ℕ, suc, ◌==◌, Bool, not, ◌&&◌, Option, none, some, List, [], ◌∷◌, length, Text, if◌then◌else◌,
  or_default, false,
}
use edpbilling_file_upload.Base.Program.{pure, throw, gets, modify, of_try, ◌>>=◌, ◌>>◌, for_each}
use edpbilling_file_upload.Speede.{unknown_upload}
use edpbilling_file_upload.Speede.Catalogue.{SpeedeFile, Selector, resolve_selection}
use edpbilling_file_upload.Speede.Folder.{Folders}
use edpbilling_file_upload.Speede.Table.{Upload, UploadState, get, given}
use edpbilling_file_upload.Speede.Catalogue.{by_key}
use edpbilling_file_upload.Base.{upper, lower, ◌||◌}
use edpbilling_file_upload.Speede.Service.{
  list_categories, check_status_once, Client, Action, FileResult, status_detail, is_success,
  is_failed, is_in_progress, World,
}
use edpbilling_file_upload.Speede.Service.Steps.{perform, result, apply_status, process_entry}

pub data Overall : Type 0 where
  all_success partial all_failed still_in_progress : Overall

pub record Summary : Type 0 where
  pub total : ℕ
  pub success : ℕ
  pub in_progress : ℕ
  pub failed : ℕ

pub record Response : Type 0 where
  pub overall : Overall
  pub summary : Summary
  pub files : List FileResult

-- `counts[…]`
unfoldable pub count_of : (UploadState → Bool) → List FileResult → ℕ
count_of p [] = 0
count_of p (r ∷ results) =
    let rest = count_of p results in if p r.upload.status then suc rest else rest

unfoldable pub overall_of : Summary → Overall
overall_of s =
    if s.success == s.total
    then all_success
    else if not (s.success == 0)
    then partial
    else if not (s.failed == 0)
    then all_failed
    else still_in_progress

unfoldable pub summarise : List FileResult → Summary
unfolding count_of is_success is_failed is_in_progress
summarise results = record {
  total = length results;
  success = count_of is_success results;
  in_progress = count_of is_in_progress results;
  failed = count_of is_failed results;
}

unfoldable pub respond : List FileResult → Response
unfolding summarise overall_of
respond results = record {
  overall = overall_of (summarise results);
  summary = summarise results;
  files = results;
}

-- The row's entry; a row that the catalogue does not know is reported as stored.
unfoldable pub entry_of_row : Upload → SpeedeFile
unfolding by_key upper lower
entry_of_row u = elim (by_key (upper u.account) (lower u.report)) [
  | some entry ↦ entry
  | none ↦ record {
    account = u.account;
    report = u.report;
    upload_name = or_default u.upload_name [];
    file_name = u.file_name;
  }
]

-- `record.tran_id and record.status not in ("success", "failed")`
unfoldable pub is_open : Upload → Bool
unfolding given is_success is_failed
is_open u = given u.tran_id && not (is_success u.status || is_failed u.status)

-- What `check_status` answers: the status of the row in place of an overall one.
pub record StatusResponse : Type 0 where
  pub status : UploadState
  pub summary : Summary
  pub files : List FileResult

unfoldable pub status_response : FileResult → StatusResponse
unfolding summarise
status_response r = record {
  status = r.upload.status;
  summary = summarise (r ∷ []);
  files = r ∷ [];
}

-- A request to either endpoint, with the folders as they are when it comes in.
pub data Request : Type 0 where
  -- trade date, files, correlation id, force
  upload : Folders → Text → List Selector → Option Text → Bool → Request
  status : ℕ → Request

unfoldable pub is_forced : Request → Bool
is_forced (upload _ _ _ _ force) = force
is_forced (status _) = false

module _ {Server : Type 0} (client : Client Server) where
  unfoldable pub process_upload :
      Folders → Text → List Selector → Option Text → Bool → Action Server Response
  process_upload folders trade_date selectors correlation_id force =
      of_try (resolve_selection selectors) >>= λ requests.
      perform (λ _. list_categories trade_date) (client.list_categories trade_date)
      >>= λ categories.
          modify (λ w. record w { settings_cache = [] })
          >> for_each (process_entry client folders trade_date force correlation_id categories)
              requests
          >>= λ results. pure (respond results)

  unfoldable pub refresh : Upload → Action Server (Unit {0})
  refresh u =
      if is_open u
      then perform (λ _. check_status_once (or_default u.tran_id []))
          (client.check_status_once (or_default u.tran_id []))
        >>= apply_status u.id
      else pure tt

  -- From the row that `get` found on.
  unfoldable pub answer_status : ℕ → Option Upload → Action Server StatusResponse
  answer_status n none = throw (unknown_upload n)
  answer_status n (some u) =
      refresh u >> result n (entry_of_row u) status_detail >>= λ r. pure (status_response r)

  unfoldable pub check_status : ℕ → Action Server StatusResponse
  check_status n = gets (λ w. get n w.uploads) >>= answer_status n

  unfoldable pub serve : Request → World Server → World Server
  serve (upload folders trade_date selectors correlation_id force) w =
      (process_upload folders trade_date selectors correlation_id force w).1
  serve (status n) w = (check_status n w).1

  -- One request after the other.
  unfoldable pub serve_all : List Request → World Server → World Server
  serve_all [] w = w
  serve_all (r ∷ requests) w = serve_all requests (serve r w)
