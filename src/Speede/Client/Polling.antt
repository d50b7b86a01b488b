-- ===== src/Speede/Client/Polling.antt =====
-- app/clients/nsdl_speede_client.py: `check_status_once`, and the loop of `poll_status`. The pauses are
-- left out.
pub mod Bound
use edpbilling_file_upload.Base.{
  ℕ, zero, suc, ◌+◌, ◌-◌, ◌==◌, max, Bool, true, false, not, ◌&&◌, ◌||◌, Option, none, some, List,
  [], ◌∷◌, ◌++◌, any, all, Text, codes, text_eq, lower, upper, strip, lstrip_by, occurs_in, truthy,
  if◌then◌else◌, or_default,
}
use edpbilling_file_upload.Base.Program.{Try, returned, raised, Program, pure, throw, ◌>>=◌, ◌>>◌}
use edpbilling_file_upload.Base.Words.{squeeze, numeral}
use edpbilling_file_upload.Cbos.Value.{show_ℕ}
use edpbilling_file_upload.Speede.{Failure, other}
use edpbilling_file_upload.Speede.Folder.{DayFile}
use edpbilling_file_upload.Speede.Client.{
  Field, absent, number, string, Row, Body, Api, ClientSettings, field, is_given, either,
  text_or_empty, int_of, first_row,
}
use edpbilling_file_upload.Base.Program.{of_try}
use edpbilling_file_upload.Speede.{
  UploadStatus, Verdict, poll_success, poll_failed, poll_in_progress,
}
use edpbilling_file_upload.Speede.Client.Wire.{parse_status_row, with_int}

unfoldable pub is_open_verdict : Verdict → Bool
is_open_verdict poll_in_progress = true
is_open_verdict _ = false

-- The reading of call 5: without a row it is still open.
unfoldable pub reading : ClientSettings → Text → Option Row → Try Failure UploadStatus
unfolding with_int int_of parse_status_row
reading settings tran_id none = with_int (int_of (string tran_id)) (λ n. record {
  tran_id = n;
  upload_status = [];
  process_status = [];
  verdict = poll_in_progress;
})
reading settings tran_id (some row) = parse_status_row settings.unescape tran_id row

module _ {Server : Type 0} (api : Api Server) (settings : ClientSettings) where
  unfoldable pub check_status_once : Text → Program Server Failure UploadStatus
  check_status_once tran_id = api.get_upload_status tran_id >>= λ body.
      of_try (reading settings tran_id (first_row body.rows))

  -- The loop, with so many rounds left and the last reading.
  unfoldable pub poll_rest : Text → ℕ → UploadStatus → Program Server Failure UploadStatus
  poll_rest tran_id zero status = pure status
  poll_rest tran_id (suc left) status =
      let again = check_status_once tran_id >>= poll_rest tran_id left in
      if is_open_verdict status.verdict then again else pure status

  unfoldable pub poll_status : Text → Program Server Failure UploadStatus
  poll_status tran_id =
      check_status_once tran_id >>= poll_rest tran_id (max 1 settings.poll_max_attempts - 1)
