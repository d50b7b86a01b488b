-- ===== src/Speede/Client/Mock.antt =====
-- app/clients/nsdl_speede_client.py, `MockNsdlSpeedeClient`: the adapter with canned answers, as an
-- `Api` over its own fields. `int(tran_id)` of a TRANID that is no numeral is a ValueError.
use edpbilling_file_upload.Base.{
  ℕ, suc, ◌+◌, ◌-◌, ◌==◌, Option, none, some, List, [], ◌∷◌, ◌++◌, map, find, length, Text, codes,
  text_eq, lower, strip, occurs_in, if◌then◌else◌, ltb,
}
use edpbilling_file_upload.Base.Program.{Try, returned, raised}
use edpbilling_file_upload.Base.Words.{numeral}
use edpbilling_file_upload.Cbos.Value.{show_ℕ}
use edpbilling_file_upload.Speede.{Failure, other}
use edpbilling_file_upload.Speede.Client.{absent, number, string, Row, Body, Api}

-- A row of _MOCK_CATEGORIES.
pub record MockCategory : Type 0 where
  pub upload_id : ℕ
  pub name : Text
  pub procedure : Text
  pub token : Text
  pub columns : ℕ

unfoldable pub mock_categories : List MockCategory
mock_categories =
    record {
      upload_id = 6;
      name = codes "NSDL CMPA OPEN HOLDING";
      procedure = codes "usp_Nsdl_CMPA_OpenHolding";
      token = codes "View_Open_Holdings";
      columns = 18;
    }
    ∷ record {
      upload_id = 7;
      name = codes "NSDL MARGIN PLEDGE";
      procedure = codes "USP_SETT_NSDL_MarginPledgeRepledge";
      token = codes "View_Margin_Pledge_Instructions";
      columns = 45;
    }
    ∷ record {
      upload_id = 8;
      name = codes "NSDL MARGIN CONFISCATE";
      procedure = codes "USP_SETT_NSDL_MarginConfiscate";
      token = codes "910_Pledge_Invocation_Initiated";
      columns = 57;
    }
    ∷ record {
      upload_id = 9;
      name = codes "NSDL MARGIN UNPLEDGE";
      procedure = codes "USP_SETT_NSDL_MarginUnPledge";
      token = codes "911_Unilateral_Closure_Initiated";
      columns = 55;
    }
    ∷ record {
      upload_id = 24;
      name = codes "NSDL CMFA OPEN HOLDING";
      procedure = codes "usp_Nsdl_CMFA_OpenHolding";
      token = codes "View_Open_Holdings";
      columns = 18;
    }
    ∷ record {
      upload_id = 25;
      name = codes "NSDL NARNO OPEN HOLDING";
      procedure = codes "usp_Nsdl_Narno_OpenHolding";
      token = codes "View_Open_Holdings";
      columns = 18;
    }
    ∷ []

pub record MockState : Type 0 where
  pub next_tran_id : ℕ
  -- TRANID, polls so far
  pub poll_attempts : List (Text × ℕ)
  -- TRANID, transmitted name
  pub tran_names : List (Text × Text)
  -- GUID, chunk, number of bytes
  pub chunk_calls : List (Text × ℕ × ℕ)
  -- the GUIDs that uuid4 will yield
  pub guids : List Text

unfoldable pub mock_start : List Text → MockState
mock_start guids = record {
  next_tran_id = 339077;
  poll_attempts = [];
  tran_names = [];
  chunk_calls = [];
  guids = guids;
}

-- `d.get(key, default)`; the latest entry stands first.
unfoldable pub get_or : {A : Type 0} → Text → A → List (Text × A) → A
unfolding text_eq
get_or key default [] = default
get_or key default ((k, v) ∷ rest) =
    let later = get_or key default rest in if text_eq k key then v else later

unfoldable pub success_body : List Row → Body
success_body rows = record { rows = rows; status = string (codes "Success"); f_count = absent }

unfoldable pub category_row : MockCategory → Row
category_row c =
    (codes "UPLOADID", number c.upload_id)
    ∷ (codes "UPLOADNAME", string c.name)
    ∷ (codes "PROCEDURENAME", string c.procedure)
    ∷ (codes "UPLOADSTATUS", string (codes "PENDING"))
    ∷ (codes "UPLOAD_DATE", string [])
    ∷ (codes "UPLOAD_BY", string [])
    ∷ (codes "UPLOADSTATUSDESC", string [])
    ∷ (codes "LASTUPLOADFILENAME", string [])
    ∷ []

unfoldable pub settings_row : MockCategory → Row
settings_row c =
    (codes "ID", number c.upload_id)
    ∷ (codes "NAME", string c.name)
    ∷ (codes "FILE NAME (CONTAINS)", string c.token)
    ∷ (codes "FILEEXTENSION", string (codes "csv"))
    ∷ (codes "NO. OF COLUMNS", number c.columns)
    ∷ []

-- `_get_upload_settings`: the category, or no rows; the link to a sample file is left out.
unfoldable pub settings_body : Option MockCategory → Body
unfolding success_body settings_row
settings_body none = success_body []
settings_body (some c) = success_body (settings_row c ∷ [])

unfoldable pub status_texts : ℕ → Text → ℕ → Text × Text
unfolding lower occurs_in
status_texts pending_polls name seen =
    if occurs_in (codes "fail") (lower name)
    then (
      codes "<DIV STYLE=\"COLOR:RED;\">FAILED - Invalid file format</DIV>",
      codes "<DIV STYLE=\"COLOR:RED;\">FAILED</DIV>",
    )
    else if ltb seen pending_polls
    then (
      codes "<DIV STYLE=\"COLOR:BLUE;\">IN PROGRESS - Records Uploaded 0</DIV>",
      codes "PENDING",
    )
    else (
      codes "<DIV STYLE=\"COLOR:GREEN;\">SUCCESS - Records Uploaded 84408</DIV>",
      codes "<DIV STYLE=\"COLOR:GREEN;\">SUCCESS</DIV>",
    )

-- The row that a status call answers; dates and logins are left out.
unfoldable pub status_row : ℕ → Text × Text → Row
status_row tran_id (upload_status, process_status) =
    (codes "TRANID", number tran_id)
    ∷ (codes "UPLOAD STATUS", string upload_status)
    ∷ (codes "PROCESS STATUS", string process_status)
    ∷ []

status_answer : ℕ → Text → Text → ℕ → Try Failure Body
unfolding numeral strip success_body status_row status_texts
status_answer pending_polls key name seen = elim (numeral (strip key)) [
  | none ↦ raised other
  | some n ↦ returned (success_body (status_row n (status_texts pending_polls name seen) ∷ []))
]

unfoldable pub next_guid : List Text → Text × List Text
next_guid [] = ([], [])
next_guid (g ∷ guids) = (g, guids)

unfoldable pub mock_api : ℕ → Api MockState
unfolding mock_categories success_body category_row settings_body get_or status_answer next_guid
    show_ℕ
mock_api pending_polls = record {
  get_common_uploads =
      λ trade_date s. (returned (success_body (map category_row mock_categories)), s);
  get_upload_settings = λ upload_id s.
      (returned (settings_body (find (λ c. c.upload_id == upload_id) mock_categories)), s);
  upload_chunk = λ guid name bytes current_chunk total_chunks s. (
    returned (record {
      rows = [];
      status = string (
          if current_chunk == total_chunks - 1
          then codes "FileUploaded"
          else codes "ChunkUploaded");
      f_count = string (show_ℕ (current_chunk + 1));
    }),
    record s { chunk_calls = s.chunk_calls ++ ((guid, current_chunk, length bytes) ∷ []) },
  );
  finalize_upload = λ upload_id name guid param1 s. (
    returned (success_body (((codes "TRANID", number s.next_tran_id) ∷ []) ∷ [])),
    record s {
      next_tran_id = suc s.next_tran_id;
      tran_names = (show_ℕ s.next_tran_id, name) ∷ s.tran_names;
    },
  );
  get_upload_status = λ tran_id s.
      let seen = get_or tran_id 0 s.poll_attempts in
      (
        status_answer pending_polls tran_id (get_or tran_id [] s.tran_names) seen,
        record s { poll_attempts = (tran_id, seen + 1) ∷ s.poll_attempts },
      );
  new_guid = λ s. let (g, rest) = next_guid s.guids in (returned g, record s { guids = rest });
}
