-- ===== src/Speede/Client.antt =====
-- app/clients/nsdl_speede_client.py: `BaseNsdlSpeedeClient` over the raw calls of an adapter, which
-- are a parameter. A field of a JSON row is missing, a natural number or a string; `int` reads
-- ASCII digits between white space. A header is counted in its bytes, since decoding keeps commas.
pub mod Wire
pub mod Chunks
pub mod Polling
pub mod Interface
pub mod Mock
use edpbilling_file_upload.Base.{
  ℕ, zero, suc, ◌+◌, ◌-◌, ◌==◌, max, Bool, true, false, not, ◌&&◌, ◌||◌, Option, none, some, List,
  [], ◌∷◌, ◌++◌, any, all, Text, codes, text_eq, lower, upper, strip, lstrip_by, occurs_in, truthy,
  if◌then◌else◌, or_default,
}
use edpbilling_file_upload.Base.Program.{Try, returned, raised, Program, pure, throw, ◌>>=◌, ◌>>◌}
use edpbilling_file_upload.Base.Words.{squeeze, numeral}
use edpbilling_file_upload.Cbos.Value.{show_ℕ}
use edpbilling_file_upload.Speede.{Failure, other}
use edpbilling_file_upload.Speede.Folder.{DayFile}

pub data Field : Type 0 where
  absent : Field
  number : ℕ → Field
  string : Text → Field

abbrev pub Row : Type 0
Row = List (Text × Field)

-- A JSON object that came back: its `Result`, `Status` and `fCount`.
pub record Body : Type 0 where
  pub rows : List Row
  pub status : Field
  pub f_count : Field

-- The abstract methods of `BaseNsdlSpeedeClient`, and uuid.uuid4().
pub record Api (Server : Type 0) : Type 0 where
  pub get_common_uploads : Text → Program Server Failure Body
  pub get_upload_settings : ℕ → Program Server Failure Body
  -- GUID, file name, bytes, current chunk, total chunks
  pub upload_chunk : Text → Text → List ℕ → ℕ → ℕ → Program Server Failure Body
  pub finalize_upload : ℕ → Text → Text → Text → Program Server Failure Body
  pub get_upload_status : Text → Program Server Failure Body
  pub new_guid : Program Server Failure Text

pub record ClientSettings : Type 0 where
  pub chunk_size_kb : ℕ
  pub strip_header : Bool
  pub append_trailing_newline : Bool
  pub validate_columns : Bool
  pub poll_max_attempts : ℕ
  -- html.unescape
  pub unescape : Text → Text
  -- the bytes of a file
  pub content : DayFile → List ℕ

-- `row.get(name)`
unfoldable pub field : Text → Row → Field
unfolding text_eq
field name [] = absent
field name ((n, f) ∷ row) = let rest = field name row in if text_eq n name then f else rest

-- `bool(value)`
unfoldable pub is_given : Field → Bool
is_given absent = false
is_given (number n) = not (n == 0)
is_given (string t) = truthy t

-- `a or b`
unfoldable pub either : Field → Field → Field
unfolding is_given
either a b = if is_given a then a else b

-- `str(value or "")`
unfoldable pub text_or_empty : Field → Text
unfolding is_given show_ℕ
text_or_empty absent = []
text_or_empty (number n) = if n == 0 then [] else show_ℕ n
text_or_empty (string t) = t

-- `int(value)`; anything but a numeral is a ValueError or a TypeError.
unfoldable pub int_of : Field → Try Failure ℕ
unfolding numeral strip
int_of absent = raised other
int_of (number n) = returned n
int_of (string t) = elim (numeral (strip t)) [ none ↦ raised other | some n ↦ returned n ]

-- `result[0]`, where `Result` is not empty
unfoldable pub first_row : List Row → Option Row
first_row [] = none
first_row (row ∷ rows) = some row
