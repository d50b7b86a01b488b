-- ===== src/Matching/Columns.antt =====
-- `_count_columns` of app/services/upload_matching.py: the widths of the first lines of a file
-- under each delimiter, with the part of the `csv` reader's automaton that counts fields.
use edpbilling_file_upload.Base.{
  ℕ, zero, suc, Bool, Option, none, some, List, [], ◌∷◌, map, filter, not, Text, strip, truthy,
  ◌==◌, if◌then◌else◌,
}

-- What iterating over the open file yields: its lines, each without its terminator, and at the end
-- a normal end or the error (decoding or I/O) that the source catches.
pub data Lines : Type 0 where
  end broken : Lines
  line : Text → Lines → Lines

unfoldable pub prepend : Text → Option (List Text) → Option (List Text)
prepend t none = none
prepend t (some ts) = some (t ∷ ts)

-- The loop over the lines, with the number of non-blank ones still wanted.
unfoldable pub collect : ℕ → Lines → Option (List Text)
unfolding prepend
collect zero _ = some []
collect (suc k) end = some []
collect (suc k) broken = none
collect (suc k) (line t rest) =
    let skip = collect (suc k) rest in
    let kept = prepend t (collect k rest) in if truthy (strip t) then kept else skip

-- COLUMN_SNIFF_LINES
abbrev pub column_sniff_lines : ℕ
column_sniff_lines = 5

unfoldable pub sniff_lines : Lines → Option (List Text)
unfolding collect
sniff_lines = collect column_sniff_lines

pub data CsvState : Type 0 where
  start_field in_field in_quoted quote_in_quoted : CsvState

-- One character: the next state, and whether it ends a field. The excel dialect with `delimiter`.
csv_step : ℕ → CsvState → ℕ → CsvState × Bool
csv_step delimiter start_field c =
    if c == b'"'
    then (in_quoted, Bool.false)
    else if c == delimiter
    then (start_field, Bool.true)
    else (in_field, Bool.false)
csv_step delimiter in_field c =
    if c == delimiter then (start_field, Bool.true) else (in_field, Bool.false)
csv_step delimiter in_quoted c =
    if c == b'"' then (quote_in_quoted, Bool.false) else (in_quoted, Bool.false)
csv_step delimiter quote_in_quoted c =
    if c == b'"'
    then (in_quoted, Bool.false)
    else if c == delimiter
    then (start_field, Bool.true)
    else (in_field, Bool.false)

-- The end of the line closes the last field, in every state.
unfoldable pub fields_from : ℕ → CsvState → Text → ℕ
unfolding csv_step
fields_from delimiter state [] = 1
fields_from delimiter state (c ∷ t) =
    let (state', ends) = csv_step delimiter state c in
    let rest = fields_from delimiter state' t in if ends then suc rest else rest

-- `len(next(csv.reader([line], delimiter=delimiter)))`
unfoldable pub count_fields : ℕ → Text → ℕ
unfolding fields_from
count_fields delimiter t = fields_from delimiter start_field t

-- `_candidate_delimiters()`: the configured one, then "|" and tab where they differ from it
unfoldable pub candidate_delimiters : ℕ → List ℕ
candidate_delimiters configured = configured ∷ filter (λ d. not (d == configured)) (b'|' ∷ 9 ∷ [])

-- `_count_columns`: each delimiter with the width of every sniffed line, or `none` if the file
-- cannot be read as text.
unfoldable pub count_columns : ℕ → Lines → Option (List (ℕ × List ℕ))
unfolding sniff_lines count_fields candidate_delimiters
count_columns configured lines = elim (sniff_lines lines) [
  | none ↦ none
  | some ts ↦ some (map (λ d. (d, map (count_fields d) ts)) (candidate_delimiters configured))
]
