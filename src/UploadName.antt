-- ===== src/UploadName.antt =====
-- app/services/cbos_filename.py: the name that CBOS is told. The reply of Step 40 is a parameter; dates
-- are those of Python's `date`, as day numbers of the Gregorian calendar. Digits are ASCII.
pub mod Tokens
pub mod Late
use edpbilling_file_upload.Base.{
  ℕ, zero, suc, ◌+◌, ◌-◌, ◌*◌, ◌/◌, ◌%◌, ◌==◌, leb, ltb, Bool, true, false, not, ◌&&◌, ◌||◌, Option,
  none, some, List, [], ◌∷◌, ◌++◌, length, take, drop, filter, Text, codes, text_eq, upper, strip,
  starts_with, if◌then◌else◌, or_default,
}
use edpbilling_file_upload.Base.Words.{is_digit, numeral}
use edpbilling_file_upload.Cbos.Value.{Scalar, py_bool, py_str}

-- `data`, with the three fields that are read
pub record Expected : Type 0 where
  pub date_basis : Scalar
  pub input_trade_date : Scalar
  pub last_trading_date : Scalar

-- The audit entry.
pub record Rewritten : Type 0 where
  pub upload_id : Text
  pub on_disk : Text
  pub sent_as : Text
  pub cbos_last_trading_date : Text
  pub sent_date_token : Text
  pub days_late : ℕ

-- _MAX_LATE_STAMP_DAYS
unfoldable pub max_late_stamp_days : ℕ
max_late_stamp_days = 3

-- `str(value or "")`
unfoldable pub text_or_empty : Scalar → Text
unfolding py_bool py_str
text_or_empty v = if py_bool v then py_str v else []

unfoldable pub is_leap : ℕ → Bool
is_leap y = (y % 4 == 0) && (not (y % 100 == 0) || y % 400 == 0)

unfoldable pub days_in : ℕ → ℕ → ℕ
unfolding is_leap
days_in y m =
    if m == 2
    then (if is_leap y then 29 else 28)
    else if (m == 4) || (m == 6) || (m == 9) || (m == 11)
    then 30
    else 31

-- The days of the months before the one that follows the given number of them.
unfoldable pub days_before : ℕ → ℕ → ℕ
unfolding days_in
days_before y zero = 0
days_before y (suc m) = days_before y m + days_in y (suc m)

-- `date(year, month, day).toordinal()`; `none` is the ValueError.
unfoldable pub ordinal : ℕ → ℕ → ℕ → Option ℕ
unfolding days_in days_before
ordinal y m d =
    if leb 1 y && leb y 9999 && leb 1 m && leb m 12 && leb 1 d && leb d (days_in y m)
    then some
        ((y - 1) * 365 + (y - 1) / 4 - (y - 1) / 100 + (y - 1) / 400 + days_before y (m - 1) + d)
    else none

of_parts : Option ℕ → Option ℕ → Option ℕ → Option ℕ
unfolding ordinal
of_parts (some y) (some m) (some d) = ordinal y m d
of_parts none m d = none
of_parts (some y) none d = none
of_parts (some y) (some m) none = none

two_thousand : Option ℕ → Option ℕ
two_thousand none = none
two_thousand (some n) = some (2000 + n)

-- `token[i:j]`
unfoldable pub slice : ℕ → ℕ → Text → Text
slice i j token = take (j - i) (drop i token)

-- `_as_date`
unfoldable pub as_date : Text → Option ℕ
unfolding slice numeral of_parts two_thousand
as_date token =
    let year =
      if length token == 8
      then numeral (slice 4 8 token)
      else two_thousand (numeral (slice 4 6 token)) in
    of_parts year (numeral (slice 2 4 token)) (numeral (slice 0 2 token))

-- The runs of digits, the one that is being read first; runs of other lengths are dropped later.
runs_onto : Text → Text → List Text
unfolding is_digit
runs_onto run [] = run ∷ []
runs_onto run (c ∷ s) =
    let longer = runs_onto (run ++ (c ∷ [])) s in
    let ended = run ∷ runs_onto [] s in if is_digit c then longer else ended

-- `pattern.findall`: the runs of exactly so many digits
unfoldable pub find_all : ℕ → Text → List Text
unfolding runs_onto
find_all n name = filter (λ run. length run == n) (runs_onto [] name)

or_later : Text → Option ℕ → Option (Text × ℕ) → Option (Text × ℕ)
or_later token none later = later
or_later token (some d) later = some (token, d)

-- The first token that is a date, with the date.
unfoldable pub first_date : List Text → Option (Text × ℕ)
unfolding as_date or_later
first_date [] = none
first_date (t ∷ tokens) = or_later t (as_date t) (first_date tokens)

-- `name.replace(old, new, 1)`, of an `old` that is not empty
unfoldable pub replace_first : Text → Text → Text → Text
unfolding starts_with
replace_first old new [] = []
replace_first old new (c ∷ s) =
    let rest = c ∷ replace_first old new s in
    if starts_with old (c ∷ s) then new ++ drop (length old) (c ∷ s) else rest

or_shorter : Text → Option (Text × ℕ) → Option (Text × ℕ) → Option (Text × ℕ × Text)
unfolding slice
or_shorter wanted (some (t, d)) shorter = some (t, d, wanted)
or_shorter wanted none (some (t, d)) = some (t, d, slice 0 4 wanted ++ slice 6 8 wanted)
or_shorter wanted none none = none

-- The token that is found and the one that is wanted: of 8 digits, or else of 6.
unfoldable pub found_in : Text → Text → Option (Text × ℕ × Text)
unfolding find_all first_date or_shorter
found_in wanted local_name =
    or_shorter wanted (first_date (find_all 8 local_name)) (first_date (find_all 6 local_name))

-- The end of the function, from the tokens on.
unfoldable pub rewrite : Text → Text → Text → ℕ → Option (Text × ℕ × Text) → Text × Option Rewritten
unfolding text_eq replace_first max_late_stamp_days
rewrite upload_id local_name wanted wanted_date none = (local_name, none)
rewrite upload_id local_name wanted wanted_date (some (token, date, wanted_token)) =
    let gap = date - wanted_date in
    let new_name = replace_first token wanted_token local_name in
    if text_eq token wanted_token
    then (local_name, none)
    else if ltb wanted_date date && leb gap max_late_stamp_days
    then (
      new_name,
      some (record {
        upload_id = upload_id;
        on_disk = local_name;
        sent_as = new_name;
        cbos_last_trading_date = wanted;
        sent_date_token = wanted_token;
        days_late = gap;
      }),
    )
    else (local_name, none)

with_date : Text → Text → Text → Option ℕ → Text × Option Rewritten
unfolding rewrite found_in
with_date upload_id local_name wanted none = (local_name, none)
with_date upload_id local_name wanted (some wanted_date) =
    rewrite upload_id local_name wanted wanted_date (found_in wanted local_name)

-- From the wanted session on.
unfoldable pub for_session : Text → Text → Text → Text × Option Rewritten
unfolding as_date with_date
for_session upload_id local_name wanted =
    if length wanted == 8
    then with_date upload_id local_name wanted (as_date wanted)
    else (local_name, none)

-- `enabled` is settings.cbos_rewrite_upload_filename_date; `none` for a Step 40 that failed.
unfoldable pub resolve_upload_name :
    Bool → Option Expected → Text → Text → Text → Text × Option Rewritten
unfolding text_or_empty upper strip text_eq for_session
resolve_upload_name enabled none upload_id local_name trade_date = (local_name, none)
resolve_upload_name enabled (some e) upload_id local_name trade_date =
    let untouched : Text × Option Rewritten = (local_name, none) in
    if not enabled
    then untouched
    else if not (text_eq (upper (strip (text_or_empty e.date_basis))) (codes "T-1"))
    then untouched
    else if not (text_eq (take 10 (text_or_empty e.input_trade_date)) (take 10 trade_date))
    then untouched
    else for_session upload_id local_name (strip (text_or_empty e.last_trading_date))
