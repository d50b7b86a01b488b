-- ===== src/Matching.antt =====
-- app/services/upload_matching.py: which UploadID a file belongs to. The settings that the module
-- reads are arguments; a file is its name and what reading it as text yields, line by line.
pub mod Columns
pub mod FileName
pub mod Choice
pub mod Widths
use Columns.{Lines, count_columns}
use edpbilling_file_upload.Base.{
  ℕ, zero, suc, ◌≡◌, ◌&&◌, ◌||◌, Bool, true, false, not, Option, none, some, List, [], ◌∷◌, length,
  filter, any, all, find, map, Text, codes, text_eq, one_of, lower, upper, strip, remove_code,
  starts_with, ends_with, occurs_in, truthy, leb, lstrip_by, ◌⊎◌, inl, inr, ◌==◌, if◌then◌else◌,
}
use edpbilling_file_upload.Cbos.Value.{ℤ, pos, negsuc}
use edpbilling_file_upload.Cbos.Rule.{UploadRule}
use FileName.{stem, suffix}

-- `operator.strip().upper().replace(" ", "").replace("_", "")`
unfoldable pub normal_operator : Text → Text
normal_operator operator = remove_code b'_' (remove_code b' ' (upper (strip operator)))

compare_by : Text → Text → Text → Bool
compare_by op pattern name =
    if one_of op (codes "LIKE" ∷ codes "CONTAINS" ∷ codes "" ∷ [])
    then occurs_in pattern name
    else if one_of op (codes "EQUALS" ∷ codes "EQUAL" ∷ codes "=" ∷ [])
    then text_eq pattern name
    else if one_of op (codes "STARTSWITH" ∷ [])
    then starts_with pattern name
    else if one_of op (codes "ENDSWITH" ∷ [])
    then ends_with pattern name
    else occurs_in pattern name

unfoldable pub pattern_matches : Text → Text → Text → Bool
unfolding compare_by
pattern_matches pattern operator name =
    compare_by (normal_operator operator) (lower pattern) (lower name)

unfoldable pub matches_rule : UploadRule → Text → Bool
matches_rule rule file_name = pattern_matches rule.file_name_pattern rule.compare_operator file_name

pub data FileRejected : Type 0 where
  no_matching_upload_rule ambiguous_upload_rule column_count_mismatch empty_file : FileRejected

pub data Match : Type 0 where
  matched : UploadRule → Match
  rejected : FileRejected → Match

-- The end of `_disambiguate`: one rule left, or none too many.
sole : List UploadRule → Match
sole (r ∷ []) = matched r
sole _ = rejected ambiguous_upload_rule

-- One filter of `_disambiguate`: the only rule that passes, or the pool to go on with.
narrow : (UploadRule → Bool) → List UploadRule → UploadRule ⊎ List UploadRule
narrow p pool = elim (filter p pool) [
  | [] ↦ inr pool
  | r ∷ rest ↦ (elim rest [ [] ↦ inl r | s ∷ more ↦ inr (r ∷ s ∷ more) ])
]

-- `exchange.upper() in r.name.upper()`
names_exchange : Text → UploadRule → Bool
names_exchange exchange r = occurs_in (upper exchange) (upper r.name)

has_extension : Text → UploadRule → Bool
has_extension extension r = truthy r.extension && text_eq r.extension extension

by_exchange : Option Text → List UploadRule → Match
unfolding sole narrow names_exchange
by_exchange none pool = sole pool
by_exchange (some exchange) pool =
    if truthy exchange
    then elim (narrow (names_exchange exchange) pool) [ inl r ↦ matched r | inr rest ↦ sole rest ]
    else sole pool

unfoldable pub disambiguate : List UploadRule → Text → Option Text → Match
unfolding narrow has_extension by_exchange
disambiguate tied extension exchange =
    if truthy extension
    then elim (narrow (has_extension extension) tied) [
      | inl r ↦ matched r
      | inr pool ↦ by_exchange exchange pool
    ]
    else by_exchange exchange tied

-- `candidates.sort(key=len of the pattern, reverse=True)`, which is stable
insert_by_length : UploadRule → List UploadRule → List UploadRule
insert_by_length r [] = r ∷ []
insert_by_length r (s ∷ rules) =
    let later = insert_by_length r rules in
    if leb (length s.file_name_pattern) (length r.file_name_pattern)
    then r ∷ s ∷ rules
    else s ∷ later

sort_by_length : List UploadRule → List UploadRule
unfolding insert_by_length
sort_by_length [] = []
sort_by_length (r ∷ rules) = insert_by_length r (sort_by_length rules)

has_length : ℕ → UploadRule → Bool
has_length n r = length r.file_name_pattern == n

-- `candidates`: the rules whose pattern matches the stem, both in upper case
unfoldable pub qualifies : Text → UploadRule → Bool
qualifies name r = pattern_matches (upper r.file_name_pattern) r.compare_operator name

-- `tied[0] if len(tied) == 1 else _disambiguate(…)`
choose : List UploadRule → Text → Option Text → Match
choose (r ∷ []) extension exchange = matched r
choose tied extension exchange = disambiguate tied extension exchange

-- The choice of the rule among the sorted candidates, before the columns are looked at.
pick : List UploadRule → Text → Option Text → Match
unfolding has_length choose
pick [] extension exchange = rejected no_matching_upload_rule
pick (r ∷ rules) extension exchange =
    choose (filter (has_length (length r.file_name_pattern)) (r ∷ rules)) extension exchange

pub has_width : ℤ → ℕ → Bool
has_width (pos n) w = w == n
has_width (negsuc n) w = false

-- The column check on what was sniffed: `none` lets the file through.
unfoldable pub check_columns : ℤ → List (ℕ × List ℕ) → Option FileRejected
unfolding has_width
check_columns declared sniffed =
    if not (any (λ (_, widths). truthy widths) sniffed)
    then some empty_file
    else if any (λ (_, widths). any (has_width declared) widths) sniffed
    then none
    else if all (λ (_, widths). all (λ w. w == 1) widths) sniffed
    then none
    else some column_count_mismatch

-- The settings `upload_match_validate_columns` and `upload_match_delimiter`.
pub record MatchSettings : Type 0 where
  pub validate_columns : Bool
  pub delimiter : ℕ

validate : MatchSettings → Lines → UploadRule → Option ℤ → Match
validate options content rule none = matched rule
validate options content rule (some declared) = elim (count_columns options.delimiter content) [
  | none ↦ matched rule
  | some sniffed ↦ (elim (check_columns declared sniffed) [
    | none ↦ matched rule
    | some why ↦ rejected why
  ])
]

confirm : MatchSettings → Lines → Match → Match
unfolding validate
confirm options content (rejected why) = rejected why
confirm options content (matched rule) =
    if options.validate_columns
    then validate options content rule rule.column_count
    else matched rule

unfoldable pub match_file : MatchSettings → Text → Lines → List UploadRule → Option Text → Match
unfolding qualifies sort_by_length pick confirm
match_file options file_name content rules exchange =
    let name = upper (stem file_name) in
    let extension = upper (lstrip_by (λ c. c == b'.') (suffix file_name)) in
    let candidates = sort_by_length (filter (qualifies name) rules) in
    confirm options content (pick candidates extension exchange)
