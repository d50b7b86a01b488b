-- ===== src/Speede/Catalogue.antt =====
-- app/services/nsdl_speede_service.py: the catalogue of the twelve reports, the selection that a
-- request makes from it, and the names that an entry goes by.
pub mod Selected
use edpbilling_file_upload.Base.{
  ℕ, Bool, ◌&&◌, Option, none, some, List, [], ◌∷◌, ◌++◌, map, filter, find, join, Text, codes,
  text_eq, upper, lower, strip, if◌then◌else◌, truthy,
}
use edpbilling_file_upload.Base.Program.{Try, returned, raised}
use edpbilling_file_upload.Base.Words.{squeeze}
use edpbilling_file_upload.Speede.{
  UploadCategory, UploadSettings, Failure, speede, unknown_file, unknown_category,
}

pub record SpeedeFile : Type 0 where
  pub account : Text
  pub report : Text
  pub upload_name : Text
  pub file_name : Text

unfoldable pub accounts : List Text
accounts = codes "CMPA" ∷ codes "CMFA" ∷ codes "NARNO" ∷ []

unfoldable pub open_holding : Text
open_holding = codes "OPEN HOLDING"

unfoldable pub reports : List Text
unfolding open_holding
reports = open_holding ∷ codes "pledge" ∷ codes "unpledge" ∷ codes "confiscate" ∷ []

-- `_upload_name`, the shared names of the three other reports included
unfoldable pub upload_name_of : Text → Text → Text
unfolding open_holding text_eq
upload_name_of account report =
    if text_eq report open_holding
    then codes "NSDL " ++ account ++ codes " OPEN HOLDING"
    else if text_eq report (codes "pledge")
    then codes "NSDL MARGIN PLEDGE"
    else if text_eq report (codes "unpledge")
    then codes "NSDL MARGIN UNPLEDGE"
    else codes "NSDL MARGIN CONFISCATE"

-- `f"NSDL {account} {report}"`
unfoldable pub stem_of : Text → Text → Text
stem_of account report = codes "NSDL " ++ account ++ (b' ' ∷ report)

unfoldable pub entry_of : Text → Text → SpeedeFile
unfolding upload_name_of stem_of
entry_of a r = record {
  account = a;
  report = r;
  upload_name = upload_name_of a r;
  file_name = stem_of a r ++ codes ".csv";
}

unfoldable pub catalogue : List SpeedeFile
unfolding accounts reports entry_of
catalogue = join (map (λ a. map (entry_of a) reports) accounts)

-- The keys of `_BY_KEY`.
unfoldable pub has_key : Text → Text → SpeedeFile → Bool
unfolding text_eq upper lower
has_key account report entry =
    text_eq (upper entry.account) account && text_eq (lower entry.report) report

-- `_BY_KEY.get((account, report))`
unfoldable pub by_key : Text → Text → Option SpeedeFile
unfolding has_key catalogue
by_key account report = find (has_key account report) catalogue

-- NsdlSpeedeFileSelector; a version is a natural number.
pub record Selector : Type 0 where
  pub account : Text
  pub report : Text
  pub version : Option ℕ

-- Entries of the catalogue are told apart by account and report.
unfoldable pub same_entry : SpeedeFile → SpeedeFile → Bool
unfolding text_eq
same_entry e f = text_eq e.account f.account && text_eq e.report f.report

-- `_BY_KEY.get(…)` of a selector
unfoldable pub pick : Selector → Option SpeedeFile
unfolding by_key upper lower strip
pick s = by_key (upper (strip s.account)) (lower (strip s.report))

add_request :
    Selector
    → Option SpeedeFile
    → Try Failure (List (SpeedeFile × Option ℕ))
    → Try Failure (List (SpeedeFile × Option ℕ))
add_request s none rest = raised (unknown_file s.account s.report)
add_request s (some entry) (returned rest) = returned ((entry, s.version) ∷ rest)
add_request s (some entry) (raised e) = raised e

-- The first loop: every selector's entry with its version, or the first selector that has none.
unfoldable pub lookup_all : List Selector → Try Failure (List (SpeedeFile × Option ℕ))
unfolding pick add_request
lookup_all [] = returned []
lookup_all (s ∷ selectors) = add_request s (pick s) (lookup_all selectors)

-- The versions of one entry, in the order of the request.
unfoldable pub versions_of :
    List (SpeedeFile × Option ℕ) → SpeedeFile → List (SpeedeFile × Option ℕ)
unfolding same_entry
versions_of requested entry = map (λ p. (entry, p.1)) (filter (λ p. same_entry p.0 entry) requested)

-- The last statement: in the order of the catalogue.
unfoldable pub arrange : List (SpeedeFile × Option ℕ) → List (SpeedeFile × Option ℕ)
unfolding versions_of catalogue
arrange requested = join (map (versions_of requested) catalogue)

arrange_all :
    Try Failure (List (SpeedeFile × Option ℕ)) → Try Failure (List (SpeedeFile × Option ℕ))
unfolding arrange
arrange_all (returned requested) = returned (arrange requested)
arrange_all (raised e) = raised e

unfoldable pub resolve_selection : List Selector → Try Failure (List (SpeedeFile × Option ℕ))
unfolding lookup_all arrange_all catalogue
resolve_selection [] = returned (map (λ entry. (entry, none)) catalogue)
resolve_selection (s ∷ selectors) = arrange_all (lookup_all (s ∷ selectors))

unfoldable pub normalise : Text → Text
unfolding squeeze upper
normalise name = upper (squeeze name)

unfoldable pub resolve_category : SpeedeFile → List UploadCategory → Try Failure UploadCategory
unfolding normalise text_eq
resolve_category entry categories =
    elim (find (λ c. text_eq (normalise c.upload_name) (normalise entry.upload_name)) categories) [
      | some category ↦ returned category
      | none ↦ raised (speede (unknown_category entry.upload_name))
    ]

-- The stem of the catalogue's base name is that name without ".csv".
unfoldable pub transmit_name : SpeedeFile → UploadSettings → Text
unfolding stem_of
transmit_name entry config =
    let token =
      if truthy config.file_name_contains
      then config.file_name_contains
      else stem_of entry.account entry.report in
    let extension = if truthy config.file_extension then config.file_extension else codes "csv" in
    token ++ (b'_' ∷ entry.account) ++ (b'.' ∷ extension)
