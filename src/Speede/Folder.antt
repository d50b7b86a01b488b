-- ===== src/Speede/Folder.antt =====
-- app/services/nsdl_speede_service.py, `day_folder` and `_locate`: the numbered file of an entry.
-- What a folder lists is a parameter, in the order in which `glob` yields it; so is `strptime`
-- followed by `strftime`. A version is written with ASCII digits.
pub mod Latest
use edpbilling_file_upload.Base.{
  ℕ, ◌-◌, ◌&&◌, Option, none, some, List, [], ◌∷◌, ◌++◌, length, take, drop, Text, codes,
  starts_with, ends_with, one_of, strip, truthy, if◌then◌else◌, leb,
}
use edpbilling_file_upload.Base.Program.{Try, returned, raised}
use edpbilling_file_upload.Base.Words.{numeral}
use edpbilling_file_upload.Cbos.Value.{show_ℕ}
use edpbilling_file_upload.Speede.Catalogue.{SpeedeFile, stem_of}

pub record Folders : Type 0 where
  -- settings.nsdl_speede_shared_folder_path
  pub root : Text
  -- settings.nsdl_speede_date_folder_format
  pub date_folder_format : Text
  -- strptime(trade_date, "%Y-%m-%d").strftime(pattern); none is the ValueError
  pub format_date : Text → Text → Option Text
  -- the names of the files in a folder; none if there is no such folder
  pub files_in : Text → Option (List Text)

-- The ValueError of a trade date that is no date, and the FileNotFoundErrors of `_locate`.
pub data LocateError : Type 0 where
  bad_date no_folder no_file : LocateError
  no_version : ℕ → LocateError

unfoldable pub day_folder : Folders → Text → Option Text
unfolding strip
day_folder folders trade_date =
    let pattern = strip folders.date_folder_format in
    if truthy pattern
    then elim (folders.format_date trade_date pattern) [
      | none ↦ none
      | some day ↦ some (folders.root ++ (b'/' ∷ day))
    ]
    else some folders.root

-- `f"{stem} {version}.csv"`
unfoldable pub numbered_name : Text → ℕ → Text
unfolding show_ℕ
numbered_name stem version = stem ++ (b' ' ∷ show_ℕ version) ++ codes ".csv"

-- What stands between the stem with its space and ".csv", for a name that the glob yields.
unfoldable pub version_of : Text → Text → Option ℕ
unfolding starts_with ends_with numeral
version_of stem name =
    let prefix = stem ++ (b' ' ∷ []) in
    if starts_with prefix name && ends_with (codes ".csv") name
    then numeral (drop (length prefix) (take (length name - 4) name))
    else none

unfoldable pub add_candidate : Option ℕ → Text → List (ℕ × Text) → List (ℕ × Text)
add_candidate none name rest = rest
add_candidate (some n) name rest = (n, name) ∷ rest

unfoldable pub candidates : Text → List Text → List (ℕ × Text)
unfolding version_of add_candidate
candidates stem [] = []
candidates stem (name ∷ names) = add_candidate (version_of stem name) name (candidates stem names)

-- `max(candidates, key=…)`, the first one so far in hand
unfoldable pub highest : ℕ × Text → List (ℕ × Text) → ℕ × Text
highest best [] = best
highest best (c ∷ rest) =
    let kept = highest best rest in
    let replaced = highest c rest in if leb c.0 best.0 then kept else replaced

pub record DayFile : Type 0 where
  pub folder : Text
  pub name : Text

-- The name of the file in its folder, with its version.
unfoldable pub locate_in : Text → Option ℕ → List Text → Try LocateError (Text × ℕ)
unfolding numbered_name candidates highest one_of
locate_in stem (some version) names =
    if one_of (numbered_name stem version) names
    then returned (numbered_name stem version, version)
    else raised (no_version version)
locate_in stem none names = elim (candidates stem names) [
  | [] ↦ raised no_file
  | (c ∷ rest) ↦ let (n, name) = highest c rest in returned (name, n)
]

unfoldable pub locate : Folders → SpeedeFile → Text → Option ℕ → Try LocateError (DayFile × ℕ)
unfolding day_folder stem_of locate_in
locate folders entry trade_date version = elim (day_folder folders trade_date) [
  | none ↦ raised bad_date
  | some folder ↦ elim (folders.files_in folder) [
    | none ↦ raised no_folder
    | some names ↦ elim (locate_in (stem_of entry.account entry.report) version names) [
      | raised e ↦ raised e
      | returned (name, n) ↦ returned (record { folder = folder; name = name }, n)
    ]
  ]
]
