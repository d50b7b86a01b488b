-- ===== src/Files.antt =====
-- app/services/file_service.py: moving a processed file into a sibling folder of its own. The disk
-- is the list of the files that exist; folders are not modelled.
pub mod Moves
use edpbilling_file_upload.Base.{
  ℕ, zero, suc, ◌&&◌, Bool, Option, none, some, List, [], ◌∷◌, ◌++◌, filter, any, not, length, Text,
  codes, text_eq, or_default, if◌then◌else◌,
}
use edpbilling_file_upload.Cbos.Value.{show_ℕ}
use edpbilling_file_upload.Matching.FileName.{stem, suffix}

pub record FilePath : Type 0 where
  pub parent : List Text
  pub name : Text

parent_eq : List Text → List Text → Bool
parent_eq [] [] = Bool.true
parent_eq (s ∷ ss) (t ∷ ts) = text_eq s t && parent_eq ss ts
parent_eq [] (_ ∷ _) = Bool.false
parent_eq (_ ∷ _) [] = Bool.false

unfoldable pub path_eq : FilePath → FilePath → Bool
unfolding parent_eq
path_eq p q = parent_eq p.parent q.parent && text_eq p.name q.name

abbrev pub Disk : Type 0
Disk = List FilePath

-- `path.exists()`
unfoldable pub exists_on : Disk → FilePath → Bool
exists_on disk p = any (path_eq p) disk

-- `dest_dir / f"{stem}_{counter}{suffix}"`
pub numbered : List Text → Text → ℕ → FilePath
numbered dest_dir name counter = record {
  parent = dest_dir;
  name = stem name ++ (b'_' ∷ (show_ℕ counter ++ suffix name));
}

-- The `while` loop over the counter; `none` if the fuel runs out.
first_free : ℕ → Disk → (ℕ → FilePath) → ℕ → Option FilePath
first_free zero disk candidate counter = none
first_free (suc fuel) disk candidate counter =
    let next = first_free fuel disk candidate (suc counter) in
    if exists_on disk (candidate counter) then next else some (candidate counter)

-- The name that the file gets. A disk of n files leaves one of n + 1 numbered names free, so the
-- fuel does not run out.
pub free_destination : Disk → List Text → Text → FilePath
unfolding first_free numbered
free_destination disk dest_dir name =
    let plain : FilePath = record { parent = dest_dir; name = name } in
    if exists_on disk plain
    then or_default (first_free (suc (length disk)) disk (numbered dest_dir name) 2) plain
    else plain

abbrev pub upload_subfolder : Text
upload_subfolder = codes "uploaded"

abbrev pub failed_subfolder : Text
failed_subfolder = codes "uploadFailed"

-- `_move_file`: the new path and disk, or `none` where `shutil.move` finds no source file.
unfoldable pub move_file : Disk → FilePath → Text → Option (FilePath × Disk)
unfolding free_destination
move_file disk file_path subfolder =
    if exists_on disk file_path
    then (let dest = free_destination disk (file_path.parent ++ (subfolder ∷ [])) file_path.name in
        some (dest, dest ∷ filter (λ p. not (path_eq file_path p)) disk))
    else none

unfoldable pub move_to_uploaded : Disk → FilePath → Option (FilePath × Disk)
unfolding move_file
move_to_uploaded disk file_path = move_file disk file_path upload_subfolder

unfoldable pub move_to_failed : Disk → FilePath → Option (FilePath × Disk)
unfolding move_file
move_to_failed disk file_path = move_file disk file_path failed_subfolder
