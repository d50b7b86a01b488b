-- ===== src/SafePath.antt =====
-- app/core/safe_path.py. An absolute path is the list of its segments. `Path.resolve`, which follows
-- the links on the disk, is a parameter.
pub mod Confined
use edpbilling_file_upload.Base.{
  ℕ, Bool, true, false, not, ◌&&◌, ◌||◌, List, [], ◌∷◌, ◌++◌, map, any, filter, Text, text_eq, ◌==◌,
  truthy, codes, if◌then◌else◌,
}
use edpbilling_file_upload.Base.Program.{Try, returned, raised}
use edpbilling_file_upload.Base.Words.{split_on}

abbrev pub Location : Type 0
Location = List Text

unfoldable pub location_eq : Location → Location → Bool
unfolding text_eq
location_eq [] [] = true
location_eq (s ∷ p) (t ∷ q) = text_eq s t && location_eq p q
location_eq [] (_ ∷ _) = false
location_eq (_ ∷ _) [] = false

-- `Path(candidate)`: the segments of a path; empty ones and "." drop out.
unfoldable pub segments : Text → Location
unfolding split_on text_eq
segments candidate = filter (λ s. truthy s && not (text_eq s (codes "."))) (split_on b'/' candidate)

-- `raw.is_absolute()`
unfoldable pub is_absolute : Text → Bool
is_absolute [] = false
is_absolute (c ∷ candidate) = c == b'/'

-- `path.parents`, the root first
unfoldable pub parents : Location → List Location
parents [] = []
parents (s ∷ p) = [] ∷ map (λ q. s ∷ q) (parents p)

-- `resolved == base or base in resolved.parents`
unfoldable pub lies_within : Location → Location → Bool
unfolding location_eq parents
lies_within base resolved = location_eq resolved base || any (location_eq base) (parents resolved)

-- UnsafePathError
pub data UnsafePath : Type 0 where
  absolute_path escapes : UnsafePath

module _ (resolve : Location → Location) where
  unfoldable pub resolve_within : Location → Text → Try UnsafePath Location
  unfolding is_absolute segments lies_within
  resolve_within root candidate =
      let base = resolve root in
      let resolved = resolve (base ++ segments candidate) in
      if is_absolute candidate
      then raised absolute_path
      else if lies_within base resolved
      then returned resolved
      else raised escapes

  unfoldable pub assert_within : Location → Location → Try UnsafePath Location
  unfolding lies_within
  assert_within root candidate =
      let base = resolve root in
      let resolved = resolve candidate in
      if lies_within base resolved then returned resolved else raised escapes
