-- ===== src/Matching/FileName.antt =====
-- The parts of a file name, as `pathlib` takes them.
use mathlib.Core.List.{reverse}
use edpbilling_file_upload.Base.{
  Option, none, some, [], ◌∷◌, Text, ◌==◌, if◌then◌else◌, ◌&&◌, truthy,
}

-- The text before the last dot, reversed, and that after it, from the reversed name.
split_dot : Text → Text → Option (Text × Text)
split_dot after [] = none
split_dot after (c ∷ t) =
    let rest = split_dot (c ∷ after) t in if c == b'.' then some (t, after) else rest

-- `name[:i], name[i:]` at the last dot, if it is neither the first nor the last character.
unfoldable pub split_suffix : Text → Text × Text
unfolding split_dot
split_suffix name = elim (split_dot [] (reverse name)) [
  | none ↦ (name, [])
  | some (before, after) ↦
      if truthy before && truthy after then (reverse before, b'.' ∷ after) else (name, [])
]

-- `path.stem`
unfoldable pub stem : Text → Text
unfolding split_suffix
stem name = (split_suffix name).0

-- `path.suffix`
unfoldable pub suffix : Text → Text
unfolding split_suffix
suffix name = (split_suffix name).1
