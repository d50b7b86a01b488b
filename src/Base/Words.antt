-- ===== src/Base/Words.antt =====
-- `" ".join(s.split())` and `"…".split(…)` on text, and numerals read by `int`.
use edpbilling_file_upload.Base.Tests.{leb, ◌==◌, if◌then◌else◌}
use edpbilling_file_upload.Base.Lists.{all}
use edpbilling_file_upload.Base.Strings.{Text, is_space, truthy}
use Prim.Native.Nat.{ℕ, ◌+◌, ◌-◌, ◌*◌}
use mathlib.Core.Bool.{Bool, ◌&&◌}
use mathlib.Core.Option.{Option, none, some}
use mathlib.Core.List.{List, [], ◌∷◌, ◌++◌}

-- `s.split()`, the word that is being read first
words_onto : Text → Text → List Text
unfolding is_space
words_onto [] [] = []
words_onto (c ∷ word) [] = (c ∷ word) ∷ []
words_onto [] (c ∷ s) =
    let skipped = words_onto [] s in
    let begun = words_onto (c ∷ []) s in if is_space c then skipped else begun
words_onto (d ∷ word) (c ∷ s) =
    let ended = words_onto [] s in
    let longer = words_onto (d ∷ word ++ (c ∷ [])) s in
    if is_space c then (d ∷ word) ∷ ended else longer

-- `" ".join(words)`
spaced : List Text → Text
spaced [] = []
spaced (word ∷ []) = word
spaced (word ∷ next ∷ rest) = word ++ (b' ' ∷ spaced (next ∷ rest))

unfoldable pub squeeze : Text → Text
unfolding words_onto spaced
squeeze s = spaced (words_onto [] s)

-- `len(s.split(chr(c)))`
unfoldable pub count_parts : ℕ → Text → ℕ
count_parts c [] = 1
count_parts c (d ∷ s) = let rest = count_parts c s in if d == c then rest + 1 else rest

unfoldable pub is_digit : ℕ → Bool
is_digit c = leb 48 c && leb c 57

abbrev pub value_from : ℕ → Text → ℕ
value_from v [] = v
value_from v (c ∷ t) = value_from (v * 10 + (c - 48)) t

-- `int(s)` of one or more ASCII digits
unfoldable pub numeral : Text → Option ℕ
unfolding is_digit
numeral s = if truthy s && all is_digit s then some (value_from 0 s) else none

-- `s.split(chr(c))`, the part that is being read first
split_onto : Text → ℕ → Text → List Text
split_onto part c [] = part ∷ []
split_onto part c (d ∷ s) =
    let ended = part ∷ split_onto [] c s in
    let longer = split_onto (part ++ (d ∷ [])) c s in if d == c then ended else longer

unfoldable pub split_on : ℕ → Text → List Text
unfolding split_onto
split_on c s = split_onto [] c s

-- `s.partition(chr(c))`: the part before the first separator, and the part behind it
unfoldable pub partition_on : ℕ → Text → Text × Text
partition_on c [] = ([], [])
partition_on c (d ∷ s) =
    let (before, behind) = partition_on c s in if d == c then ([], s) else (d ∷ before, behind)
