-- ===== src/OptionalSlots.antt =====
-- app/services/optional_slots.py: the allowlist that bounds Step 8. A set is the list of its members,
-- and a document is what a file parses as: its segments with their slots, `none` for null.
pub mod Cached
use edpbilling_file_upload.Base.{
  Bool, Option, none, some, List, [], ◌∷◌, map, Text, text_eq, upper, if◌then◌else◌, or_default,
}
use edpbilling_file_upload.Cbos.Value.{Scalar, py_str}

abbrev pub Document : Type 0
Document = List (Scalar × Option (List Scalar))

-- What `_load` returns.
abbrev pub Slots : Type 0
Slots = List (Text × List Text)

-- `parsed[key] = slots`
unfoldable pub put : Text → List Text → Slots → Slots
unfolding text_eq
put key slots [] = (key, slots) ∷ []
put key slots ((k, s) ∷ parsed) =
    let rest = (k, s) ∷ put key slots parsed in if text_eq k key then (k, slots) ∷ parsed else rest

-- `parsed.get(key)`
unfoldable pub get : Text → Slots → Option (List Text)
unfolding text_eq
get key [] = none
get key ((k, s) ∷ parsed) = let rest = get key parsed in if text_eq k key then some s else rest

-- `{str(slot) for slot in (slots or [])}`
unfoldable pub slot_names : Option (List Scalar) → List Text
unfolding py_str
slot_names none = []
slot_names (some slots) = map py_str slots

-- The dictionary that is built from its entries in order.
unfoldable pub parse_onto : Slots → Document → Slots
unfolding put slot_names py_str upper
parse_onto parsed [] = parsed
parse_onto parsed ((segment, slots) ∷ raw) =
    parse_onto (put (upper (py_str segment)) (slot_names slots) parsed) raw

unfoldable pub parse : Option Document → Slots
unfolding parse_onto
parse none = []
parse (some raw) = parse_onto [] raw

-- `_load`, with what its cache holds before and after; a file that is missing is `none`.
unfoldable pub load : Option Document → Option Slots → Slots × Option Slots
unfolding parse
load file (some cached) = (cached, some cached)
load file none = (parse file, some (parse file))

unfoldable pub allowlisted : Option Document → Text → Option Slots → List Text × Option Slots
unfolding load get upper
allowlisted file segment cache =
    let (parsed, kept) = load file cache in (or_default (get (upper segment) parsed) [], kept)

unfoldable pub reload : Option Slots → Option Slots
reload cache = none
