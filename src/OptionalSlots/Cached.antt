-- ===== src/OptionalSlots/Cached.antt =====
-- app/services/optional_slots.py: which slots are listed, and that the first reading is kept.
use edpbilling_file_upload.Base.{
  ◌≡◌, refl, sym, ◌∙◌, ap, true, Option, none, some, List, [], ◌∷◌, map, Text, text_eq, text_eq_iff,
  upper, if◌then◌else◌, or_default, Bool-cases, inl, inr,
}
use edpbilling_file_upload.Cbos.Value.{py_str}
use edpbilling_file_upload.OptionalSlots.{
  Document, Slots, put, get, slot_names, parse_onto, parse, load, allowlisted, reload,
}

get-put :
    (k key : Text) (slots : List Text) (parsed : Slots)
    → get k (put key slots parsed) ≡ (if text_eq key k then some slots else get k parsed)
unfolding get put
get-put k key slots [] = refl
get-put k key slots ((a, s) ∷ parsed) = elim (Bool-cases (text_eq a key)) [
  | inl e ↦
      let same : text_eq a k ≡ text_eq key k = ap (λ x. text_eq x k) ((text_eq_iff a key).0 e) in
      elim (Bool-cases (text_eq key k)) [
        | inl q ↦ rw (e, q, same ∙ q) refl
        | inr q ↦ rw (e, q, same ∙ q) refl
      ]
  | inr e ↦ elim (Bool-cases (text_eq a k)) [
    | inl q ↦ elim (Bool-cases (text_eq key k)) [
      | inl p ↦
          let clash : text_eq a key ≡ true =
            (text_eq_iff a key).1 ((text_eq_iff a k).0 q ∙ sym ((text_eq_iff key k).0 p)) in
          cc
      | inr p ↦ rw (e, q, p) refl
    ]
    | inr q ↦ rw (e, q) (get-put k key slots parsed)
  ]
]

-- The slots of the last entry of a document whose segment is the one asked for.
last_listing : Text → Option (List Text) → Document → Option (List Text)
unfolding slot_names
last_listing segment found [] = found
last_listing segment found ((s, slots) ∷ raw) =
    last_listing segment
      (if text_eq (upper (py_str s)) (upper segment) then some (slot_names slots) else found) raw

-- What a file lists for a segment.
pub slots_in : Option Document → Text → List Text
unfolding last_listing
slots_in none segment = []
slots_in (some raw) segment = or_default (last_listing segment none raw) []

get-parse_onto :
    (segment : Text) (parsed : Slots) (raw : Document)
    → get (upper segment) (parse_onto parsed raw)
      ≡ last_listing segment (get (upper segment) parsed) raw
unfolding parse_onto last_listing
get-parse_onto segment parsed [] = refl
get-parse_onto segment parsed ((s, slots) ∷ raw) =
    get-parse_onto segment (put (upper (py_str s)) (slot_names slots) parsed) raw
    ∙ ap (λ found. last_listing segment found raw)
        (get-put (upper segment) (upper (py_str s)) (slot_names slots) parsed)

get-parse :
    (file : Option Document) (segment : Text)
    → or_default (get (upper segment) (parse file)) [] ≡ slots_in file segment
unfolding parse slots_in get
get-parse none segment = refl
get-parse (some raw) segment = ap (λ o. or_default o []) (get-parse_onto segment [] raw)

-- The answers to calls that follow one another, each with the file as it is then.
abbrev pub answers : List (Option Document × Text) → Option Slots → List (List Text)
answers [] cache = []
answers ((file, segment) ∷ calls) cache =
    let (slots, kept) = allowlisted file segment cache in slots ∷ answers calls kept

cached-answers :
    (file : Option Document) (calls : List (Option Document × Text))
    → answers calls (some (parse file)) ≡ map (λ c. slots_in file c.1) calls
unfolding allowlisted load
cached-answers file [] = refl
cached-answers file ((later, segment) ∷ calls) =
    ap (λ s. s ∷ answers calls (some (parse file))) (get-parse file segment)
    ∙ ap (λ rest. slots_in file segment ∷ rest) (cached-answers file calls)

-- Any number of calls that follow `reload`, or the start, answer for their segments, in any case of
-- letters, the slots of the last entry of that segment in the file as it was at the first of these
-- calls, whatever becomes of the file.
pub answers-slots_in :
    (cache : Option Slots) (file : Option Document) (first : Text)
    (calls : List (Option Document × Text))
    → answers ((file, first) ∷ calls) (reload cache)
      ≡ slots_in file first ∷ map (λ c. slots_in file c.1) calls
unfolding allowlisted load reload
answers-slots_in cache file first calls =
    ap (λ s. s ∷ answers calls (some (parse file))) (get-parse file first)
    ∙ ap (λ rest. slots_in file first ∷ rest) (cached-answers file calls)
