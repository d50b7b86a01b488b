-- ===== src/UploadName/Tokens.antt =====
-- app/services/cbos_filename.py: the stamps that are looked for in a name, and their lengths.
use mathlib.Core.Option.{some_inj}
use edpbilling_file_upload.Base.{
  ℕ, zero, suc, ◌==◌, ◌≤◌, ◌≡◌, refl, sym, ◌∙◌, ap, true, ◌⊎◌, Option, none, some, List, [], ◌∷◌,
  ◌++◌, length, take, drop, length-append, length-drop, Text, starts_with, Bool-cases, inl, inr,
  arith, ==_iff, In, In-filter,
}
use edpbilling_file_upload.UploadName.{
  slice, as_date, find_all, or_later, first_date, or_shorter, replace_first, found_in,
}

starts_with-length : (p s : Text) → starts_with p s ≡ true → length p ≤ length s
unfolding starts_with
starts_with-length [] s h = omega arith
starts_with-length (c ∷ p) [] h = cc
starts_with-length (c ∷ p) (d ∷ s) h = ground (arith, starts_with-length p s)

-- A token takes the place of one of its length.
pub length-replace_first :
    (old new s : Text) → length old ≡ length new → length (replace_first old new s) ≡ length s
unfolding replace_first
length-replace_first old new [] h = refl
length-replace_first old new (c ∷ s) h = elim (Bool-cases (starts_with old (c ∷ s))) [
  | inl e ↦ rw e (
      length-append new (drop (length old) (c ∷ s))
      ∙ omega (arith, h, length-drop (length old) (c ∷ s), starts_with-length old (c ∷ s) e))
  | inr e ↦ rw e (ap suc (length-replace_first old new s h))
]

or_later-In :
    (x : Text) (o : Option ℕ) (tokens : List Text) (t : Text) (d : ℕ)
    → as_date x ≡ o
    → (first_date tokens ≡ some (t, d) → In t tokens × (as_date t ≡ some d))
    → or_later x o (first_date tokens) ≡ some (t, d)
    → In t (x ∷ tokens) × (as_date t ≡ some d)
unfolding or_later
or_later-In x none tokens t d e later k = let (m, q) = later k in (inr m, q)
or_later-In x (some v) tokens t d e later k =
    let same : (x, v) ≡ (t, d) = some_inj.0 k in
    (
      inl (sym (ap (λ p. p.0) same)),
      ap as_date (sym (ap (λ p. p.0) same)) ∙ e ∙ ap (λ p. some p.1) same,
    )

-- The token of a date is one of those looked at.
first_date-In :
    (tokens : List Text) (t : Text) (d : ℕ)
    → first_date tokens ≡ some (t, d)
    → In t tokens × (as_date t ≡ some d)
unfolding first_date
first_date-In [] t d h = cc
first_date-In (x ∷ tokens) t d h =
    or_later-In x (as_date x) tokens t d refl (first_date-In tokens t d) h

-- A date found among the runs of so many digits.
find_all-date :
    (n : ℕ) (name t : Text) (d : ℕ)
    → first_date (find_all n name) ≡ some (t, d)
    → (length t ≡ n) × (as_date t ≡ some d)
unfolding find_all
find_all-date n name t d h =
    let (m, q) = first_date-In _ t d h in
    ((==_iff (length t) n).0 (In-filter (λ run. length run == n) t _ m).1, q)

length-take_exact : (n : ℕ) (xs : Text) → n ≤ length xs → length (take n xs) ≡ n
length-take_exact zero xs h = refl
length-take_exact (suc n) [] h = absurd (omega arith)
length-take_exact (suc n) (x ∷ xs) h = ap suc (length-take_exact n xs (omega arith))

length-short :
    (wanted : Text) → length wanted ≡ 8 → length (slice 0 4 wanted ++ slice 6 8 wanted) ≡ 6
unfolding slice
length-short wanted h =
    length-append (take 4 wanted) (take 2 (drop 6 wanted))
    ∙ omega (
      arith,
      h,
      length-take_exact 4 wanted (omega (arith, h)),
      length-take_exact 2 (drop 6 wanted) (omega (arith, h, length-drop 6 wanted)),
    )

-- The stamp of a session in one of its two forms.
abbrev pub IsStampOf : Text → Text → Type 0
IsStampOf wanted w = (w ≡ wanted) ⊎ (w ≡ slice 0 4 wanted ++ slice 6 8 wanted)

or_shorter-length :
    (wanted : Text) (o s : Option (Text × ℕ)) (t : Text) (d : ℕ) (w : Text)
    → length wanted ≡ 8
    → ((t : Text) (d : ℕ) → o ≡ some (t, d) → (length t ≡ 8) × (as_date t ≡ some d))
    → ((t : Text) (d : ℕ) → s ≡ some (t, d) → (length t ≡ 6) × (as_date t ≡ some d))
    → or_shorter wanted o s ≡ some (t, d, w)
    → (length t ≡ length w) × (as_date t ≡ some d) × IsStampOf wanted w
unfolding or_shorter
or_shorter-length wanted (some (t', d')) s t d w h long short k =
    let same : (t', d', wanted) ≡ (t, d, w) = some_inj.0 k in
    let (l, q) = long t d (ap (λ p. some (p.0, p.1)) same) in
    (l ∙ sym h ∙ ap length (ap (λ p. p.2) same), q, inl (sym (ap (λ p. p.2) same)))
or_shorter-length wanted none (some (t', d')) t d w h long short k =
    let same : (t', d', slice 0 4 wanted ++ slice 6 8 wanted) ≡ (t, d, w) = some_inj.0 k in
    let (l, q) = short t d (ap (λ p. some (p.0, p.1)) same) in
    (
      l ∙ sym (length-short wanted h) ∙ ap length (ap (λ p. p.2) same),
      q,
      inr (sym (ap (λ p. p.2) same)),
    )
or_shorter-length wanted none none t d w h long short k = cc

pub found_in-length :
    (wanted name t : Text) (d : ℕ) (w : Text)
    → length wanted ≡ 8
    → found_in wanted name ≡ some (t, d, w)
    → (length t ≡ length w) × (as_date t ≡ some d) × IsStampOf wanted w
unfolding found_in
found_in-length wanted name t d w h =
    or_shorter-length wanted _ _ t d w h (find_all-date 8 name) (find_all-date 6 name)
