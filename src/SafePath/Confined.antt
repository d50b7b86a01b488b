-- ===== src/SafePath/Confined.antt =====
-- app/core/safe_path.py: what a path that is let through is.
use mathlib.Core.List.{append-nil}
use edpbilling_file_upload.Base.{
  ◌≡◌, refl, sym, ◌∙◌, ap, subst, Bool, true, false, ◌&&◌, ◌||◌, List, [], ◌∷◌, ◌++◌, map, any,
  Text, text_eq, text_eq_iff, text_eq_refl, if◌then◌else◌, arith, ◌↔◌, and-true,
}
use edpbilling_file_upload.Base.Program.{Try, returned, raised}
use edpbilling_file_upload.SafePath.{
  Location, location_eq, segments, is_absolute, parents, lies_within, UnsafePath, absolute_path,
  escapes, resolve_within, assert_within,
}

or-true : (b : Bool) → b || true ≡ true
or-true true = refl
or-true false = refl

-- The second path is the first one or lies below it.
abbrev pub IsBelow : Location → Location → Type 0
IsBelow base p = (rest : Location) × (p ≡ base ++ rest)

location_eq_sound : (p q : Location) → location_eq p q ≡ true → p ≡ q
unfolding location_eq
location_eq_sound [] [] h = refl
location_eq_sound (s ∷ p) (t ∷ q) h =
    let (a, b) = and-true (text_eq s t) (location_eq p q) h in
    ap (λ x. x ∷ p) ((text_eq_iff s t).0 a) ∙ ap (λ x. t ∷ x) (location_eq_sound p q b)
location_eq_sound [] (_ ∷ _) h = cc
location_eq_sound (_ ∷ _) [] h = cc

location_eq_refl : (p : Location) → location_eq p p ≡ true
unfolding location_eq
location_eq_refl [] = refl
location_eq_refl (s ∷ p) = rw (text_eq_refl s) (location_eq_refl p)

any-map_cons :
    (b s : Text) (base : Location) (ps : List Location)
    → any (location_eq (b ∷ base)) (map (λ q. s ∷ q) ps)
      ≡ (text_eq b s && any (location_eq base) ps)
unfolding location_eq
any-map_cons b s base [] = ground arith
any-map_cons b s base (q ∷ ps) = ground (arith, any-map_cons b s base ps)

-- A base among the parents of a path stands in front of it.
IsBelow-parents : (base p : Location) → any (location_eq base) (parents p) ≡ true → IsBelow base p
unfolding parents location_eq
IsBelow-parents [] [] h = cc
IsBelow-parents [] (s ∷ p) h = (s ∷ p, refl)
IsBelow-parents (b ∷ base) [] h = cc
IsBelow-parents (b ∷ base) (s ∷ p) h =
    let (same, deeper) =
      and-true (text_eq b s) (any (location_eq base) (parents p))
        (sym (any-map_cons b s base (parents p)) ∙ h) in
    let (rest, e) = IsBelow-parents base p deeper in
    (rest, ap (λ x. x ∷ p) (sym ((text_eq_iff b s).0 same)) ∙ ap (λ x. b ∷ x) e)

parents_intro :
    (base : Location) (t : Text) (rest : Location)
    → any (location_eq base) (parents (base ++ (t ∷ rest))) ≡ true
unfolding parents location_eq
parents_intro [] t rest = refl
parents_intro (b ∷ base) t rest =
    any-map_cons b b base (parents (base ++ (t ∷ rest)))
    ∙ ap (λ x. x && any (location_eq base) (parents (base ++ (t ∷ rest)))) (text_eq_refl b)
    ∙ parents_intro base t rest

-- The test of both functions decides whether the path lies below the base.
pub lies_within_iff : (base p : Location) → (lies_within base p ≡ true) ↔ IsBelow base p
unfolding lies_within
lies_within_iff base p = (sound (location_eq p base) refl, λ (rest, e). complete rest e)
  where
    sound :
        (b : Bool)
        → location_eq p base ≡ b
        → b || any (location_eq base) (parents p) ≡ true
        → IsBelow base p
    sound true e h = ([], location_eq_sound p base e ∙ sym (append-nil base))
    sound false e h = IsBelow-parents base p h

    complete :
        (rest : Location)
        → p ≡ base ++ rest
        → location_eq p base || any (location_eq base) (parents p) ≡ true
    complete [] e =
        subst (λ q. location_eq q base || any (location_eq base) (parents q) ≡ true)
          (sym (e ∙ append-nil base))
          (ap (λ x. x || any (location_eq base) (parents base)) (location_eq_refl base))
    complete (t ∷ rest) e =
        subst (λ q. location_eq q base || any (location_eq base) (parents q) ≡ true) (sym e)
          (ap (λ x. location_eq (base ++ (t ∷ rest)) base || x) (parents_intro base t rest)
            ∙ or-true (location_eq (base ++ (t ∷ rest)) base))

-- How a candidate that was joined onto a root is answered.
abbrev pub IsConfined : (Location → Location) → Location → Text → Try UnsafePath Location → Type 0
IsConfined resolve root candidate (returned p) =
    (is_absolute candidate ≡ false)
    × (p ≡ resolve (resolve root ++ segments candidate))
    × IsBelow (resolve root) p
IsConfined resolve root candidate (raised absolute_path) = is_absolute candidate ≡ true
IsConfined resolve root candidate (raised escapes) =
    ¬ IsBelow (resolve root) (resolve (resolve root ++ segments candidate))

-- Whatever `resolve` does: a path that `resolve_within` returns is the resolved one and is the
-- resolved root or lies below it; it was not given as absolute. Otherwise the candidate was
-- absolute, or what it resolves to lies outside the resolved root.
pub resolve_within-IsConfined :
    (resolve : Location → Location) (root : Location) (candidate : Text)
    → IsConfined resolve root candidate (resolve_within resolve root candidate)
unfolding resolve_within
resolve_within-IsConfined resolve root candidate =
    go (is_absolute candidate) (lies_within base p) refl refl
  where
    base : Location
    base = resolve root

    p : Location
    p = resolve (resolve root ++ segments candidate)

    go :
        (a w : Bool)
        → is_absolute candidate ≡ a
        → lies_within base p ≡ w
        → IsConfined resolve root candidate
            (if a then raised absolute_path else if w then returned p else raised escapes)
    go true w e f = e
    go false true e f = (e, refl, (lies_within_iff base p).0 f)
    go false false e f = λ b. absurd (ground (arith, (lies_within_iff base p).1 b))

-- The same of a path that is absolute already.
pub assert_within-IsBelow :
    (resolve : Location → Location) (root candidate : Location) (p : Location)
    → assert_within resolve root candidate ≡ returned p
    → (p ≡ resolve candidate) × IsBelow (resolve root) p
unfolding assert_within
assert_within-IsBelow resolve root candidate p h =
    go (lies_within (resolve root) (resolve candidate)) refl h
  where
    go :
        (w : Bool)
        → lies_within (resolve root) (resolve candidate) ≡ w
        → (if w then returned (resolve candidate) else raised escapes) ≡ returned p
        → (p ≡ resolve candidate) × IsBelow (resolve root) p
    go true e k =
        let same : resolve candidate ≡ p = ground arith in
        (
          sym same,
          subst (IsBelow (resolve root)) same
              ((lies_within_iff (resolve root) (resolve candidate)).0 e),
        )
    go false e k = cc
