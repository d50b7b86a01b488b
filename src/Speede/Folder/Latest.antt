-- ===== src/Speede/Folder/Latest.antt =====
-- app/services/nsdl_speede_service.py, `_locate`: the file that is taken where no version is asked for.
use edpbilling_file_upload.Base.{
  ℕ, ◌≤◌, ◌≡◌, refl, sym, ◌∙◌, ap, subst, Bool, true, false, none, some, List, [], ◌∷◌, In, Text,
  if◌then◌else◌, leb, Bool-cases, Option-cases, inl, inr, arith,
}
use edpbilling_file_upload.Base.Program.{Try, returned, raised}
use edpbilling_file_upload.Speede.Folder.{
  LocateError, no_file, version_of, add_candidate, candidates, highest, locate_in,
}

candidates-none :
    (stem x : Text) (names : List Text)
    → version_of stem x ≡ none
    → candidates stem (x ∷ names) ≡ candidates stem names
unfolding candidates
candidates-none stem x names e = ap (λ o. add_candidate o x (candidates stem names)) e

candidates-some :
    (stem x : Text) (names : List Text) (v : ℕ)
    → version_of stem x ≡ some v
    → candidates stem (x ∷ names) ≡ (v, x) ∷ candidates stem names
unfolding candidates
candidates-some stem x names v e = ap (λ o. add_candidate o x (candidates stem names)) e

candidates-In :
    (stem : Text) (names : List Text) (n : ℕ) (name : Text)
    → In (n, name) (candidates stem names)
    → In name names × (version_of stem name ≡ some n)
unfolding candidates
candidates-In stem [] n name m = elim m [ ]
candidates-In stem (x ∷ names) n name m = elim (Option-cases (version_of stem x)) [
  | inl e ↦
      let (k, v) =
        candidates-In stem names n name (subst (In (n, name)) (candidates-none stem x names e) m) in
      (inr k, v)
  | inr (v, e) ↦ elim (subst (In (n, name)) (candidates-some stem x names v e) m) [
    | inl q ↦
        (inl (ap (λ p. p.1) q), ap (λ p. version_of stem p.1) q ∙ e ∙ ap (λ p. some p.0) (sym q))
    | inr k ↦ let (j, w) = candidates-In stem names n name k in (inr j, w)
  ]
]

candidates-In_intro :
    (stem : Text) (names : List Text) (n : ℕ) (name : Text)
    → In name names
    → version_of stem name ≡ some n
    → In (n, name) (candidates stem names)
unfolding candidates
candidates-In_intro stem [] n name m e = elim m [ ]
candidates-In_intro stem (x ∷ names) n name (inl q) e =
    subst (In (n, name)) (sym (candidates-some stem x names n (sym (ap (version_of stem) q) ∙ e)))
      (inl (ap (λ t. (n, t)) q))
candidates-In_intro stem (x ∷ names) n name (inr m) e =
    let rest = candidates-In_intro stem names n name m e in
    elim (Option-cases (version_of stem x)) [
      | inl f ↦ subst (In (n, name)) (sym (candidates-none stem x names f)) rest
      | inr (v, f) ↦ subst (In (n, name)) (sym (candidates-some stem x names v f)) (inr rest)
    ]

highest-In : (best : ℕ × Text) (rest : List (ℕ × Text)) → In (highest best rest) (best ∷ rest)
unfolding highest
highest-In best [] = inl refl
highest-In best (c ∷ rest) = go (leb c.0 best.0) (highest-In best rest) (highest-In c rest)
  where
    go :
        (b : Bool)
        → In (highest best rest) (best ∷ rest)
        → In (highest c rest) (c ∷ rest)
        → In (if b then highest best rest else highest c rest) (best ∷ c ∷ rest)
    go true (inl e) k = inl e
    go true (inr m) k = inr (inr m)
    go false h k = inr k

highest_start : (best : ℕ × Text) (rest : List (ℕ × Text)) → best.0 ≤ (highest best rest).0
unfolding highest
highest_start best [] = omega arith
highest_start best (c ∷ rest) = elim (Bool-cases (leb c.0 best.0)) [
  | inl e ↦ rw e (highest_start best rest)
  | inr e ↦ rw e (let h : c.0 ≤ (highest c rest).0 = highest_start c rest in ground arith)
]

highest_bound :
    (best : ℕ × Text) (rest : List (ℕ × Text)) (x : ℕ × Text)
    → In x rest
    → x.0 ≤ (highest best rest).0
unfolding highest
highest_bound best [] x m = elim m [ ]
highest_bound best (c ∷ rest) x (inl q) = elim (Bool-cases (leb c.0 best.0)) [
  | inl e ↦ rw e (
      let h : best.0 ≤ (highest best rest).0 = highest_start best rest in
      let same : x.0 ≡ c.0 = ap (λ y. y.0) q in ground arith)
  | inr e ↦ rw e (subst (λ y. y.0 ≤ (highest c rest).0) (sym q) (highest_start c rest))
]
highest_bound best (c ∷ rest) x (inr m) = elim (Bool-cases (leb c.0 best.0)) [
  | inl e ↦ rw e (highest_bound best rest x m)
  | inr e ↦ rw e (highest_bound c rest x m)
]

-- What `_locate` without a version makes of the names in the folder.
abbrev pub IsLatest : Text → List Text → Try LocateError (Text × ℕ) → Type 0
IsLatest stem names (returned (name, n)) =
    In name names
    × (version_of stem name ≡ some n)
    × ((other : Text) (m : ℕ) → In other names → version_of stem other ≡ some m → m ≤ n)
IsLatest stem names (raised e) =
    (e ≡ no_file) × ((other : Text) → In other names → version_of stem other ≡ none)

-- Without a version asked for, the file that is located lies in the folder, its name is the entry's
-- numbered name with the version that is returned, and no file of the entry has a higher number.
-- It is the error "no such file" exactly where no name in the folder is one of the entry's.
pub locate_in-IsLatest :
    (stem : Text) (names : List Text) → IsLatest stem names (locate_in stem none names)
unfolding locate_in
locate_in-IsLatest stem names = go (candidates stem names) refl
  where
    go :
        (found : List (ℕ × Text))
        → candidates stem names ≡ found
        → IsLatest stem names (elim found [
          | [] ↦ raised no_file
          | (c ∷ rest) ↦ let (n, name) = highest c rest in returned (name, n)
        ])
    go [] e = (
      refl,
      λ other m. elim (Option-cases (version_of stem other)) [
        | inl q ↦ q
        | inr (v, q) ↦ absurd (subst (In (v, other)) e (candidates-In_intro stem names v other m q))
      ],
    )
    go (c ∷ rest) e =
        let (x, v) =
          candidates-In stem names (highest c rest).0 (highest c rest).1
            (subst (In (highest c rest)) (sym e) (highest-In c rest)) in
        (
          x,
          v,
          λ other m k q.
              elim (subst (In (m, other)) e (candidates-In_intro stem names m other k q)) [
                | inl same ↦ subst (λ y. y.0 ≤ (highest c rest).0) (sym same) (highest_start c rest)
                | inr j ↦ highest_bound c rest (m, other) j
              ],
        )
