-- ===== src/Audit/Claims/Takeover.antt =====
-- Taking a path over: app/repositories/uploaded_file_repository.py, `claim_file_path`.
use edpbilling_file_upload.Base.{
  ℕ, ◌≡◌, ◌≢◌, refl, ap, sym, ◌∙◌, Bool, false, Option, none, some, any, In, any-In_intro,
  Bool-cases, inl, inr, arith, ◌==◌, ==_iff, not, ◌&&◌, find, subst, find-In, find-none, any-none,
  and-true,
}
use edpbilling_file_upload.Files.{FilePath}
use edpbilling_file_upload.Audit.{
  Location, at, superseded, location_eq, UploadedFile, Table, update_row, set_path, claim_file_path,
}
use edpbilling_file_upload.Audit.Claims.{
  location_eq_iff, at-ne-superseded, IsConsistent, In-update_row, move_to, taken_by_other,
  set_path-paths,
}

-- Setting a row's path either trips the UNIQUE constraint or keeps it.
set_path-IsConsistent :
    (id : ℕ) (path : Location) (t t' : Table)
    → set_path id path t ≡ some t'
    → IsConsistent t
    → IsConsistent t'
unfolding set_path
set_path-IsConsistent id path t t' h c = elim (Bool-cases (any (taken_by_other id path) t.rows)) [
  | inl e ↦ absurd (ground arith)
  | inr e ↦
      let same : update_row id (move_to path) t ≡ t' = ground arith in
      subst IsConsistent same (set_path-paths id path t e c)
]

-- The path is free to be set where no other row has it.
set_path-free :
    (id : ℕ) (path : Location) (t : Table)
    → any (taken_by_other id path) t.rows ≡ false
    → set_path id path t ≡ some (update_row id (move_to path) t)
unfolding set_path
set_path-free id path t h = rw h

-- No row but this one has the path.
abbrev IsFreeFor : ℕ → Location → Table → Type 0
IsFreeFor id path t = (r : UploadedFile) → In r t.rows → r.id ≢ id → r.file_path ≢ path

any-taken_by_other :
    (id : ℕ) (path : Location) (t : Table)
    → IsFreeFor id path t
    → any (taken_by_other id path) t.rows ≡ false
any-taken_by_other id path t free =
    any-none _ t.rows
      (λ r m. ground (arith, ==_iff r.id id, location_eq_iff r.file_path path, free r m))

set_path-succeeds :
    (id : ℕ) (path : Location) (t : Table)
    → IsFreeFor id path t
    → set_path id path t ≡ some (update_row id (move_to path) t)
set_path-succeeds id path t free = set_path-free id path t (any-taken_by_other id path t free)

-- The row that `claim_file_path` looks for.
abbrev claims_it : ℕ → FilePath → UploadedFile → Bool
claims_it id path r = location_eq r.file_path (at path) && not (r.id == id)

free_of_none :
    (id : ℕ) (path : FilePath) (t : Table)
    → find (claims_it id path) t.rows ≡ none
    → IsFreeFor id (at path) t
free_of_none id path t e r m other there = absurd (
    ground (
      arith,
      find-none (claims_it id path) t.rows e,
      any-In_intro (claims_it id path) r t.rows m,
      ==_iff r.id id,
      location_eq_iff r.file_path (at path),
      other,
      there,
    ))

module _ (id : ℕ) (path : FilePath) (t : Table) (c : IsConsistent t)
    (unused : (r : UploadedFile) → In r t.rows → r.file_path ≢ superseded path id)
    (stale : UploadedFile) (e : find (claims_it id path) t.rows ≡ some stale) where
  stale_there : stale.file_path ≡ at path
  stale_there =
      (location_eq_iff stale.file_path (at path)).0
        (and-true _ _ (find-In (claims_it id path) t.rows stale e).1).0

  retired : Table
  retired = update_row stale.id (move_to (superseded path id)) t

  retire-succeeds : set_path stale.id (superseded path id) t ≡ some retired
  unfolding retired
  retire-succeeds =
      set_path-succeeds stale.id (superseded path id) t (λ r m _ there. unused r m there)

  free_after_retire : IsFreeFor id (at path) retired
  unfolding retired
  free_after_retire r m other there =
      let (s, k, which) = In-update_row stale.id (move_to (superseded path id)) t r m in
      elim which [
        | inl (a, b) ↦
            absurd
              (at-ne-superseded path path id (sym there ∙ ap (λ (q : UploadedFile). q.file_path) b))
        | inr (a, b) ↦ a (
            c.paths s stale k (find-In (claims_it id path) t.rows stale e).0
              (sym (ap (λ (q : UploadedFile). q.file_path) b) ∙ there ∙ sym stale_there))
      ]

-- Claiming a path trips no constraint, unless a row already carries the marker that this very claim
-- would retire the earlier row with.
pub claim_file_path-succeeds :
    (id : ℕ) (path : FilePath) (t : Table)
    → IsConsistent t
    → ((r : UploadedFile) → In r t.rows → r.file_path ≢ superseded path id)
    → (t' : Table) × (claim_file_path id path t ≡ some t')
unfolding claim_file_path
claim_file_path-succeeds id path t c unused = go (find (claims_it id path) t.rows) refl
  where
    go :
        (o : Option UploadedFile)
        → find (claims_it id path) t.rows ≡ o
        → (t' : Table) × (claim_file_path id path t ≡ some t')
    go none e = (
      update_row id (move_to (at path)) t,
      rw (e, claim_file_path) (set_path-succeeds id (at path) t (free_of_none id path t e)),
    )
    go (some stale) e = (
      update_row id (move_to (at path)) (retired id path t c unused stale e),
      rw (e, claim_file_path)
          (rw (retire-succeeds id path t c unused stale e)
            (set_path-succeeds id (at path) _ (free_after_retire id path t c unused stale e))),
    )

set_path-path :
    (id : ℕ) (path : Location) (t t' : Table)
    → set_path id path t ≡ some t'
    → (r : UploadedFile) → In r t'.rows
    → r.id ≡ id
    → r.file_path ≡ path
unfolding set_path
set_path-path id path t t' h r m e = elim (Bool-cases (any (taken_by_other id path) t.rows)) [
  | inl taken ↦ absurd (ground arith)
  | inr free ↦
      let same : update_row id (move_to path) t ≡ t' = ground arith in
      let (s, k, c) = In-update_row id (move_to path) t r (subst (λ u. In r u.rows) (sym same) m) in
      elim c [
        | inl (own, f) ↦ ap (λ (q : UploadedFile). q.file_path) f
        | inr (other, f) ↦ absurd (other (sym (ap (λ (q : UploadedFile). q.id) f) ∙ e))
      ]
]

-- The row that claims a path has it afterwards.
pub claim_file_path-path :
    (id : ℕ) (path : FilePath) (t t' : Table)
    → claim_file_path id path t ≡ some t'
    → (r : UploadedFile) → In r t'.rows
    → r.id ≡ id
    → r.file_path ≡ at path
unfolding claim_file_path
claim_file_path-path id path t t' h r m e =
    go (find (λ r. location_eq r.file_path (at path) && not (r.id == id)) t.rows) h
  where
    retired :
        (o : Option Table)
        → (elim o [ none ↦ none | some t₁ ↦ set_path id (at path) t₁ ]) ≡ some t'
        → r.file_path ≡ at path
    retired none k = cc
    retired (some u) k = set_path-path id (at path) u t' k r m e

    go :
        (o : Option UploadedFile)
        → (elim o [
          | none ↦ set_path id (at path) t
          | some stale ↦ (elim (set_path stale.id (superseded path id) t) [
            | none ↦ none
            | some t₁ ↦ set_path id (at path) t₁
          ])
        ])
          ≡ some t'
        → r.file_path ≡ at path
    go none k = set_path-path id (at path) t t' k r m e
    go (some stale) k = retired (set_path stale.id (superseded path id) t) k
