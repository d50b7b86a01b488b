-- ===== src/Audit/Claims.antt =====
-- app/repositories/uploaded_file_repository.py: the constraints of the table, and changes of a row.
pub mod Takeover
pub mod Opening
use edpbilling_file_upload.Base.{
  ℕ, suc, ◌≡◌, ◌≢◌, ◌↔◌, ◌<◌, refl, ap, sym, ◌∙◌, Bool, true, false, Option, none, some, List, [],
  ◌∷◌, ◌++◌, map, any, In, In-append_cases, any-In_intro, Text, Bool-cases, Option-cases, inl, inr,
  ◌⊎◌, arith, ◌==◌, ==_iff, ==_refl, if◌then◌else◌, not, ◌&&◌, find, subst, find-In, find-none,
  any-none, and-true,
}
use edpbilling_file_upload.Files.{FilePath, path_eq}
use edpbilling_file_upload.Files.Moves.{path_eq_iff}
use edpbilling_file_upload.Audit.{
  Location, at, superseded, location_eq, UploadedFile, Table, update_row, insert, new_row,
  reset_row, create_audit_record, set_path, claim_file_path,
}

pub location_eq_iff : (a b : Location) → (location_eq a b ≡ true) ↔ (a ≡ b)
unfolding location_eq
location_eq_iff (at p) (at q) =
    (λ h. ap at ((path_eq_iff p q).0 h), λ h. (path_eq_iff p q).1 (ground arith))
location_eq_iff (superseded p i) (superseded q j) =
    (λ h. ground (arith, (path_eq_iff p q).0), λ h. ground (arith, (path_eq_iff p q).1))
location_eq_iff (at _) (superseded _ _) = (λ h. cc, λ h. cc)
location_eq_iff (superseded _ _) (at _) = (λ h. cc, λ h. cc)

pub at-ne-superseded : (p q : FilePath) (i : ℕ) → at p ≢ superseded q i
at-ne-superseded p q i e = cc

In-map :
    (f : UploadedFile → UploadedFile) (r : UploadedFile) (rows : List UploadedFile)
    → In r (map f rows)
    → (s : UploadedFile) × In s rows × (r ≡ f s)
In-map f r [] m = elim m [ ]
In-map f r (s ∷ rows) (inl e) = (s, inl refl, e)
In-map f r (s ∷ rows) (inr m) = let (q, k, e) = In-map f r rows m in (q, inr k, e)

-- No two rows have one id.
abbrev pub HaveOwnIds : List UploadedFile → Type 0
HaveOwnIds [] = Unit {0}
HaveOwnIds (r ∷ rows) = ((s : UploadedFile) → In s rows → s.id ≢ r.id) × HaveOwnIds rows

map-HaveOwnIds :
    (f : UploadedFile → UploadedFile) (rows : List UploadedFile)
    → ((r : UploadedFile) → (f r).id ≡ r.id)
    → HaveOwnIds rows
    → HaveOwnIds (map f rows)
map-HaveOwnIds f [] keeps h = tt
map-HaveOwnIds f (r ∷ rows) keeps (own, h) = (
  λ s m e.
      let (q, k, d) = In-map f s rows m in
      own q k (sym (keeps q) ∙ sym (ap (λ (x : UploadedFile). x.id) d) ∙ e ∙ keeps r),
  map-HaveOwnIds f rows keeps h,
)

if-id : (b : Bool) (x y : UploadedFile) → x.id ≡ y.id → (if b then x else y).id ≡ y.id
if-id true x y e = e
if-id false x y e = refl

update_row-HaveOwnIds :
    (id : ℕ) (f : UploadedFile → UploadedFile) (t : Table)
    → ((r : UploadedFile) → (f r).id ≡ r.id)
    → HaveOwnIds t.rows
    → HaveOwnIds (update_row id f t).rows
unfolding update_row
update_row-HaveOwnIds id f t keeps h =
    map-HaveOwnIds _ t.rows (λ r. if-id (r.id == id) (f r) r (keeps r)) h

-- What the constraints of the table say.
pub record IsConsistent (t : Table) : Type 0 where
  pub paths :
      (r s : UploadedFile) → In r t.rows → In s t.rows → r.file_path ≡ s.file_path → r.id ≡ s.id
  pub ids : (r : UploadedFile) → In r t.rows → r.id < t.next_id
  pub own_ids : HaveOwnIds t.rows

if-cases :
    (b : Bool) (x y : UploadedFile)
    → ((b ≡ true) × ((if b then x else y) ≡ x)) ⊎ ((b ≡ false) × ((if b then x else y) ≡ y))
if-cases true x y = inl (refl, refl)
if-cases false x y = inr (refl, refl)

-- A row after `update_row` is an old row, changed if it has the id.
pub In-update_row :
    (id : ℕ) (f : UploadedFile → UploadedFile) (t : Table) (r : UploadedFile)
    → In r (update_row id f t).rows
    → (s : UploadedFile) × In s t.rows × (((s.id ≡ id) × (r ≡ f s)) ⊎ ((s.id ≢ id) × (r ≡ s)))
unfolding update_row
In-update_row id f t r m =
    let (s, k, e) = In-map _ r t.rows m in
    (
      s,
      k,
      elim (if-cases (s.id == id) (f s) s) [
        | inl (a, b) ↦ inl ((==_iff s.id id).0 a, e ∙ b)
        | inr (a, b) ↦ inr (λ same. ground (arith, (==_iff s.id id).1 same), e ∙ b)
      ],
    )

abbrev IsFrom : Table → Table → Type 0
IsFrom t' t =
    (r : UploadedFile)
    → In r t'.rows
    → (s : UploadedFile) × In s t.rows × (r.id ≡ s.id) × (r.file_path ≡ s.file_path)

abbrev pub move_to : Location → UploadedFile → UploadedFile
move_to path r = record r { file_path = path }

-- Another row has the path.
abbrev taken_by_other : ℕ → Location → UploadedFile → Bool
taken_by_other id path r = not (r.id == id) && location_eq r.file_path path

set_path-paths :
    (id : ℕ) (path : Location) (t : Table)
    → any (taken_by_other id path) t.rows ≡ false
    → IsConsistent t
    → IsConsistent (update_row id (move_to path) t)
set_path-paths id path t free h = record {
  own_ids = update_row-HaveOwnIds id (move_to path) t (λ r. refl) h.own_ids;
  paths = λ r s m k e.
      let (r0, m0, i0) = In-update_row id (move_to path) t r m in
      let (s0, k0, j0) = In-update_row id (move_to path) t s k in
      elim i0 [
        | inl (a, b) ↦ (elim j0 [
          | inl (c, d) ↦
              ap (λ (q : UploadedFile). q.id) b
              ∙ a
              ∙ sym c
              ∙ sym (ap (λ (q : UploadedFile). q.id) d)
          | inr (c, d) ↦ absurd (
              not_taken s0 k0 c (
                sym (ap (λ (q : UploadedFile). q.file_path) d)
                ∙ sym e
                ∙ ap (λ (q : UploadedFile). q.file_path) b))
        ])
        | inr (a, b) ↦ (elim j0 [
          | inl (c, d) ↦ absurd (
              not_taken r0 m0 a (
                sym (ap (λ (q : UploadedFile). q.file_path) b)
                ∙ e
                ∙ ap (λ (q : UploadedFile). q.file_path) d))
          | inr (c, d) ↦
              ap (λ (q : UploadedFile). q.id) b
              ∙ h.paths r0 s0 m0 k0 (
                  sym (ap (λ (q : UploadedFile). q.file_path) b)
                  ∙ e
                  ∙ ap (λ (q : UploadedFile). q.file_path) d)
              ∙ sym (ap (λ (q : UploadedFile). q.id) d)
        ])
      ];
  ids = λ r m.
      let (r0, m0, i0) = In-update_row id (move_to path) t r m in
      unfold update_row in
      elim i0 [
        | inl (a, b) ↦ rw (ap (λ (q : UploadedFile). q.id) b) (h.ids r0 m0)
        | inr (a, b) ↦ rw (ap (λ (q : UploadedFile). q.id) b) (h.ids r0 m0)
      ];
}
  where
    not_taken : (r : UploadedFile) → In r t.rows → r.id ≢ id → r.file_path ≡ path → ⊥
    not_taken r m other there = absurd (
        ground (
          arith,
          any-In_intro (taken_by_other id path) r t.rows m,
          ==_iff r.id id,
          location_eq_iff r.file_path path,
          other,
          there,
        ))
