-- ===== src/Files/Moves.antt =====
-- app/services/file_service.py, `_move_file`: the place that a file is moved to.
pub mod FirstFree
use edpbilling_file_upload.Base.{
  ℕ, zero, suc, ◌≡◌, ◌↔◌, refl, ap, Bool, true, false, none, some, List, [], ◌∷◌, ◌++◌, any, In,
  any-In, any-In_intro, In-filter, In-filter_intro, length, filter, Text, text_eq_iff, Bool-cases,
  arith, not, ◌≤◌, ◌<◌, ◌+◌, ◌≢◌, inl, inr, subst,
}
use edpbilling_file_upload.Files.{
  FilePath, Disk, parent_eq, path_eq, exists_on, numbered, first_free, free_destination, move_file,
}
use mathlib.Core.List.{append_cancel_left, append_cancel_right, tail}
use edpbilling_file_upload.Cbos.Value.{show_ℕ}
use edpbilling_file_upload.Cbos.Value.Digits.{show_ℕ_injective}
use edpbilling_file_upload.Matching.FileName.{stem, suffix}

parent_eq_sound : (s t : List Text) → parent_eq s t ≡ true → s ≡ t
unfolding parent_eq
parent_eq_sound [] [] h = refl
parent_eq_sound (x ∷ s) (y ∷ t) h = ground (arith, text_eq_iff x y, parent_eq_sound s t)
parent_eq_sound [] (_ ∷ _) h = cc
parent_eq_sound (_ ∷ _) [] h = cc

parent_eq_refl : (s : List Text) → parent_eq s s ≡ true
unfolding parent_eq
parent_eq_refl [] = refl
parent_eq_refl (x ∷ s) = ground (arith, text_eq_iff x x, parent_eq_refl s)

pub path_eq_iff : (p q : FilePath) → (path_eq p q ≡ true) ↔ (p ≡ q)
unfolding path_eq
path_eq_iff p q = (
  λ h. ground (arith, text_eq_iff p.name q.name, parent_eq_sound p.parent q.parent),
  λ h. ground (arith, text_eq_iff p.name p.name, parent_eq_refl p.parent),
)

pub exists_on_iff : (disk : Disk) (p : FilePath) → (exists_on disk p ≡ true) ↔ In p disk
unfolding exists_on
exists_on_iff disk p = (forth, λ m. any-In_intro (path_eq p) p disk m ((path_eq_iff p p).1 refl))
  where
    forth : any (path_eq p) disk ≡ true → In p disk
    forth h = let (q, m, e) = any-In (path_eq p) disk h in rw ((path_eq_iff p q).0 e) m

erase : FilePath → Disk → Disk
erase p = filter (λ q. not (path_eq p q))

length-filter : (f : FilePath → Bool) (disk : Disk) → length (filter f disk) ≤ length disk
length-filter f [] = omega arith
length-filter f (p ∷ disk) = ground (arith, length-filter f disk)

length-erase : (p : FilePath) (disk : Disk) → In p disk → length (erase p disk) < length disk
unfolding erase
length-erase p [] m = elim m [ ]
length-erase p (q ∷ disk) (inl e) =
    rw ((path_eq_iff p q).1 e) (omega (arith, length-filter (λ q. not (path_eq p q)) disk))
length-erase p (q ∷ disk) (inr m) = elim (Bool-cases (path_eq p q)) [
  | inl e ↦ rw e (omega (arith, length-filter (λ q. not (path_eq p q)) disk))
  | inr e ↦ rw e (omega (arith, length-erase p disk m))
]

In-erase : (p q : FilePath) (disk : Disk) → In q disk → q ≢ p → In q (erase p disk)
unfolding erase
In-erase p q disk m h = In-filter_intro _ q disk m (ground (arith, path_eq_iff p q, h))

-- Of more distinct candidates than there are files, one is free.
module _ (candidate : ℕ → FilePath)
    (injective : (i j : ℕ) → candidate i ≡ candidate j → i ≡ j) where
  FreeFrom : Disk → ℕ → ℕ → Type 0
  FreeFrom disk counter fuel =
      (c : ℕ) × (counter ≤ c) × (c < counter + fuel) × (¬ In (candidate c) disk)

  free_candidate :
      (fuel : ℕ) (disk : Disk) (counter : ℕ) → length disk < fuel → FreeFrom disk counter fuel
  unfolding FreeFrom
  free_candidate zero disk counter h = absurd (omega arith)
  free_candidate (suc fuel) disk counter h =
      elim (Bool-cases (exists_on disk (candidate counter))) [
        | inr e ↦ (
          counter,
          omega arith,
          omega arith,
          λ m. ground (arith, (exists_on_iff disk (candidate counter)).1 m),
        )
        | inl e ↦
            let taken : In (candidate counter) disk =
              (exists_on_iff disk (candidate counter)).0 e in
            let (c, above, below, free) =
              free_candidate fuel (erase (candidate counter) disk) (suc counter)
                (omega (arith, length-erase (candidate counter) disk taken)) in
            (
              c,
              omega arith,
              omega arith,
              λ m. free (
                  In-erase (candidate counter) (candidate c) disk m
                    (λ e. absurd (omega (arith, injective c counter e)))),
            )
      ]

  first_free_lem :
      (fuel : ℕ) (disk : Disk) (counter : ℕ)
      → FreeFrom disk counter fuel
      → (k : ℕ) × (first_free fuel disk candidate counter ≡ some (candidate k))
        × (¬ In (candidate k) disk)
  unfolding FreeFrom first_free
  first_free_lem zero disk counter (c, above, below, free) = absurd (omega arith)
  first_free_lem (suc fuel) disk counter (c, above, below, free) =
      elim (Bool-cases (exists_on disk (candidate counter))) [
        | inr e ↦
            (counter, rw e refl, λ m. ground (arith, (exists_on_iff disk (candidate counter)).1 m))
        | inl e ↦
            let taken : In (candidate counter) disk =
              (exists_on_iff disk (candidate counter)).0 e in
            let later : c ≢ counter = λ same. free (rw same taken) in
            rw e (first_free_lem fuel disk (suc counter) (c, omega arith, omega arith, free))
      ]

numbered_injective :
    (dir : List Text) (name : Text) (i j : ℕ) → numbered dir name i ≡ numbered dir name j → i ≡ j
unfolding numbered
numbered_injective dir name i j e = show_ℕ_injective i j (
    append_cancel_right (show_ℕ i) (show_ℕ j) (suffix name)
      (ap (λ t. tail t) (append_cancel_left (stem name) _ _ (ap (λ p. p.name) e))))

pub plain_path : List Text → Text → FilePath
plain_path dir name = record { parent = dir; name = name }

numbered_free :
    (disk : Disk) (dir : List Text) (name : Text)
    → (k : ℕ) × (first_free (suc (length disk)) disk (numbered dir name) 2
        ≡ some (numbered dir name k))
      × (¬ In (numbered dir name k) disk)
numbered_free disk dir name =
    first_free_lem (numbered dir name) (numbered_injective dir name) (suc (length disk)) disk 2 (
      free_candidate (numbered dir name) (numbered_injective dir name) (suc (length disk)) disk 2
        (omega arith))

abbrev IsFreeIn : Disk → List Text → FilePath → Type 0
IsFreeIn disk dir dest = (dest.parent ≡ dir) × (¬ In dest disk)

free_destination-free :
    (disk : Disk) (dir : List Text) (name : Text)
    → IsFreeIn disk dir (free_destination disk dir name)
unfolding free_destination plain_path
free_destination-free disk dir name = elim (Bool-cases (exists_on disk (plain_path dir name))) [
  | inr e ↦ rw e (refl, λ m. ground (arith, (exists_on_iff disk (plain_path dir name)).1 m))
  | inl e ↦
      let (k, found, free) = numbered_free disk dir name in
      rw (e, found) (unfold numbered in refl, free)
]

-- What a move of an existing file returns.
after_move : Disk → FilePath → Text → FilePath × Disk
after_move disk p subfolder =
    let dest = free_destination disk (p.parent ++ (subfolder ∷ [])) p.name in
    (dest, dest ∷ erase p disk)

move_file-present :
    (disk : Disk) (p : FilePath) (subfolder : Text)
    → In p disk
    → move_file disk p subfolder ≡ some (after_move disk p subfolder)
unfolding move_file after_move erase
move_file-present disk p subfolder m = rw ((exists_on_iff disk p).1 m)

move_file-absent :
    (disk : Disk) (p : FilePath) (subfolder : Text)
    → exists_on disk p ≡ false
    → move_file disk p subfolder ≡ none
unfolding move_file
move_file-absent disk p subfolder e = rw e

-- A move succeeds exactly when its source file exists.
move_file-total :
    (disk : Disk) (p : FilePath) (subfolder : Text)
    → In p disk ↔ ((r : FilePath × Disk) × (move_file disk p subfolder ≡ some r))
move_file-total disk p subfolder = (
  λ m. (after_move disk p subfolder, move_file-present disk p subfolder m),
  λ (r, e). elim (Bool-cases (exists_on disk p)) [
    | inl there ↦ (exists_on_iff disk p).0 there
    | inr away ↦ absurd (ground (arith, move_file-absent disk p subfolder away))
  ],
)

pub record IsMoved (disk : Disk) (p dest : FilePath) (subfolder : Text) (disk' : Disk)
    : Type 0 where
  pub folder : dest.parent ≡ p.parent ++ (subfolder ∷ [])
  pub fresh : ¬ In dest disk
  pub gone : ¬ In p disk'
  pub landed : In dest disk'
  pub others : (q : FilePath) → q ≢ p → q ≢ dest → In q disk ↔ In q disk'

moved :
    (disk : Disk) (p dest : FilePath) (subfolder : Text)
    → In p disk
    → IsFreeIn disk (p.parent ++ (subfolder ∷ [])) dest
    → IsMoved disk p dest subfolder (dest ∷ erase p disk)
unfolding erase
moved disk p dest subfolder m (folder, fresh) = record {
  folder = folder;
  fresh = fresh;
  gone = λ k. elim k [
    | inl e ↦ fresh (rw (← e) m)
    | inr k' ↦ absurd (ground (arith, (In-filter _ p disk k').1, (path_eq_iff p p).1 refl))
  ];
  landed = inl refl;
  others = λ q not_p not_dest. (
    λ k. inr (In-filter_intro _ q disk k (ground (arith, path_eq_iff p q, not_p))),
    λ k. elim k [ inl e ↦ absurd (not_dest e) | inr k' ↦ (In-filter _ q disk k').0 ],
  );
}

-- A move goes into the sibling folder under a name that was free, so it overwrites nothing; the
-- source is gone, and every other file stays as it was.
pub move_file-IsMoved :
    (disk : Disk) (p dest : FilePath) (subfolder : Text) (disk' : Disk)
    → move_file disk p subfolder ≡ some (dest, disk')
    → IsMoved disk p dest subfolder disk'
move_file-IsMoved disk p dest subfolder disk' h =
    let source : In p disk = (move_file-total disk p subfolder).1 ((dest, disk'), h) in
    let e : after_move disk p subfolder ≡ (dest, disk') =
      cc (move_file-present disk p subfolder source) in
    subst (λ (r : FilePath × Disk). IsMoved disk p r.0 subfolder r.1) e
      (unfold after_move in moved disk p _ subfolder source (free_destination-free disk _ p.name))
