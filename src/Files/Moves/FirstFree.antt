-- ===== src/Files/Moves/FirstFree.antt =====
-- app/services/file_service.py, `_move_file`: the name that the search for a free one ends with.
use edpbilling_file_upload.Base.{
  ℕ, zero, suc, ◌==◌, ==_iff, ◌≡◌, ◌≢◌, refl, sym, some, List, In, length, Text, Bool-cases, arith,
  ◌≤◌, ◌<◌, ◌⊎◌, inl, inr, subst,
}
use edpbilling_file_upload.Files.{FilePath, Disk, exists_on, numbered, first_free, free_destination}
use edpbilling_file_upload.Files.Moves.{exists_on_iff, plain_path, numbered_free}

-- What the loop has passed by on its way to the name that it ends with.
first_free-passed :
    (candidate : ℕ → FilePath) (fuel : ℕ) (disk : Disk) (counter : ℕ) (p : FilePath)
    → first_free fuel disk candidate counter ≡ some p
    → (k : ℕ) × (counter ≤ k)
      × (p ≡ candidate k)
      × ((i : ℕ) → counter ≤ i → i < k → In (candidate i) disk)
unfolding first_free
first_free-passed candidate zero disk counter p h = cc
first_free-passed candidate (suc fuel) disk counter p h =
    elim (Bool-cases (exists_on disk (candidate counter))) [
      | inr e ↦ (counter, omega arith, ground arith, λ i a b. absurd (omega arith))
      | inl e ↦
          let (k, later, same, passed) =
            first_free-passed candidate fuel disk (suc counter) p (ground arith) in
          (
            k,
            omega arith,
            same,
            λ i a b. elim (Bool-cases (i == counter)) [
              | inl here ↦
                  subst (λ j. In (candidate j) disk) (sym ((==_iff i counter).0 here))
                    ((exists_on_iff disk (candidate counter)).0 e)
              | inr there ↦
                  let past : i ≢ counter = λ q. ground (arith, (==_iff i counter).1 q) in
                  passed i (omega (arith, past)) b
            ],
          )
    ]

-- The name that a file gets: its own where that is free, and else the first of the names with a number
-- from 2 on that is free.
abbrev pub IsFirstFree : Disk → List Text → Text → FilePath → Type 0
IsFirstFree disk dir name dest =
    ((¬ In (plain_path dir name) disk) × (dest ≡ plain_path dir name))
    ⊎ (In (plain_path dir name) disk
        × ((k : ℕ) × (2 ≤ k)
            × (dest ≡ numbered dir name k)
            × (¬ In dest disk)
            × ((i : ℕ) → 2 ≤ i → i < k → In (numbered dir name i) disk)))

-- Whatever files there are, the search for a destination ends: with the file's own name where that is
-- free in the folder, and else with the free numbered name that has the least number from 2 on, all
-- the names with smaller numbers being taken.
pub free_destination-IsFirstFree :
    (disk : Disk) (dir : List Text) (name : Text)
    → IsFirstFree disk dir name (free_destination disk dir name)
unfolding free_destination plain_path
free_destination-IsFirstFree disk dir name =
    elim (Bool-cases (exists_on disk (plain_path dir name))) [
      | inr e ↦
          inl ((λ m. ground (arith, (exists_on_iff disk (plain_path dir name)).1 m)), rw e refl)
      | inl e ↦
          let (j, found, free) = numbered_free disk dir name in
          let (k, low, same, passed) =
            first_free-passed (numbered dir name) (suc (length disk)) disk 2 _ found in
          inr (
            (exists_on_iff disk (plain_path dir name)).0 e,
            (k, low, rw (e, found) same, rw (e, found) free, passed),
          )
    ]
