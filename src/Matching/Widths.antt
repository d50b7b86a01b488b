-- ===== src/Matching/Widths.antt =====
-- app/services/upload_matching.py: the column check of `match_file` and `_count_columns`.
use edpbilling_file_upload.Base.{
  ℕ, ◌≡◌, ◌⊎◌, ◌↔◌, inl, inr, Bool, true, none, List, any, all, any-In, any-In_intro, all-In,
  all-In_intro, In, truthy, arith, ◌==◌, ==_iff,
}
use edpbilling_file_upload.Cbos.Value.{ℤ}
use edpbilling_file_upload.Matching.{check_columns, has_width}

abbrev pub Sniffed : Type 0
Sniffed = List (ℕ × List ℕ)

-- Some line has this width under some delimiter.
abbrev pub HasWidth : (ℕ → Bool) → Sniffed → Type 0
HasWidth p sniffed =
    (d : ℕ) × (widths : List ℕ) × (w : ℕ) × In (d, widths) sniffed × In w widths × (p w ≡ true)

any_width :
    (p : ℕ → Bool) (sniffed : Sniffed)
    → any (λ (_, widths). any p widths) sniffed ≡ true
    → HasWidth p sniffed
any_width p sniffed h =
    let (entry, m, k) = any-In (λ (_, widths). any p widths) sniffed h in
    let (w, m', k') = any-In p entry.1 k in (entry.0, entry.1, w, m, m', k')

any_width_intro :
    (p : ℕ → Bool) (sniffed : Sniffed)
    → HasWidth p sniffed
    → any (λ (_, widths). any p widths) sniffed ≡ true
any_width_intro p sniffed (d, widths, w, m, m', k) =
    any-In_intro _ (d, widths) sniffed m (any-In_intro p w widths m' k)

-- No delimiter splits any sniffed line.
abbrev pub AllSingle : Sniffed → Type 0
AllSingle sniffed = (d : ℕ) (widths : List ℕ) (w : ℕ) → In (d, widths) sniffed → In w widths → w ≡ 1

all_single :
    (sniffed : Sniffed)
    → all (λ (_, widths). all (λ w. w == 1) widths) sniffed ≡ true
    → AllSingle sniffed
all_single sniffed h d widths w m m' =
    (==_iff w 1).0 (all-In (λ v. v == 1) w widths (all-In _ (d, widths) sniffed h m) m')

AllSingle-intro :
    (sniffed : Sniffed)
    → AllSingle sniffed
    → all (λ (_, widths). all (λ w. w == 1) widths) sniffed ≡ true
AllSingle-intro sniffed h =
    all-In_intro _ sniffed
      (λ entry m. all-In_intro _ entry.1 (λ w m'. (==_iff w 1).1 (h entry.0 entry.1 w m m')))

-- Some data line was sniffed.
abbrev pub HasLine : Sniffed → Type 0
HasLine sniffed = (d : ℕ) × (widths : List ℕ) × In (d, widths) sniffed × (truthy widths ≡ true)

some_line :
    (sniffed : Sniffed) → any (λ (_, widths). truthy widths) sniffed ≡ true → HasLine sniffed
some_line sniffed h =
    let (entry, m, k) = any-In (λ (_, widths). truthy widths) sniffed h in (entry.0, entry.1, m, k)

some_line_intro :
    (sniffed : Sniffed) → HasLine sniffed → any (λ (_, widths). truthy widths) sniffed ≡ true
some_line_intro sniffed (d, widths, m, k) = any-In_intro _ (d, widths) sniffed m k

check_columns_cases :
    (n : ℤ) (sniffed : Sniffed)
    → (check_columns n sniffed ≡ none) ↔ (
        (any (λ (_, widths). truthy widths) sniffed ≡ true)
        × ((any (λ (_, widths). any (has_width n) widths) sniffed ≡ true)
            ⊎ (all (λ (_, widths). all (λ w. w == 1) widths) sniffed ≡ true)))
unfolding check_columns
check_columns_cases n sniffed = (λ h. ground arith, λ h. ground arith)

-- The check lets a sniffed file through exactly when there is a data line, and either some line has
-- the declared width under some candidate delimiter or every line has width 1 under all of them.
pub check_columns_iff :
    (n : ℤ) (sniffed : Sniffed)
    → (check_columns n sniffed ≡ none)
      ↔ (HasLine sniffed × (HasWidth (has_width n) sniffed ⊎ AllSingle sniffed))
check_columns_iff n sniffed = (forth, back)
  where
    forth :
        check_columns n sniffed ≡ none
        → HasLine sniffed × (HasWidth (has_width n) sniffed ⊎ AllSingle sniffed)
    forth h =
        let (a, b) = (check_columns_cases n sniffed).0 h in
        (
          some_line sniffed a,
          elim b [
            | inl x ↦ inl (any_width (has_width n) sniffed x)
            | inr x ↦ inr (all_single sniffed x)
          ],
        )

    back :
        HasLine sniffed × (HasWidth (has_width n) sniffed ⊎ AllSingle sniffed)
        → check_columns n sniffed ≡ none
    back (a, b) = (check_columns_cases n sniffed).1 (
      some_line_intro sniffed a,
      elim b [
        | inl x ↦ inl (any_width_intro (has_width n) sniffed x)
        | inr x ↦ inr (AllSingle-intro sniffed x)
      ],
    )
