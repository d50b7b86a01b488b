-- ===== src/Matching/Choice.antt =====
-- app/services/upload_matching.py: sorting the candidates, and the choice among those of one length.
pub mod Verdict
use edpbilling_file_upload.Base.{
  ℕ, ◌≡◌, ◌≢◌, ◌≤◌, ◌⊎◌, inl, inr, refl, sym, ap, Bool, true, Option, none, some, List, [], ◌∷◌,
  length, filter, Text, upper, In, Bool-cases, In-filter, In-filter_intro, lstrip_by, ◌↔◌, ==_iff,
  arith, leb, leb→le, ◌==◌, subst, ◌∙◌,
}
use edpbilling_file_upload.Cbos.Value.{ℤ}
use edpbilling_file_upload.Cbos.Rule.{UploadRule}
use edpbilling_file_upload.Matching.{
  Match, matched, rejected, FileRejected, check_columns, ambiguous_upload_rule,
  no_matching_upload_rule, names_exchange, has_extension, has_length, MatchSettings, match_file,
  disambiguate, by_exchange, sole, narrow, choose, pick, insert_by_length, sort_by_length,
  qualifies, confirm, validate,
}
use edpbilling_file_upload.Matching.Columns.{Lines, count_columns}
use edpbilling_file_upload.Matching.FileName.{stem, suffix}

abbrev extension_of : Text → Text
extension_of file_name = upper (lstrip_by (λ c. c == b'.') (suffix file_name))

abbrev size : UploadRule → ℕ
size r = length r.file_name_pattern

module _ (r : UploadRule) where
  In-insert_by_length :
      (s : UploadRule) (rules : List UploadRule)
      → In r (insert_by_length s rules)
      → (r ≡ s) ⊎ In r rules
  unfolding insert_by_length
  In-insert_by_length s [] m = m
  In-insert_by_length s (t ∷ rules) m = elim (Bool-cases (leb (size t) (size s))) [
    | inl e ↦ rw e at m
    | inr e ↦
        let later : (r ≡ t) ⊎ In r (insert_by_length s rules) = rw e at m in
        elim later [
          | inl h ↦ inr (inl h)
          | inr h ↦ (elim (In-insert_by_length s rules h) [ inl x ↦ inl x | inr x ↦ inr (inr x) ])
        ]
  ]

  In-insert_by_length_intro :
      (s : UploadRule) (rules : List UploadRule)
      → (r ≡ s) ⊎ In r rules
      → In r (insert_by_length s rules)
  unfolding insert_by_length
  In-insert_by_length_intro s [] m = m
  In-insert_by_length_intro s (t ∷ rules) m = elim (Bool-cases (leb (size t) (size s))) [
    | inl e ↦ rw e m
    | inr e ↦ rw e (elim m [
      | inl h ↦ inr (In-insert_by_length_intro s rules (inl h))
      | inr h ↦ (elim h [ inl x ↦ inl x | inr x ↦ inr (In-insert_by_length_intro s rules (inr x)) ])
    ])
  ]

  In-sort_by_length : (rules : List UploadRule) → In r (sort_by_length rules) → In r rules
  unfolding sort_by_length
  In-sort_by_length [] m = m
  In-sort_by_length (s ∷ rules) m = elim (In-insert_by_length s (sort_by_length rules) m) [
    | inl h ↦ inl h
    | inr h ↦ inr (In-sort_by_length rules h)
  ]

  In-sort_by_length_intro : (rules : List UploadRule) → In r rules → In r (sort_by_length rules)
  unfolding sort_by_length
  In-sort_by_length_intro [] m = m
  In-sort_by_length_intro (s ∷ rules) (inl h) =
      In-insert_by_length_intro s (sort_by_length rules) (inl h)
  In-sort_by_length_intro (s ∷ rules) (inr h) =
      In-insert_by_length_intro s (sort_by_length rules) (inr (In-sort_by_length_intro rules h))

-- No rule of the list has a longer pattern.
abbrev Bounds : UploadRule → List UploadRule → Type 0
Bounds r rules = (s : UploadRule) → In s rules → size s ≤ size r

abbrev IsSorted : List UploadRule → Type 0
IsSorted [] = Unit
IsSorted (r ∷ rules) = Bounds r rules × IsSorted rules

insert_by_length-IsSorted :
    (r : UploadRule) (rules : List UploadRule)
    → IsSorted rules
    → IsSorted (insert_by_length r rules)
unfolding insert_by_length
insert_by_length-IsSorted r [] h = (λ s m. elim m [ ], tt)
insert_by_length-IsSorted r (t ∷ rules) (b, h) = elim (Bool-cases (leb (size t) (size r))) [
  | inl e ↦ rw e (
    λ s m. elim m [
      | inl x ↦ rw (ap size x) (ground arith)
      | inr x ↦ omega (arith, b s x, leb→le (size t) (size r) e)
    ],
    (b, h),
  )
  | inr e ↦ rw e (
    λ s m. elim (In-insert_by_length s r rules m) [
      | inl x ↦ rw (ap size x) (ground arith)
      | inr x ↦ b s x
    ],
    insert_by_length-IsSorted r rules h,
  )
]

sort_by_length-IsSorted : (rules : List UploadRule) → IsSorted (sort_by_length rules)
unfolding sort_by_length
sort_by_length-IsSorted [] = tt
sort_by_length-IsSorted (r ∷ rules) =
    insert_by_length-IsSorted r (sort_by_length rules) (sort_by_length-IsSorted rules)

-- A choice out of `pool`.
abbrev FromPool : List UploadRule → Match → Type 0
FromPool pool (matched r) = In r pool
FromPool pool (rejected why) = why ≡ ambiguous_upload_rule

abbrev Within : List UploadRule → List UploadRule → Type 0
Within xs ys = (r : UploadRule) → In r xs → In r ys

FromPool-Within :
    (xs ys : List UploadRule) (m : Match) → Within xs ys → FromPool xs m → FromPool ys m
FromPool-Within xs ys (matched r) w h = w r h
FromPool-Within xs ys (rejected why) w h = h

sole-FromPool : (pool : List UploadRule) → FromPool pool (sole pool)
unfolding sole
sole-FromPool [] = refl
sole-FromPool (r ∷ []) = inl refl
sole-FromPool (r ∷ s ∷ rest) = refl

abbrev NarrowFrom : List UploadRule → UploadRule ⊎ List UploadRule → Type 0
NarrowFrom pool (inl r) = In r pool
NarrowFrom pool (inr rest) = Within rest pool

narrow_result :
    (p : UploadRule → Bool) (pool kept : List UploadRule)
    → Within kept pool
    → NarrowFrom pool (elim kept [
      | [] ↦ inr pool
      | r ∷ rest ↦ (elim rest [ [] ↦ inl r | s ∷ more ↦ inr (r ∷ s ∷ more) ])
    ])
narrow_result p pool [] w = λ r m. m
narrow_result p pool (r ∷ []) w = w r (inl refl)
narrow_result p pool (r ∷ s ∷ more) w = w

narrow-NarrowFrom :
    (p : UploadRule → Bool) (pool : List UploadRule) → NarrowFrom pool (narrow p pool)
unfolding narrow
narrow-NarrowFrom p pool = narrow_result p pool (filter p pool) (λ r m. (In-filter p r pool m).0)

by_exchange_result :
    (pool : List UploadRule) (o : UploadRule ⊎ List UploadRule)
    → NarrowFrom pool o
    → FromPool pool (elim o [ inl r ↦ matched r | inr rest ↦ sole rest ])
by_exchange_result pool (inl r) h = h
by_exchange_result pool (inr rest) h = FromPool-Within rest pool (sole rest) h (sole-FromPool rest)

by_exchange-FromPool :
    (exchange : Option Text) (pool : List UploadRule) → FromPool pool (by_exchange exchange pool)
unfolding by_exchange
by_exchange-FromPool none pool = sole-FromPool pool
by_exchange-FromPool (some []) pool = sole-FromPool pool
by_exchange-FromPool (some (c ∷ t)) pool =
    by_exchange_result pool (narrow (names_exchange (c ∷ t)) pool) (narrow-NarrowFrom _ pool)

disambiguate_result :
    (pool : List UploadRule) (exchange : Option Text) (o : UploadRule ⊎ List UploadRule)
    → NarrowFrom pool o
    → FromPool pool (elim o [ inl r ↦ matched r | inr rest ↦ by_exchange exchange rest ])
disambiguate_result pool exchange (inl r) h = h
disambiguate_result pool exchange (inr rest) h =
    FromPool-Within rest pool _ h (by_exchange-FromPool exchange rest)

disambiguate-FromPool :
    (pool : List UploadRule) (extension : Text) (exchange : Option Text)
    → FromPool pool (disambiguate pool extension exchange)
unfolding disambiguate
disambiguate-FromPool pool [] exchange = by_exchange-FromPool exchange pool
disambiguate-FromPool pool (c ∷ t) exchange =
    disambiguate_result pool exchange (narrow (has_extension (c ∷ t)) pool)
      (narrow-NarrowFrom _ pool)

choose-FromPool :
    (pool : List UploadRule) (extension : Text) (exchange : Option Text)
    → FromPool pool (choose pool extension exchange)
unfolding choose
choose-FromPool [] extension exchange = disambiguate-FromPool [] extension exchange
choose-FromPool (r ∷ []) extension exchange = inl refl
choose-FromPool (r ∷ s ∷ rest) extension exchange =
    disambiguate-FromPool (r ∷ s ∷ rest) extension exchange
