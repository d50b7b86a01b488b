-- ===== src/Matching/Choice/Verdict.antt =====
-- app/services/upload_matching.py, `match_file`: the choice, and the check that follows it.
use edpbilling_file_upload.Base.{
  ℕ, ◌≡◌, ◌≢◌, ◌≤◌, ◌⊎◌, inl, inr, refl, sym, ap, true, Option, none, some, List, [], ◌∷◌, length,
  filter, Text, upper, In, In-filter, In-filter_intro, ◌↔◌, ==_iff, arith, subst, ◌∙◌,
}
use edpbilling_file_upload.Cbos.Value.{ℤ}
use edpbilling_file_upload.Cbos.Rule.{UploadRule}
use edpbilling_file_upload.Matching.{
  Match, matched, rejected, FileRejected, check_columns, ambiguous_upload_rule,
  no_matching_upload_rule, has_length, MatchSettings, match_file, pick, sort_by_length, qualifies,
  confirm, validate,
}
use edpbilling_file_upload.Matching.Columns.{Lines, count_columns}
use edpbilling_file_upload.Matching.FileName.{stem}
use edpbilling_file_upload.Matching.Choice.{
  extension_of, size, In-sort_by_length, In-sort_by_length_intro, Bounds, IsSorted,
  sort_by_length-IsSorted, FromPool, choose-FromPool,
}

-- The choice among sorted candidates is one of them that no longer pattern beats.
abbrev Best : List UploadRule → Match → Type 0
Best pool (matched r) = In r pool × Bounds r pool
Best pool (rejected why) =
    (why ≡ ambiguous_upload_rule) ⊎ ((why ≡ no_matching_upload_rule) × (pool ≡ []))

Best-of_tied :
    (r : UploadRule) (rules : List UploadRule) (m : Match)
    → Bounds r rules
    → FromPool (filter (has_length (size r)) (r ∷ rules)) m
    → Best (r ∷ rules) m
unfolding has_length
Best-of_tied r rules (rejected why) b h = inl h
Best-of_tied r rules (matched t) b h =
    let (member, same) = In-filter (has_length (size r)) t (r ∷ rules) h in
    let longest : size t ≡ size r = (==_iff _ _).0 same in
    (member, λ s m. elim m [ inl x ↦ rw (ap size x) (omega arith) | inr x ↦ omega (arith, b s x) ])

pick-Best :
    (pool : List UploadRule) (extension : Text) (exchange : Option Text)
    → IsSorted pool
    → Best pool (pick pool extension exchange)
unfolding pick
pick-Best [] extension exchange h = inr (refl, refl)
pick-Best (r ∷ rules) extension exchange (b, h) =
    Best-of_tied r rules _ b (choose-FromPool _ extension exchange)

confirm-matched :
    (options : MatchSettings) (content : Lines) (m : Match) (r : UploadRule)
    → confirm options content m ≡ matched r
    → m ≡ matched r
unfolding confirm
confirm-matched options content (rejected why) r h = cc
confirm-matched options content (matched t) r h = ground arith

check_columns-ne-no_matching :
    (n : ℤ) (sniffed : List (ℕ × List ℕ)) → check_columns n sniffed ≢ some no_matching_upload_rule
unfolding check_columns
check_columns-ne-no_matching n sniffed = ground arith

validate-ne-no_matching :
    (options : MatchSettings) (content : Lines) (rule : UploadRule) (count : Option ℤ)
    → validate options content rule count ≢ rejected no_matching_upload_rule
unfolding validate
validate-ne-no_matching options content rule none h = cc
validate-ne-no_matching options content rule (some n) h =
    go (count_columns options.delimiter content) h
  where
    verdict :
        (o : Option FileRejected)
        → o ≢ some no_matching_upload_rule
        → (elim o [ none ↦ matched rule | some why ↦ rejected why ])
          ≢ rejected no_matching_upload_rule
    verdict none k e = cc
    verdict (some why) k e = ground (arith)

    go :
        (o : Option (List (ℕ × List ℕ)))
        → (elim o [
          | none ↦ matched rule
          | some sniffed ↦ (elim (check_columns n sniffed) [
            | none ↦ matched rule
            | some why ↦ rejected why
          ])
        ])
          ≢ rejected no_matching_upload_rule
    go none e = cc
    go (some sniffed) e =
        verdict (check_columns n sniffed) (check_columns-ne-no_matching n sniffed) e

confirm-unmatched :
    (options : MatchSettings) (content : Lines) (m : Match)
    → confirm options content m ≡ rejected no_matching_upload_rule
    → m ≡ rejected no_matching_upload_rule
unfolding confirm
confirm-unmatched options content (rejected why) h = h
confirm-unmatched options content (matched t) h =
    ground (arith, validate-ne-no_matching options content t t.column_count)

empty_of_no_member : (rules : List UploadRule) → ((r : UploadRule) → ¬ In r rules) → rules ≡ []
empty_of_no_member [] h = refl
empty_of_no_member (r ∷ rules) h = absurd (h r (inl refl))

module _ (options : MatchSettings) (file_name : Text) (content : Lines) (rules : List UploadRule)
    (exchange : Option Text) where
  -- The rule's pattern matches the stem of the file's name.
  abbrev Qualifies : UploadRule → Type 0
  Qualifies r = qualifies (upper (stem file_name)) r ≡ true

  candidates : List UploadRule
  candidates = sort_by_length (filter (qualifies (upper (stem file_name))) rules)

  In-candidates : (r : UploadRule) → In r candidates → In r rules × Qualifies r
  unfolding candidates
  In-candidates r m = In-filter _ r rules (In-sort_by_length r _ m)

  In-candidates_intro : (r : UploadRule) → In r rules → Qualifies r → In r candidates
  unfolding candidates
  In-candidates_intro r m q = In-sort_by_length_intro r _ (In-filter_intro _ r rules m q)

  pick-candidates : (extension : Text) → Best candidates (pick candidates extension exchange)
  unfolding candidates
  pick-candidates extension = pick-Best _ extension exchange (sort_by_length-IsSorted _)

  tried : Match
  tried = pick candidates (extension_of file_name) exchange

  tried-Best : Best candidates tried
  unfolding tried
  tried-Best = pick-candidates (extension_of file_name)

  match_file-tried :
      match_file options file_name content rules exchange ≡ confirm options content tried
  unfolding match_file tried candidates
  match_file-tried = refl

  -- The rule that is returned is one of the rules given, its pattern matches the file's stem under
  -- its operator, and no given rule whose pattern matches the stem has a longer pattern.
  pub match_file-matched :
      (r : UploadRule)
      → match_file options file_name content rules exchange ≡ matched r
      → In r rules
        × Qualifies r
        × ((s : UploadRule)
            → In s rules
            → Qualifies s
            → length s.file_name_pattern ≤ length r.file_name_pattern)
  match_file-matched r h =
      let (member, longest) =
        subst (Best candidates) (confirm-matched options content tried r (sym match_file-tried ∙ h))
          tried-Best in
      let (given, q) = In-candidates r member in
      (given, q, λ s m k. longest s (In-candidates_intro s m k))

  unmatched : tried ≡ rejected no_matching_upload_rule → candidates ≡ []
  unmatched e = elim (subst (Best candidates) e tried-Best) [
    | inl wrong ↦ absurd (ground arith)
    | inr (_, empty) ↦ empty
  ]

  none_tried : candidates ≡ [] → tried ≡ rejected no_matching_upload_rule
  unfolding tried pick
  none_tried e = rw e

  -- A file is rejected for want of a matching rule exactly when no given rule's pattern matches
  -- its stem.
  pub match_file-no_matching :
      (match_file options file_name content rules exchange ≡ rejected no_matching_upload_rule)
      ↔ ((r : UploadRule) → In r rules → ¬ Qualifies r)
  match_file-no_matching = (
    λ h r m q.
        subst (In r)
          (unmatched (confirm-unmatched options content tried (sym match_file-tried ∙ h)))
          (In-candidates_intro r m q),
    λ h.
        match_file-tried
        ∙ rw
            (none_tried (
              empty_of_no_member candidates
                (λ r m. let (given, q) = In-candidates r m in h r given q)))
            (unfold confirm in refl),
  )
