-- ===== src/Speede/Catalogue/Selected.antt =====
-- app/services/nsdl_speede_service.py, `resolve_selection`: which entries come out, and in which order.
use edpbilling_file_upload.Base.{
  ℕ, suc, ◌+◌, ◌==◌, ◌≡◌, refl, sym, ◌∙◌, ap, subst, Bool, true, false, Option, none, some, List,
  [], ◌∷◌, ◌++◌, map, filter, join, all, In, In-append_left, In-append_right, In-filter_intro,
  find-In, all-In, length, length-append, Text, text_eq_refl, upper, lower, strip, ==_iff,
  if◌then◌else◌, inl, inr, arith, text_ops,
}
use edpbilling_file_upload.Base.Program.{Try, returned, raised}
use edpbilling_file_upload.Speede.{Failure, unknown_file}
use edpbilling_file_upload.Speede.Catalogue.{
  SpeedeFile, catalogue, has_key, by_key, Selector, same_entry, pick, add_request, lookup_all,
  arrange_all, versions_of, arrange, resolve_selection,
}

-- The second list repeats and leaves out entries of the first, and keeps their order.
pub data Follows : List SpeedeFile → List SpeedeFile → Type 0 where
  done : {es : List SpeedeFile} → Follows es []
  again :
      {e : SpeedeFile} {es fs : List SpeedeFile} → Follows (e ∷ es) fs → Follows (e ∷ es) (e ∷ fs)
  next : {e : SpeedeFile} {es fs : List SpeedeFile} → Follows es fs → Follows (e ∷ es) fs

abbrev Requests : Type 0
Requests = List (SpeedeFile × Option ℕ)

abbrev pub entries : List (SpeedeFile × Option ℕ) → List SpeedeFile
entries = map (λ p. p.0)

repeated :
    (e : SpeedeFile) (es : List SpeedeFile) (rs rest : Requests)
    → Follows es (entries rest)
    → Follows (e ∷ es) (entries (map (λ p. (e, p.1)) rs ++ rest))
repeated e es [] rest h = next h
repeated e es (r ∷ rs) rest h = again (repeated e es rs rest h)

arranged_Follows :
    (requested : Requests) (es : List SpeedeFile)
    → Follows es (entries (join (map (versions_of requested) es)))
unfolding versions_of
arranged_Follows requested [] = done
arranged_Follows requested (e ∷ es) =
    repeated e es (filter (λ p. same_entry p.0 e) requested) _ (arranged_Follows requested es)

-- The number of entries that are the given one.
matches : SpeedeFile → List SpeedeFile → ℕ
matches e [] = 0
matches e (f ∷ fs) = let rest = matches e fs in if same_entry e f then suc rest else rest

catalogue_apart : all (λ e. matches e catalogue == 1) catalogue ≡ true
unfolding matches same_entry catalogue text_ops
catalogue_apart = refl

In-map :
    {A B : Type 0} (f : A → B) (xs : List A) {a : A} {b : B} → In a xs → b ≡ f a → In b (map f xs)
In-map f [] m e = elim m [ ]
In-map f (x ∷ xs) (inl q) e = inl (e ∙ ap f q)
In-map f (x ∷ xs) (inr m) e = inr (In-map f xs m e)

length-map : {A B : Type 0} (f : A → B) (xs : List A) → length (map f xs) ≡ length xs
length-map f [] = refl
length-map f (x ∷ xs) = ap suc (length-map f xs)

arranged_nothing : (es : List SpeedeFile) → length (join (map (versions_of []) es)) ≡ 0
unfolding versions_of
arranged_nothing [] = refl
arranged_nothing (e ∷ es) = arranged_nothing es

length-versions_of :
    (r : SpeedeFile × Option ℕ) (requested : Requests) (e : SpeedeFile)
    → length (versions_of (r ∷ requested) e)
      ≡ (if same_entry r.0 e then 1 else 0) + length (versions_of requested e)
unfolding versions_of
length-versions_of r requested e = go (same_entry r.0 e)
  where
    at_entry : SpeedeFile × Option ℕ → SpeedeFile × Option ℕ
    at_entry p = (e, p.1)

    kept : Requests
    kept = filter (λ p. same_entry p.0 e) requested

    go :
        (b : Bool)
        → length (map at_entry (if b then r ∷ kept else kept))
          ≡ (if b then 1 else 0) + length (map at_entry kept)
    go true = omega arith
    go false = omega arith

length-arranged :
    (r : SpeedeFile × Option ℕ) (requested : Requests) (es : List SpeedeFile)
    → length (join (map (versions_of (r ∷ requested)) es))
      ≡ matches r.0 es + length (join (map (versions_of requested) es))
unfolding matches
length-arranged r requested [] = omega arith
length-arranged r requested (e ∷ es) =
    let one = length-versions_of r requested e in
    let rest = length-arranged r requested es in
    let left =
      length-append (versions_of (r ∷ requested) e) (join (map (versions_of (r ∷ requested)) es)) in
    let right = length-append (versions_of requested e) (join (map (versions_of requested) es)) in
    ground (arith, one, rest, left, right)

same_entry_refl : (e : SpeedeFile) → same_entry e e ≡ true
unfolding same_entry
same_entry_refl e = rw (text_eq_refl e.account, text_eq_refl e.report) refl

by_key-In :
    (account report : Text) (e : SpeedeFile) → by_key account report ≡ some e → In e catalogue
unfolding by_key
by_key-In account report e h = (find-In (has_key account report) catalogue e h).0

-- A request stands under its entry.
arranged_In :
    (r : SpeedeFile × Option ℕ) (requested : Requests) (es : List SpeedeFile)
    → In r requested
    → In r.0 es
    → In r (join (map (versions_of requested) es))
unfolding versions_of
arranged_In r requested [] m k = elim k [ ]
arranged_In r requested (e ∷ es) m (inl q) = In-append_left r _ _ (
    In-map (λ p. (e, p.1)) _
      (In-filter_intro (λ p. same_entry p.0 e) r requested m
        (subst (λ x. same_entry r.0 x ≡ true) q (same_entry_refl r.0)))
      (ap (λ x. (x, r.1)) q))
arranged_In r requested (e ∷ es) m (inr k) = In-append_right r _ _ (arranged_In r requested es m k)

pick-In : (s : Selector) (e : SpeedeFile) → pick s ≡ some e → In e catalogue
unfolding pick
pick-In s e h = by_key-In (upper (strip s.account)) (lower (strip s.report)) e h

-- What the first loop has found.
abbrev Looked : List Selector → Try Failure Requests → Type 0
Looked selectors (returned requested) =
    (length requested ≡ length selectors)
    × ((r : SpeedeFile × Option ℕ) → In r requested → In r.0 catalogue)
    × ((s : Selector)
        → In s selectors
        → (e : SpeedeFile) × (pick s ≡ some e) × In (e, s.version) requested)
Looked selectors (raised x) =
    (s : Selector) × In s selectors × (pick s ≡ none) × (x ≡ unknown_file s.account s.report)

add_request-Looked :
    (s : Selector) (selectors : List Selector) (o : Option SpeedeFile) (rest : Try Failure Requests)
    → pick s ≡ o
    → Looked selectors rest
    → Looked (s ∷ selectors) (add_request s o rest)
unfolding add_request
add_request-Looked s selectors none rest p h = (s, inl refl, p, refl)
add_request-Looked s selectors (some e) (raised x) p (t, m, q, r) = (t, inr m, q, r)
add_request-Looked s selectors (some e) (returned rs) p (l, k, g) = (ap suc l, known, listed)
  where
    known : (r : SpeedeFile × Option ℕ) → In r ((e, s.version) ∷ rs) → In r.0 catalogue
    known r (inl q) = subst (λ x. In x catalogue) (sym (ap (λ x. x.0) q)) (pick-In s e p)
    known r (inr m) = k r m

    listed :
        (t : Selector)
        → In t (s ∷ selectors)
        → (f : SpeedeFile) × (pick t ≡ some f) × In (f, t.version) ((e, s.version) ∷ rs)
    listed t (inl q) = (e, ap pick q ∙ p, inl (ap (λ x. (e, x.version)) q))
    listed t (inr m) = let (f, a, b) = g t m in (f, a, inr b)

lookup_all-Looked : (selectors : List Selector) → Looked selectors (lookup_all selectors)
unfolding lookup_all
lookup_all-Looked [] = (refl, λ r m. elim m [ ], λ s m. elim m [ ])
lookup_all-Looked (s ∷ selectors) =
    add_request-Looked s selectors (pick s) (lookup_all selectors) refl
      (lookup_all-Looked selectors)

length-arrange :
    (requested : Requests)
    → ((r : SpeedeFile × Option ℕ) → In r requested → In r.0 catalogue)
    → length (arrange requested) ≡ length requested
unfolding arrange
length-arrange [] k = arranged_nothing catalogue
length-arrange (r ∷ requested) k =
    let once : matches r.0 catalogue ≡ 1 =
      (==_iff (matches r.0 catalogue) 1).0
        (all-In (λ e. matches e catalogue == 1) r.0 catalogue catalogue_apart (k r (inl refl))) in
    omega (
      arith,
      length-arranged r requested catalogue,
      once,
      length-arrange requested (λ s m. k s (inr m)),
    )

-- What a request with these selectors is to be answered with.
abbrev pub IsSelection : List Selector → Try Failure (List (SpeedeFile × Option ℕ)) → Type 0
IsSelection selectors (returned requests) =
    Follows catalogue (entries requests)
    × (length requests ≡ length selectors)
    × ((s : Selector)
        → In s selectors
        → (e : SpeedeFile) × (pick s ≡ some e) × In (e, s.version) requests)
IsSelection selectors (raised x) =
    (s : Selector) × In s selectors × (pick s ≡ none) × (x ≡ unknown_file s.account s.report)

arrange_all-IsSelection :
    (selectors : List Selector) (looked : Try Failure Requests)
    → Looked selectors looked
    → IsSelection selectors (arrange_all looked)
unfolding arrange_all arrange
arrange_all-IsSelection selectors (raised x) h = h
arrange_all-IsSelection selectors (returned requested) (l, k, g) = (
  arranged_Follows requested catalogue,
  length-arrange requested k ∙ l,
  λ s m.
      let (e, p, j) = g s m in
      (e, p, arranged_In (e, s.version) requested catalogue j (k (e, s.version) j)),
)

-- A request that names files is answered with as many files as it has selectors: each selector's
-- entry with its version, in the order of the catalogue. If that fails, then because one of the
-- selectors names no entry, which the error says.
pub resolve_selection-IsSelection :
    (s : Selector) (selectors : List Selector)
    → IsSelection (s ∷ selectors) (resolve_selection (s ∷ selectors))
unfolding resolve_selection
resolve_selection-IsSelection s selectors =
    arrange_all-IsSelection (s ∷ selectors) (lookup_all (s ∷ selectors))
      (lookup_all-Looked (s ∷ selectors))
