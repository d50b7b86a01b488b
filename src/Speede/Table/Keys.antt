-- ===== src/Speede/Table/Keys.antt =====
-- app/repositories/nsdl_speede_upload_repository.py: what `update` and `insert` do to the keys of
-- the rows, to the rows that carry a TRANID, and to the row that is read back.
use edpbilling_file_upload.Base.{
  ℕ, suc, ◌==◌, ◌≡◌, refl, ap, ◌∙◌, Bool, true, false, ◌&&◌, ◌||◌, Option, none, some, List, [],
  ◌∷◌, ◌++◌, filter, find-In, any, Text, text_eq, ==_iff, if◌then◌else◌, Bool-cases, inl, inr,
  arith,
}
use edpbilling_file_upload.Base.Program.{returned, raised}
use edpbilling_file_upload.Speede.{Failure, other}
use edpbilling_file_upload.Speede.Table.{
  Upload, Key, find_upload, one_of_rows, is_keyed, same_version, has_id, get, update, given,
}

abbrev pub key : Upload → Key
key u = record {
  trade_date = u.trade_date;
  account = u.account;
  report = u.report;
  file_version = u.file_version;
}

-- No two rows have the same date, account, report and version.
abbrev pub KeysDiffer : List Upload → Type 0
KeysDiffer [] = Unit {0}
KeysDiffer (u ∷ us) = (any (is_keyed (key u)) us ≡ false) × KeysDiffer us

-- The number of rows that carry a TRANID.
abbrev pub sent : List Upload → ℕ
sent [] = 0
sent (u ∷ us) = let rest = sent us in if given u.tran_id then suc rest else rest

-- An update of other columns than the id and the key.
abbrev pub KeepsKey : (Upload → Upload) → Type 0
KeepsKey f = (u : Upload) → ((f u).id ≡ u.id) × (key (f u) ≡ key u)

-- An update of other columns than the TRANID too.
abbrev pub KeepsSent : (Upload → Upload) → Type 0
KeepsSent f = (u : Upload) → (f u).tran_id ≡ u.tran_id

pub sent-update :
    (n : ℕ) (f : Upload → Upload) (us : List Upload) → KeepsSent f → sent (update n f us) ≡ sent us
unfolding update
sent-update n f [] h = refl
sent-update n f (u ∷ us) h = elim (Bool-cases (has_id n u)) [
  | inl e ↦ rw (e, h u) refl
  | inr e ↦ rw (e, sent-update n f us h) refl
]

pub get-update :
    (n : ℕ) (f : Upload → Upload) (us : List Upload) {u : Upload}
    → KeepsKey f
    → get n us ≡ some u
    → get n (update n f us) ≡ some (f u)
unfolding update get
get-update n f [] h e = cc
get-update n f (v ∷ us) {u} h e = elim (Bool-cases (has_id n v)) [
  | inl p ↦
      let same : v ≡ u = ground arith in
      let kept : has_id n (f v) ≡ true = ap (λ i. i == n) (h v).0 ∙ p in
      rw (p, kept) (ap (λ x. some (f x)) same)
  | inr p ↦ let rest : get n us ≡ some u = ground arith in rw (p, p) (get-update n f us h rest)
]

-- Writing a TRANID into a row that has none.
pub sent-update_one :
    (n : ℕ) (f : Upload → Upload) (us : List Upload) {u : Upload}
    → ((v : Upload) → given (f v).tran_id ≡ true)
    → get n us ≡ some u
    → given u.tran_id ≡ false
    → sent (update n f us) ≡ suc (sent us)
unfolding update get
sent-update_one n f [] h e g = cc
sent-update_one n f (v ∷ us) {u} h e g = elim (Bool-cases (has_id n v)) [
  | inl p ↦
      let same : v ≡ u = ground arith in
      let unsent : given v.tran_id ≡ false = ap (λ x. given x.tran_id) same ∙ g in
      rw (p, h v, unsent) refl
  | inr p ↦
      let rest : get n us ≡ some u = ground arith in
      let step : sent (update n f us) ≡ suc (sent us) = sent-update_one n f us h rest g in
      ground (arith, step)
]

pub is_keyed_same : (k : Key) (u v : Upload) → key u ≡ key v → is_keyed k u ≡ is_keyed k v
unfolding is_keyed
is_keyed_same k u v e =
    ap
      (λ x.
        text_eq x.trade_date k.trade_date
        && text_eq x.account k.account
        && text_eq x.report k.report
        && same_version x.file_version k.file_version)
      e

any-update :
    (k : Key) (n : ℕ) (f : Upload → Upload) (us : List Upload)
    → KeepsKey f
    → any (is_keyed k) (update n f us) ≡ any (is_keyed k) us
unfolding update
any-update k n f [] h = refl
any-update k n f (u ∷ us) h = elim (Bool-cases (has_id n u)) [
  | inl p ↦ rw p (ap (λ b. b || any (is_keyed k) us) (is_keyed_same k (f u) u (h u).1))
  | inr p ↦ rw p (ap (λ b. is_keyed k u || b) (any-update k n f us h))
]

pub update-KeysDiffer :
    (n : ℕ) (f : Upload → Upload) (us : List Upload)
    → KeepsKey f
    → KeysDiffer us
    → KeysDiffer (update n f us)
unfolding update
update-KeysDiffer n f [] h d = tt
update-KeysDiffer n f (u ∷ us) h (fresh, d) = elim (Bool-cases (has_id n u)) [
  | inl p ↦ rw (p, (h u).1) (fresh, d)
  | inr p ↦ rw p (any-update (key u) n f us h ∙ fresh, update-KeysDiffer n f us h d)
]

pub sent-insert :
    (us : List Upload) (v : Upload) → given v.tran_id ≡ false → sent (us ++ (v ∷ [])) ≡ sent us
sent-insert [] v g = rw g refl
sent-insert (u ∷ us) v g = rw (sent-insert us v g) refl

text_eq_sym : (s t : Text) → text_eq s t ≡ text_eq t s
unfolding text_eq
text_eq_sym [] [] = refl
text_eq_sym (x ∷ xs) (y ∷ ys) = rw (text_eq_sym xs ys) (ground arith)
text_eq_sym [] (_ ∷ _) = refl
text_eq_sym (_ ∷ _) [] = refl

same_version_sym : (m n : Option ℕ) → same_version m n ≡ same_version n m
unfolding same_version
same_version_sym none none = refl
same_version_sym (some m) (some n) = ground arith
same_version_sym none (some _) = refl
same_version_sym (some _) none = refl

is_keyed_sym : (u v : Upload) → is_keyed (key u) v ≡ is_keyed (key v) u
unfolding is_keyed
is_keyed_sym u v =
    rw
      (
        text_eq_sym v.trade_date u.trade_date,
        text_eq_sym v.account u.account,
        text_eq_sym v.report u.report,
        same_version_sym v.file_version u.file_version,
      )
      refl

any-append_one :
    (p : Upload → Bool) (us : List Upload) (v : Upload)
    → any p us ≡ false
    → p v ≡ false
    → any p (us ++ (v ∷ [])) ≡ false
any-append_one p [] v h g = rw g refl
any-append_one p (u ∷ us) v h g = ground (arith, any-append_one p us v)

pub insert-KeysDiffer :
    (us : List Upload) (v : Upload)
    → any (is_keyed (key v)) us ≡ false
    → KeysDiffer us
    → KeysDiffer (us ++ (v ∷ []))
insert-KeysDiffer [] v h d = (refl, tt)
insert-KeysDiffer (u ∷ us) v h (fresh, d) = elim (Bool-cases (is_keyed (key v) u)) [
  | inl e ↦ absurd (ground arith)
  | inr e ↦
      let rest : any (is_keyed (key v)) us ≡ false = ground arith in
      (
        any-append_one (is_keyed (key u)) us v fresh (is_keyed_sym u v ∙ e),
        insert-KeysDiffer us v rest d,
      )
]

filter-none : (p : Upload → Bool) (us : List Upload) → filter p us ≡ [] → any p us ≡ false
filter-none p [] h = refl
filter-none p (u ∷ us) h = elim (Bool-cases (p u)) [
  | inl e ↦ absurd (ground arith)
  | inr e ↦ let rest : filter p us ≡ [] = ground arith in ground (arith, filter-none p us rest)
]

one_of_rows-none : (us : List Upload) → one_of_rows us ≡ returned none → us ≡ []
unfolding one_of_rows
one_of_rows-none [] h = refl
one_of_rows-none (u ∷ []) h = cc
one_of_rows-none (u ∷ v ∷ us) h = cc

-- A key that `find` does not know is free.
pub find_upload-none :
    (k : Key) (us : List Upload) → find_upload k us ≡ returned none → any (is_keyed k) us ≡ false
unfolding find_upload
find_upload-none k us h = filter-none (is_keyed k) us (one_of_rows-none _ h)

pub get-id : (n : ℕ) (us : List Upload) {u : Upload} → get n us ≡ some u → u.id ≡ n
unfolding get
get-id n us {u} e = let (m, p) = find-In (has_id n) us u e in (==_iff u.id n).0 p

one_of_rows-raised : (us : List Upload) (e : Failure) → one_of_rows us ≡ raised e → e ≡ other
unfolding one_of_rows
one_of_rows-raised [] e h = absurd (cc)
one_of_rows-raised (u ∷ []) e h = absurd (cc)
one_of_rows-raised (u ∷ v ∷ us) e h = cc

pub find_upload-raised :
    (k : Key) (us : List Upload) (e : Failure) → find_upload k us ≡ raised e → e ≡ other
unfolding find_upload
find_upload-raised k us e h = one_of_rows-raised _ e h
