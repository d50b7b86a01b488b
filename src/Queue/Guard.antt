-- ===== src/Queue/Guard.antt =====
-- app/core/queue.py: the in-flight guard, and `enqueue`.
pub mod Reachable
use mathlib.Core.Option.{some_inj}
use edpbilling_file_upload.Base.{
  subst, arith, ℕ, zero, suc, ◌+◌, ◌≤◌, ◌≡◌, ◌≢◌, refl, sym, ◌∙◌, ap, Bool, true, false, not,
  Option, none, some, List, [], ◌∷◌, ◌++◌, Text, one_of, text_eq, text_eq_iff, filter, length,
  length-append, if◌then◌else◌, Bool-cases, inl, inr, ◌⊎◌, any,
}
use edpbilling_file_upload.Queue.{
  Item, batch, shutdown, BatchQueue, System, Reaches, stays, moves, fresh, enqueue, get,
  request_shutdown, task_done, release, discard, is_full, put, Enqueued,
}
use edpbilling_file_upload.Queue.Task.{SegmentBatchTask, key}

-- How many of the batches have the key.
abbrev pub times : Text → List SegmentBatchTask → ℕ
times k [] = 0
times k (t ∷ ts) = let rest = times k ts in if text_eq k (key t) then suc rest else rest

abbrev pub batches : List Item → List SegmentBatchTask
batches [] = []
batches (batch t ∷ items) = t ∷ batches items
batches (shutdown ∷ items) = batches items

abbrev pub held : Text → BatchQueue → ℕ
held k q = if one_of k q.in_flight then 1 else 0

-- How many of the batches around the queue have the key.
abbrev pub around : Text → System → ℕ
around k s = times k s.entering + times k s.refused + times k s.busy + times k s.finishing

-- A key is in flight exactly while one batch of it is being enqueued, waits, is being processed or is
-- about to be released, and no two are; and the count of unfinished items is that of the items that
-- wait or whose `task_done` is still to come.
pub record IsGuarded (s : System) : Type 0 where
  pub once : (k : Text) → times k (batches s.queue.waiting) + around k s ≡ held k s.queue
  pub counted : s.queue.unfinished ≡ length s.queue.waiting + length s.busy + s.leaving

times-append :
    (k : Text) (xs ys : List SegmentBatchTask) → times k (xs ++ ys) ≡ times k xs + times k ys
times-append k [] ys = omega arith
times-append k (x ∷ xs) ys = ground (arith, times-append k xs ys)

batches-append : (xs ys : List Item) → batches (xs ++ ys) ≡ batches xs ++ batches ys
batches-append [] ys = refl
batches-append (batch t ∷ xs) ys = ap (λ ts. t ∷ ts) (batches-append xs ys)
batches-append (shutdown ∷ xs) ys = batches-append xs ys

one_of-discard :
    (k j : Text) (ks : List Text)
    → one_of k (discard j ks) ≡ (if text_eq k j then false else one_of k ks)
unfolding discard one_of
one_of-discard k j [] = ground arith
one_of-discard k j (i ∷ ks) = ground (
  arith,
  text_eq_iff k j,
  text_eq_iff k i,
  text_eq_iff j i,
  text_eq_iff j k,
  one_of-discard k j ks,
)

length-append_one : {A : Type 0} (x : A) (xs : List A) → length (xs ++ (x ∷ [])) ≡ suc (length xs)
length-append_one x xs = omega (arith, length-append xs (x ∷ []))

-- One batch taken out of a list.
times-middle :
    (k : Text) (xs before after : List SegmentBatchTask) (t : SegmentBatchTask)
    → xs ≡ before ++ (t ∷ after)
    → times k xs ≡ (if text_eq k (key t) then 1 else 0) + times k (before ++ after)
times-middle k xs before after t e =
    ground (arith, ap (times k) e, times-append k before (t ∷ after), times-append k before after)

length-middle :
    (xs before after : List SegmentBatchTask) (t : SegmentBatchTask)
    → xs ≡ before ++ (t ∷ after)
    → length xs ≡ suc (length (before ++ after))
length-middle xs before after t e =
    omega (arith, ap length e, length-append before (t ∷ after), length-append before after)

-- The keys in flight, with one more or one less.
held-claim :
    (k : Text) (t : SegmentBatchTask) (q : BatchQueue)
    → one_of (key t) q.in_flight ≡ false
    → held k (record q { in_flight = key t ∷ q.in_flight })
      ≡ (if text_eq k (key t) then 1 else 0) + held k q
unfolding one_of
held-claim k t q e = elim (Bool-cases (text_eq k (key t))) [
  | inl same ↦
      let free : one_of k q.in_flight ≡ false =
        ap (λ i. one_of i q.in_flight) ((text_eq_iff k (key t)).0 same) ∙ e in
      ground arith
  | inr other ↦ ground arith
]

held-release :
    (k : Text) (t : SegmentBatchTask) (q : BatchQueue)
    → held k (release (key t) q) ≡ (if text_eq k (key t) then 0 else held k q)
unfolding release
held-release k t q = ground (arith, one_of-discard k (key t) q.in_flight)
