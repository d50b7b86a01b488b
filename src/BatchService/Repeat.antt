-- ===== src/BatchService/Repeat.antt =====
-- app/services/batch_service.py, `submit_manifest`: a manifest that is posted again.
use edpbilling_file_upload.Base.{
  ◌≡◌, ◌≢◌, refl, sym, ◌∙◌, ap, subst, Bool, true, false, Option, none, some, List, [], ◌∷◌, ◌++◌,
  one_of, text_eq_refl, find, any, if◌then◌else◌, Bool-cases, inl, inr, arith,
}
use edpbilling_file_upload.Base.Program.{Try, returned, raised, pure, continue, ◌>>=◌, ◌>>◌}
use edpbilling_file_upload.Batches.{Batch, BatchStatus, create, find_by_batch_id, has_id}
use edpbilling_file_upload.Queue.{Enqueued, added, already_in_flight, queue_full, enqueue}
use edpbilling_file_upload.Queue.InFlight.{enqueue-held, enqueue_again}
use edpbilling_file_upload.Queue.Task.{SegmentBatchTask, key}
use edpbilling_file_upload.Manifest.{
  Intake, ManifestError, ChecksumError, LoadedManifest, load_manifest, to_task,
}
use edpbilling_file_upload.SafePath.{Location}
use edpbilling_file_upload.BatchService.{
  ServiceError, Store, IntakeResult, Reserved, new_batch, answer_of, enqueue_task, enqueue_checked,
  is_pending, known_result, acknowledge_known, reject, acknowledge_winner, after_create, checked,
  known_or_new, loaded, submit_manifest,
}

-- The same answer once more, from the store that the first one left, which stays as it is.
abbrev pub AnswersAgain :
    (Store → Try ServiceError IntakeResult × Store) → IntakeResult → Store → Type 0
AnswersAgain submit a w = submit w ≡ (returned (record a { already_known = true }), w)

-- An accepted task stays where it is when it is put once more.
enqueue_task-again :
    (t t' : SegmentBatchTask) (w : Store)
    → key t ≡ key t'
    → (enqueue_task t w).0 ≡ returned tt
    → enqueue_task t' (enqueue_task t w).1 ≡ (returned tt, (enqueue_task t w).1)
unfolding enqueue_task
enqueue_task-again t t' w k h =
    let held : one_of (key t') (enqueue t w.queue).1.in_flight ≡ true =
      subst (λ x. one_of x (enqueue t w.queue).1.in_flight ≡ true) k
        (enqueue-held t w.queue (accepted (enqueue t w.queue).0 h)) in
    ap (λ x. (answer_of x.0, record w { queue = x.1 }))
      (enqueue_again t' (enqueue t w.queue).1 held)
  where
    accepted : (r : Enqueued) → answer_of r ≡ returned tt → r ≢ queue_full
    accepted added e q = cc
    accepted already_in_flight e q = cc
    accepted queue_full e q = cc

same_key :
    (m : LoadedManifest) (r r' : Reserved)
    → key (to_task m r.process_id r.table1 r.table2)
      ≡ key (to_task m r'.process_id r'.table1 r'.table2)
unfolding key to_task
same_key m r r' = refl

pending-again :
    (m : LoadedManifest) (r r' : Reserved) (known : IntakeResult) (w w' : Store) (a : IntakeResult)
    → (enqueue_checked m r >> pure known) w ≡ (returned a, w')
    → (a ≡ known) × (w'.batches ≡ w.batches) × (enqueue_checked m r' w' ≡ (returned tt, w'))
unfolding enqueue_checked ◌>>=◌ continue pure
pending-again m r r' known w w' a h =
    go (enqueue_task (to_task m r.process_id r.table1 r.table2) w) refl h
  where
    value_of : Try ServiceError IntakeResult → IntakeResult
    value_of (returned x) = x
    value_of (raised e) = known

    go :
        (x : Try ServiceError (Unit {0}) × Store)
        → enqueue_task (to_task m r.process_id r.table1 r.table2) w ≡ x
        → continue x.0 (λ _. pure known) x.1 ≡ (returned a, w')
        → (a ≡ known) × (w'.batches ≡ w.batches) × (enqueue_checked m r' w' ≡ (returned tt, w'))
    go (raised e, v) q h = cc
    go (returned u, v) q h =
        let same : v ≡ w' = ap (λ x. x.1) h in
        let accepted : (enqueue_task (to_task m r.process_id r.table1 r.table2) w).0 ≡ returned tt =
          ap (λ x. x.0) q in
        (
          ap (λ x. value_of x.0) (sym h),
          ap (λ x. x.batches) (sym (ap (λ x. x.1) q ∙ same)),
          subst (λ s. enqueue_checked m r' s ≡ (returned tt, s)) (ap (λ x. x.1) q ∙ same)
              (enqueue_task-again _ _ w (same_key m r r') accepted),
        )

-- What is left for the same manifest to find.
abbrev Found : LoadedManifest → Reserved → IntakeResult → Store → Type 0
Found m r' a w' =
    (b : Batch) × (find_by_batch_id m.batch_id w'.batches ≡ some b)
    × (acknowledge_known m r' b w' ≡ (returned (record a { already_known = true }), w'))

known-again :
    (m : LoadedManifest) (r r' : Reserved) (b : Batch) (w w' : Store) (a : IntakeResult)
    → find_by_batch_id m.batch_id w.batches ≡ some b
    → acknowledge_known m r b w ≡ (returned a, w')
    → Found m r' a w'
unfolding acknowledge_known known_result ◌>>=◌ continue pure
known-again m r r' b w w' a f h = go (is_pending b.status) refl h
  where
    first_answer : Try ServiceError IntakeResult → IntakeResult
    first_answer (returned x) = x
    first_answer (raised e) = known_result b

    go :
        (p : Bool)
        → is_pending b.status ≡ p
        → (if p then enqueue_checked m r >> pure (known_result b) else pure (known_result b)) w
          ≡ (returned a, w')
        → Found m r' a w'
    go true e k =
        let (same, kept, again) = pending-again m r r' (known_result b) w w' a k in
        (
          b,
          ap (find_by_batch_id m.batch_id) kept ∙ f,
          rw e (
              ap (λ y. continue y.0 (λ _. pure (known_result b)) y.1) again
              ∙ ap (λ x. (returned (record x { already_known = true }), w')) (sym same)),
        )
    go false e k =
        let same : known_result b ≡ a = ap (λ x. first_answer x.0) k in
        let stays : w ≡ w' = ap (λ x. x.1) k in
        (
          b,
          ap (λ x. find_by_batch_id m.batch_id x.batches) (sym stays) ∙ f,
          rw e (ap (λ x. (returned (record x { already_known = true }), w')) same),
        )

-- The row that was inserted is the one that is found.
find-create :
    (row : Batch) (batches new : List Batch)
    → create row batches ≡ some new
    → find_by_batch_id row.batch_id new ≡ some row
unfolding create find_by_batch_id
find-create row batches new h = elim (Bool-cases (any (has_id row.batch_id) batches)) [
  | inl e ↦ absurd (ground arith)
  | inr e ↦
      let same : batches ++ (row ∷ []) ≡ new = ground arith in
      subst (λ bs. find (has_id row.batch_id) bs ≡ some row) same (last batches e)
]
  where
    last :
        (bs : List Batch)
        → any (has_id row.batch_id) bs ≡ false
        → find (has_id row.batch_id) (bs ++ (row ∷ [])) ≡ some row
    last [] e = rw (text_eq_refl row.batch_id) refl
    last (b ∷ bs) e = ground (arith, last bs)

abbrev new_result : LoadedManifest → IntakeResult
new_result m = record { batch_id = m.batch_id; status = BatchStatus.queued; already_known = false }

module _ (intake : Intake) (meanwhile : Store → Store) where
  created-again :
      (m : LoadedManifest) (path : Location) (r r' : Reserved) (o : Option (List Batch))
      (w w' : Store) (a : IntakeResult)
      → create (new_batch m path BatchStatus.queued none) w.batches ≡ o
      → after_create intake meanwhile m r o w ≡ (returned a, w')
      → Found m r' a w'
  unfolding after_create acknowledge_winner new_batch
  created-again m path r r' none w w' a e h = go (find_by_batch_id m.batch_id w.batches) refl h
    where
      go :
          (o : Option Batch)
          → find_by_batch_id m.batch_id w.batches ≡ o
          → acknowledge_winner intake meanwhile m r o w ≡ (returned a, w')
          → Found m r' a w'
      go none q k = cc
      go (some b) q k = known-again m r r' b w w' a q k
  created-again m path r r' (some batches) w w' a e h =
      let row = new_batch m path BatchStatus.queued none in
      let (same, kept, again) =
        pending-again m r r' (new_result m) (record w { batches = batches }) w' a h in
      (
        row,
        ap (find_by_batch_id m.batch_id) kept ∙ find-create row w.batches batches e,
        ap (λ y. continue y.0 (λ _. pure (known_result row)) y.1) again
            ∙ ap (λ x. (returned (record x { already_known = true }), w')) (sym same),
      )

  checked-again :
      (m : LoadedManifest) (path : Location) (r r' : Reserved) (o : Option ChecksumError)
      (w w' : Store) (a : IntakeResult)
      → checked intake meanwhile m path r o w ≡ (returned a, w')
      → Found m r' a w'
  unfolding checked reject
  checked-again m path r r' (some e) w w' a h = cc
  checked-again m path r r' none w w' a h = created-again m path r r' _ (meanwhile w) w' a refl h

  -- A manifest whose POST was answered is posted again, perhaps with other reserved tables, in the
  -- state that the first POST left, before anything else happens: the answer has the same batch id and status and says that the batch is
  -- known already, and neither the batches table nor the queue changes. This holds whatever other
  -- requests did during the first POST, a lost race for the row included.
  pub submit_manifest-AnswersAgain :
      (path : Location) (r r' : Reserved) (w w' : Store) (a : IntakeResult)
      → submit_manifest intake meanwhile path r w ≡ (returned a, w')
      → AnswersAgain (submit_manifest intake (λ v. v) path r') a w'
  unfolding submit_manifest loaded known_or_new
  submit_manifest-AnswersAgain path r r' w w' a h = go (load_manifest intake path) h
    where
      at_known :
          (m : LoadedManifest)
          → Found m r' a w'
          → loaded intake (λ v. v) path r' (returned m) w'
            ≡ (returned (record a { already_known = true }), w')
      at_known m (b, f, again) = ap (λ o. known_or_new intake (λ v. v) m path r' o w') f ∙ again

      from_row :
          (m : LoadedManifest) (o : Option Batch)
          → find_by_batch_id m.batch_id w.batches ≡ o
          → known_or_new intake meanwhile m path r o w ≡ (returned a, w')
          → Found m r' a w'
      from_row m none e k = checked-again m path r r' _ w w' a k
      from_row m (some b) e k = known-again m r r' b w w' a e k

      go :
          (l : Try ManifestError LoadedManifest)
          → loaded intake meanwhile path r l w ≡ (returned a, w')
          → loaded intake (λ v. v) path r' l w' ≡ (returned (record a { already_known = true }), w')
      go (raised e) k = cc
      go (returned m) k = at_known m (from_row m (find_by_batch_id m.batch_id w.batches) refl k)
