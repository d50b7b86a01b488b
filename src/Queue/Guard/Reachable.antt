-- ===== src/Queue/Guard/Reachable.antt =====
-- app/core/queue.py: the in-flight guard through the steps of the queue and its workers.
use mathlib.Core.Option.{some_inj}
use edpbilling_file_upload.Base.{
  subst, arith, ℕ, suc, ◌+◌, ◌≡◌, refl, ◌∙◌, ap, Bool, true, false, none, some, List, [], ◌∷◌, ◌++◌,
  Text, one_of, length, if◌then◌else◌,
}
use edpbilling_file_upload.Queue.{
  Item, batch, shutdown, BatchQueue, System, Step, claims, puts, meets_full, discards, stops, picks,
  takes_shutdown, leaves, completes, releases, Reaches, stays, moves, fresh, get, request_shutdown,
  task_done, release, is_full, put,
}
use edpbilling_file_upload.Queue.Task.{SegmentBatchTask, key}
use edpbilling_file_upload.Queue.Guard.{
  times, batches, around, IsGuarded, times-append, batches-append, length-append_one, times-middle,
  length-middle, held-claim, held-release,
}

-- A queue's first item, once it is taken.
get-waiting :
    (q q' : BatchQueue) (item : Item)
    → get q ≡ some (item, q')
    → (q.waiting ≡ item ∷ q'.waiting)
      × (q'.in_flight ≡ q.in_flight)
      × (q'.unfinished ≡ q.unfinished)
unfolding get
get-waiting q q' item e = ground arith

task_done-counts :
    (q q' : BatchQueue)
    → task_done q ≡ some q'
    → (q.unfinished ≡ suc q'.unfinished) × (q'.waiting ≡ q.waiting) × (q'.in_flight ≡ q.in_flight)
unfolding task_done
task_done-counts q q' e = ground arith

-- A batch that leaves one list of the threads for another, or for the queue, is counted once still.
module _ (s : System) (h : IsGuarded s) where
  claim-IsGuarded :
      (t : SegmentBatchTask)
      → one_of (key t) s.queue.in_flight ≡ false
      → IsGuarded (record s {
        queue = record s.queue { in_flight = key t ∷ s.queue.in_flight };
        entering = t ∷ s.entering;
      })
  claim-IsGuarded t e = record {
    once = λ k. ground (arith, h.once k, held-claim k t s.queue e);
    counted = h.counted;
  }

  put-IsGuarded :
      (before after : List SegmentBatchTask) (t : SegmentBatchTask)
      → s.entering ≡ before ++ (t ∷ after)
      → IsGuarded (record s { queue = put (batch t) s.queue; entering = before ++ after })
  unfolding put
  put-IsGuarded before after t e = record {
    once = λ k.
        let more : times k (batches (s.queue.waiting ++ (batch t ∷ [])))
            ≡ times k (batches s.queue.waiting) + times k (t ∷ []) =
          ap (times k) (batches-append s.queue.waiting (batch t ∷ []))
          ∙ times-append k (batches s.queue.waiting) (t ∷ []) in
        ground (arith, more, h.once k, times-middle k s.entering before after t e);
    counted = omega (arith, h.counted, length-append_one (batch t) s.queue.waiting);
  }

  full-IsGuarded :
      (before after : List SegmentBatchTask) (t : SegmentBatchTask)
      → s.entering ≡ before ++ (t ∷ after)
      → IsGuarded (record s { entering = before ++ after; refused = t ∷ s.refused })
  full-IsGuarded before after t e = record {
    once = λ k. ground (arith, h.once k, times-middle k s.entering before after t e);
    counted = h.counted;
  }

  discard-IsGuarded :
      (before after : List SegmentBatchTask) (t : SegmentBatchTask)
      → s.refused ≡ before ++ (t ∷ after)
      → IsGuarded (record s { queue = release (key t) s.queue; refused = before ++ after })
  discard-IsGuarded before after t e = record {
    once = λ k.
        waiting-release k
        ∙ ground
            (arith, h.once k, times-middle k s.refused before after t e, held-release k t s.queue);
    counted = unfold release in h.counted;
  }
    where
      waiting-release :
          (k : Text)
          → times k (batches (release (key t) s.queue).waiting)
              + around k (record s { refused = before ++ after })
            ≡ times k (batches s.queue.waiting) + around k (record s { refused = before ++ after })
      waiting-release k = unfold release in refl

  stop-IsGuarded :
      (q : BatchQueue) → request_shutdown s.queue ≡ some q → IsGuarded (record s { queue = q })
  unfolding request_shutdown put
  stop-IsGuarded q e = go (is_full s.queue) e
    where
      go :
          (b : Bool)
          → (if b then none else some (put shutdown s.queue)) ≡ some q
          → IsGuarded (record s { queue = q })
      go true d = cc
      go false d =
          subst (λ p. IsGuarded (record s { queue = p })) (some_inj.0 d)
            (record {
              once = λ k.
                  ap (λ n. n + around k s)
                    (ap (times k) (batches-append s.queue.waiting (shutdown ∷ []))
                      ∙ times-append k (batches s.queue.waiting) []
                      ∙ omega arith)
                  ∙ h.once k;
              counted = omega (arith, h.counted, length-append_one shutdown s.queue.waiting);
            })

  pick-IsGuarded :
      (q : BatchQueue) (t : SegmentBatchTask)
      → get s.queue ≡ some (batch t, q)
      → IsGuarded (record s { queue = q; busy = t ∷ s.busy })
  pick-IsGuarded q t e =
      let (w, f, u) = get-waiting s.queue q (batch t) e in
      record {
        once = λ k. ground (arith, h.once k, ap (λ xs. times k (batches xs)) w, ap (one_of k) f);
        counted = omega (arith, h.counted, ap length w, u);
      }

  shutdown-IsGuarded :
      (q : BatchQueue)
      → get s.queue ≡ some (shutdown, q)
      → IsGuarded (record s { queue = q; leaving = suc s.leaving })
  shutdown-IsGuarded q e =
      let (w, f, u) = get-waiting s.queue q shutdown e in
      record {
        once = λ k. ground (arith, h.once k, ap (λ xs. times k (batches xs)) w, ap (one_of k) f);
        counted = omega (arith, h.counted, ap length w, u);
      }

  leave-IsGuarded :
      (q : BatchQueue) (n : ℕ)
      → s.leaving ≡ suc n
      → task_done s.queue ≡ some q
      → IsGuarded (record s { queue = q; leaving = n })
  leave-IsGuarded q n e d =
      let (u, w, f) = task_done-counts s.queue q d in
      record {
        once = λ k. ground (arith, h.once k, ap (λ xs. times k (batches xs)) w, ap (one_of k) f);
        counted = omega (arith, h.counted, ap length w, u, e);
      }

  complete-IsGuarded :
      (q : BatchQueue) (before after : List SegmentBatchTask) (t : SegmentBatchTask)
      → s.busy ≡ before ++ (t ∷ after)
      → task_done s.queue ≡ some q
      → IsGuarded (record s { queue = q; busy = before ++ after; finishing = t ∷ s.finishing })
  complete-IsGuarded q before after t e d =
      let (u, w, f) = task_done-counts s.queue q d in
      record {
        once = λ k. ground (
          arith,
          h.once k,
          ap (λ xs. times k (batches xs)) w,
          ap (one_of k) f,
          times-middle k s.busy before after t e,
        );
        counted = omega (arith, h.counted, ap length w, u, length-middle s.busy before after t e);
      }

  release-IsGuarded :
      (before after : List SegmentBatchTask) (t : SegmentBatchTask)
      → s.finishing ≡ before ++ (t ∷ after)
      → IsGuarded (record s { queue = release (key t) s.queue; finishing = before ++ after })
  release-IsGuarded before after t e = record {
    once = λ k.
        waiting-release k
        ∙ ground (
          arith,
          h.once k,
          times-middle k s.finishing before after t e,
          held-release k t s.queue,
        );
    counted = unfold release in h.counted;
  }
    where
      waiting-release :
          (k : Text)
          → times k (batches (release (key t) s.queue).waiting)
              + around k (record s { finishing = before ++ after })
            ≡ times k (batches s.queue.waiting)
              + around k (record s { finishing = before ++ after })
      waiting-release k = unfold release in refl

-- Every step keeps the guard.
pub Step-IsGuarded : (s t : System) → Step s t → IsGuarded s → IsGuarded t
Step-IsGuarded s t (claims task e) h = claim-IsGuarded s h task e
Step-IsGuarded s t (puts before after task e _) h = put-IsGuarded s h before after task e
Step-IsGuarded s t (meets_full before after task e _) h = full-IsGuarded s h before after task e
Step-IsGuarded s t (discards before after task e) h = discard-IsGuarded s h before after task e
Step-IsGuarded s t (stops {q = q} e) h = stop-IsGuarded s h q e
Step-IsGuarded s t (picks {q = q} task e) h = pick-IsGuarded s h q task e
Step-IsGuarded s t (takes_shutdown {q = q} e) h = shutdown-IsGuarded s h q e
Step-IsGuarded s t (leaves {q = q} n e d) h = leave-IsGuarded s h q n e d
Step-IsGuarded s t (completes {q = q} before after task e d) h =
    complete-IsGuarded s h q before after task e d
Step-IsGuarded s t (releases before after task e) h = release-IsGuarded s h before after task e

fresh-IsGuarded : (maxsize : ℕ) → IsGuarded (fresh maxsize)
unfolding fresh one_of
fresh-IsGuarded maxsize = record { once = λ k. refl; counted = refl }

Reaches-IsGuarded : (s t : System) → Reaches s t → IsGuarded s → IsGuarded t
Reaches-IsGuarded s t stays h = h
Reaches-IsGuarded s t (moves {t = m} r step) h = Step-IsGuarded m t step (Reaches-IsGuarded s m r h)

-- However the parts of enqueues, shutdowns and any number of workers interleave from a fresh queue, a
-- key is in flight exactly while one batch of that key is being enqueued, waits, is being processed or
-- is about to be released, never two, and the count of unfinished items is that of the items that
-- wait or whose `task_done` is still to come.
pub reachable-IsGuarded : (maxsize : ℕ) (s : System) → Reaches (fresh maxsize) s → IsGuarded s
reachable-IsGuarded maxsize s r = Reaches-IsGuarded (fresh maxsize) s r (fresh-IsGuarded maxsize)
