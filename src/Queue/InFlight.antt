-- ===== src/Queue/InFlight.antt =====
-- app/core/queue.py, `enqueue`: the key of a task that was accepted, and the task once more.
use edpbilling_file_upload.Base.{
  ◌≡◌, ◌≢◌, ◌⊎◌, ◌∙◌, ap, refl, true, false, [], ◌∷◌, ◌++◌, one_of, text_eq_refl, Bool-cases, inl,
  inr, arith,
}
use edpbilling_file_upload.Queue.{
  BatchQueue, batch, already_in_flight, queue_full, enqueue, is_full, put,
}
use edpbilling_file_upload.Queue.Task.{SegmentBatchTask, key}

-- An enqueue that was not refused: the task is at the end of the queue and its key in flight, or a
-- task of that key was in flight before, and the queue is as it was.
abbrev pub IsAccepted : SegmentBatchTask → BatchQueue → BatchQueue → Type 0
IsAccepted t q q' =
    ((one_of (key t) q.in_flight ≡ false)
      × (q'.waiting ≡ q.waiting ++ (batch t ∷ []))
      × (one_of (key t) q'.in_flight ≡ true))
    ⊎ ((one_of (key t) q.in_flight ≡ true) × (q' ≡ q))

pub enqueue-IsAccepted :
    (t : SegmentBatchTask) (q : BatchQueue)
    → (enqueue t q).0 ≢ queue_full
    → IsAccepted t q (enqueue t q).1
unfolding enqueue put one_of
enqueue-IsAccepted t q h = elim (Bool-cases (one_of (key t) q.in_flight)) [
  | inl e ↦ inr (e, rw e refl)
  | inr e ↦ elim (Bool-cases (is_full q)) [
    | inl f ↦ absurd (h (ground arith))
    | inr f ↦ inl (e, rw (e, f) refl, rw (e, f, text_eq_refl (key t)) refl)
  ]
]

-- The key of a task that was accepted is in flight.
pub enqueue-held :
    (t : SegmentBatchTask) (q : BatchQueue)
    → (enqueue t q).0 ≢ queue_full
    → one_of (key t) (enqueue t q).1.in_flight ≡ true
enqueue-held t q h = elim (enqueue-IsAccepted t q h) [
  | inl (_, _, k) ↦ k
  | inr (k, e) ↦ ap (λ p. one_of (key t) p.in_flight) e ∙ k
]

pub enqueue_again :
    (t : SegmentBatchTask) (q : BatchQueue)
    → one_of (key t) q.in_flight ≡ true
    → enqueue t q ≡ (already_in_flight, q)
unfolding enqueue
enqueue_again t q h = rw h refl
