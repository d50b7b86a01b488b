-- ===== src/Queue.antt =====
-- app/core/queue.py: `BatchQueue`, and the loop of app/workers/upload_worker.py that drains it. The
-- threads interleave between the sections that a lock makes atomic.
pub mod Task
pub mod Guard
pub mod InFlight
pub mod Uninterrupted
use edpbilling_file_upload.Base.{
  ℕ, zero, suc, ◌-◌, ◌≤◌, ◌≡◌, Bool, true, false, not, ◌&&◌, Option, none, some, List, [], ◌∷◌,
  ◌++◌, Text, one_of, text_eq, filter, length, leb, if◌then◌else◌, ◌==◌,
}
use edpbilling_file_upload.Queue.Task.{SegmentBatchTask, key}

-- What the queue hands out: a batch, or the sentinel.
pub data Item : Type 0 where
  batch : SegmentBatchTask → Item
  shutdown : Item

pub record BatchQueue : Type 0 where
  -- 0 means that there is no bound
  pub maxsize : ℕ
  pub waiting : List Item
  pub in_flight : List Text
  pub unfinished : ℕ

-- `enqueue`: True, False, or QueueFullError
pub data Enqueued : Type 0 where
  added already_in_flight queue_full : Enqueued

-- `Queue.full` of the standard library's queue
unfoldable pub is_full : BatchQueue → Bool
is_full q = not (q.maxsize == 0) && leb q.maxsize (length q.waiting)

unfoldable pub put : Item → BatchQueue → BatchQueue
put item q = record q { waiting = q.waiting ++ (item ∷ []); unfinished = suc q.unfinished }

-- `set.discard`
discard : Text → List Text → List Text
discard k = filter (λ j. not (text_eq k j))

-- `release`
unfoldable pub release : Text → BatchQueue → BatchQueue
unfolding discard
release k q = record q { in_flight = discard k q.in_flight }

unfoldable pub enqueue : SegmentBatchTask → BatchQueue → Enqueued × BatchQueue
unfolding is_full put release
enqueue task q =
    if one_of (key task) q.in_flight
    then (already_in_flight, q)
    else (let guarded = record q { in_flight = key task ∷ q.in_flight } in
        if is_full q
        then (queue_full, release (key task) guarded)
        else (added, put (batch task) guarded))

-- `get`; `none` where it blocks.
unfoldable pub get : BatchQueue → Option (Item × BatchQueue)
get q = elim q.waiting [ [] ↦ none | item ∷ rest ↦ some (item, record q { waiting = rest }) ]

-- `request_shutdown`; `none` where it blocks, on a full queue.
unfoldable pub request_shutdown : BatchQueue → Option BatchQueue
unfolding is_full put
request_shutdown q = if is_full q then none else some (put shutdown q)

-- `task_done`; `none` is the ValueError of a call too many.
unfoldable pub task_done : BatchQueue → Option BatchQueue
task_done q = elim q.unfinished [ zero ↦ none | suc n ↦ some (record q { unfinished = n }) ]

-- The queue with the threads around it. `enqueue` takes the lock twice, and puts outside of it, so
-- that other threads come between its parts.
pub record System : Type 0 where
  pub queue : BatchQueue
  -- within `enqueue`, the key added: before `put_nowait`, and after its Full
  pub entering : List SegmentBatchTask
  pub refused : List SegmentBatchTask
  -- in a worker's hand, and between its `task_done` and its `release`
  pub busy : List SegmentBatchTask
  pub finishing : List SegmentBatchTask
  -- workers that took SHUTDOWN, before their `task_done`
  pub leaving : ℕ

-- One operation of one thread, each atomic by a lock. An `enqueue` that finds its key changes
-- nothing.
pub data Step : System → System → Type 0 where
  claims :
      {s : System} (task : SegmentBatchTask)
      → one_of (key task) s.queue.in_flight ≡ false
      → Step s (record s {
        queue = record s.queue { in_flight = key task ∷ s.queue.in_flight };
        entering = task ∷ s.entering;
      })
  puts :
      {s : System} (before after : List SegmentBatchTask) (task : SegmentBatchTask)
      → s.entering ≡ before ++ (task ∷ after)
      → is_full s.queue ≡ false
      → Step s (record s { queue = put (batch task) s.queue; entering = before ++ after })
  meets_full :
      {s : System} (before after : List SegmentBatchTask) (task : SegmentBatchTask)
      → s.entering ≡ before ++ (task ∷ after)
      → is_full s.queue ≡ true
      → Step s (record s { entering = before ++ after; refused = task ∷ s.refused })
  discards :
      {s : System} (before after : List SegmentBatchTask) (task : SegmentBatchTask)
      → s.refused ≡ before ++ (task ∷ after)
      → Step s (record s { queue = release (key task) s.queue; refused = before ++ after })
  stops :
      {s : System} {q : BatchQueue}
      → request_shutdown s.queue ≡ some q
      → Step s (record s { queue = q })
  picks :
      {s : System} {q : BatchQueue} (task : SegmentBatchTask)
      → get s.queue ≡ some (batch task, q)
      → Step s (record s { queue = q; busy = task ∷ s.busy })
  takes_shutdown :
      {s : System} {q : BatchQueue}
      → get s.queue ≡ some (shutdown, q)
      → Step s (record s { queue = q; leaving = suc s.leaving })
  leaves :
      {s : System} {q : BatchQueue} (n : ℕ)
      → s.leaving ≡ suc n
      → task_done s.queue ≡ some q
      → Step s (record s { queue = q; leaving = n })
  -- the `finally` of the worker's loop, in two
  completes :
      {s : System} {q : BatchQueue} (before after : List SegmentBatchTask) (task : SegmentBatchTask)
      → s.busy ≡ before ++ (task ∷ after)
      → task_done s.queue ≡ some q
      → Step s (record s { queue = q; busy = before ++ after; finishing = task ∷ s.finishing })
  releases :
      {s : System} (before after : List SegmentBatchTask) (task : SegmentBatchTask)
      → s.finishing ≡ before ++ (task ∷ after)
      → Step s (record s { queue = release (key task) s.queue; finishing = before ++ after })

pub data Reaches : System → System → Type 0 where
  stays : {s : System} → Reaches s s
  moves : {s t u : System} → Reaches s t → Step t u → Reaches s u

-- A queue as `BatchQueue(maxsize)` makes it.
unfoldable pub fresh : ℕ → System
fresh maxsize = record {
  queue = record { maxsize = maxsize; waiting = []; in_flight = []; unfinished = 0 };
  entering = [];
  refused = [];
  busy = [];
  finishing = [];
  leaving = 0;
}
