-- ===== src/Tests/Parts.antt =====
-- The queue, the matching, the reservation, the moves and the tables on small inputs.
use edpbilling_file_upload.Base.{
  ℕ, ◌≡◌, ◌≢◌, ◌↔◌, ◌≤◌, refl, true, false, none, some, List, [], ◌∷◌, In, inl, inr, length, codes,
  upper, ◌⊎◌, ap, sym, ◌∙◌, ◌<◌, arith,
}
use edpbilling_file_upload.Cbos.Value.{pos, int, str}
use edpbilling_file_upload.Cbos.Reservation.{
  ProcessRow, SlotRow, ok, already_in_cbos, build_reservation,
}
use edpbilling_file_upload.Cbos.Reservation.Slots.{IsFilled, already_in_cbos_iff}
use edpbilling_file_upload.Cbos.Rule.{UploadRule}
use edpbilling_file_upload.Matching.{
  matched, rejected, match_file, qualifies, check_columns, no_matching_upload_rule, has_width,
}
use edpbilling_file_upload.Matching.Columns.{end}
use edpbilling_file_upload.Matching.Choice.Verdict.{match_file-matched, match_file-no_matching}
use edpbilling_file_upload.Files.{free_destination, FilePath, move_file}
use edpbilling_file_upload.Files.Moves.{IsMoved, move_file-IsMoved}
use edpbilling_file_upload.Files.Moves.FirstFree.{IsFirstFree, free_destination-IsFirstFree}
use edpbilling_file_upload.Audit.{Table, UploadedFile, at, superseded, claim_file_path}
use edpbilling_file_upload.Batches.{BatchStatus, find_by_batch_id, set_status, upload_complete}
use edpbilling_file_upload.Queue.Task.{SegmentBatchTask, key}
use edpbilling_file_upload.Queue.{fresh, System, Reaches, stays, moves, claims, puts, picks, Item}
use edpbilling_file_upload.Matching.FileName.{stem}
use edpbilling_file_upload.Queue.Guard.{IsGuarded}
use edpbilling_file_upload.Queue.Guard.Reachable.{reachable-IsGuarded}
use edpbilling_file_upload.Outcome.Kinds.{FileStatus}
use edpbilling_file_upload.Audit.Claims.{
  HaveOwnIds, IsConsistent, location_eq_iff, at-ne-superseded,
}
use edpbilling_file_upload.Audit.Claims.Takeover.{claim_file_path-succeeds}
use edpbilling_file_upload.Matching.Widths.{HasLine, HasWidth, AllSingle, check_columns_iff}
use edpbilling_file_upload.Tests.{
  lane_ops, slot, done_slot, rule, scrip, disk, task, env, batch, world,
}
use edpbilling_file_upload.Tests.Runs.{done_batch}
use edpbilling_file_upload.Lane.Records.{apply_outcome}
use edpbilling_file_upload.Lane.Records.Carried.{IsCarriedOut, apply_outcome-IsCarriedOut}
use edpbilling_file_upload.Lane.Action.{World}
use edpbilling_file_upload.Lane.Client.{answer}
use edpbilling_file_upload.Outcome.{idempotent_skip}

-- Two batches are enqueued by interleaved threads, and a worker has the first in hand.
abbrev other_task : SegmentBatchTask
other_task = record task { segment = codes "MCX" }

abbrev busy_system : System
busy_system = record {
  queue = record {
    maxsize = 5;
    waiting = Item.batch other_task ∷ [];
    in_flight = key other_task ∷ key task ∷ [];
    unfinished = 2;
  };
  entering = [];
  refused = [];
  busy = task ∷ [];
  finishing = [];
  leaving = 0;
}

Reaches-busy : Reaches (fresh 5) busy_system
unfolding lane_ops
Reaches-busy =
    moves
      (moves
        (moves (moves (moves stays (claims task refl)) (claims other_task refl))
          (puts (other_task ∷ []) [] task refl refl))
        (puts [] [] other_task refl refl))
      (picks task refl)

reachable-IsGuarded_example : IsGuarded busy_system
reachable-IsGuarded_example = reachable-IsGuarded 5 busy_system Reaches-busy

scrip_matches :
    match_file env.match_settings (codes "scrip_1.csv") end (rule ∷ []) none ≡ matched rule
unfolding lane_ops
scrip_matches = refl

match_file-matched_example :
    In rule (rule ∷ [])
    × (qualifies (upper (stem (codes "scrip_1.csv"))) rule ≡ true)
    × ((s : UploadRule)
        → In s (rule ∷ [])
        → qualifies (upper (stem (codes "scrip_1.csv"))) s ≡ true
        → length s.file_name_pattern ≤ length rule.file_name_pattern)
match_file-matched_example =
    match_file-matched env.match_settings (codes "scrip_1.csv") end (rule ∷ []) none rule
      scrip_matches

match_file-no_matching_example :
    (match_file env.match_settings (codes "bhav.csv") end (rule ∷ []) none
      ≡ rejected no_matching_upload_rule)
    ↔ ((r : UploadRule)
        → In r (rule ∷ [])
        → ¬ (qualifies (upper (stem (codes "bhav.csv"))) r ≡ true))
match_file-no_matching_example =
    match_file-no_matching env.match_settings (codes "bhav.csv") end (rule ∷ []) none

already_in_cbos_iff_example : (already_in_cbos done_slot ≡ true) ↔ IsFilled done_slot
already_in_cbos_iff_example = already_in_cbos_iff done_slot

abbrev table1 : List ProcessRow
table1 = (record { process_id = int (pos 7); is_runnable = some (int (pos 1)) }) ∷ []

abbrev table2 : List SlotRow
table2 =
    (record {
      upload_id = some (int (pos 81));
      step_no = int (pos 3);
      name = str (codes "SCRIP");
      status = none;
      status_desc = none;
      is_optional_visible = str (codes "N");
    })
    ∷ []

decodes :
    build_reservation table1 table2 none
    ≡ ok (record { process_id = codes "7"; is_runnable = true; candidates = slot ∷ [] })
unfolding lane_ops
decodes = refl

-- Another scrip_1.csv has been moved before.
abbrev moved_before : FilePath
moved_before = record { parent = codes "in" ∷ codes "uploaded" ∷ []; name = codes "scrip_1.csv" }

abbrev moved_now : FilePath
moved_now = record { parent = codes "in" ∷ codes "uploaded" ∷ []; name = codes "scrip_1_2.csv" }

moves_beside :
    move_file (scrip ∷ moved_before ∷ []) scrip (codes "uploaded")
    ≡ some (moved_now, moved_now ∷ moved_before ∷ [])
unfolding lane_ops
moves_beside = refl

move_file-IsMoved_example :
    IsMoved
      (scrip ∷ moved_before ∷ [])
      scrip
      moved_now
      (codes "uploaded")
      (moved_now ∷ moved_before ∷ [])
move_file-IsMoved_example =
    move_file-IsMoved (scrip ∷ moved_before ∷ []) scrip moved_now (codes "uploaded")
      (moved_now ∷ moved_before ∷ []) moves_beside

-- The row of the file, and that of a file of its name that was moved before.
abbrev row_of : ℕ → FilePath → UploadedFile
row_of id path = record {
  id = id;
  file_name = codes "scrip_1.csv";
  file_path = at path;
  folder_date = codes "2026-08-03";
  segment = codes "EQ";
  exchange = codes "NA";
  status = FileStatus.pending;
  cbos_response = none;
  retry_count = 0;
  process_id = none;
  cbos_upload_id = none;
  guid = none;
  correlation_id = none;
  batch_id = none;
  validation_error = none;
  request_log = none;
  uploaded_at = false;
}

abbrev two_rows : Table
two_rows = record { rows = row_of 1 moved_before ∷ row_of 2 scrip ∷ []; next_id = 3 }

abbrev retired : Table
retired = record {
  rows =
      record (row_of 1 moved_before) { file_path = superseded moved_before 2 }
      ∷ row_of 2 moved_before
      ∷ [];
  next_id = 3;
}

claimed : claim_file_path 2 moved_before two_rows ≡ some retired
unfolding lane_ops
claimed = refl

apart : at moved_before ≢ at scrip
unfolding lane_ops
apart e = let clash : false ≡ true = (location_eq_iff (at moved_before) (at scrip)).1 e in cc

two_rows-paths :
    (r s : UploadedFile)
    → In r two_rows.rows
    → In s two_rows.rows
    → r.file_path ≡ s.file_path
    → r.id ≡ s.id
two_rows-paths r s (inl e) (inl f) h = ap (λ (q : UploadedFile). q.id) (e ∙ sym f)
two_rows-paths r s (inl e) (inr (inl f)) h = absurd (
    apart (
      sym (ap (λ (q : UploadedFile). q.file_path) e)
      ∙ h
      ∙ ap (λ (q : UploadedFile). q.file_path) f))
two_rows-paths r s (inr (inl e)) (inl f) h = absurd (
    apart (
      sym (ap (λ (q : UploadedFile). q.file_path) f)
      ∙ sym h
      ∙ ap (λ (q : UploadedFile). q.file_path) e))
two_rows-paths r s (inr (inl e)) (inr (inl f)) h = ap (λ (q : UploadedFile). q.id) (e ∙ sym f)
two_rows-paths r s (inr (inr m)) n h = absurd m
two_rows-paths r s (inl e) (inr (inr n)) h = absurd n
two_rows-paths r s (inr (inl e)) (inr (inr n)) h = absurd n

two_rows-ids : (r : UploadedFile) → In r two_rows.rows → r.id < 3
two_rows-ids r (inl e) = omega (arith, ap (λ (q : UploadedFile). q.id) e)
two_rows-ids r (inr (inl e)) = omega (arith, ap (λ (q : UploadedFile). q.id) e)
two_rows-ids r (inr (inr m)) = absurd m

two_rows-unused : (r : UploadedFile) → In r two_rows.rows → r.file_path ≢ superseded moved_before 2
two_rows-unused r (inl e) h = absurd (
    at-ne-superseded moved_before moved_before 2
      (sym (ap (λ (q : UploadedFile). q.file_path) e) ∙ h))
two_rows-unused r (inr (inl e)) h =
    absurd
      (at-ne-superseded scrip moved_before 2 (sym (ap (λ (q : UploadedFile). q.file_path) e) ∙ h))
two_rows-unused r (inr (inr m)) h = absurd m

two_rows-own_ids : HaveOwnIds two_rows.rows
two_rows-own_ids = (two_rows-other, (λ s m. absurd m, tt))
  where
    two_rows-other : (s : UploadedFile) → In s (row_of 2 scrip ∷ []) → s.id ≢ 1
    two_rows-other s (inl d) e = omega (arith, ap (λ (q : UploadedFile). q.id) d, e)
    two_rows-other s (inr m) e = absurd m

abbrev two_rows-IsConsistent : IsConsistent two_rows
two_rows-IsConsistent = record {
  paths = two_rows-paths;
  ids = two_rows-ids;
  own_ids = two_rows-own_ids;
}

claim_file_path-succeeds_example : (t : Table) × (claim_file_path 2 moved_before two_rows ≡ some t)
claim_file_path-succeeds_example =
    claim_file_path-succeeds 2 moved_before two_rows two_rows-IsConsistent two_rows-unused

check_columns_iff_example : (check_columns (pos 3) ((b',', 3 ∷ 2 ∷ []) ∷ []) ≡ none) ↔ (
    HasLine ((b',', 3 ∷ 2 ∷ []) ∷ [])
    × (HasWidth (has_width (pos 3)) ((b',', 3 ∷ 2 ∷ []) ∷ [])
        ⊎ AllSingle ((b',', 3 ∷ 2 ∷ []) ∷ [])))
check_columns_iff_example = check_columns_iff (pos 3) ((b',', 3 ∷ 2 ∷ []) ∷ [])

set_once :
    find_by_batch_id (codes "b1") (
      set_status
        (codes "b1")
        BatchStatus.confirmed
        (some (upload_complete 1 (codes "OK") false))
        (batch ∷ []))
    ≡ some done_batch
unfolding lane_ops
set_once = refl

-- The world of a file whose row is open.
abbrev opened : World (Unit {0})
opened = record world { table = record { rows = row_of 1 scrip ∷ []; next_id = 2 } }

abbrev concluded : World (Unit {0})
concluded = (apply_outcome 1 scrip idempotent_skip none opened).1

concludes : apply_outcome 1 scrip idempotent_skip none opened ≡ (answer moved_before, concluded)
unfolding lane_ops
concludes = refl

apply_outcome-IsCarriedOut_example :
    IsCarriedOut 1 scrip idempotent_skip opened moved_before concluded
apply_outcome-IsCarriedOut_example =
    apply_outcome-IsCarriedOut 1 scrip idempotent_skip none opened concluded moved_before concludes

free_destination-IsFirstFree_example :
    IsFirstFree disk scrip.parent scrip.name (free_destination disk scrip.parent scrip.name)
free_destination-IsFirstFree_example = free_destination-IsFirstFree disk scrip.parent scrip.name
