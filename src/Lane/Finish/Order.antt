-- ===== src/Lane/Finish/Order.antt =====
-- upload_service.py, `_process_batch`: the order of the calls from the reservation on.
use edpbilling_file_upload.Base.{
  ◌≡◌, refl, sym, ◌∙◌, ap, not, List, [], ◌++◌, In, filter, length, inl, inr, Text, ◌⊎◌,
}
use mathlib.Core.List.{append_assoc, append-nil}
use edpbilling_file_upload.Cbos.Reservation.{ProcessReservation}
use edpbilling_file_upload.Cbos.Rule.{UploadRule}
use edpbilling_file_upload.Files.{FilePath}
use edpbilling_file_upload.Queue.Task.{SegmentBatchTask}
use edpbilling_file_upload.Lane.Client.{Env, answer}
use edpbilling_file_upload.Lane.Action.{
  Call, save_chunks, save_upload_file, check_process_id, ◌>>=◌, World,
}
use edpbilling_file_upload.Lane.Calls.{
  Only, Yields, Only-append, Only-nil, weaken, bind-Yields, weaken-Makes,
}
use edpbilling_file_upload.Lane.Runs.{Runs, run-Runs, if-Runs, bind-Runs}
use edpbilling_file_upload.Lane.Records.Silent.{set_batch_status-Makes}
use edpbilling_file_upload.Lane.Transfer.{Sent, register_files, send_files}
use edpbilling_file_upload.Lane.Transfer.Sending.{IsSending, AllPosted, send_files-Yields}
use edpbilling_file_upload.Lane.Transfer.Skipping.{Skips, send_files-Skips}
use edpbilling_file_upload.Lane.Transfer.Registering.{Registers, AllEntered, register_files-Yields}
use edpbilling_file_upload.Lane.Gate.{optional_step}
use edpbilling_file_upload.Lane.Finish.{check_process, mark_all, conclude, run_reservation}
use edpbilling_file_upload.Lane.Finish.Marking.{
  Marks, Closes, mark_all-Makes, check_process-Makes, conclude-Makes,
}

-- Before the files: Step 8 for an optional slot that takes no file, and Step 3.
abbrev pub Opens : SegmentBatchTask → ProcessReservation → Call → Type 0
Opens task reservation c =
    Marks reservation.process_id (filter optional_step reservation.candidates) c
    ⊎ (c ≡ check_process_id task.segment task.folder_date)

-- Step 7 of a file whose Step 5 is among the calls given.
abbrev pub RegistersSent : SegmentBatchTask → ProcessReservation → List Call → Call → Type 0
RegistersSent task reservation sending c =
    (u : Text) × (g : Text) × (n : Text) × (c
      ≡ save_upload_file u g n reservation.process_id task.folder_date)
    × In (save_chunks u g n) sending

-- The world in which the loop over the files of this run starts.
abbrev pub loop_start :
    (env : Env) → SegmentBatchTask → ProcessReservation → World env.Server → World env.Server
loop_start env task reservation w =
    (check_process env task
      (mark_all env reservation.process_id (filter optional_step reservation.candidates) w).1).1

-- The UploadIDs that the loop over the files of this run returned as filled, each for a file that it
-- came to and found to be done; none where the loop was not reached or did not return.
abbrev pub IsSkipped :
    (env : Env)
    → SegmentBatchTask
    → ProcessReservation
    → List (FilePath × Text)
    → List UploadRule
    → World env.Server
    → List Text
    → Type 0
IsSkipped env task reservation files rules w skipped =
    (skipped ≡ [])
    ⊎ ((s : Sent) × ((send_files env task reservation rules 0 (length files) files
            (loop_start env task reservation w)).0
          ≡ answer s)
        × (skipped ≡ s.filled)
        × ((u : Text)
            → In u skipped
            → Skips env task reservation rules (length files) 0 files
                (loop_start env task reservation w) u))

-- The calls of a batch from its reservation on, part by part.
pub record IsOrdered (env : Env) (task : SegmentBatchTask) (reservation : ProcessReservation)
    (files : List (FilePath × Text)) (rules : List UploadRule) (w : World env.Server)
    (calls : List Call) : Type 0 where
  pub opening : List Call
  pub sending : List Call
  pub registering : List Call
  pub closing : List Call
  -- the UploadIDs of `filled_upload_ids` that Step 7 filled, and those of files skipped as done
  pub entered : List Text
  pub skipped : List Text
  pub skips : IsSkipped env task reservation files rules w skipped
  pub split : calls ≡ opening ++ (sending ++ (registering ++ closing))
  pub opens : Only (Opens task reservation) opening
  pub sends : Only IsSending sending
  pub registers : Only (RegistersSent task reservation sending) registering
  pub enters :
      (u : Text)
      → In u entered
      → (g : Text) × (n : Text) × In
          (save_upload_file u g n reservation.process_id task.folder_date)
          registering
  pub closes : Only (Closes env task reservation (entered ++ skipped)) closing

module _ (env : Env) (task : SegmentBatchTask) (reservation : ProcessReservation)
    (files : List (FilePath × Text)) (rules : List UploadRule) (w : World env.Server) where
  open env use {Server}

  ordered :
      (marks check sending registering closing calls : List Call) (entered skipped : List Text)
      → calls ≡ marks ++ (check ++ (sending ++ (registering ++ closing)))
      → Only (Opens task reservation) marks
      → Only (Opens task reservation) check
      → Only IsSending sending
      → Only (RegistersSent task reservation sending) registering
      → AllEntered reservation.process_id task.folder_date (answer ([], entered)) registering
      → IsSkipped env task reservation files rules w skipped
      → Only (Closes env task reservation (entered ++ skipped)) closing
      → IsOrdered env task reservation files rules w calls
  ordered marks check sending registering closing calls entered skipped e o o' sends registers
        enters skips closes =
      record {
        opening = marks ++ check;
        sending = sending;
        registering = registering;
        closing = closing;
        entered = entered;
        skipped = skipped;
        skips = skips;
        split = e ∙ sym (append_assoc marks check (sending ++ (registering ++ closing)));
        opens = Only-append _ marks check o o';
        sends = sends;
        registers = registers;
        enters = enters;
        closes = closes;
      }

  -- Step 7 and what follows, after the calls before.
  register_and_conclude :
      (s : Sent) (marks check sending : List Call)
      → Only (Opens task reservation) marks
      → Only (Opens task reservation) check
      → Only IsSending sending
      → AllPosted (answer s) sending
      → IsSkipped env task reservation files rules w s.filled
      → Yields
          (do
            registered ← register_files env task reservation.process_id s.pending
            conclude env task reservation registered.0 (registered.1 ++ s.filled))
          (λ new r.
            IsOrdered env task reservation files rules w (marks ++ (check ++ (sending ++ new))))
  register_and_conclude s marks check sending o o' sends all skips =
      bind-Yields
        {P = λ new r.
          Only (Registers reservation.process_id task.folder_date s.pending) new
          × AllEntered reservation.process_id task.folder_date r new}
        _ _ (register_files-Yields env task reservation.process_id s.pending)
        (λ registered registering (k, enters).
          weaken
            (λ closing r closes.
              ordered marks check sending registering closing _ registered.1 s.filled refl o o'
                sends (sent_before registering k) enters skips closes)
            (conclude-Makes env task reservation registered.0 (registered.1 ++ s.filled)))
        (λ e registering (k, _).
          ordered marks check sending registering [] _ [] []
            (ap (λ t. marks ++ (check ++ (sending ++ t))) (sym (append-nil registering))) o o' sends
            (sent_before registering k) (λ u m. absurd m) (inl refl) (Only-nil _))
    where
      sent_before :
          (registering : List Call)
          → Only (Registers reservation.process_id task.folder_date s.pending) registering
          → Only (RegistersSent task reservation sending) registering
      sent_before registering k c m =
          let (p, mem, e) = k c m in (p.upload_id, p.guid, p.send_name, e, all p mem)

  -- The loop of this run, from the world that it starts in.
  answered :
      (s : Sent) (w2 w3 : World Server)
      → w2 ≡ loop_start env task reservation w
      → send_files env task reservation rules 0 (length files) files w2 ≡ (answer s, w3)
      → (send_files env task reservation rules 0
          (length files)
          files
          (loop_start env task reservation w)).0
        ≡ answer s
  answered s w2 w3 start e =
      ap (λ v. (send_files env task reservation rules 0 (length files) files v).0) (sym start)
      ∙ ap (λ x. x.0) e

  -- From the reservation on, the calls of a run of a batch are, in this order: Step 8 for optional
  -- slots that take no file, and Step 3; Step 40 and Step 5 calls; Step 7 calls, each of an UploadID,
  -- GUID and name that a Step 5 call before it sent, into the reservation's process; and at the end
  -- Step 6, Step 8 for unfilled optional file slots, and Step 9 only if every required slot that
  -- expects a file is in CBOS, filled by one of these Step 7 calls, that of a file which the loop over
  -- the files of this very run came to and found to be done (it matches the slot's rule, and CBOS
  -- reports the slot as done or the audit table then has a completed row of it), or allowed to stay
  -- empty. A run that raises stops somewhere on that way.
  pub run_reservation-IsOrdered :
      Runs w
        (run_reservation env task files reservation rules)
        (IsOrdered env task reservation files rules w)
  unfolding run_reservation
  run_reservation-IsOrdered =
      if-Runs w (not reservation.is_runnable) _ _
        (run-Runs w _ (set_batch_status-Makes (λ _. ⊥) task _ _) (λ new h.
          ordered new [] [] [] [] new [] [] (sym (append-nil new)) (λ c m. absurd (h c m))
            (Only-nil _) (Only-nil _) (Only-nil _) (λ u m. absurd m) (inl refl) (Only-nil _)))
        (bind-Runs {P = λ new r. Only (Opens task reservation) new} w _ _
          (weaken-Makes (λ c h. inl h) (mark_all-Makes env reservation.process_id _))
          (λ _ w1 marks e1 o.
            bind-Runs {P = λ new r. Only (Opens task reservation) new} w1 _ _
              (weaken-Makes (λ c h. inr h) (check_process-Makes env task))
              (λ _ w2 check e2 o'.
                let start : w2 ≡ loop_start env task reservation w =
                  sym (ap (λ x. x.1) (ap (λ v. check_process env task v.1) e1 ∙ e2)) in
                bind-Runs {P = λ new r. Only IsSending new × AllPosted r new} w2 _ _
                  (send_files-Yields env task reservation rules 0 (length files) files)
                  (λ s w3 sending e3 (sends, all).
                    run-Runs w3 _
                      (register_and_conclude s marks check sending o o' sends all (
                        inr (
                          s,
                          answered s w2 w3 start e3,
                          refl,
                          send_files-Skips env task reservation rules (length files) 0 files
                              (loop_start env task reservation w) s (answered s w2 w3 start e3),
                        )))
                      (λ new h. h))
                  (λ e sending (sends, _).
                    ordered marks check sending [] [] _ [] []
                      (ap (λ t. marks ++ (check ++ t)) (sym (append-nil sending))) o o' sends
                      (Only-nil _) (λ u m. absurd m) (inl refl) (Only-nil _)))
              (λ e check o'.
                ordered marks check [] [] [] _ [] [] (ap (λ t. marks ++ t) (sym (append-nil check)))
                  o o' (Only-nil _) (Only-nil _) (λ u m. absurd m) (inl refl) (Only-nil _)))
          (λ e marks o.
            ordered marks [] [] [] [] _ [] [] (sym (append-nil marks)) o (Only-nil _) (Only-nil _)
              (Only-nil _) (λ u m. absurd m) (inl refl) (Only-nil _)))
