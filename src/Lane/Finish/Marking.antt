-- ===== src/Lane/Finish/Marking.antt =====
-- upload_service.py, `_process_batch`: the calls of Steps 3, 6, 8 and 9, and the gate.
use edpbilling_file_upload.Base.{
  arith, ◌≡◌, refl, subst, true, false, not, ◌&&◌, List, [], ◌∷◌, In, In-filter_intro, filter, inl,
  inr, Text, one_of, ◌⊎◌, Bool-cases,
}
use edpbilling_file_upload.Cbos.Value.{is_none}
use edpbilling_file_upload.Cbos.Reservation.{
  UploadCandidate, ProcessReservation, expects_a_file, already_in_cbos, needs_upload,
}
use edpbilling_file_upload.Audit.{LogEntry}
use edpbilling_file_upload.Outcome.{FileOutcome}
use edpbilling_file_upload.Queue.Task.{SegmentBatchTask}
use edpbilling_file_upload.Lane.Client.{Env}
use edpbilling_file_upload.Lane.Action.{
  Call, update_is_mandatory, check_process_id, get_existing_process, file_upload_status,
}
use edpbilling_file_upload.Lane.Calls.{
  Makes, bind-Makes, catch-Makes, perform-Makes, pure-Makes, throw-Makes, if-Makes, weaken-Makes,
}
use edpbilling_file_upload.Lane.Records.Silent.{apply_outcome-Makes, set_batch_status-Makes}
use edpbilling_file_upload.Lane.Transfer.{Uploaded}
use edpbilling_file_upload.Lane.Gate.{empty_slots, missing_required, unused_optional}
use edpbilling_file_upload.Lane.Finish.{
  nothing_reached, mark_step_optional, mark_all, conclude_files, park, poll, confirm, gate,
  conclude, check_process,
}

-- Step 8 for one of the slots, which has a STEPNO.
abbrev pub Marks : Text → List UploadCandidate → Call → Type 0
Marks process_id slots c =
    (s : UploadCandidate) × In s slots
    × (is_none s.step_no ≡ false)
    × (c ≡ update_is_mandatory process_id s.step_no)

-- Every required slot that expects a file is in CBOS, filled or allowed to stay empty.
abbrev IsOpen : List UploadCandidate → List Text → List Text → Type 0
IsOpen candidates filled allowed =
    (s : UploadCandidate)
    → In s candidates
    → s.is_optional ≡ false
    → expects_a_file s ≡ true
    → (already_in_cbos s ≡ true)
      ⊎ ((one_of s.upload_id filled ≡ true) ⊎ (one_of s.upload_id allowed ≡ true))

-- Where the gate holds no slot back, each required slot that expects a file is in CBOS, among the
-- UploadIDs filled, or allowed to stay empty.
pub missing_required-none :
    (candidates : List UploadCandidate) (filled allowed : List Text)
    → missing_required (empty_slots candidates filled) allowed ≡ []
    → IsOpen candidates filled allowed
unfolding missing_required empty_slots needs_upload
missing_required-none candidates filled allowed h s m required e =
    elim (Bool-cases (already_in_cbos s)) [
      | inl done ↦ inl done
      | inr open' ↦ inr (elim (Bool-cases (one_of s.upload_id filled)) [
        | inl f ↦ inl f
        | inr f ↦ elim (Bool-cases (one_of s.upload_id allowed)) [
          | inl a ↦ inr a
          | inr a ↦
              let empty : In s
                  (filter (λ c. needs_upload c && not (one_of c.upload_id filled)) candidates) =
                In-filter_intro _ s candidates m (needed open' f) in
              absurd (subst (In s) h (In-filter_intro _ s _ empty (ground arith)))
        ]
      ])
    ]
  where
    needed :
        already_in_cbos s ≡ false
        → one_of s.upload_id filled ≡ false
        → (needs_upload s && not (one_of s.upload_id filled)) ≡ true
    needed d f = ground arith

module _ (env : Env) where
  open env use {Server}

  mark_step_optional-Makes :
      (process_id : Text) (s : UploadCandidate) (slots : List UploadCandidate)
      → In s slots
      → Makes (Marks process_id slots) (mark_step_optional env process_id s.step_no)
  unfolding mark_step_optional
  mark_step_optional-Makes process_id s slots m = elim (Bool-cases (is_none s.step_no)) [
    | inl e ↦ rw e (throw-Makes _)
    | inr e ↦ rw e (perform-Makes _ _ (s, m, e, refl))
  ]

  pub mark_all-Makes :
      (process_id : Text) (slots : List UploadCandidate)
      → Makes (Marks process_id slots) (mark_all env process_id slots)
  unfolding mark_all
  mark_all-Makes process_id [] = pure-Makes _
  mark_all-Makes process_id (s ∷ slots) =
      bind-Makes _ _
        (catch-Makes _ _ (mark_step_optional-Makes process_id s (s ∷ slots) (inl refl))
          (λ e. pure-Makes _))
        (λ _. weaken-Makes (λ c (q, m, n, h). (q, inr m, n, h)) (mark_all-Makes process_id slots))

  conclude_files-Makes :
      (C : Call → Type 0) (outcome : FileOutcome) (entry : LogEntry) (files : List Uploaded)
      → Makes C (conclude_files env outcome entry files)
  unfolding conclude_files
  conclude_files-Makes C outcome entry [] = pure-Makes _
  conclude_files-Makes C outcome entry (u ∷ files) =
      bind-Makes _ _ (apply_outcome-Makes C u.id u.file_path _ _)
        (λ _. conclude_files-Makes C outcome entry files)

  pub poll-Makes :
      (task : SegmentBatchTask)
      → Makes (λ c. c ≡ file_upload_status task.segment task.folder_date) (poll env task)
  unfolding poll
  poll-Makes task =
      catch-Makes _ _ (bind-Makes _ _ (perform-Makes _ _ refl) (λ _. pure-Makes _))
        (λ e. pure-Makes _)

  pub check_process-Makes :
      (task : SegmentBatchTask)
      → Makes (λ c. c ≡ check_process_id task.segment task.folder_date) (check_process env task)
  unfolding check_process
  check_process-Makes task =
      catch-Makes _ _ (bind-Makes _ _ (perform-Makes _ _ refl) (λ _. pure-Makes _))
        (λ e. pure-Makes _)

  -- Step 9 past the gate.
  abbrev Polls : SegmentBatchTask → List UploadCandidate → Call → Type 0
  Polls task missing c = (c ≡ file_upload_status task.segment task.folder_date) × (missing ≡ [])

  gate-Makes :
      (task : SegmentBatchTask) (missing : List UploadCandidate) (uploaded : List Uploaded)
      → Makes (Polls task missing) (gate env task missing uploaded)
  unfolding gate park confirm
  gate-Makes task [] uploaded =
      bind-Makes _ _ (weaken-Makes (λ c e. (e, refl)) (poll-Makes task)) (λ polled.
        bind-Makes _ _ (conclude_files-Makes _ _ _ uploaded)
          (λ _. set_batch_status-Makes _ task _ _))
  gate-Makes task (s ∷ missing) uploaded =
      bind-Makes _ _ (conclude_files-Makes _ _ _ uploaded) (λ _. set_batch_status-Makes _ task _ _)

  -- A call of the end of a batch: Step 6; Step 8 for an optional file slot that is unfilled; or
  -- Step 9, and then every required slot that expects a file is in CBOS, filled or allowed to stay empty.
  abbrev pub Closes : SegmentBatchTask → ProcessReservation → List Text → Call → Type 0
  Closes task reservation filled c =
      (c ≡ get_existing_process task.segment task.folder_date)
      ⊎ (Marks reservation.process_id (filter (unused_optional filled) reservation.candidates) c
          ⊎ ((c ≡ file_upload_status task.segment task.folder_date)
              × IsOpen reservation.candidates filled (env.allowlisted task.segment)))

  -- Whatever the client answers, the end of a batch calls nothing but Step 6, Step 8 for the optional
  -- file slots that are unfilled, and Step 9, and it calls Step 9 only if every required slot that
  -- expects a file is in CBOS, among the UploadIDs filled, or allowed to stay empty.
  pub conclude-Makes :
      (task : SegmentBatchTask) (reservation : ProcessReservation) (uploaded : List Uploaded)
      (filled : List Text)
      → Makes (Closes task reservation filled) (conclude env task reservation uploaded filled)
  unfolding conclude
  conclude-Makes task reservation uploaded filled =
      if-Makes (nothing_reached task.files uploaded filled) _ _ (set_batch_status-Makes _ task _ _)
        (bind-Makes _ _ (catch-Makes _ _ (perform-Makes _ _ (inl refl)) (λ e. pure-Makes _)) (λ _.
          bind-Makes _ _
            (weaken-Makes (λ c h. inr (inl h)) (mark_all-Makes reservation.process_id _))
            (λ _.
              weaken-Makes
                (λ c (e, none_missing).
                  inr (inr (e, missing_required-none reservation.candidates filled _ none_missing)))
                (gate-Makes task _ uploaded))))
