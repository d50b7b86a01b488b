-- ===== src/Lane/Batch/Proceeding.antt =====
-- upload_service.py, `_proceed_batch`: the calls of a PROCEED batch.
use edpbilling_file_upload.Base.{
  arith, ◌≡◌, ◌≢◌, refl, sym, ◌∙◌, ap, subst, true, not, Option, none, some, List, [], ◌∷◌, ◌++◌,
  In, In-filter_intro, filter, map, inl, inr, Text, ◌⊎◌, one_of, Bool-cases,
}
use edpbilling_file_upload.Cbos.Reservation.{
  CbosError, UploadCandidate, ProcessReservation, expects_a_file, needs_upload,
}
use edpbilling_file_upload.Batches.{BatchStatus, refetch_failed}
use edpbilling_file_upload.Lane.Records.{set_batch_status}
use edpbilling_file_upload.Queue.Task.{SegmentBatchTask}
use edpbilling_file_upload.Lane.Client.{Env, Reply, Failure, answer, raise, cbos}
use edpbilling_file_upload.Lane.Action.{
  Call, World, Action, get_existing_process, get_new_trade_process, file_upload_status, pure,
  perform, modify, catch_cbos, settle, continue, ◌>>=◌, ◌>>◌,
}
use edpbilling_file_upload.Lane.Calls.{
  Makes, bind-Makes, catch-Makes, perform-Makes, pure-Makes, weaken-Makes, Only, Only-append,
}
use edpbilling_file_upload.Lane.Records.Silent.{set_batch_status-Makes}
use edpbilling_file_upload.Lane.Runs.{Runs, run-Runs, bind-Runs, weaken-Runs, perform-answer}
use edpbilling_file_upload.Lane.Gate.{missing_required}
use edpbilling_file_upload.Lane.Finish.Marking.{Marks, mark_all-Makes, poll-Makes}
use edpbilling_file_upload.Lane.Batch.{
  ids, finish_proceed, check_missing, check_requested, on_reservation, refetch, proceed_on,
  proceed_batch,
}

module _ (env : Env) (task : SegmentBatchTask) where
  open env use {Server}

  -- Step 8 of one of the slots, or Step 9.
  abbrev pub MarksOrPolls : ProcessReservation → List UploadCandidate → Call → Type 0
  MarksOrPolls reservation empty c =
      Marks reservation.process_id empty c ⊎ (c ≡ file_upload_status task.segment task.folder_date)

  -- Each slot that the operators named is an unfilled file slot of the process.
  abbrev pub NamesUnfilled : ProcessReservation → Type 0
  NamesUnfilled reservation =
      (slot : Text)
      → In slot task.proceed_slots
      → one_of slot (
          map (λ (s : UploadCandidate). s.upload_id)
            (filter expects_a_file (filter needs_upload reservation.candidates)))
        ≡ true

  -- Each unfilled slot that expects a file is allowed to stay empty, or was named.
  abbrev pub CoversMissing : ProcessReservation → Type 0
  CoversMissing reservation =
      (s : UploadCandidate)
      → In s (filter needs_upload reservation.candidates)
      → expects_a_file s ≡ true
      → one_of s.upload_id (env.allowlisted task.segment ++ task.proceed_slots) ≡ true

  missing_required-covers :
      (reservation : ProcessReservation)
      → missing_required
          (filter needs_upload reservation.candidates)
          (env.allowlisted task.segment ++ task.proceed_slots)
        ≡ []
      → CoversMissing reservation
  unfolding missing_required
  missing_required-covers reservation h s m e =
      elim (Bool-cases (one_of s.upload_id (env.allowlisted task.segment ++ task.proceed_slots))) [
        | inl covered ↦ covered
        | inr open' ↦ absurd (subst (In s) h (In-filter_intro _ s _ m (ground arith)))
      ]

  none_unknown :
      (known slots : List Text)
      → filter (λ slot. not (one_of slot known)) slots ≡ []
      → (slot : Text) → In slot slots
      → one_of slot known ≡ true
  none_unknown known slots h slot m = elim (Bool-cases (one_of slot known)) [
    | inl e ↦ e
    | inr e ↦ absurd (subst (In slot) h (In-filter_intro _ slot slots m (ap not e)))
  ]

  check_missing-Makes :
      (reservation : ProcessReservation) (empty missing : List UploadCandidate)
      → Makes
          (λ c. MarksOrPolls reservation empty c × (missing ≡ []))
          (check_missing env task reservation empty missing)
  unfolding check_missing finish_proceed
  check_missing-Makes reservation empty [] =
      bind-Makes _ _
        (weaken-Makes (λ c h. (inl h, refl)) (mark_all-Makes env reservation.process_id empty))
        (λ _.
          bind-Makes _ _ (weaken-Makes (λ c h. (inr h, refl)) (poll-Makes env task))
            (λ polled. set_batch_status-Makes _ task _ _))
  check_missing-Makes reservation empty (s ∷ missing) = set_batch_status-Makes _ task _ _

  check_requested-Makes :
      (reservation : ProcessReservation) (empty : List UploadCandidate) (unknown : List Text)
      → Makes
          (λ c.
            (MarksOrPolls reservation empty c
              × (missing_required empty (env.allowlisted task.segment ++ task.proceed_slots) ≡ []))
            × (unknown ≡ []))
          (check_requested env task reservation empty unknown)
  unfolding check_requested
  check_requested-Makes reservation empty [] =
      weaken-Makes (λ c h. (h, refl)) (check_missing-Makes reservation empty _)
  check_requested-Makes reservation empty (slot ∷ unknown) = set_batch_status-Makes _ task _ _

  -- The reservation that Step 2 answers to this run, after Step 6 named a process.
  abbrev pub IsRefetched : World Server → ProcessReservation → Type 0
  IsRefetched w reservation =
      (existing : Text) × (existing ≢ [])
      × ((env.find_existing_process_id task.segment task.folder_date w.server).0
          ≡ answer (some existing))
      × ((env.reserve_process task.segment task.folder_date existing
            (env.find_existing_process_id task.segment task.folder_date w.server).1).0
          ≡ answer reservation)

  -- Step 6 or Step 2.
  abbrev pub IsFetching : Call → Type 0
  IsFetching c =
      (c ≡ get_existing_process task.segment task.folder_date)
      ⊎ ((existing : Text) × (c ≡ get_new_trade_process task.segment task.folder_date existing))

  -- What a PROCEED batch that starts in this world may call: Step 6 and Step 2; and Step 8 for an
  -- unfilled slot or Step 9, where the reservation that was fetched is such that the operators named
  -- unfilled file slots only, and left no other required one uncovered.
  abbrev pub Proceeds : World Server → Call → Type 0
  Proceeds w c =
      IsFetching c
      ⊎ ((reservation : ProcessReservation) × IsRefetched w reservation
          × MarksOrPolls reservation (filter needs_upload reservation.candidates) c
          × NamesUnfilled reservation
          × CoversMissing reservation)

  on_reservation-Makes :
      (w : World Server) (fetched : Option ProcessReservation)
      → ((r : ProcessReservation) → fetched ≡ some r → IsRefetched w r)
      → Makes (Proceeds w) (on_reservation env task fetched)
  unfolding on_reservation ids
  on_reservation-Makes w none h = pure-Makes _
  on_reservation-Makes w (some reservation) h =
      weaken-Makes
        (λ c ((p, covered), known). inr (
          reservation,
          h reservation refl,
          p,
          none_unknown _ task.proceed_slots known,
          missing_required-covers reservation covered,
        ))
        (check_requested-Makes reservation (filter needs_upload reservation.candidates) _)

  refetch-Makes : (existing : Text) → Makes IsFetching (refetch env task existing)
  unfolding refetch
  refetch-Makes existing =
      catch-Makes _ _
        (bind-Makes _ _ (perform-Makes _ _ (inr (existing, refl))) (λ _. pure-Makes _))
        (λ e. bind-Makes _ _ (set_batch_status-Makes _ task _ _) (λ _. pure-Makes _))

  -- The reservation is the reply of Step 2.
  refetch-answer :
      (existing : Text) (v : World Server) (r : ProcessReservation)
      → (refetch env task existing v).0 ≡ answer (some r)
      → (env.reserve_process task.segment task.folder_date existing v.server).0 ≡ answer r
  unfolding refetch catch_cbos settle perform ◌>>=◌ continue pure set_batch_status modify
  refetch-answer existing v r e =
      go (env.reserve_process task.segment task.folder_date existing v.server).0 _ e
    where
      found : ProcessReservation → Action Server (Option ProcessReservation)
      found a = pure (some a)

      handler : CbosError → Action Server (Option ProcessReservation)
      handler e = do set_batch_status task BatchStatus.incomplete (refetch_failed e); pure none

      go :
          (x : Reply ProcessReservation) (v' : World Server)
          → (settle handler (continue x found v').0 (continue x found v').1).0 ≡ answer (some r)
          → x ≡ answer r
      go (answer a) v' e = cc
      go (raise (cbos _)) v' e = cc
      go (raise Failure.file_not_found) v' e = cc
      go (raise Failure.integrity_error) v' e = cc
      go (raise Failure.no_attempt) v' e = cc
      go (raise Failure.unexpected) v' e = cc

  module _ (w : World Server) where
    proceed_on-Runs :
        (existing : Option Text) (v : World Server)
        → v.server ≡ (env.find_existing_process_id task.segment task.folder_date w.server).1
        → (env.find_existing_process_id task.segment task.folder_date w.server).0 ≡ answer existing
        → Runs v (proceed_on env task existing) (Only (Proceeds w))
    unfolding proceed_on
    proceed_on-Runs (some (c ∷ existing)) v s e =
        bind-Runs {P = λ new r. Only IsFetching new} v _ _ (refetch-Makes (c ∷ existing))
          (λ fetched v' before d o.
            run-Runs v' _
              (on_reservation-Makes w fetched (λ r q. (
                c ∷ existing,
                (λ x. cc),
                e,
                ap (λ z. (env.reserve_process task.segment task.folder_date (c ∷ existing) z).0)
                      (sym s)
                    ∙ refetch-answer (c ∷ existing) v r (ap (λ x. x.0) d ∙ ap answer q),
              )))
              (λ new h. Only-append _ before new (λ c m. inl (o c m)) h))
          (λ f before o c m. inl (o c m))
    proceed_on-Runs (some []) v s e = run-Runs v _ (set_batch_status-Makes _ task _ _) (λ new h. h)
    proceed_on-Runs none v s e = run-Runs v _ (set_batch_status-Makes _ task _ _) (λ new h. h)

    -- Whatever the client answers, a run of a PROCEED batch makes Step 6 and Step 2 calls, and beyond
    -- these only Step 8 for slots that need an upload, and Step 9, where in the reservation that
    -- Step 2 answered to this very run every slot that the operators named is an unfilled file slot,
    -- and every unfilled file slot that is required is named or allowed to stay empty.
    pub proceed_batch-Runs : Runs w (proceed_batch env task) (Only (Proceeds w))
    unfolding proceed_batch
    proceed_batch-Runs =
        bind-Runs
          {P = λ new r. Only (λ c. c ≡ get_existing_process task.segment task.folder_date) new} w _
          _ (perform-Makes _ _ refl)
          (λ existing v before d o.
            let (reply, after) = perform-answer _ _ w v existing d in
            weaken-Runs (λ new h. Only-append _ before new (λ c m. inl (inl (o c m))) h)
              (proceed_on-Runs existing v (sym after) reply))
          (λ e before o c m. inl (inl (o c m)))
