-- ===== src/Lane/Batch/Phases.antt =====
-- upload_service.py, `_process_batch`: the calls of a whole upload batch.
use edpbilling_file_upload.Base.{
  Bool, ◌∙◌, ap, length, if◌then◌else◌, ◌≡◌, refl, sym, subst, not, List, [], ◌++◌, inl, inr, ◌⊎◌,
}
use mathlib.Core.List.{append_assoc, append-nil}
use edpbilling_file_upload.Cbos.Reservation.{ProcessReservation}
use edpbilling_file_upload.Cbos.Rule.{UploadRule}
use edpbilling_file_upload.Batches.{uploading, started}
use edpbilling_file_upload.Lane.Records.{set_batch_status}
use edpbilling_file_upload.Queue.Task.{SegmentBatchTask}
use edpbilling_file_upload.Lane.Client.{Env, answer}
use edpbilling_file_upload.Lane.Action.{Call, World, pure, gets, continue, ◌>>=◌}
use edpbilling_file_upload.Lane.Calls.{Only, Only-append, pure-Makes}
use edpbilling_file_upload.Lane.Runs.{Runs, run-Runs, if-Runs, bind-Runs, weaken-Runs}
use edpbilling_file_upload.Lane.Records.Silent.{set_batch_status-Makes}
use edpbilling_file_upload.Lane.Setup.{Setup, stopped, ready, holiday_check, set_up}
use edpbilling_file_upload.Lane.Setup.Reserving.{IsReserving, holiday_check-Makes, set_up-Makes}
use edpbilling_file_upload.Lane.Finish.Order.{IsOrdered, run_reservation-IsOrdered}
use edpbilling_file_upload.Lane.Batch.{present, all_gone, after_setup, run_files, upload_batch}

-- The world in which this run resolves its reservation.
abbrev pub setup_start : (env : Env) → SegmentBatchTask → World env.Server → World env.Server
setup_start env task w =
    (holiday_check env task
      (set_batch_status task uploading (started 0 (length (present env task w))) w).1).1

-- Step 1, 6, 2, 4 and 40 calls, and then, if there are any, the calls of the reservation that this
-- run resolved, in their order.
pub record IsPhased (env : Env) (task : SegmentBatchTask) (w : World env.Server) (calls : List Call)
    : Type 0 where
  pub reserving : List Call
  pub rest : List Call
  pub split : calls ≡ reserving ++ rest
  pub reserves : Only IsReserving reserving
  pub ordered :
      (rest ≡ [])
      ⊎ ((reservation : ProcessReservation) × (rules : List UploadRule) × (at : World env.Server)
          × (set_up env task (present env task w) (setup_start env task w)
              ≡ (answer (ready reservation rules), at))
          × IsOrdered env task reservation (present env task w) rules at rest)

module _ (env : Env) (task : SegmentBatchTask) (w : World env.Server) where
  open env use {Server}

  reserving-IsPhased : (calls : List Call) → Only IsReserving calls → IsPhased env task w calls
  reserving-IsPhased calls o = record {
    reserving = calls;
    rest = [];
    split = sym (append-nil calls);
    reserves = o;
    ordered = inl refl;
  }

  after_setup-IsPhased :
      (setup : Setup) (at : World Server) (before : List Call)
      → Only IsReserving before
      → set_up env task (present env task w) (setup_start env task w) ≡ (answer setup, at)
      → Runs at
          (after_setup env task (present env task w) setup)
          (λ new. IsPhased env task w (before ++ new))
  unfolding after_setup
  after_setup-IsPhased stopped at before o e =
      run-Runs at _ (pure-Makes {C = IsReserving} _)
        (λ new h. reserving-IsPhased _ (Only-append _ before new o h))
  after_setup-IsPhased (ready reservation rules) at before o e =
      weaken-Runs
        (λ new k. record {
          reserving = before;
          rest = new;
          split = refl;
          reserves = o;
          ordered = inr (reservation, rules, at, e, k);
        })
        (run_reservation-IsOrdered env task reservation (present env task w) rules at)

  go_on-IsPhased :
      (proceeding : Bool) (w2 : World Server) (before : List Call)
      → Only IsReserving before
      → w2 ≡ setup_start env task w
      → Runs w2
          (if not proceeding then pure tt else (do
            setup ← set_up env task (present env task w)
            after_setup env task (present env task w) setup))
          (λ new. IsPhased env task w (before ++ new))
  go_on-IsPhased proceeding w2 before o start =
      if-Runs w2 (not proceeding) _ _
        (run-Runs w2 _ (pure-Makes {C = IsReserving} _)
          (λ new h. reserving-IsPhased _ (Only-append _ before new o h)))
        (bind-Runs {P = λ new r. Only IsReserving new} w2 _ _
          (set_up-Makes env task (present env task w))
          (λ setup at more e o'.
            weaken-Runs (λ new. subst (IsPhased env task w) (append_assoc before more new))
              (after_setup-IsPhased setup at (before ++ more) (Only-append _ before more o o')
                (ap (set_up env task (present env task w)) (sym start) ∙ e)))
          (λ e more o'. reserving-IsPhased _ (Only-append _ before more o o')))

  run_files-IsPhased : Runs w (run_files env task (present env task w)) (IsPhased env task w)
  unfolding run_files
  run_files-IsPhased =
      if-Runs w (all_gone task.files (present env task w)) _ _
        (run-Runs w _ (set_batch_status-Makes IsReserving task _ _) reserving-IsPhased)
        (bind-Runs {P = λ new r. Only IsReserving new} w _ _
          (set_batch_status-Makes IsReserving task _ _)
          (λ _ w1 marks e1 o.
            bind-Runs {P = λ new r. Only IsReserving new} w1 _ _ (holiday_check-Makes env task)
              (λ proceeding w2 before e2 o'.
                weaken-Runs (λ new. subst (IsPhased env task w) (append_assoc marks before new))
                  (go_on-IsPhased proceeding w2 (marks ++ before) (Only-append _ marks before o o')
                    (sym (ap (λ x. x.1) (ap (λ v. holiday_check env task v.1) e1 ∙ e2)))))
              (λ e before o'. reserving-IsPhased _ (Only-append _ marks before o o')))
          (λ e marks o. reserving-IsPhased marks o))

  -- The calls of a run of an upload batch are Step 1, 6, 2, 4 and 40 calls, followed by nothing or by
  -- the calls of the reservation that resolving it in this very run answered, in the order of
  -- `IsOrdered`: every Step 5 before every Step 7, a Step 7 only for what a Step 5 of this batch
  -- sent, and Step 9 only past the completeness gate of that reservation.
  pub upload_batch-IsPhased : Runs w (upload_batch env task) (IsPhased env task w)
  unfolding upload_batch gets ◌>>=◌ continue
  upload_batch-IsPhased =
      let r = run_files-IsPhased in record { new = r.new; adds = r.adds; holds = r.holds }
