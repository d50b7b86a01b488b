-- ===== src/Lane/Transfer/Sending.antt =====
-- upload_service.py, `_process_batch`: the calls of the loop over the files.
use edpbilling_file_upload.Base.{
  ℕ, suc, ◌≡◌, refl, sym, ap, subst, Option, none, some, List, [], ◌∷◌, ◌++◌, In, In-append_left,
  In-append_right, inl, inr, Text, ◌==◌, ◌||◌, ◌%◌, ◌⊎◌,
}
use edpbilling_file_upload.Cbos.Reservation.{ProcessReservation}
use edpbilling_file_upload.Cbos.Rule.{UploadRule}
use edpbilling_file_upload.Files.{FilePath}
use edpbilling_file_upload.Matching.{Match, matched, rejected}
use edpbilling_file_upload.Audit.{LogEntry, UploadedFile}
use edpbilling_file_upload.Queue.Task.{SegmentBatchTask}
use edpbilling_file_upload.Lane.Client.{Env, Failure, Reply, answer, raise}
use edpbilling_file_upload.Lane.Action.{Call, get_expected_filename, save_chunks}
use edpbilling_file_upload.Lane.Calls.{
  Only, Makes, Yields, Only-append, Only-nil, silent, silent-bind, bind-Yields, bind-Makes,
  catch-Yields, perform-Yields, pure-Yields, pure-Makes, if-Makes, weaken, perform-Makes,
}
use edpbilling_file_upload.Lane.Records.Silent.{
  set_batch_status-Makes, update_record-Makes, gets-Makes, open_record-Makes, apply_outcome-Makes,
}
use edpbilling_file_upload.Lane.Transfer.{
  Pending, Sent, Handled, dropped, already_filled, sent, note_handled, emit_progress, emit_all,
  ended_as, fresh_guid, resolve_name, send_chunks, send_file, skip_file, send_or_skip, on_match,
  process_file, send_files, try_send,
}

-- Step 5 of a file.
abbrev pub IsChunks : Call → Type 0
IsChunks c = (u : Text) × (g : Text) × (n : Text) × (c ≡ save_chunks u g n)

-- Step 40, or Step 5.
abbrev pub IsSending : Call → Type 0
IsSending c =
    ((s : Text) × (u : Text) × (d : Text) × (c ≡ get_expected_filename s u d)) ⊎ IsChunks c

abbrev pub chunks_of : Pending → Call
chunks_of p = save_chunks p.upload_id p.guid p.send_name

-- What one round of the loop sent.
abbrev Posted : Reply Handled → List Call → Type 0
Posted (answer dropped) new = Unit {0}
Posted (answer (already_filled _)) new = Unit {0}
Posted (answer (sent p)) new = In (chunks_of p) new
Posted (raise _) new = Unit {0}

abbrev pub Sending : List Call → Reply Handled → Type 0
Sending new r = Only IsSending new × Posted r new

abbrev pub AllPosted : Reply Sent → List Call → Type 0
AllPosted (answer s) new = (p : Pending) → In p s.pending → In (chunks_of p) new
AllPosted (raise _) new = Unit {0}

module _ (env : Env) where
  open env use {Server}

  emit_all-Makes :
      (C : Call → Type 0) (task : SegmentBatchTask) (k n : ℕ) (name : Text) (reports : List (ℕ × ℕ))
      → Makes C (emit_all env task k n name reports)
  unfolding emit_all emit_progress
  emit_all-Makes C task k n name [] = pure-Makes tt
  emit_all-Makes C task k n name ((done, total) ∷ reports) =
      bind-Makes _ _
        (if-Makes (done == total || done % 10 == 0) _ _ (set_batch_status-Makes C task _ _)
          (pure-Makes tt))
        (λ _. emit_all-Makes C task k n name reports)

  send_chunks-Yields :
      (task : SegmentBatchTask) (k n : ℕ) (path : FilePath) (upload_id guid name : Text)
      → Yields
          (send_chunks env task k n path upload_id guid name)
          (λ new r. new ≡ save_chunks upload_id guid name ∷ [])
  unfolding send_chunks ended_as
  send_chunks-Yields task k n path upload_id guid name =
      bind-Yields {P = λ new r. new ≡ save_chunks upload_id guid name ∷ []} _ _
        (perform-Yields _ _ (λ r. refl))
        (λ transfer before e.
          silent-bind _ _ (emit_all-Makes (λ _. ⊥) task k n path.name transfer.0)
            (λ _. silent _ (λ w. refl) (λ r. ap (λ xs. xs ++ []) e)) (λ _. ap (λ xs. xs ++ []) e))
        (λ e before p. p)

  one-IsChunks :
      (u g n : Text) (new : List Call) → new ≡ save_chunks u g n ∷ [] → Only IsSending new
  one-IsChunks u g n new e c m = elim (subst (In c) e m) [
    | inl d ↦ inr (u, g, n, d)
    | inr m ↦ elim m [ ]
  ]

  nothing_sent : (e : Failure) → Sending [] (raise e)
  nothing_sent e = (Only-nil IsSending, tt)

  skip_file-Yields :
      (id : ℕ) (path : FilePath) (upload_id : Text) (why : LogEntry)
      → Yields (skip_file env id path upload_id why) Sending
  unfolding skip_file
  skip_file-Yields id path upload_id why =
      silent-bind _ _ (apply_outcome-Makes (λ _. ⊥) id path _ _)
        (λ _. pure-Yields _ (Only-nil IsSending, tt)) nothing_sent

  try_send-Yields :
      (task : SegmentBatchTask) (k n id : ℕ) (path : FilePath) (rule : UploadRule) (guid : Text)
      (named : Text × Option LogEntry)
      → Yields (try_send env task k n id path rule guid named) Sending
  unfolding try_send
  try_send-Yields task k n id path rule guid (name, why) =
      catch-Yields {P = λ new r. (Only IsSending new) × Posted r new} _ _
        (bind-Yields {P = λ new r. new ≡ save_chunks rule.upload_id guid name ∷ []} _ _
          (send_chunks-Yields task k n path rule.upload_id guid name)
          (λ _ before e. pure-Yields _ (
            one-IsChunks rule.upload_id guid name _ (ap (λ xs. xs ++ []) e),
            subst (In _) (sym (ap (λ xs. xs ++ []) e)) (inl refl),
          ))
          (λ f before e. (one-IsChunks rule.upload_id guid name before e, tt)))
        (λ new r q. q)
        (λ e before (o, _).
          bind-Yields {P = λ new r. Only (λ _. ⊥) new} _ _
            (apply_outcome-Makes (λ _. ⊥) id path _ _)
            (λ _ more p. pure-Yields _ (
              Only-append IsSending before _ o
                  (Only-append IsSending more [] (λ c m. absurd (p c m)) (Only-nil IsSending)),
              tt,
            ))
            (λ f more p. (Only-append IsSending before more o (λ c m. absurd (p c m)), tt)))

  resolve_name-Makes :
      (task : SegmentBatchTask) (upload_id name : Text)
      → Makes IsSending (resolve_name env task upload_id name)
  unfolding resolve_name
  resolve_name-Makes task upload_id name =
      if-Makes env.cbos_rewrite_upload_filename_date _ _
        (bind-Makes _ _ (perform-Makes _ _ (inl (_, _, _, refl))) (λ _. pure-Makes _))
        (pure-Makes _)

  Posted-after :
      (r : Reply Handled) (before new : List Call) → Posted r new → Posted r (before ++ new)
  Posted-after (answer dropped) before new p = tt
  Posted-after (answer (already_filled _)) before new p = tt
  Posted-after (answer (sent q)) before new p = In-append_right _ before new p
  Posted-after (raise _) before new p = tt

  send_file-Yields :
      (task : SegmentBatchTask) (k n id : ℕ) (path : FilePath) (rule : UploadRule)
      → Yields (send_file env task k n id path rule) Sending
  unfolding send_file fresh_guid
  send_file-Yields task k n id path rule =
      silent-bind _ _ (silent _ (λ w. refl) (λ r. Only-nil (λ _. ⊥)))
        (λ guid.
          silent-bind _ _ (update_record-Makes (λ _. ⊥) id _)
            (λ _.
              bind-Yields {P = λ new r. Only IsSending new} _ _ (resolve_name-Makes task _ _)
                (λ named before o.
                  weaken
                    (λ new r (o', p).
                      (Only-append IsSending before new o o', Posted-after r before new p))
                    (try_send-Yields task k n id path rule guid named))
                (λ e before o. (o, tt)))
            nothing_sent)
        nothing_sent

  send_or_skip-Yields :
      (task : SegmentBatchTask) (k n id : ℕ) (path : FilePath) (rule : UploadRule)
      (done : Option (Option Text)) (completed : Option UploadedFile)
      → Yields (send_or_skip env task k n id path rule done completed) Sending
  unfolding send_or_skip
  send_or_skip-Yields task k n id path rule (some status) completed = skip_file-Yields id path _ _
  send_or_skip-Yields task k n id path rule none (some row) = skip_file-Yields id path _ _
  send_or_skip-Yields task k n id path rule none none = send_file-Yields task k n id path rule

  on_match-Yields :
      (task : SegmentBatchTask) (reservation : ProcessReservation) (k n id : ℕ) (path : FilePath)
      (m : Match)
      → Yields (on_match env task reservation k n id path m) Sending
  unfolding on_match
  on_match-Yields task reservation k n id path (rejected why) =
      silent-bind _ _ (apply_outcome-Makes (λ _. ⊥) id path _ _)
        (λ _. pure-Yields _ (Only-nil IsSending, tt)) nothing_sent
  on_match-Yields task reservation k n id path (matched rule) =
      silent-bind _ _ (update_record-Makes (λ _. ⊥) id _)
        (λ _.
          silent-bind _ _ (gets-Makes (λ _. ⊥) _)
            (λ completed. send_or_skip-Yields task k n id path rule _ completed) nothing_sent)
        nothing_sent

  process_file-Yields :
      (task : SegmentBatchTask) (reservation : ProcessReservation) (rules : List UploadRule)
      (k n : ℕ) (path : FilePath) (exchange : Text)
      → Yields (process_file env task reservation rules k n path exchange) Sending
  unfolding process_file
  process_file-Yields task reservation rules k n path exchange =
      silent-bind _ _ (open_record-Makes (λ _. ⊥) task path exchange)
        (λ id. on_match-Yields task reservation k n id path _) nothing_sent

  note_handled-AllPosted :
      (h : Handled) (s : Sent) (before new : List Call)
      → Posted (answer h) before
      → AllPosted (answer s) new
      → AllPosted (answer (note_handled h s)) (before ++ new)
  unfolding note_handled
  note_handled-AllPosted dropped s before new _ k p m =
      In-append_right (chunks_of p) before new (k p m)
  note_handled-AllPosted (already_filled _) s before new _ k p m =
      In-append_right (chunks_of p) before new (k p m)
  note_handled-AllPosted (sent q) s before new e k p (inl same) =
      In-append_left (chunks_of p) before new (subst (λ q. In (chunks_of q) before) (sym same) e)
  note_handled-AllPosted (sent q) s before new e k p (inr m) =
      In-append_right (chunks_of p) before new (k p m)

  -- The loop over the files makes Step 40 and Step 5 calls only, and each file that it leaves to register has
  -- had its Step 5 call, with the same UploadID, GUID and name.
  pub send_files-Yields :
      (task : SegmentBatchTask) (reservation : ProcessReservation) (rules : List UploadRule)
      (k n : ℕ) (files : List (FilePath × Text))
      → Yields
          (send_files env task reservation rules k n files)
          (λ new r. Only IsSending new × AllPosted r new)
  unfolding send_files
  send_files-Yields task reservation rules k n [] =
      pure-Yields _ (Only-nil IsSending, λ p m. elim m [ ])
  send_files-Yields task reservation rules k n ((path, exchange) ∷ files) =
      bind-Yields {P = Sending} _ _ (process_file-Yields task reservation rules k n path exchange)
        (λ h before (o, posted).
          bind-Yields {P = λ new r. Only IsSending new × AllPosted r new} _ _
            (send_files-Yields task reservation rules (suc k) n files)
            (λ s more (o', all). pure-Yields _ (
              Only-append IsSending before _ o
                  (Only-append IsSending more [] o' (Only-nil IsSending)),
              note_handled-AllPosted h s before (more ++ []) posted
                  (λ p m. In-append_left _ more [] (all p m)),
            ))
            (λ e more (o', _). (Only-append IsSending before more o o', tt)))
        (λ e before (o, _). (o, tt))
