-- ===== src/Lane/Transfer/Skipping.antt =====
-- upload_service.py, `_process_batch`: which files the loop skips, and why.
use edpbilling_file_upload.Base.{
  ℕ, suc, ◌≡◌, ◌≢◌, refl, sym, ◌∙◌, ap, subst, true, Option, none, some, List, [], ◌∷◌, In, inl,
  inr, Text, ◌⊎◌, Bool-cases, arith,
}
use edpbilling_file_upload.Cbos.Reservation.{UploadCandidate, ProcessReservation, already_in_cbos}
use edpbilling_file_upload.Cbos.Rule.{UploadRule}
use edpbilling_file_upload.Files.{FilePath}
use edpbilling_file_upload.Matching.{Match, matched, rejected, match_file}
use edpbilling_file_upload.Audit.{LogEntry, UploadedFile, find_completed}
use edpbilling_file_upload.Queue.Task.{SegmentBatchTask}
use edpbilling_file_upload.Lane.Client.{Env, Reply, answer, raise}
use edpbilling_file_upload.Lane.Action.{Action, World, pure, gets, continue, ◌>>=◌}
use edpbilling_file_upload.Lane.Outcomes.{
  Ensures, pure-Ensures, catch-Ensures, then-Ensures, OnAnswer,
}
use edpbilling_file_upload.Lane.Records.{open_record, update_record}
use edpbilling_file_upload.Lane.Transfer.{
  Sent, Handled, dropped, already_filled, sent, note_handled, candidate_for, done_status,
  match_exchange, send_file, skip_file, send_or_skip, on_match, process_file, send_files, try_send,
}

answer_inj : {A : Type 0} (a b : A) → answer a ≡ answer b → a ≡ b
answer_inj a b e = cc

-- A sequence that answers: its first part did.
bind-answer :
    {Server A B : Type 0} (m : Action Server A) (f : A → Action Server B) (w : World Server) (b : B)
    → ((m >>= f) w).0 ≡ answer b
    → (a : A) × (w' : World Server) × (m w ≡ (answer a, w')) × ((f a w').0 ≡ answer b)
unfolding ◌>>=◌ continue
bind-answer {Server} {A} {B} m f w b h = go (m w) refl h
  where
    go :
        (x : Reply A × World Server)
        → m w ≡ x
        → (continue x.0 f x.1).0 ≡ answer b
        → (a : A) × (w' : World Server) × (m w ≡ (answer a, w')) × ((f a w').0 ≡ answer b)
    go (answer a, w') e k = (a, w', e, k)
    go (raise err, w') e k = cc

module _ (env : Env) (task : SegmentBatchTask) (reservation : ProcessReservation)
    (rules : List UploadRule) (files_total : ℕ) where
  open env use {Server}

  -- The loop over the files, from this number and world on, comes to the file in the world given.
  pub data Visits
      : ℕ → List (FilePath × Text) → World Server → FilePath × Text → World Server → Type 0 where
    here :
        {k : ℕ} {file : FilePath × Text} {files : List (FilePath × Text)} {w : World Server}
        → Visits k (file ∷ files) w file w
    there :
        {k : ℕ} {files : List (FilePath × Text)} {file : FilePath × Text} {w w' v : World Server}
        (path : FilePath) (exchange : Text) (h : Handled)
        → process_file env task reservation rules k files_total path exchange w ≡ (answer h, w')
        → Visits (suc k) files w' file v
        → Visits k ((path, exchange) ∷ files) w file v

  -- What the row of a matched file is given.
  abbrev pub assigned : UploadRule → UploadedFile → UploadedFile
  assigned rule r = record r {
    cbos_upload_id = some rule.upload_id;
    process_id = some reservation.process_id;
  }

  -- The file that the loop comes to in this world matches a rule of this UploadID, and CBOS reports
  -- the slot as done, or the audit table has a completed row of it then.
  abbrev pub IsDone : Text → FilePath × Text → World Server → Type 0
  IsDone u (path, exchange) v =
      (rule : UploadRule) × (rule.upload_id ≡ u)
      × (match_file env.match_settings path.name (env.content path) rules (match_exchange exchange)
          ≡ matched rule)
      × (((c : UploadCandidate) × (candidate_for u reservation.candidates ≡ some c)
            × (already_in_cbos c ≡ true))
          ⊎ ((id : ℕ) × (v' : World Server) × (row : UploadedFile) × (open_record task path exchange
                  v
                ≡ (answer id, v'))
              × (find_completed task.segment task.folder_date u path.name
                    (update_record id (assigned rule) v').1.table
                  ≡ some row)))

  NotSkipped : Handled → Type 0
  NotSkipped dropped = Unit {0}
  NotSkipped (already_filled _) = ⊥
  NotSkipped (sent _) = Unit {0}

  send_file-Ensures :
      (k id : ℕ) (path : FilePath) (rule : UploadRule)
      → Ensures
          (λ _. Unit {0})
          (send_file env task k files_total id path rule)
          (λ h _. NotSkipped h)
  unfolding send_file try_send NotSkipped
  send_file-Ensures k id path rule = then-Ensures _ _ (λ guid. then-Ensures _ _ (λ _.
      then-Ensures _ _ (λ named.
        catch-Ensures _ _ (then-Ensures _ _ (λ _. pure-Ensures _ (λ bs p. tt)))
          (λ e. then-Ensures _ _ (λ _. pure-Ensures _ (λ bs p. tt))))))

  send_file-skips_none :
      (k id : ℕ) (path : FilePath) (rule : UploadRule) (w : World Server) (u : Text)
      → (send_file env task k files_total id path rule w).0 ≢ answer (already_filled u)
  unfolding NotSkipped
  send_file-skips_none k id path rule w u e =
      subst (λ r. OnAnswer (λ h _. NotSkipped h) r w.batches) e
        (any_table (send_file env task k files_total id path rule w).0
          ((send_file-Ensures k id path rule).run w tt))
    where
      any_table :
          (r : Reply Handled)
          → OnAnswer
              (λ h _. NotSkipped h)
              r
              (send_file env task k files_total id path rule w).1.batches
          → OnAnswer (λ h _. NotSkipped h) r w.batches
      any_table (answer h) q = q
      any_table (raise _) q = tt

  skip_file-fills :
      (id : ℕ) (path : FilePath) (upload_id : Text) (why : LogEntry) (w : World Server) (u : Text)
      → (skip_file env id path upload_id why w).0 ≡ answer (already_filled u)
      → upload_id ≡ u
  unfolding skip_file pure
  skip_file-fills id path upload_id why w u h =
      let (_, _, _, e) = bind-answer _ _ w (already_filled u) h in
      ap (λ x. elim x as (λ _. Text) [ dropped ↦ u | already_filled t ↦ t | sent _ ↦ u ])
        (answer_inj _ _ e)

  done_status-candidate :
      (o : Option UploadCandidate) (status : Option Text)
      → done_status o ≡ some status
      → (c : UploadCandidate) × (o ≡ some c) × (already_in_cbos c ≡ true)
  unfolding done_status
  done_status-candidate none status h = cc
  done_status-candidate (some c) status h = elim (Bool-cases (already_in_cbos c)) [
    | inl e ↦ (c, refl, e)
    | inr e ↦ absurd (ground arith)
  ]

  send_or_skip-IsDone :
      (k id : ℕ) (path : FilePath) (exchange : Text) (rule : UploadRule) (u : Text)
      (v v' v3 : World Server) (d : Option (Option Text)) (completed : Option UploadedFile)
      → open_record task path exchange v ≡ (answer id, v')
      → match_file env.match_settings path.name (env.content path) rules (match_exchange exchange)
        ≡ matched rule
      → done_status (candidate_for rule.upload_id reservation.candidates) ≡ d
      → find_completed task.segment task.folder_date rule.upload_id path.name
          (update_record id (assigned rule) v').1.table
        ≡ completed
      → (send_or_skip env task k files_total id path rule d completed v3).0
        ≡ answer (already_filled u)
      → IsDone u (path, exchange) v
  unfolding send_or_skip
  send_or_skip-IsDone k id path exchange rule u v v' v3 (some status) completed o m q r h =
      let same = skip_file-fills id path rule.upload_id _ v3 u h in
      let (c, e, done) = done_status-candidate _ status q in
      (
        rule,
        same,
        m,
        inl (c, ap (λ x. candidate_for x reservation.candidates) (sym same) ∙ e, done),
      )
  send_or_skip-IsDone k id path exchange rule u v v' v3 none (some row) o m q r h =
      let same = skip_file-fills id path rule.upload_id _ v3 u h in
      (
        rule,
        same,
        m,
        inr (
          id,
          v',
          row,
          o,
          ap
                (λ x.
                  find_completed task.segment task.folder_date x path.name
                    (update_record id (assigned rule) v').1.table)
                (sym same)
              ∙ r,
        ),
      )
  send_or_skip-IsDone k id path exchange rule u v v' v3 none none o m q r h =
      absurd (send_file-skips_none k id path rule v3 u h)

  on_match-IsDone :
      (k id : ℕ) (path : FilePath) (exchange : Text) (u : Text) (v v' : World Server) (m : Match)
      → open_record task path exchange v ≡ (answer id, v')
      → match_file env.match_settings path.name (env.content path) rules (match_exchange exchange)
        ≡ m
      → (on_match env task reservation k files_total id path m v').0 ≡ answer (already_filled u)
      → IsDone u (path, exchange) v
  unfolding on_match gets pure
  on_match-IsDone k id path exchange u v v' (rejected why) o m h =
      let (_, _, _, e) = bind-answer _ _ v' (already_filled u) h in absurd (cc)
  on_match-IsDone k id path exchange u v v' (matched rule) o m h =
      let (_, v2, e2, h2) = bind-answer _ _ v' (already_filled u) h in
      let (completed, v3, e3, h3) = bind-answer _ _ v2 (already_filled u) h2 in
      let table : (update_record id (assigned rule) v').1.table ≡ v2.table =
        ap (λ x. x.1.table) e2 in
      send_or_skip-IsDone k id path exchange rule u v v' v3 _ completed o m refl
        (ap (find_completed task.segment task.folder_date rule.upload_id path.name) table
          ∙ answer_inj _ _ (ap (λ x. x.0) e3))
        h3

  process_file-IsDone :
      (k : ℕ) (path : FilePath) (exchange : Text) (u : Text) (v : World Server)
      → (process_file env task reservation rules k files_total path exchange v).0
        ≡ answer (already_filled u)
      → IsDone u (path, exchange) v
  unfolding process_file
  process_file-IsDone k path exchange u v h =
      let (id, v', e, h') = bind-answer _ _ v (already_filled u) h in
      on_match-IsDone k id path exchange u v v' _ e refl h'

  -- The loop comes to a file that is done, with this UploadID.
  abbrev pub Skips : ℕ → List (FilePath × Text) → World Server → Text → Type 0
  Skips k files w u =
      (file : FilePath × Text) × (v : World Server) × Visits k files w file v × IsDone u file v

  note_handled-filled :
      (h : Handled) (s : Sent) (u : Text)
      → In u (note_handled h s).filled
      → (h ≡ already_filled u) ⊎ In u s.filled
  unfolding note_handled
  note_handled-filled dropped s u m = inr m
  note_handled-filled (sent p) s u m = inr m
  note_handled-filled (already_filled t) s u (inl e) = inl (ap already_filled (sym e))
  note_handled-filled (already_filled t) s u (inr m) = inr m

  -- Each UploadID that the loop returns as filled is that of a file that the loop found to be done
  -- when it came to it.
  pub send_files-Skips :
      (k : ℕ) (files : List (FilePath × Text)) (w : World Server) (s : Sent)
      → (send_files env task reservation rules k files_total files w).0 ≡ answer s
      → (u : Text) → In u s.filled
      → Skips k files w u
  unfolding send_files pure
  send_files-Skips k [] w s h u m =
      let none_filled : [] ≡ s.filled = ap (λ x. x.filled) (answer_inj _ _ h) in
      absurd (subst (In u) (sym none_filled) m)
  send_files-Skips k ((path, exchange) ∷ files) w s h u m =
      let (handled, w', e, h2) = bind-answer _ _ w s h in
      let (rest, w2, e2, h3) = bind-answer _ _ w' s h2 in
      let same : note_handled handled rest ≡ s = answer_inj _ _ h3 in
      elim (note_handled-filled handled rest u (subst (λ x. In u x.filled) (sym same) m)) [
        | inl filled ↦ (
          (path, exchange),
          w,
          here,
          process_file-IsDone k path exchange u w (ap (λ x. x.0) e ∙ ap answer filled),
        )
        | inr later ↦
            let (file, v, visits, done) =
              send_files-Skips (suc k) files w' rest (ap (λ x. x.0) e2) u later in
            (file, v, there path exchange handled e visits, done)
      ]
