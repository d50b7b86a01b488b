-- ===== src/Lane/Records/Carried.antt =====
-- upload_service.py, `apply_outcome`: the file in its folder, and the row that says so.
use edpbilling_file_upload.Base.{
  ℕ, ◌≡◌, refl, sym, ◌∙◌, ap, subst, Option, none, some, List, In, inl, inr, Text,
}
use edpbilling_file_upload.Files.{
  FilePath, Disk, move_file, move_to_uploaded, move_to_failed, upload_subfolder, failed_subfolder,
}
use edpbilling_file_upload.Files.Moves.{IsMoved, move_file-IsMoved}
use edpbilling_file_upload.Outcome.{FileOutcome}
use edpbilling_file_upload.Outcome.Kinds.{Destination}
use edpbilling_file_upload.Audit.{UploadedFile, Table, LogEntry, at, update_row, claim_file_path}
use edpbilling_file_upload.Audit.Claims.{In-update_row}
use edpbilling_file_upload.Audit.Claims.Takeover.{claim_file_path-path}
use edpbilling_file_upload.Lane.Client.{Reply, answer, raise, file_not_found, integrity_error}
use edpbilling_file_upload.Lane.Action.{Action, World, pure, throw, modify, continue, ◌>>=◌, ◌>>◌}
use edpbilling_file_upload.Lane.Records.{
  outcome_fields, update_record, move_away, claim, apply_outcome,
}

-- uploaded/ or uploadFailed/
abbrev pub folder : Destination → Text
folder Destination.uploaded = upload_subfolder
folder Destination.failed = failed_subfolder

-- The file was moved into the outcome's folder, its row names the new place and has the outcome's
-- status, and neither CBOS nor the batches table was touched.
pub record IsCarriedOut {Server : Type 0} (id : ℕ) (path : FilePath) (outcome : FileOutcome)
    (w : World Server) (dest : FilePath) (w' : World Server) : Type 0 where
  pub moved : IsMoved w.disk path dest (folder outcome.destination) w'.disk
  pub row :
      (r : UploadedFile)
      → In r w'.table.rows
      → r.id ≡ id
      → (r.file_path ≡ at dest) × (r.status ≡ outcome.status)
  pub trace : w'.trace ≡ w.trace
  pub batches : w'.batches ≡ w.batches

-- The row after the last update.
row_after :
    (id : ℕ) (dest : FilePath) (outcome : FileOutcome) (request_log : Option (List LogEntry))
    (t t' : Table)
    → claim_file_path id dest t ≡ some t'
    → (r : UploadedFile) → In r (update_row id (outcome_fields outcome request_log) t').rows
    → r.id ≡ id
    → (r.file_path ≡ at dest) × (r.status ≡ outcome.status)
unfolding outcome_fields
row_after id dest outcome request_log t t' h r m e =
    let (s, k, c) = In-update_row id (outcome_fields outcome request_log) t' r m in
    elim c [
      | inl (own, f) ↦ (
        ap (λ (q : UploadedFile). q.file_path) f ∙ claim_file_path-path id dest t t' h s k own,
        ap (λ (q : UploadedFile). q.status) f,
      )
      | inr (other, f) ↦ absurd (other (sym (ap (λ (q : UploadedFile). q.id) f) ∙ e))
    ]

value_or : FilePath → Reply FilePath → FilePath
value_or d (answer a) = a
value_or d (raise _) = d

module _ {Server : Type 0} where
  -- What `move_away` leaves where it answers.
  abbrev Away : Destination → FilePath → World Server → Reply FilePath × World Server → Type 0
  Away d path w (raise _, _) = Unit {0}
  Away d path w (answer dest, w') =
      (disk : Disk) × (move_file w.disk path (folder d) ≡ some (dest, disk))
      × (w' ≡ record w { disk = disk })

  moved_or_not :
      (d : Destination) (path : FilePath) (w : World Server) (o : Option (FilePath × Disk))
      → move_file w.disk path (folder d) ≡ o
      → Away d path w (elim o [
        | none ↦ throw file_not_found w
        | some (dest, disk) ↦ pure dest (record w { disk = disk })
      ])
  unfolding throw pure
  moved_or_not d path w none e = tt
  moved_or_not d path w (some (dest, disk)) e = (disk, e, refl)

  move_away-Away :
      (d : Destination) (path : FilePath) (w : World Server) → Away d path w (move_away d path w)
  unfolding move_away move_to_uploaded move_to_failed
  move_away-Away Destination.uploaded path w =
      moved_or_not Destination.uploaded path w (move_file w.disk path upload_subfolder) refl
  move_away-Away Destination.failed path w =
      moved_or_not Destination.failed path w (move_file w.disk path failed_subfolder) refl

  -- What `claim` leaves where it answers.
  abbrev Claimed : ℕ → FilePath → World Server → Reply (Unit {0}) × World Server → Type 0
  Claimed id dest w (raise _, _) = Unit {0}
  Claimed id dest w (answer _, w') =
      (t : Table) × (claim_file_path id dest w.table ≡ some t) × (w' ≡ record w { table = t })

  claim-Claimed :
      (id : ℕ) (dest : FilePath) (w : World Server) → Claimed id dest w (claim id dest w)
  unfolding claim throw pure
  claim-Claimed id dest w = go (claim_file_path id dest w.table) refl
    where
      go :
          (o : Option Table)
          → claim_file_path id dest w.table ≡ o
          → Claimed id dest w (elim o [
            | none ↦ throw integrity_error w
            | some t ↦ pure tt (record w { table = t })
          ])
      go none e = tt
      go (some t) e = (t, e, refl)

  -- The rest of `apply_outcome` after the move, and after the claim.
  after_claim :
      ℕ → FileOutcome → Option (List LogEntry) → FilePath → Unit {0} → Action Server FilePath
  after_claim id outcome request_log dest _ =
      update_record id (outcome_fields outcome request_log) >> pure dest

  after_move : ℕ → FileOutcome → Option (List LogEntry) → FilePath → Action Server FilePath
  unfolding after_claim
  after_move id outcome request_log dest = claim id dest >>= after_claim id outcome request_log dest

  module _ (id : ℕ) (path : FilePath) (outcome : FileOutcome) (request_log : Option (List LogEntry))
      (w w' : World Server) (dest : FilePath) where
    closing : World Server → World Server
    closing v = record v { table = update_row id (outcome_fields outcome request_log) v.table }

    after_claim-IsCarriedOut :
        (d : FilePath) (disk : Disk) (x : Reply (Unit {0}) × World Server)
        → move_file w.disk path (folder outcome.destination) ≡ some (d, disk)
        → Claimed id d (record w { disk = disk }) x
        → continue x.0 (after_claim id outcome request_log d) x.1 ≡ (answer dest, w')
        → IsCarriedOut id path outcome w dest w'
    unfolding continue after_claim update_record modify pure ◌>>=◌ closing value_or
    after_claim-IsCarriedOut d disk (raise _, v) m c h = cc
    after_claim-IsCarriedOut d disk (answer _, v) m (t, k, e) h =
        let base : IsCarriedOut id path outcome w d
            (closing (record w { disk = disk; table = t })) =
          record {
            moved = move_file-IsMoved w.disk path d (folder outcome.destination) disk m;
            row = row_after id d outcome request_log w.table t k;
            trace = refl;
            batches = refl;
          } in
        let same : d ≡ dest = ap (λ (q : Reply FilePath × World Server). value_or d q.0) h in
        let world : closing (record w { disk = disk; table = t }) ≡ w' =
          ap closing (sym e) ∙ ap (λ (q : Reply FilePath × World Server). q.1) h in
        subst (λ v'. IsCarriedOut id path outcome w dest v') world
          (subst
            (λ d'.
              IsCarriedOut id path outcome w d' (closing (record w { disk = disk; table = t })))
            same base)

    after_move-IsCarriedOut :
        (x : Reply FilePath × World Server)
        → Away outcome.destination path w x
        → continue x.0 (after_move id outcome request_log) x.1 ≡ (answer dest, w')
        → IsCarriedOut id path outcome w dest w'
    unfolding continue after_move ◌>>=◌
    after_move-IsCarriedOut (raise _, v) a h = cc
    after_move-IsCarriedOut (answer d, v) (disk, m, e) h =
        after_claim-IsCarriedOut d disk (claim id d (record w { disk = disk })) m
          (claim-Claimed id d (record w { disk = disk }))
          (subst
            (λ u.
              continue (claim id d u).0 (after_claim id outcome request_log d) (claim id d u).1
              ≡ (answer dest, w'))
            e h)

    -- Where carrying an outcome out returns, the file was moved into the outcome's folder and
    -- overwrote nothing, each audit row with the given id names the new place and has the outcome's
    -- status, and neither CBOS nor the batches table was touched.
    pub apply_outcome-IsCarriedOut :
        apply_outcome id path outcome request_log w ≡ (answer dest, w')
        → IsCarriedOut id path outcome w dest w'
    unfolding apply_outcome after_move after_claim ◌>>=◌ continue
    apply_outcome-IsCarriedOut h =
        after_move-IsCarriedOut (move_away outcome.destination path w)
          (move_away-Away outcome.destination path w) h
