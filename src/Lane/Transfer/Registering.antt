-- ===== src/Lane/Transfer/Registering.antt =====
-- upload_service.py, `_process_batch`: the calls of the loop over the files that were sent.
use edpbilling_file_upload.Base.{
  ◌≡◌, refl, sym, ap, subst, List, [], ◌∷◌, ◌++◌, In, In-append_left, In-append_right, inl, inr,
  Text, Option, none, some,
}
use edpbilling_file_upload.Queue.Task.{SegmentBatchTask}
use edpbilling_file_upload.Lane.Client.{Env, Reply, answer, raise}
use edpbilling_file_upload.Lane.Action.{Call, save_upload_file}
use edpbilling_file_upload.Lane.Calls.{
  Only, Yields, Only-append, Only-nil, catch-Yields, bind-Yields, perform-Yields, pure-Yields,
}
use edpbilling_file_upload.Lane.Records.Silent.{apply_outcome-Makes}
use edpbilling_file_upload.Lane.Transfer.{
  Pending, Uploaded, note_registered, register, register_files,
}

-- Step 7 of one of the files that were sent, into that process.
abbrev pub Registers : Text → Text → List Pending → Call → Type 0
Registers process_id trade_date pending c =
    (p : Pending) × In p pending
    × (c ≡ save_upload_file p.upload_id p.guid p.send_name process_id trade_date)

abbrev step_7 : Text → Text → Pending → Call
step_7 process_id trade_date p =
    save_upload_file p.upload_id p.guid p.send_name process_id trade_date

-- A file that counts as uploaded has had its Step 7 call.
abbrev Entered : Text → Text → Pending → Reply (Option Uploaded) → List Call → Type 0
Entered process_id trade_date p (answer (some _)) new = In (step_7 process_id trade_date p) new
Entered process_id trade_date p (answer none) new = Unit {0}
Entered process_id trade_date p (raise _) new = Unit {0}

-- An UploadID that counts as filled has had a Step 7 call.
abbrev pub AllEntered : Text → Text → Reply (List Uploaded × List Text) → List Call → Type 0
AllEntered process_id trade_date (answer (_, ids)) new =
    (u : Text)
    → In u ids
    → (g : Text) × (n : Text) × In (save_upload_file u g n process_id trade_date) new
AllEntered process_id trade_date (raise _) new = Unit {0}

module _ (env : Env) where
  register-Yields :
      (task : SegmentBatchTask) (process_id : Text) (p : Pending)
      → Yields (register env task process_id p) (λ new r.
        Only (Registers process_id task.folder_date (p ∷ [])) new
        × Entered process_id task.folder_date p r new)
  unfolding register
  register-Yields task process_id p =
      catch-Yields {P = λ new r. new ≡ call ∷ []} _ _
        (bind-Yields {P = λ new r. new ≡ call ∷ []} _ _ (perform-Yields _ _ (λ r. refl))
          (λ _ before e. pure-Yields _ (ap (λ xs. xs ++ []) e)) (λ f before e. e))
        (λ new r e. (one new e, entered r new e))
        (λ e before b.
          bind-Yields {P = λ new r. Only (λ _. ⊥) new} _ _
            (apply_outcome-Makes (λ _. ⊥) p.id p.file_path _ _)
            (λ _ more o. pure-Yields _ (
              Only-append R before (more ++ []) (one before b)
                  (Only-append R more [] (λ c m. absurd (o c m)) (Only-nil R)),
              tt,
            ))
            (λ f more o. (Only-append R before more (one before b) (λ c m. absurd (o c m)), tt)))
    where
      call : Call
      call = step_7 process_id task.folder_date p

      R : Call → Type 0
      R = Registers process_id task.folder_date (p ∷ [])

      one : (new : List Call) → new ≡ call ∷ [] → Only R new
      one new e c m = elim (subst (In c) e m) [ inl d ↦ (p, inl refl, d) | inr k ↦ elim k [ ] ]

      entered :
          (r : Reply (Option Uploaded)) (new : List Call)
          → new ≡ call ∷ []
          → Entered process_id task.folder_date p r new
      entered (answer (some _)) new e = subst (In call) (sym e) (inl refl)
      entered (answer none) new e = tt
      entered (raise _) new e = tt

  note_registered-AllEntered :
      (process_id trade_date : Text) (p : Pending) (done : Option Uploaded)
      (rest : List Uploaded × List Text) (before new : List Call)
      → Entered process_id trade_date p (answer done) before
      → AllEntered process_id trade_date (answer rest) new
      → AllEntered process_id trade_date
          (answer (note_registered env p.upload_id done rest))
          (before ++ new)
  unfolding note_registered
  note_registered-AllEntered process_id trade_date p none rest before new _ k u m =
      let (g, n, h) = k u m in (g, n, In-append_right _ before new h)
  note_registered-AllEntered process_id trade_date p (some _) rest before new e k u (inl same) = (
    p.guid,
    p.send_name,
    In-append_left _ before new (
        subst (λ v. In (save_upload_file v p.guid p.send_name process_id trade_date) before)
          (sym same) e),
  )
  note_registered-AllEntered process_id trade_date p (some _) rest before new e k u (inr m) =
      let (g, n, h) = k u m in (g, n, In-append_right _ before new h)

  -- The loop over the files that were sent makes Step 7 calls only, each for one of these files with
  -- its UploadID, GUID and name, and an UploadID that it returns as filled has had one.
  pub register_files-Yields :
      (task : SegmentBatchTask) (process_id : Text) (pending : List Pending)
      → Yields (register_files env task process_id pending) (λ new r.
        Only (Registers process_id task.folder_date pending) new
        × AllEntered process_id task.folder_date r new)
  unfolding register_files
  register_files-Yields task process_id [] = pure-Yields _ (Only-nil _, λ u m. elim m [ ])
  register_files-Yields task process_id (p ∷ pending) =
      bind-Yields
        {P = λ new r.
          Only (Registers process_id task.folder_date (p ∷ [])) new
          × Entered process_id task.folder_date p r new}
        _ _ (register-Yields task process_id p)
        (λ done before (o, e).
          bind-Yields
            {P = λ new r.
              Only (Registers process_id task.folder_date pending) new
              × AllEntered process_id task.folder_date r new}
            _ _ (register_files-Yields task process_id pending)
            (λ rest more (o', k). pure-Yields _ (
              Only-append R before (more ++ []) (first before o)
                  (Only-append R more [] (later more o') (Only-nil R)),
              note_registered-AllEntered process_id task.folder_date p done rest before (more ++ [])
                  e (λ u m. let (g, n, h) = k u m in (g, n, In-append_left _ more [] h)),
            ))
            (λ f more (o', _). (Only-append R before more (first before o) (later more o'), tt)))
        (λ f before (o, _). (first before o, tt))
    where
      R : Call → Type 0
      R = Registers process_id task.folder_date (p ∷ pending)

      first :
          (new : List Call) → Only (Registers process_id task.folder_date (p ∷ [])) new → Only R new
      first new o c m =
          let (q, k, e) = o c m in (q, elim k [ inl same ↦ inl same | inr j ↦ elim j [ ] ], e)

      later :
          (new : List Call) → Only (Registers process_id task.folder_date pending) new → Only R new
      later new o c m = let (q, k, e) = o c m in (q, inr k, e)
