-- ===== src/Lane/Action.antt =====
-- Statements of app/services/upload_service.py: they change the world and may raise. What was
-- written before a raise stays written. `trace` lists the calls made to CBOS, the first one first.
use edpbilling_file_upload.Base.{List, [], ◌∷◌, ◌++◌, Text}
use edpbilling_file_upload.Cbos.Value.{Scalar}
use edpbilling_file_upload.Cbos.Reservation.{CbosError}
use edpbilling_file_upload.Audit.{Table}
use edpbilling_file_upload.Batches.{Batch}
use edpbilling_file_upload.Files.{Disk}
use edpbilling_file_upload.Lane.Client.{Failure, cbos, Reply, answer, raise}

pub data Call : Type 0 where
  -- Step 1: segment, trade date
  begin_file_upload : Text → Text → Call
  -- Step 6: segment, trade date
  get_existing_process : Text → Text → Call
  -- Step 2: segment, trade date, PROCESSID
  get_new_trade_process : Text → Text → Text → Call
  -- Step 4: UploadID
  get_upload_settings : Text → Call
  -- Step 40: segment, UploadID, trade date
  get_expected_filename : Text → Text → Text → Call
  -- Step 3: segment, trade date
  check_process_id : Text → Text → Call
  -- Step 5: UploadID, GUID, file name
  save_chunks : Text → Text → Text → Call
  -- Step 7: UploadID, GUID, file name, PROCESSID, trade date
  save_upload_file : Text → Text → Text → Text → Text → Call
  -- Step 8: PROCESSID, STEPNO
  update_is_mandatory : Text → Scalar → Call
  -- Step 9: segment, trade date
  file_upload_status : Text → Text → Call

pub record World (Server : Type 0) : Type 0 where
  pub server : Server
  pub disk : Disk
  pub table : Table
  pub batches : List Batch
  pub trace : List Call

abbrev pub Action : Type 0 → Type 0 → Type 0
Action Server A = World Server → Reply A × World Server

module _ {Server A : Type 0} where
  unfoldable pub pure : A → Action Server A
  pure a w = (answer a, w)

  unfoldable pub throw : Failure → Action Server A
  throw e w = (raise e, w)

  -- `getattr(world, …)`
  unfoldable pub gets : (World Server → A) → Action Server A
  gets f w = (answer (f w), w)

  -- One call to CBOS.
  unfoldable pub perform : Call → (Server → Reply A × Server) → Action Server A
  perform call act w =
      let (r, s) = act w.server in (r, record w { server = s; trace = w.trace ++ (call ∷ []) })

  unfoldable pub settle : (CbosError → Action Server A) → Reply A → Action Server A
  settle handler (answer a) w = (answer a, w)
  settle handler (raise (cbos e)) w = handler e w
  settle handler (raise other) w = (raise other, w)

  -- `try: … except CBOSUploadError as e: …`
  unfoldable pub catch_cbos : Action Server A → (CbosError → Action Server A) → Action Server A
  unfolding settle
  catch_cbos m handler w = let (r, w') = m w in settle handler r w'

module _ {Server : Type 0} where
  unfoldable pub modify : (World Server → World Server) → Action Server (Unit {0})
  modify f w = (answer tt, f w)

module _ {Server A B : Type 0} where
  unfoldable pub continue : Reply A → (A → Action Server B) → Action Server B
  continue (answer a) f w = f a w
  continue (raise e) f w = (raise e, w)

  infixl 5 ◌>>=◌ ◌>>◌
  unfoldable pub ◌>>=◌ : Action Server A → (A → Action Server B) → Action Server B
  unfolding continue
  ◌>>=◌ m f w = let (r, w') = m w in continue r f w'

  abbrev pub ◌>>◌ : Action Server A → Action Server B → Action Server B
  m >> n = m >>= λ _. n
