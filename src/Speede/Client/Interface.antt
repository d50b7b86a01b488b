-- ===== src/Speede/Client/Interface.antt =====
-- app/clients/nsdl_speede_client.py: the client as the service sees it, filled by the modelled calls.
use edpbilling_file_upload.Base.{
  ℕ, ◌≡◌, refl, true, Option, none, some, [], ◌∷◌, Text, codes, truthy, if◌then◌else◌,
}
use edpbilling_file_upload.Base.Program.{
  Ensures, pure, throw, bind-Ensures, pure-Ensures, throw-Ensures, NoClaim, anything, on_return,
  adapt,
}
use edpbilling_file_upload.Speede.{Failure, speede, no_tran_id}
use edpbilling_file_upload.Speede.Table.{given}
use edpbilling_file_upload.Speede.Service.{Client}
use edpbilling_file_upload.Speede.Service.Once.{IsLawful}
use edpbilling_file_upload.Speede.Client.{Row, Api, ClientSettings, field, text_or_empty, first_row}
use edpbilling_file_upload.Speede.Client.Wire.{
  list_categories, get_upload_settings, validate_file, tran_id_in, finalize_upload,
}
use edpbilling_file_upload.Speede.Client.Chunks.{upload_chunks}
use edpbilling_file_upload.Speede.Client.Polling.{check_status_once, poll_status}

module _ {Server : Type 0} (api : Api Server) where
  unfoldable pub speede_client : ClientSettings → Client Server
  unfolding list_categories get_upload_settings validate_file upload_chunks finalize_upload
      check_status_once poll_status
  speede_client settings = record {
    list_categories = list_categories api;
    get_upload_settings = get_upload_settings api;
    validate_file = validate_file settings;
    upload_chunks = upload_chunks api settings;
    finalize_upload = finalize_upload api;
    check_status_once = check_status_once api settings;
    poll_status = poll_status api settings;
  }

  -- Nothing is asked of the server.
  abbrev AnyState : Server → Type 0
  AnyState _ = Unit {0}

  tran_id_in-Ensures :
      (row : Option Row)
      → Ensures AnyState (tran_id_in api row) (λ t _. given (some t) ≡ true) NoClaim
  unfolding tran_id_in given
  tran_id_in-Ensures none = throw-Ensures _ (λ s p. tt)
  tran_id_in-Ensures (some row) = go (text_or_empty (field (codes "TRANID") row))
    where
      go :
          (t : Text)
          → Ensures AnyState
              (if truthy t then pure {E = Failure} t else throw (speede no_tran_id))
              (λ t _. given (some t) ≡ true)
              NoClaim
      go [] = throw-Ensures _ (λ s p. tt)
      go (c ∷ t) = pure-Ensures (c ∷ t) (λ s p. refl)

  finalize_upload-Ensures :
      (upload_id : ℕ) (name guid param1 : Text)
      → Ensures AnyState
          (finalize_upload api upload_id name guid param1)
          (λ t _. given (some t) ≡ true)
          NoClaim
  unfolding finalize_upload
  finalize_upload-Ensures upload_id name guid param1 =
      bind-Ensures _ _ (anything (api.finalize_upload upload_id name guid param1)) (λ body.
        adapt (λ s p. tt) (λ t s p. p) (λ e s p. p) (tran_id_in-Ensures (first_row body.rows)))

  -- Whatever the API answers, `finalize_upload` of the client returns no empty TRANID.
  pub speede_client-IsLawful : (settings : ClientSettings) → IsLawful (speede_client settings)
  unfolding speede_client
  speede_client-IsLawful settings = record {
    finalize_answers = λ upload_id name guid param1 s t e.
        on_return (λ t _. given (some t) ≡ true) NoClaim _
          ((finalize_upload-Ensures upload_id name guid param1).run s tt) e;
  }
