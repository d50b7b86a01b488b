-- ===== src/Speede/Service/Once/History.antt =====
-- app/services/nsdl_speede_service.py: the same account over `check_status`, and over a history of
-- requests.
use edpbilling_file_upload.Base.{ℕ, ◌≡◌, refl, false, Option, none, some, List, [], ◌∷◌, any, arith}
use edpbilling_file_upload.Base.Program.{
  Try, returned, raised, Post, Ensures, pure-Ensures, throw-Ensures, gets-Ensures, if-Ensures,
  bind-Ensures,
}
use edpbilling_file_upload.Speede.{Failure}
use edpbilling_file_upload.Speede.Table.{Upload}
use edpbilling_file_upload.Speede.Service.{check_status_once, Client, World, Action, with_status}
use edpbilling_file_upload.Speede.Service.Steps.{apply_status}
use edpbilling_file_upload.Speede.Service.Once.{
  IsLawful, IsOnce, With, Always, Anything, perform_quiet, update_any, result_quiet,
}
use edpbilling_file_upload.Speede.Service.Requests.{
  entry_of_row, refresh, answer_status, check_status, Request, upload, status, is_forced, serve,
  serve_all,
}
use edpbilling_file_upload.Speede.Service.Once.Entries.{process_upload-Ensures}

module _ {Server : Type 0} (client : Client Server) where
  answer_status-Ensures :
      (n : ℕ) (row : Option Upload)
      → Ensures (With Anything) (answer_status client n row) (λ _. With Anything) Always
  unfolding answer_status refresh apply_status with_status
  answer_status-Ensures n none = throw-Ensures _ (λ w p. p)
  answer_status-Ensures n (some u) =
      bind-Ensures _ _
        (bind-Ensures {R = λ _. With Anything} _ _
          (if-Ensures _ _ _
            (bind-Ensures _ _ (perform_quiet Anything (λ _. check_status_once _) _ (λ r. refl))
              (λ status. update_any u.id _ (λ v. (refl, refl)) (λ v. refl)))
            (pure-Ensures tt (λ w p. p)))
          (λ _. result_quiet n (entry_of_row u) _))
        (λ r. pure-Ensures _ (λ w p. p))

  check_status-Ensures :
      (n : ℕ) → Ensures (With Anything) (check_status client n) (λ _. With Anything) Always
  unfolding check_status
  check_status-Ensures n =
      bind-Ensures {R = λ _. With Anything} _ _ (gets-Ensures _ (λ w p. p))
        (answer_status-Ensures n)

module _ {Server : Type 0} where
  left :
      {A : Type 0} (m : Action Server A)
      → Ensures (With Anything) m (λ _. With Anything) Always
      → (w : World Server) → IsOnce w
      → IsOnce (m w).1
  left {A} m h w (e, d) = go (m w) (h.run w (e, d, tt))
    where
      go :
          (x : Try Failure A × World Server) → Post (λ _. With Anything) Always x.0 x.1 → IsOnce x.1
      go (returned a, v) (e, d, t) = (e, d)
      go (raised x, v) (e, d, t) = (e, d)

  serve-IsOnce :
      (client : Client Server)
      → IsLawful client
      → (r : Request) (w : World Server) → is_forced r ≡ false
      → IsOnce w
      → IsOnce (serve client r w)
  unfolding serve is_forced
  serve-IsOnce client lawful (upload folders trade_date selectors c force) w f h =
      rw f (left _ (process_upload-Ensures client lawful folders trade_date selectors c) w h)
  serve-IsOnce client lawful (status n) w f h = left _ (check_status-Ensures client n) w h

  -- Let finalizing never answer an empty TRANID. Whatever requests come in, in whatever order, with
  -- whatever files, answers and errors, none of them with `force`: if at the start as many files
  -- had been appended by CBOS as rows carry a TRANID, and no two rows were of one date, account,
  -- report and version, then both hold after them.
  pub serve_all-IsOnce :
      (client : Client Server)
      → IsLawful client
      → (requests : List Request) (w : World Server) → any is_forced requests ≡ false
      → IsOnce w
      → IsOnce (serve_all client requests w)
  unfolding serve_all
  serve_all-IsOnce client lawful [] w f h = h
  serve_all-IsOnce client lawful (r ∷ requests) w f h =
      serve_all-IsOnce client lawful requests (serve client r w) (ground arith)
        (serve-IsOnce client lawful r w (ground arith) h)
