-- ===== src/Speede/Client/Polling/Bound.antt =====
-- app/clients/nsdl_speede_client.py, `poll_status`: the number of status calls, by a server that counts
-- them.
use edpbilling_file_upload.Base.{
  ℕ, zero, suc, ◌+◌, ◌-◌, ◌≤◌, max, ◌≡◌, refl, ◌∙◌, ap, subst, Bool, true, false, Text,
  if◌then◌else◌, arith,
}
use edpbilling_file_upload.Base.Program.{
  Try, returned, raised, Program, Post, Ensures, pure, ◌>>=◌, bind-Ensures, pure-Ensures,
  of_try-Ensures, adapt,
}
use edpbilling_file_upload.Speede.{Failure, UploadStatus}
use edpbilling_file_upload.Speede.Client.{Body, Api, ClientSettings}
use edpbilling_file_upload.Speede.Client.Polling.{
  is_open_verdict, check_status_once, poll_rest, poll_status,
}

module _ {Server : Type 0} (api : Api Server) (settings : ClientSettings) (calls : Server → ℕ)
    (counts : (t : Text) (s : Server) → calls (api.get_upload_status t s).1 ≡ suc (calls s)) where
  Made : ℕ → Server → Type 0
  Made n s = calls s ≡ n

  ask-Ensures :
      (n : ℕ) (tran_id : Text)
      → Ensures (Made n) (api.get_upload_status tran_id) (λ _. Made (suc n)) (λ _. Made (suc n))
  unfolding Made
  ask-Ensures n tran_id = record {
    run = λ s p. go (api.get_upload_status tran_id s) (counts tran_id s ∙ ap suc p);
  }
    where
      go :
          (x : Try Failure Body × Server)
          → calls x.1 ≡ suc n
          → Post (λ _. Made (suc n)) (λ _. Made (suc n)) x.0 x.1
      go (returned b, s) e = e
      go (raised x, s) e = e

  known :
      (n : ℕ) (r : Try Failure UploadStatus) (s : Server)
      → Made n s
      → Post (λ _. Made n) (λ _. Made n) r s
  known n (returned a) s p = p
  known n (raised e) s p = p

  check_status_once-Ensures :
      (n : ℕ) (tran_id : Text)
      → Ensures
          (Made n)
          (check_status_once api settings tran_id)
          (λ _. Made (suc n))
          (λ _. Made (suc n))
  unfolding check_status_once
  check_status_once-Ensures n tran_id =
      bind-Ensures _ _ (ask-Ensures n tran_id) (λ body. of_try-Ensures _ (known (suc n) _))

  -- At most `n` calls, and exactly `n` where the verdict is still open.
  abbrev Polled : ℕ → UploadStatus → Server → Type 0
  Polled n status s = (calls s ≤ n) × (is_open_verdict status.verdict ≡ true → calls s ≡ n)

  abbrev AtMost : ℕ → Failure → Server → Type 0
  AtMost n _ s = calls s ≤ n

  -- One round more in hand.
  shift :
      (n left : ℕ) (m : Program Server Failure UploadStatus)
      → Ensures (Made (suc n)) m (Polled (suc n + left)) (AtMost (suc n + left))
      → Ensures (Made (suc n)) m (Polled (n + suc left)) (AtMost (n + suc left))
  shift n left m h =
      let same : suc n + left ≡ n + suc left = omega arith in
      subst (λ k. Ensures (Made (suc n)) m (Polled k) (AtMost k)) same h

  round-Ensures :
      (left n : ℕ) (tran_id : Text) (status : UploadStatus) (b : Bool)
      → is_open_verdict status.verdict ≡ b
      → ((next : UploadStatus)
          → Ensures
              (Made (suc n))
              (poll_rest api settings tran_id left next)
              (Polled (suc n + left))
              (AtMost (suc n + left)))
      → Ensures
          (Made n)
          (if b
            then check_status_once api settings tran_id >>= poll_rest api settings tran_id left
            else pure status)
          (Polled (n + suc left))
          (AtMost (n + suc left))
  unfolding Made
  round-Ensures left n tran_id status true e rest =
      bind-Ensures _ _
        (adapt (λ s p. p) (λ a s p. p) (λ x s p. omega (arith, p))
          (check_status_once-Ensures n tran_id))
        (λ next. shift n left _ (rest next))
  round-Ensures left n tran_id status false e rest =
      pure-Ensures status (λ s p. (omega (arith, p), λ q. absurd (ground arith)))

  poll_rest-Ensures :
      (left n : ℕ) (tran_id : Text) (status : UploadStatus)
      → Ensures
          (Made n)
          (poll_rest api settings tran_id left status)
          (Polled (n + left))
          (AtMost (n + left))
  unfolding poll_rest Made
  poll_rest-Ensures zero n tran_id status =
      pure-Ensures status (λ s p. (omega (arith, p), λ e. omega (arith, p)))
  poll_rest-Ensures (suc left) n tran_id status =
      round-Ensures left n tran_id status _ refl
        (λ next. poll_rest-Ensures left (suc n) tran_id next)

  -- What a run of so many attempts leaves, however it ends.
  abbrev Within : ℕ → Try Failure UploadStatus → Server → Type 0
  Within n r s =
      (calls s ≤ n)
      × ((status : UploadStatus)
          → r ≡ returned status
          → is_open_verdict status.verdict ≡ true
          → calls s ≡ n)

  within :
      (n : ℕ) (r : Try Failure UploadStatus) (s : Server)
      → Post (Polled n) (AtMost n) r s
      → Within n r s
  within n (returned a) s (h, k) =
      (h, λ status e q. k (ap (λ x. is_open_verdict (status_in x).verdict) e ∙ q))
    where
      status_in : Try Failure UploadStatus → UploadStatus
      status_in (returned x) = x
      status_in (raised x) = a
  within n (raised x) s h = (h, λ status e q. absurd (cc))

  -- Where the server counts the status calls, `poll_status` makes at most
  -- `max(1, poll_max_attempts)` of them, also if it raises; and when it returns a reading that is
  -- neither a success nor a failure, it has made exactly so many.
  pub poll_status-bounded :
      (tran_id : Text) (s : Server)
      → let attempts = max 1 settings.poll_max_attempts in
        let (r, s') = poll_status api settings tran_id s in
        (calls s' ≤ calls s + attempts)
        × ((status : UploadStatus)
            → r ≡ returned status
            → is_open_verdict status.verdict ≡ true
            → calls s' ≡ calls s + attempts)
  unfolding poll_status Made
  poll_status-bounded tran_id s =
      let rounds = max 1 settings.poll_max_attempts - 1 in
      let all_rounds : Ensures (Made (calls s)) (poll_status api settings tran_id)
          (Polled (suc (calls s) + rounds)) (AtMost (suc (calls s) + rounds)) =
        bind-Ensures _ _
          (adapt (λ v p. p) (λ a v p. p) (λ x v p. omega (arith, p))
            (check_status_once-Ensures (calls s) tran_id))
          (poll_rest-Ensures rounds (suc (calls s)) tran_id) in
      let same : suc (calls s) + rounds ≡ calls s + max 1 settings.poll_max_attempts =
        omega arith in
      subst
        (λ n.
          Within n (poll_status api settings tran_id s).0 (poll_status api settings tran_id s).1)
        same (within (suc (calls s) + rounds) _ _ (all_rounds.run s refl))
