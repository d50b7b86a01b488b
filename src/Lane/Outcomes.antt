-- ===== src/Lane/Outcomes.antt =====
-- What a statement of app/services/upload_service.py leaves in the batches table when it returns.
use edpbilling_file_upload.Base.{Bool, true, false, List, if◌then◌else◌}
use edpbilling_file_upload.Cbos.Reservation.{CbosError}
use edpbilling_file_upload.Batches.{Batch}
use edpbilling_file_upload.Lane.Client.{Failure, cbos, Reply, answer, raise}
use edpbilling_file_upload.Lane.Action.{
  World, Action, pure, throw, catch_cbos, settle, continue, ◌>>=◌,
}

-- The postcondition, where the statement returns.
abbrev pub OnAnswer : {A : Type 0} → (A → List Batch → Type 0) → Reply A → List Batch → Type 0
OnAnswer Q (answer a) bs = Q a bs
OnAnswer Q (raise _) bs = Unit {0}

-- From a table with P, the statement raises or returns with Q.
pub record Ensures {Server A : Type 0} (P : List Batch → Type 0) (m : Action Server A)
    (Q : A → List Batch → Type 0) : Type 0 where
  pub run : (w : World Server) → P w.batches → OnAnswer Q (m w).0 (m w).1.batches

module _ {Server A : Type 0} where
  pub any_state :
      {P : List Batch → Type 0} {m : Action Server A} {Q : A → List Batch → Type 0}
      → Ensures (λ _. Unit {0}) m Q
      → Ensures P m Q
  any_state h = record { run = λ w p. h.run w tt }

  -- Nothing is said of what it leaves.
  pub anything : {P : List Batch → Type 0} (m : Action Server A) → Ensures P m (λ _ _. Unit {0})
  anything m = record { run = λ w p. go (m w).0 (m w).1.batches }
    where
      go : (r : Reply A) (bs : List Batch) → OnAnswer (λ _ _. Unit {0}) r bs
      go (answer a) bs = tt
      go (raise e) bs = tt

  pub pure-Ensures :
      {P : List Batch → Type 0} {Q : A → List Batch → Type 0} (a : A)
      → ((bs : List Batch) → P bs → Q a bs)
      → Ensures P (pure {Server = Server} a) Q
  unfolding pure
  pure-Ensures a h = record { run = λ w p. h w.batches p }

  pub throw-Ensures :
      {P : List Batch → Type 0} {Q : A → List Batch → Type 0} (e : Failure)
      → Ensures P (throw {Server = Server} e) Q
  unfolding throw
  throw-Ensures e = record { run = λ w p. tt }

  pub if-Ensures :
      {P : List Batch → Type 0} {Q : A → List Batch → Type 0} (b : Bool) (m n : Action Server A)
      → Ensures P m Q
      → Ensures P n Q
      → Ensures P (if b then m else n) Q
  if-Ensures true m n h k = h
  if-Ensures false m n h k = k

  pub catch-Ensures :
      {P : List Batch → Type 0} {Q : A → List Batch → Type 0} (m : Action Server A)
      (handler : CbosError → Action Server A)
      → Ensures P m Q
      → ((e : CbosError) → Ensures (λ _. Unit {0}) (handler e) Q)
      → Ensures P (catch_cbos m handler) Q
  unfolding catch_cbos settle
  catch-Ensures {Q} m handler h k = record { run = λ w p. go (m w) (h.run w p) }
    where
      go :
          (x : Reply A × World Server)
          → OnAnswer Q x.0 x.1.batches
          → OnAnswer Q (settle handler x.0 x.1).0 (settle handler x.0 x.1).1.batches
      go (answer a, w) q = q
      go (raise (cbos e), w) q = (k e).run w tt
      go (raise Failure.file_not_found, w) q = tt
      go (raise Failure.integrity_error, w) q = tt
      go (raise Failure.no_attempt, w) q = tt
      go (raise Failure.unexpected, w) q = tt

pub bind-Ensures :
    {Server A B : Type 0} {P : List Batch → Type 0} {R : A → List Batch → Type 0}
    {Q : B → List Batch → Type 0} (m : Action Server A) (f : A → Action Server B)
    → Ensures P m R
    → ((a : A) → Ensures (R a) (f a) Q)
    → Ensures P (m >>= f) Q
unfolding ◌>>=◌ continue
bind-Ensures {Server} {A} {R} {Q} m f h k = record { run = λ w p. go (m w) (h.run w p) }
  where
    go :
        (x : Reply A × World Server)
        → OnAnswer R x.0 x.1.batches
        → OnAnswer Q (continue x.0 f x.1).0 (continue x.0 f x.1).1.batches
    go (answer a, w) r = (k a).run w r
    go (raise e, w) r = tt

-- After anything.
pub then-Ensures :
    {Server A B : Type 0} {P : List Batch → Type 0} {Q : B → List Batch → Type 0}
    (m : Action Server A) (f : A → Action Server B)
    → ((a : A) → Ensures (λ _. Unit {0}) (f a) Q)
    → Ensures P (m >>= f) Q
then-Ensures m f k = bind-Ensures m f (anything m) (λ a. any_state (k a))
