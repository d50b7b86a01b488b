-- ===== src/Lane/Runs.antt =====
-- What a run of a statement of app/services/upload_service.py from one world adds to the calls made
-- to CBOS: the rules of Lane/Calls, with what the statements before it answered.
use edpbilling_file_upload.Base.{◌≡◌, refl, ◌∙◌, ap, List, ◌++◌, Bool, true, false, if◌then◌else◌}
use mathlib.Core.List.{append_assoc}
use edpbilling_file_upload.Lane.Client.{Failure, Reply, answer, raise}
use edpbilling_file_upload.Lane.Action.{Call, World, Action, perform, continue, ◌>>=◌}
use edpbilling_file_upload.Lane.Calls.{Yields}

-- The run adds some calls to the trace, of which the predicate holds.
pub record Runs {Server A : Type 0} (w : World Server) (m : Action Server A)
    (Q : List Call → Type 0) : Type 0 where
  pub new : List Call
  pub adds : (m w).1.trace ≡ w.trace ++ new
  pub holds : Q new

module _ {Server A : Type 0} where
  pub run-Runs :
      {P : List Call → Reply A → Type 0} {Q : List Call → Type 0} (w : World Server)
      (m : Action Server A)
      → Yields m P
      → ((new : List Call) → P new (m w).0 → Q new)
      → Runs w m Q
  run-Runs w m k h = let (new, e, p) = k.run w in record { new = new; adds = e; holds = h new p }

  pub if-Runs :
      {Q : List Call → Type 0} (w : World Server) (b : Bool) (m n : Action Server A)
      → Runs w m Q
      → Runs w n Q
      → Runs w (if b then m else n) Q
  if-Runs w true m n h k = h
  if-Runs w false m n h k = k

  pub weaken-Runs :
      {P Q : List Call → Type 0} {w : World Server} {m : Action Server A}
      → ((new : List Call) → P new → Q new)
      → Runs w m P
      → Runs w m Q
  weaken-Runs h k = record { new = k.new; adds = k.adds; holds = h k.new k.holds }

  -- What a call that answered has asked of the server, and the server after it.
  pub perform-answer :
      (call : Call) (act : Server → Reply A × Server) (w v : World Server) (a : A)
      → perform call act w ≡ (answer a, v)
      → ((act w.server).0 ≡ answer a) × ((act w.server).1 ≡ v.server)
  unfolding perform
  perform-answer call act w v a e = (ap (λ x. x.0) e, ap (λ x. x.1.server) e)

module _ {Server A B : Type 0} where
  pub bind-Runs :
      {P : List Call → Reply A → Type 0} {Q : List Call → Type 0} (w : World Server)
      (m : Action Server A) (f : A → Action Server B)
      → Yields m P
      → ((a : A) (w' : World Server) (before : List Call)
          → m w ≡ (answer a, w')
          → P before (answer a)
          → Runs w' (f a) (λ new. Q (before ++ new)))
      → ((e : Failure) (before : List Call) → P before (raise e) → Q before)
      → Runs w (m >>= f) Q
  unfolding ◌>>=◌ continue
  bind-Runs {P} {Q} w m f h k q =
      let (new, e, p) = h.run w in
      let (all, d, o) = go (m w) new refl e p in record { new = all; adds = d; holds = o }
    where
      go :
          (x : Reply A × World Server) (new : List Call)
          → m w ≡ x
          → x.1.trace ≡ w.trace ++ new
          → P new x.0
          → (all : List Call) × ((continue x.0 f x.1).1.trace ≡ w.trace ++ all) × Q all
      go (answer a, w') new s e p =
          let r = k a w' new s p in
          (new ++ r.new, r.adds ∙ ap (λ t. t ++ r.new) e ∙ append_assoc w.trace new r.new, r.holds)
      go (raise err, w') new s e p = (new, e, q err new p)
