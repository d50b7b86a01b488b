-- ===== src/Lane/Calls.antt =====
-- What a statement of app/services/upload_service.py adds to the calls made to CBOS: rules that go
-- through the statements one by one.
use edpbilling_file_upload.Base.{
  ◌≡◌, refl, sym, ◌∙◌, ap, subst, List, [], ◌∷◌, ◌++◌, In, In-append_cases, inl, inr, Bool, true,
  false, if◌then◌else◌,
}
use mathlib.Core.List.{append_assoc, append-nil}
use edpbilling_file_upload.Cbos.Reservation.{CbosError}
use edpbilling_file_upload.Lane.Client.{Failure, cbos, Reply, answer, raise}
use edpbilling_file_upload.Lane.Action.{
  Call, World, Action, pure, throw, perform, catch_cbos, settle, continue, ◌>>=◌,
}

-- The statement adds some calls to the trace, of which the predicate holds together with its reply.
pub record Yields {Server A : Type 0} (m : Action Server A) (Q : List Call → Reply A → Type 0)
    : Type 0 where
  pub run :
      (w : World Server) → (new : List Call) × ((m w).1.trace ≡ w.trace ++ new) × Q new (m w).0

-- Every call of the list satisfies the predicate.
abbrev pub Only : (Call → Type 0) → List Call → Type 0
Only C new = (c : Call) → In c new → C c

-- Every call that the statement makes satisfies the predicate, whether it raises or not.
abbrev pub Makes : {Server A : Type 0} → (Call → Type 0) → Action Server A → Type 0
Makes C m = Yields m (λ new r. Only C new)

pub Only-append :
    (C : Call → Type 0) (xs ys : List Call) → Only C xs → Only C ys → Only C (xs ++ ys)
Only-append C xs ys h k c m = elim (In-append_cases c xs ys m) [ inl l ↦ h c l | inr r ↦ k c r ]

pub Only-nil : (C : Call → Type 0) → Only C []
Only-nil C c m = elim m [ ]

module _ {Server A : Type 0} where
  -- A statement that leaves the trace alone.
  pub silent :
      {Q : List Call → Reply A → Type 0} (m : Action Server A)
      → ((w : World Server) → (m w).1.trace ≡ w.trace)
      → ((r : Reply A) → Q [] r)
      → Yields m Q
  silent m h q = record { run = λ w. ([], h w ∙ sym (append-nil w.trace), q (m w).0) }

  pub pure-Yields :
      {Q : List Call → Reply A → Type 0} (a : A)
      → Q [] (answer a)
      → Yields (pure {Server = Server} a) Q
  unfolding pure
  pure-Yields a q = record { run = λ w. ([], sym (append-nil w.trace), q) }

  pub throw-Yields :
      {Q : List Call → Reply A → Type 0} (e : Failure)
      → Q [] (raise e)
      → Yields (throw {Server = Server} e) Q
  unfolding throw
  throw-Yields e q = record { run = λ w. ([], sym (append-nil w.trace), q) }

  pub perform-Yields :
      {Q : List Call → Reply A → Type 0} (call : Call) (act : Server → Reply A × Server)
      → ((r : Reply A) → Q (call ∷ []) r)
      → Yields (perform call act) Q
  unfolding perform
  perform-Yields call act q = record { run = λ w. (call ∷ [], refl, q (act w.server).0) }

  pub weaken :
      {P Q : List Call → Reply A → Type 0} {m : Action Server A}
      → ((new : List Call) (r : Reply A) → P new r → Q new r)
      → Yields m P
      → Yields m Q
  weaken h k = record { run = λ w. let (new, e, p) = k.run w in (new, e, h new _ p) }

  pub catch-Yields :
      {P Q : List Call → Reply A → Type 0} (m : Action Server A)
      (handler : CbosError → Action Server A)
      → Yields m P
      → ((new : List Call) (r : Reply A) → P new r → Q new r)
      → ((e : CbosError) (before : List Call)
          → P before (raise (cbos e))
          → Yields (handler e) (λ new r. Q (before ++ new) r))
      → Yields (catch_cbos m handler) Q
  unfolding catch_cbos settle
  catch-Yields {P} {Q} m handler h k f = record {
    run = λ w. let (new, e, p) = h.run w in go w (m w) new e p;
  }
    where
      go :
          (w : World Server) (x : Reply A × World Server) (new : List Call)
          → x.1.trace ≡ w.trace ++ new
          → P new x.0
          → (all : List Call) × ((settle handler x.0 x.1).1.trace ≡ w.trace ++ all)
            × Q all (settle handler x.0 x.1).0
      go w (answer a, w') new e p = (new, e, k new _ p)
      go w (raise (cbos err), w') new e p =
          let (more, d, q) = (f err new p).run w' in
          (new ++ more, d ∙ ap (λ t. t ++ more) e ∙ append_assoc w.trace new more, q)
      go w (raise Failure.file_not_found, w') new e p = (new, e, k new _ p)
      go w (raise Failure.integrity_error, w') new e p = (new, e, k new _ p)
      go w (raise Failure.no_attempt, w') new e p = (new, e, k new _ p)
      go w (raise Failure.unexpected, w') new e p = (new, e, k new _ p)

module _ {Server A B : Type 0} where
  pub bind-Yields :
      {P : List Call → Reply A → Type 0} {Q : List Call → Reply B → Type 0} (m : Action Server A)
      (f : A → Action Server B)
      → Yields m P
      → ((a : A) (before : List Call)
          → P before (answer a)
          → Yields (f a) (λ new r. Q (before ++ new) r))
      → ((e : Failure) (before : List Call) → P before (raise e) → Q before (raise e))
      → Yields (m >>= f) Q
  unfolding ◌>>=◌ continue
  bind-Yields {P} {Q} m f h k q = record {
    run = λ w. let (new, e, p) = h.run w in go w (m w) new e p;
  }
    where
      go :
          (w : World Server) (x : Reply A × World Server) (new : List Call)
          → x.1.trace ≡ w.trace ++ new
          → P new x.0
          → (all : List Call) × ((continue x.0 f x.1).1.trace ≡ w.trace ++ all)
            × Q all (continue x.0 f x.1).0
      go w (answer a, w') new e p =
          let (more, d, r) = (k a new p).run w' in
          (new ++ more, d ∙ ap (λ t. t ++ more) e ∙ append_assoc w.trace new more, r)
      go w (raise err, w') new e p = (new, e, q err new p)

  -- Where only the calls matter.
  pub bind-Makes :
      {C : Call → Type 0} (m : Action Server A) (f : A → Action Server B)
      → Makes C m
      → ((a : A) → Makes C (f a))
      → Makes C (m >>= f)
  bind-Makes {C} m f h k =
      bind-Yields m f h (λ a before p. weaken (λ new r o. Only-append C before new p o) (k a))
        (λ e before p. p)

module _ {Server A : Type 0} where
  pub catch-Makes :
      {C : Call → Type 0} (m : Action Server A) (handler : CbosError → Action Server A)
      → Makes C m
      → ((e : CbosError) → Makes C (handler e))
      → Makes C (catch_cbos m handler)
  catch-Makes {C} m handler h k =
      catch-Yields m handler h (λ new r p. p)
        (λ e before p. weaken (λ new r o. Only-append C before new p o) (k e))

  pub perform-Makes :
      {C : Call → Type 0} (call : Call) (act : Server → Reply A × Server)
      → C call
      → Makes C (perform call act)
  perform-Makes {C} call act h =
      perform-Yields call act (λ r c m. elim m [ inl e ↦ subst C (sym e) h | inr n ↦ elim n [ ] ])

  pub pure-Makes : {C : Call → Type 0} (a : A) → Makes C (pure {Server = Server} a)
  pure-Makes {C} a = pure-Yields a (Only-nil C)

  pub throw-Makes : {C : Call → Type 0} (e : Failure) → Makes C (throw {Server = Server} {A = A} e)
  throw-Makes {C} e = throw-Yields e (Only-nil C)

  -- The reply is one that the statement gives in some world.
  pub with_reply :
      {Q : List Call → Reply A → Type 0} {m : Action Server A}
      → Yields m Q
      → Yields m (λ new r. Q new r × (w : World Server) × ((m w).0 ≡ r))
  with_reply k = record { run = λ w. let (new, e, q) = k.run w in (new, e, (q, w, refl)) }

  pub if-Yields :
      {Q : List Call → Reply A → Type 0} (b : Bool) (m n : Action Server A)
      → Yields m Q
      → Yields n Q
      → Yields (if b then m else n) Q
  if-Yields true m n h k = h
  if-Yields false m n h k = k

  pub if-Makes :
      {C : Call → Type 0} (b : Bool) (m n : Action Server A)
      → Makes C m
      → Makes C n
      → Makes C (if b then m else n)
  if-Makes true m n h k = h
  if-Makes false m n h k = k

  pub weaken-Makes :
      {C D : Call → Type 0} {m : Action Server A} → ((c : Call) → C c → D c) → Makes C m → Makes D m
  weaken-Makes h k = weaken (λ new r o c m. h c (o c m)) k

nothing : (new : List Call) → Only (λ _. ⊥) new → new ≡ []
nothing [] h = refl
nothing (c ∷ new) h = absurd (h c (inl refl))

-- After a statement that makes no call.
pub silent-bind :
    {Server A B : Type 0} {Q : List Call → Reply B → Type 0} (m : Action Server A)
    (f : A → Action Server B)
    → Makes (λ _. ⊥) m
    → ((a : A) → Yields (f a) Q)
    → ((e : Failure) → Q [] (raise e))
    → Yields (m >>= f) Q
silent-bind {Q} m f h k q =
    bind-Yields m f h
      (λ a before p.
        weaken (λ new r o. subst (λ b. Q (b ++ new) r) (sym (nothing before p)) o) (k a))
      (λ e before p. subst (λ b. Q b (raise e)) (sym (nothing before p)) (q e))
