-- ===== src/Base/Program.antt =====
-- Statements that change a state and may raise; what was written before a raise stays written.
-- With them, rules for what a statement leaves behind, one for each form of statement.
use mathlib.Core.Bool.{Bool, true, false}
use mathlib.Core.List.{List, [], ◌∷◌}
use mathlib.Core.Path.{◌≡◌, subst}
use edpbilling_file_upload.Base.Tests.{if◌then◌else◌}

pub data Try (E A : Type 0) : Type 0 where
  returned : A → Try E A
  raised : E → Try E A

abbrev pub Program : Type 0 → Type 0 → Type 0 → Type 0
Program S E A = S → Try E A × S

module _ {S E A : Type 0} where
  unfoldable pub pure : A → Program S E A
  pure a s = (returned a, s)

  unfoldable pub throw : E → Program S E A
  throw e s = (raised e, s)

  unfoldable pub gets : (S → A) → Program S E A
  gets f s = (returned (f s), s)

  -- The result that is already known.
  unfoldable pub of_try : Try E A → Program S E A
  of_try r s = (r, s)

  unfoldable pub settle : (E → Program S E A) → Try E A → Program S E A
  settle handler (returned a) s = (returned a, s)
  settle handler (raised e) s = handler e s

  -- `try: … except … as e: …`; the handler raises again what it does not name.
  unfoldable pub catch : Program S E A → (E → Program S E A) → Program S E A
  unfolding settle
  catch m handler s = let (r, s') = m s in settle handler r s'

module _ {S E : Type 0} where
  unfoldable pub modify : (S → S) → Program S E (Unit {0})
  modify f s = (returned tt, f s)

module _ {S E A B : Type 0} where
  unfoldable pub continue : Try E A → (A → Program S E B) → Program S E B
  continue (returned a) f s = f a s
  continue (raised e) f s = (raised e, s)

  infixl 5 ◌>>=◌ ◌>>◌
  unfoldable pub ◌>>=◌ : Program S E A → (A → Program S E B) → Program S E B
  unfolding continue
  ◌>>=◌ m f s = let (r, s') = m s in continue r f s'

  abbrev pub ◌>>◌ : Program S E A → Program S E B → Program S E B
  m >> n = m >>= λ _. n

-- `[f(x) for x in xs]`
unfoldable pub for_each : {S E A B : Type 0} → (A → Program S E B) → List A → Program S E (List B)
unfolding pure ◌>>=◌
for_each f [] = pure []
for_each f (x ∷ xs) = f x >>= λ y. for_each f xs >>= λ ys. pure (y ∷ ys)

-- What holds after a statement that returned, or that raised.
abbrev pub Post : {S E A : Type 0} → (A → S → Type 0) → (E → S → Type 0) → Try E A → S → Type 0
Post Q X (returned a) s = Q a s
Post Q X (raised e) s = X e s

-- From a state with P, the statement returns with Q or raises with X.
pub record Ensures {S E A : Type 0} (P : S → Type 0) (m : Program S E A) (Q : A → S → Type 0)
    (X : E → S → Type 0) : Type 0 where
  pub run : (s : S) → P s → Post Q X (m s).0 (m s).1

module _ {S E A : Type 0} {P : S → Type 0} {Q : A → S → Type 0} {X : E → S → Type 0} where
  pub pure-Ensures : (a : A) → ((s : S) → P s → Q a s) → Ensures P (pure {E = E} a) Q X
  unfolding pure
  pure-Ensures a h = record { run = h }

  pub throw-Ensures : (e : E) → ((s : S) → P s → X e s) → Ensures P (throw {A = A} e) Q X
  unfolding throw
  throw-Ensures e h = record { run = h }

  pub gets-Ensures : (f : S → A) → ((s : S) → P s → Q (f s) s) → Ensures P (gets {E = E} f) Q X
  unfolding gets
  gets-Ensures f h = record { run = h }

  pub of_try-Ensures : (r : Try E A) → ((s : S) → P s → Post Q X r s) → Ensures P (of_try r) Q X
  unfolding of_try
  of_try-Ensures r h = record { run = h }

  pub if-Ensures :
      (b : Bool) (m n : Program S E A)
      → Ensures P m Q X
      → Ensures P n Q X
      → Ensures P (if b then m else n) Q X
  if-Ensures true m n h k = h
  if-Ensures false m n h k = k

  pub catch-Ensures :
      {Y : E → S → Type 0} (m : Program S E A) (handler : E → Program S E A)
      → Ensures P m Q Y
      → ((e : E) → Ensures (Y e) (handler e) Q X)
      → Ensures P (catch m handler) Q X
  unfolding catch settle
  catch-Ensures {Y} m handler h k = record { run = λ s p. go (m s) (h.run s p) }
    where
      go :
          (x : Try E A × S)
          → Post Q Y x.0 x.1
          → Post Q X (settle handler x.0 x.1).0 (settle handler x.0 x.1).1
      go (returned a, s) q = q
      go (raised e, s) y = (k e).run s y

  -- A weaker claim, from a stronger start.
  pub adapt :
      {P' : S → Type 0} {Q' : A → S → Type 0} {Y : E → S → Type 0} {m : Program S E A}
      → ((s : S) → P s → P' s)
      → ((a : A) (s : S) → Q' a s → Q a s)
      → ((e : E) (s : S) → Y e s → X e s)
      → Ensures P' m Q' Y
      → Ensures P m Q X
  adapt {Q'} {Y} {m} f g h k = record { run = λ s p. go (m s) (k.run s (f s p)) }
    where
      go : (x : Try E A × S) → Post Q' Y x.0 x.1 → Post Q X x.0 x.1
      go (returned a, s) q = g a s q
      go (raised e, s) y = h e s y

module _ {S E : Type 0} where
  pub modify-Ensures :
      {P : S → Type 0} {Q : Unit {0} → S → Type 0} {X : E → S → Type 0} (f : S → S)
      → ((s : S) → P s → Q tt (f s))
      → Ensures P (modify f) Q X
  unfolding modify
  modify-Ensures f h = record { run = h }

-- Nothing is said.
abbrev pub NoClaim : {E S : Type 0} → E → S → Type 0
NoClaim _ _ = Unit {0}

pub anything : {S E A : Type 0} {P : S → Type 0} (m : Program S E A) → Ensures P m NoClaim NoClaim
anything {S} {E} {A} m = record { run = λ s p. go (m s) }
  where
    go : (x : Try E A × S) → Post NoClaim NoClaim x.0 x.1
    go (returned a, s) = tt
    go (raised e, s) = tt

-- A fact that is known beforehand still holds afterwards.
pub frame :
    {S E A : Type 0} {Q : A → S → Type 0} (F : Type 0) {m : Program S E A}
    → Ensures (λ _. Unit {0}) m Q NoClaim
    → Ensures (λ _. F) m (λ a s. F × Q a s) NoClaim
frame {S} {E} {A} {Q} F {m} h = record { run = λ s f. go f (m s) (h.run s tt) }
  where
    go : F → (x : Try E A × S) → Post Q NoClaim x.0 x.1 → Post (λ a s. F × Q a s) NoClaim x.0 x.1
    go f (returned a, s) q = (f, q)
    go f (raised e, s) q = tt

-- What holds of the result that was returned.
pub on_return :
    {S E A : Type 0} (Q : A → S → Type 0) (X : E → S → Type 0) {r : Try E A} (s : S) {a : A}
    → Post Q X r s
    → r ≡ returned a
    → Q a s
on_return Q X s p e = subst (λ r. Post Q X r s) e p

module _ {S E A B : Type 0} {P : S → Type 0} {R : A → S → Type 0} {Q : B → S → Type 0}
    {X : E → S → Type 0} where
  pub bind-Ensures :
      (m : Program S E A) (f : A → Program S E B)
      → Ensures P m R X
      → ((a : A) → Ensures (R a) (f a) Q X)
      → Ensures P (m >>= f) Q X
  unfolding ◌>>=◌ continue
  bind-Ensures m f h k = record { run = λ s p. go (m s) (h.run s p) }
    where
      go :
          (x : Try E A × S)
          → Post R X x.0 x.1
          → Post Q X (continue x.0 f x.1).0 (continue x.0 f x.1).1
      go (returned a, s) r = (k a).run s r
      go (raised e, s) y = y

-- A statement for each element keeps what each of them keeps.
pub for_each-Ensures :
    {S E A B : Type 0} {I : S → Type 0} {X : E → S → Type 0} (f : A → Program S E B)
    → ((a : A) → Ensures I (f a) (λ _. I) X)
    → (xs : List A) → Ensures I (for_each f xs) (λ _. I) X
unfolding for_each
for_each-Ensures f h [] = pure-Ensures [] (λ s i. i)
for_each-Ensures f h (x ∷ xs) = bind-Ensures (f x) _ (h x) (λ y.
    bind-Ensures (for_each f xs) _ (for_each-Ensures f h xs)
      (λ ys. pure-Ensures (y ∷ ys) (λ s i. i)))
