-- ===== src/Prelude/Actions.antt =====
-- Calls that change a state and return or throw. What was written before a throw stays written.
use pair_dock.Prelude.Outcomes.{Result, ok, err}

abbrev pub Action : Type 0 → Type 0 → Type 0 → Type 0
Action S E A = S → S × Result E A

module _ {S E : Type 0} where
  abbrev pub continue {ℓ} :
      {A : Type ℓ} {B : Type 0} → S × Result E A → (A → Action S E B) → S × Result E B
  continue (s, ok a) next = next a s
  continue (s, err e) next = (s, err e)

  infixl 5 ◌>>=◌ ◌>>◌
  abbrev pub ◌>>=◌ : {A B : Type 0} → Action S E A → (A → Action S E B) → Action S E B
  ◌>>=◌ call next s = continue (call s) next

  abbrev pub ◌>>◌ : {B : Type 0} → Action S E (Unit {0}) → Action S E B → Action S E B
  ◌>>◌ call next s = continue (call s) (λ _. next)

  abbrev pub return : {A : Type 0} → A → Action S E A
  return a s = (s, ok a)

  abbrev pub throw : {A : Type 0} → E → Action S E A
  throw e s = (s, err e)

  -- `try { … } catch (error) { … }`.
  abbrev pub rescue : {F A : Type 0} → S × Result E A → (E → Action S F A) → S × Result F A
  rescue (s, ok a) handler = (s, ok a)
  rescue (s, err e) handler = handler e s

  abbrev pub catch : {F A : Type 0} → Action S E A → (E → Action S F A) → Action S F A
  catch call handler s = rescue (call s) handler

module _ {S E : Type 0} where
  -- What holds of the state and the value that a call leaves, or of the state that it throws in.
  abbrev pub After : {A : Type 0} → (A → S → Type 0) → (E → S → Type 0) → S × Result E A → Type 0
  After Q X (s, ok a) = Q a s
  After Q X (s, err e) = X e s

module _ {S E A : Type 0} where
  pub After-map :
      {Q R : A → S → Type 0} {X Y : E → S → Type 0} (p : S × Result E A)
      → ((a : A) (s : S) → Q a s → R a s)
      → ((e : E) (s : S) → X e s → Y e s)
      → After Q X p
      → After R Y p
  After-map (s, ok a) f g h = f a s h
  After-map (s, err e) f g h = g e s h

  -- Two calls in a row.
  pub continue-After :
      {B : Type 0} (Q : A → S → Type 0) (R : B → S → Type 0) (X : E → S → Type 0)
      (p : S × Result E A) (next : A → Action S E B)
      → After Q X p
      → ((a : A) (s : S) → Q a s → After R X (next a s))
      → After R X (continue p next)
  continue-After Q R X (s, ok a) next h then_after = then_after a s h
  continue-After Q R X (s, err e) next h then_after = h
