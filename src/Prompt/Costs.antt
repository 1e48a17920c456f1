-- ===== src/Prompt/Costs.antt =====
-- What the effects of a call weigh, by a weight on effects.
use pair_dock.Prelude.{
  ℕ, ◌+◌, ◌≤◌, Bool, true, false, List, [], ◌∷◌, ◌++◌, ◌≡◌, Result, ok, err, if◌then◌else◌, arith,
}
use pair_dock.Prompt.Effects.{
  Failure, Effect, State, M, continue, ◌>>=◌, answered, call, note, begun,
}

unfoldable pub tally : (Effect → ℕ) → List Effect → ℕ
tally weight [] = 0
tally weight (e ∷ effects) = weight e + tally weight effects

pub tally-append :
    (weight : Effect → ℕ) (xs ys : List Effect)
    → tally weight (xs ++ ys) ≡ tally weight xs + tally weight ys
unfolding tally
tally-append weight [] ys = omega arith
tally-append weight (x ∷ xs) ys = omega (arith, tally-append weight xs ys)

module _ (weight : Effect → ℕ) where
  -- A call whose effects weigh at most `k`.
  abbrev pub Adds : {A W : Type 0} → ℕ → M W A → Type 0
  Adds {W} k m = (st : State W) → tally weight (m st).0.effects ≤ tally weight st.effects + k

  module _ {W A : Type 0} where
    continue-Adds :
        {B : Type 0} (k n : ℕ) (p : State W × Result Failure A) (next : A → M W B)
        → tally weight p.0.effects ≤ n
        → ((a : A) → Adds k (next a))
        → tally weight (continue p next).0.effects ≤ n + k
    continue-Adds k n (st, ok a) next h more = omega (arith, more a st)
    continue-Adds k n (st, err e) next h more = omega arith

    pub then-Adds :
        {B : Type 0} (j k : ℕ) (m : M W A) (next : A → M W B)
        → Adds j m
        → ((a : A) → Adds k (next a))
        → Adds (j + k) (m >>= next)
    then-Adds j k m next first more st =
        omega (arith, continue-Adds k (tally weight st.effects + j) (m st) next (first st) more)

    pub if-Adds :
        (k : ℕ) (b : Bool) (m n : M W A) → Adds k m → Adds k n → Adds k (if b then m else n)
    if-Adds k true m n hm hn = hm
    if-Adds k false m n hm hn = hn

    answered-Adds :
        (k : ℕ) (st : State W) (seen : List Effect) (p : W × Result Failure A)
        → tally weight seen ≤ k
        → tally weight (answered st (λ _. seen) p).0.effects ≤ tally weight st.effects + k
    answered-Adds k st seen (w, ok a) h = omega (arith, tally-append weight st.effects seen)
    answered-Adds k st seen (w, err e) h = omega arith

    pub call-Adds :
        (k : ℕ) (seen : List Effect) (ask : W → W × Result Failure A)
        → tally weight seen ≤ k
        → Adds k (call (λ _. seen) ask)
    call-Adds k seen ask h st = answered-Adds k st seen (ask st.world) h

  -- A call whose effect counts from its start.
  pub begun-Adds :
      {W A : Type 0} (k : ℕ) (e : Effect) (ask : W → W × Result Failure A)
      → weight e ≤ k
      → Adds k (begun e ask)
  unfolding tally
  begun-Adds k e ask h st = omega (
    arith,
    tally-append weight st.effects (e ∷ []),
    answered-Adds 0 (note e st) [] (ask st.world) (omega arith),
  )

  pub weaken : {W A : Type 0} (j k : ℕ) (m : M W A) → j ≤ k → Adds j m → Adds k m
  weaken j k m h a st = omega (arith, a st)
