-- ===== src/Prelude/Steps.antt =====
-- Calls of the world, with a list of those that have returned, newest first.
use mathlib.Core.List.{List, ◌∷◌}
use pair_dock.Prelude.Outcomes.{Result, ok, err}

pub record Host (W Step : Type 0) : Type 0 where
  pub world : W
  pub steps : List Step

module _ {W Step E X : Type 0} (thrown : E → X) where
  -- A call, with the step that it has done where it returns.
  abbrev pub noting :
      {A : Type 0} → (A → Step) → List Step → W × Result E A → Host W Step × Result X A
  noting step steps (world, ok a) = (record { world = world; steps = step a ∷ steps }, ok a)
  noting step steps (world, err e) = (record { world = world; steps = steps }, err (thrown e))

  -- A clean-up in a `catch` block, with its step where it returns and where it throws, which tells
  -- what has been removed. Where it returns, the error `e` is thrown again.
  abbrev pub removing :
      {A R : Type 0}
      → (R → Step)
      → (R → Step)
      → X
      → List Step
      → R × W × Result E (Unit {0})
      → Host W Step × Result X A
  removing done failed e steps (r, world, ok _) =
      (record { world = world; steps = done r ∷ steps }, err e)
  removing done failed e steps (r, world, err failure) =
      (record { world = world; steps = failed r ∷ steps }, err (thrown failure))
