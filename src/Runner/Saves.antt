-- ===== src/Runner/Saves.antt =====
-- What a change of the registry leaves: it stands once it is saved, and is undone otherwise.
use pair_dock.Prelude.{
  String, true, false, Option, none, some, ◌==◌, ◌≡◌, refl, inl, inr, Result, ok, err, is_ok,
  is_some, ◌<>◌, Option-cases, if◌then◌else◌, eq_iff, arith,
}
use pair_dock.Prelude.Dict.{get-set, get-delete}
use pair_dock.Prelude.Actions.{After}
use pair_dock.Workspaces.Sandbox.{SessionWorkspace}
use pair_dock.Workspaces.{
  SessionRegistry, find_persisted, list_persisted, begin_register, begin_update, begin_unregister,
  update_known, drop, undo,
}
use pair_dock.Workspaces.Invariant.{undo-Agrees, undo-Keyed, undo-Distinct}
use pair_dock.Workspaces.Begin.{
  IsSound, HasBegun, begin_register-HasBegun, update_known-HasBegun, drop-HasBegun,
}
use pair_dock.Runner.Ports.{Failure, thrown, RunnerPorts}
use pair_dock.Runner.{Host, Held, saved, save_begun, register, update, unregister}
use pair_dock.Runner.Accounts.{SaveWorks}

-- A session's persisted workspace is `now`, and nothing else has changed.
pub record Stored {W : Type 0} (id : String) (now : Option SessionWorkspace) (before after : Host W)
    : Type 0 where
  pub sound : IsSound after.registry
  pub persisted :
      (i : String)
      → find_persisted i after.registry
        ≡ (if id == i then now else find_persisted i before.registry)
  pub sandboxes : after.sandboxes ≡ before.sandboxes
  pub tunnels : after.tunnels ≡ before.tunnels

-- No persisted workspace has changed, since the store does not work.
pub record Undone {W : Type 0} (Works : Type 0) (before after : Host W) : Type 0 where
  pub sound : IsSound after.registry
  pub persisted : (i : String) → find_persisted i after.registry ≡ find_persisted i before.registry
  pub sandboxes : after.sandboxes ≡ before.sandboxes
  pub tunnels : after.tunnels ≡ before.tunnels
  pub broken : ¬ Works

undo-IsSound : (r : SessionRegistry) (held : Held) → HasBegun r held → IsSound (undo held.1 held.0)
undo-IsSound r (after, u) b = record {
  agrees = undo-Agrees u after b.sound.agrees b.fits;
  keyed = undo-Keyed u after b.sound.keyed b.fits;
  distinct = undo-Distinct u after b.sound.distinct;
}

module _ {W : Type 0} (Works : Type 0) (host : Host W) where
  saved-After :
      (id : String) (now : Option SessionWorkspace) (held : Held)
      (answer : W × Result Failure (Unit {0}))
      → HasBegun host.registry held
      → ((i : String)
          → find_persisted i held.0 ≡ (if id == i then now else find_persisted i host.registry))
      → (Works → is_ok answer.1 ≡ true)
      → After
          (λ _ after. Stored id now host after)
          (λ _ after. Undone Works host after)
          (saved held host answer)
  saved-After id now held (w, ok _) begun changes works = record {
    sound = begun.sound;
    persisted = changes;
    sandboxes = refl;
    tunnels = refl;
  }
  saved-After id now held (w, err e) begun changes works = record {
    sound = undo-IsSound host.registry held begun;
    persisted = begun.undoes;
    sandboxes = refl;
    tunnels = refl;
    broken = λ h. cc (works h);
  }

module _ (P : RunnerPorts) (host : Host P.World) (sound : IsSound host.registry) where
  pub register-After :
      (w : SessionWorkspace)
      → After
          (λ _ after. Stored w.session_id (some w) host after)
          (λ _ after. Undone (SaveWorks P) host after)
          (register P w host)
  unfolding register begin_register
  register-After w =
      saved-After (SaveWorks P) host w.session_id (some w) (begin_register w host.registry)
        (P.save (list_persisted (begin_register w host.registry).0) host.world)
        (begin_register-HasBegun host.registry sound w)
        (λ i. get-set w.session_id i w host.registry.persisted_workspaces)
        (λ works. works _ host.world)

  -- A search of the map decides what the two operations do.
  known_update :
      (w p : SessionWorkspace)
      → find_persisted w.session_id host.registry ≡ some p
      → update P w host ≡ save_begun P (update_known w p host.registry) host
  unfolding update begin_update
  known_update w p found = ground (arith, found)

  unknown_update :
      (w : SessionWorkspace)
      → find_persisted w.session_id host.registry ≡ none
      → update P w host ≡ (
        host,
        err (thrown ("Session " <> w.session_id <> " is not persisted on this agent.") false),
      )
  unfolding update begin_update
  unknown_update w missing = ground (arith, missing)

  known_unregister :
      (id : String) (w : SessionWorkspace)
      → find_persisted id host.registry ≡ some w
      → unregister P id host ≡ save_begun P (drop id w host.registry) host
  unfolding unregister begin_unregister
  known_unregister id w found = ground (arith, found)

  unknown_unregister :
      (id : String) → find_persisted id host.registry ≡ none → unregister P id host ≡ (host, ok tt)
  unfolding unregister begin_unregister
  unknown_unregister id missing = ground (arith, missing)

  -- A session that is not persisted cannot be updated.
  pub update-After :
      (w : SessionWorkspace)
      → (SaveWorks P → is_some (find_persisted w.session_id host.registry) ≡ true)
      → After
          (λ _ after. Stored w.session_id (some w) host after)
          (λ _ after. Undone (SaveWorks P) host after)
          (update P w host)
  update-After w known = elim (Option-cases (find_persisted w.session_id host.registry)) [
    | inl missing ↦ rw (unknown_update w missing) (record {
      sound = sound;
      persisted = λ i. refl;
      sandboxes = refl;
      tunnels = refl;
      broken = λ works. cc (missing, known works);
    })
    | inr (p, found) ↦ rw (known_update w p found) (
        saved-After (SaveWorks P) host w.session_id (some w) (update_known w p host.registry)
          (P.save (list_persisted (update_known w p host.registry).0) host.world)
          (update_known-HasBegun host.registry sound w p found)
          (λ i. get-set w.session_id i w host.registry.persisted_workspaces)
          (λ works. works _ host.world))
  ]

  pub unregister-After :
      (id : String)
      → After
          (λ _ after. Stored id none host after)
          (λ _ after. Undone (SaveWorks P) host after)
          (unregister P id host)
  unregister-After id = elim (Option-cases (find_persisted id host.registry)) [
    | inl missing ↦ rw (unknown_unregister id missing) (record {
      sound = sound;
      persisted = λ i. ground (arith, eq_iff id i, missing);
      sandboxes = refl;
      tunnels = refl;
    })
    | inr (w, found) ↦ rw (known_unregister id w found) (
        saved-After (SaveWorks P) host id none (drop id w host.registry)
          (P.save (list_persisted (drop id w host.registry).0) host.world)
          (drop-HasBegun host.registry sound id w found)
          (λ i. get-delete id i host.registry.persisted_workspaces) (λ works. works _ host.world))
  ]
