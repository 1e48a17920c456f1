-- ===== src/Runner/Owned.antt =====
-- The account while an operation on one session runs: the session's workspace is in a variable, and
-- what runs for the session is what the variable refers to.
use pair_dock.Prelude.{
  String, true, false, Option, some, ◌==◌, ◌≡◌, sym, ap, subst, ◌∙◌, Result, ok, err, is_some,
  eq_refl, arith,
}
use pair_dock.Prelude.Actions.{After, After-map}
use pair_dock.Workspaces.Sandbox.{SessionWorkspace}
use pair_dock.Workspaces.{SessionRegistry, find_persisted}
use pair_dock.Workspaces.Begin.{IsSound}
use pair_dock.Runner.Ports.{Failure, RunnerPorts}
use pair_dock.Runner.{Host, ask, settle, update, register}
use pair_dock.Runner.Accounts.{
  AccountedBy, AccountedBy-same, overlay, SaveWorks, sandbox_id, tunnel_id,
}
use pair_dock.Runner.Saves.{Stored, Undone, register-After, update-After}

module _ (P : RunnerPorts) (id : String) (before : SessionRegistry) where
  pub record Owns (w : SessionWorkspace) (host : Host P.World) : Type 0 where
    pub sound : IsSound host.registry
    pub session : w.session_id ≡ id
    pub accounted : AccountedBy (overlay id w host.registry) host
    pub others :
        (i : String) → (id == i) ≡ false → find_persisted i host.registry ≡ find_persisted i before

  -- The variable is persisted too, where the store works.
  pub record Holds (w : SessionWorkspace) (host : Host P.World) : Type 0 where
    pub owns : Owns w host
    pub recorded : SaveWorks P → find_persisted id host.registry ≡ some w

  abbrev pub Both : SessionWorkspace → {A : Type 0} → Host P.World × Result Failure A → Type 0
  Both w = After (λ _ host. Holds w host) (λ _ host. Holds w host)

  module _ (w : SessionWorkspace) (host after : Host P.World) (o : Owns w host) where
    pub Stored-Owns : (now : Option SessionWorkspace) → Stored id now host after → Owns w after
    Stored-Owns now s = record {
      sound = s.sound;
      session = o.session;
      accounted =
          AccountedBy-same (overlay id w host.registry) (overlay id w after.registry) host after
            (λ i. ap sandbox_id (ground (arith, s.persisted i)))
            (λ i. ap tunnel_id (ground (arith, s.persisted i))) s.sandboxes s.tunnels o.accounted;
      others = λ i other. s.persisted i ∙ rw other (o.others i other);
    }

    pub Undone-Holds : Undone (SaveWorks P) host after → Holds w after
    Undone-Holds u = record {
      owns = record {
        sound = u.sound;
        session = o.session;
        accounted =
            AccountedBy-same (overlay id w host.registry) (overlay id w after.registry) host after
              (λ i. ap sandbox_id (ground (arith, u.persisted i)))
              (λ i. ap tunnel_id (ground (arith, u.persisted i))) u.sandboxes u.tunnels o.accounted;
        others = λ i other. u.persisted i ∙ o.others i other;
      };
      recorded = λ works. absurd (u.broken works);
    }

    pub Stored-Holds : Stored id (some w) host after → Holds w after
    Stored-Holds s = record {
      owns = Stored-Owns (some w) s;
      recorded = λ works. s.persisted id ∙ ground (arith, eq_refl id);
    }

  -- The calls of an operation, from a state in which the account is in order.
  module _ (w : SessionWorkspace) (host : Host P.World) where
    pub register-Holds : Owns w host → Both w (register P w host)
    register-Holds o =
        After-map (register P w host)
          (λ _ after s.
            Stored-Holds w host after o (subst (λ i. Stored i (some w) host after) o.session s))
          (λ _ after u. Undone-Holds w host after o u) (register-After P host o.sound w)

    pub update-Holds :
        Owns w host
        → (SaveWorks P → is_some (find_persisted id host.registry) ≡ true)
        → Both w (update P w host)
    update-Holds o known =
        After-map (update P w host)
          (λ _ after s.
            Stored-Holds w host after o (subst (λ i. Stored i (some w) host after) o.session s))
          (λ _ after u. Undone-Holds w host after o u)
          (update-After P host o.sound w (
            subst (λ i. SaveWorks P → is_some (find_persisted i host.registry) ≡ true)
              (sym o.session) known))

    module _ (h : Holds w host) where
      -- The world has moved on, and nothing else.
      pub moved : (world : P.World) → Holds w (record host { world = world })
      moved world = record {
        owns = record {
          sound = h.owns.sound;
          session = h.owns.session;
          others = h.owns.others;
          accounted = record {
            sandboxes = h.owns.accounted.sandboxes;
            tunnels = h.owns.accounted.tunnels;
          };
        };
        recorded = h.recorded;
      }

      settle-Both :
          {A : Type 0} (answer : P.World × Result Failure A)
          → Both w (settle host (λ _ after. after) answer)
      settle-Both (world, ok a) = moved world
      settle-Both (world, err e) = moved world

      pub ask-Holds :
          {A : Type 0} (call : P.World → P.World × Result Failure A) → Both w (ask P call host)
      ask-Holds call = settle-Both (call host.world)

      pub is_known : SaveWorks P → is_some (find_persisted id host.registry) ≡ true
      is_known works = ap is_some (h.recorded works)
