-- ===== src/Runner/Closed.antt =====
-- A close that returns leaves nothing of its session; one that throws keeps the account where the
-- store works.
use pair_dock.Prelude.{
  String, false, Option, none, some, List, ◌==◌, ◌≡◌, ◌≢◌, refl, sym, ap, subst, ◌∙◌, inl, inr,
  Result, ok, Bool-cases, Option-cases, eq_iff, eq_refl, arith, All, All-map, ==-false_of_ne,
}
use pair_dock.Prelude.Actions.{After, After-map}
use pair_dock.Workspaces.Sandbox.{SessionWorkspace}
use pair_dock.Workspaces.{SessionRegistry, find_persisted}
use pair_dock.Workspaces.Begin.{IsSound}
use pair_dock.Runner.Ports.{Failure, CloseMode, RunnerPorts}
use pair_dock.Runner.{Host, Running, unregister}
use pair_dock.Runner.Cleanup.{Cleanup, cleanup_workspace, is_empty, unregister_clean, close}
use pair_dock.Runner.Accounts.{
  AccountedBy-same, Accounted, Covered, overlay, SaveWorks, sandbox_id, tunnel_id,
}
use pair_dock.Runner.Saves.{Stored, Undone, unregister-After}
use pair_dock.Runner.Owned.{Owns, Holds}
use pair_dock.Runner.Closing.{Progress, RefersToNothing, cleanup_workspace-Progress}

-- The registry is well formed, and no other session's workspace has changed.
pub record IsKept (P : RunnerPorts) (id : String) (before : SessionRegistry) (host : Host P.World)
    : Type 0 where
  pub sound : IsSound host.registry
  pub accounted : SaveWorks P → Accounted host
  pub others :
      (i : String) → (id == i) ≡ false → find_persisted i host.registry ≡ find_persisted i before

-- Nothing of the session is left.
pub record IsGone (P : RunnerPorts) (id : String) (before : SessionRegistry) (host : Host P.World)
    : Type 0 where
  pub sound : IsSound host.registry
  pub accounted : Accounted host
  pub others :
      (i : String) → (id == i) ≡ false → find_persisted i host.registry ≡ find_persisted i before
  pub forgotten : find_persisted id host.registry ≡ none

-- The end of a close.
abbrev pub Closes :
    (P : RunnerPorts) → String → SessionRegistry → Host P.World × Result Failure (Unit {0}) → Type 0
Closes P id before =
    After (λ _ after. IsGone P id before after) (λ _ after. IsKept P id before after)

not_owner :
    (id : String) (refs : String → Option String) (running : List Running)
    → refs id ≡ none
    → Covered refs running
    → All (λ r. r.owner ≢ id) running
not_owner id refs running free =
    All-map _ _
      (λ r c own. let e : refs id ≡ some r.ref_id = ap refs (sym own) ∙ c in absurd (cc (free, e)))
      running

module _ (P : RunnerPorts) (id : String) (before : SessionRegistry) where
  -- Nothing runs for a session that is not persisted.
  pub IsGone-sandboxes :
      (host : Host P.World) → IsGone P id before host → All (λ r. r.owner ≢ id) host.sandboxes
  IsGone-sandboxes host g =
      not_owner id (λ i. sandbox_id (find_persisted i host.registry)) host.sandboxes
        (ap sandbox_id g.forgotten) g.accounted.sandboxes

  pub IsGone-tunnels :
      (host : Host P.World) → IsGone P id before host → All (λ r. r.owner ≢ id) host.tunnels
  IsGone-tunnels host g =
      not_owner id (λ i. tunnel_id (find_persisted i host.registry)) host.tunnels
        (ap tunnel_id g.forgotten) g.accounted.tunnels

  pub IsGone-IsKept : (host : Host P.World) → IsGone P id before host → IsKept P id before host
  IsGone-IsKept host g = record { sound = g.sound; accounted = λ _. g.accounted; others = g.others }

  module _ (w : SessionWorkspace) (host : Host P.World) where
    pub Holds-IsKept : Holds P id before w host → IsKept P id before host
    Holds-IsKept h = record {
      sound = h.owns.sound;
      accounted = λ works.
          AccountedBy-same (overlay id w host.registry) (λ i. find_persisted i host.registry) host
            host (λ i. ap sandbox_id (ground (arith, h.recorded works, eq_iff id i)))
            (λ i. ap tunnel_id (ground (arith, h.recorded works, eq_iff id i))) refl refl
            h.owns.accounted;
      others = h.owns.others;
    }

    gone :
        (after : Host P.World)
        → Owns P id before w host
        → RefersToNothing w
        → Stored id none host after
        → IsGone P id before after
    gone after o (no_sandbox, no_tunnel) s = record {
      sound = s.sound;
      accounted =
          AccountedBy-same (overlay id w host.registry) (λ i. find_persisted i after.registry) host
            after (λ i. ground (arith, s.persisted i, no_sandbox))
            (λ i. ground (arith, s.persisted i, no_tunnel)) s.sandboxes s.tunnels o.accounted;
      others = λ i other. s.persisted i ∙ rw other (o.others i other);
      forgotten = s.persisted id ∙ rw (eq_refl id) refl;
    }

    pub unregister-IsGone :
        Owns P id before w host → RefersToNothing w → Closes P id before (unregister P id host)
    unregister-IsGone o nothing =
        After-map {X = λ _ after. Undone (SaveWorks P) host after}
          {Y = λ _ after. IsKept P id before after} (unregister P id host)
          (λ _ after s. gone after o nothing s)
          (λ _ after u. record {
            sound = u.sound;
            accounted = λ works. absurd (u.broken works);
            others = λ i other. u.persisted i ∙ o.others i other;
          })
          (unregister-After P host o.sound id)

  pub unregister_clean-IsGone :
      (c0 c : Cleanup P.World)
      → Progress P id before RefersToNothing c0 c
      → Closes P id before (unregister_clean P id c)
  unregister_clean-IsGone c0 c p = elim (Bool-cases (is_empty c.errors)) [
    | inl empty ↦ rw empty (unregister-IsGone c.remaining c.host p.holds.owns (p.clean empty).1)
    | inr failed ↦ rw failed (Holds-IsKept c.remaining c.host p.holds)
  ]

-- A session whose workspace is persisted is in order for an operation on it.
pub persisted-Holds :
    (P : RunnerPorts) (id : String) (w : SessionWorkspace) (host : Host P.World)
    → IsSound host.registry
    → Accounted host
    → find_persisted id host.registry ≡ some w
    → Holds P id host.registry w host
persisted-Holds P id w host sound accounted found = record {
  owns = record {
    sound = sound;
    session = sound.keyed id w found;
    accounted =
        AccountedBy-same (λ i. find_persisted i host.registry) (overlay id w host.registry) host
          host (λ i. ap sandbox_id (ground (arith, found, eq_iff id i)))
          (λ i. ap tunnel_id (ground (arith, found, eq_iff id i))) refl refl accounted;
    others = λ i other. refl;
  };
  recorded = λ _. found;
}

module _ (P : RunnerPorts) (id : String) (mode : CloseMode) (host : Host P.World) where
  pub close-After :
      IsSound host.registry → Accounted host → Closes P id host.registry (close P id mode host)
  unfolding close
  close-After sound accounted = elim (Option-cases (find_persisted id host.registry)) [
    | inl missing ↦
        let called : close P id mode host ≡ (host, ok tt) = ground (arith, missing) in
        subst (Closes P id host.registry) (sym called) (record {
          sound = sound;
          accounted = accounted;
          others = λ i other. refl;
          forgotten = missing;
        })
    | inr (w, found) ↦
        let c = cleanup_workspace P w mode host in
        let called : close P id mode host ≡ unregister_clean P id c = ground (arith, found) in
        subst (Closes P id host.registry) (sym called) (
          unregister_clean-IsGone P id host.registry _ c (
            cleanup_workspace-Progress P id host.registry w mode host
              (persisted-Holds P id w host sound accounted found)))
  ]

  -- Where the registry is well formed and everything that runs is recorded, a close that returns
  -- leaves no persisted workspace of its session and no sandbox or tunnel that runs for it. Other
  -- sessions keep their persisted workspaces, and everything that runs is still recorded.
  pub close-leaves_nothing :
      {after : Host P.World}
      → IsSound host.registry
      → Accounted host
      → close P id mode host ≡ (after, ok tt)
      → (find_persisted id after.registry ≡ none)
        × All (λ r. r.owner ≢ id) after.sandboxes
        × All (λ r. r.owner ≢ id) after.tunnels
        × ((i : String) → i ≢ id → find_persisted i after.registry ≡ find_persisted i host.registry)
        × Accounted after
  close-leaves_nothing {after} sound accounted returned =
      let g : IsGone P id host.registry after =
        subst (Closes P id host.registry) returned (close-After sound accounted) in
      (
        g.forgotten,
        IsGone-sandboxes P id host.registry after g,
        IsGone-tunnels P id host.registry after g,
        λ i other. g.others i (==-false_of_ne id i (λ e. other (sym e))),
        g.accounted,
      )
