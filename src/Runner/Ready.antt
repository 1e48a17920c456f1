-- ===== src/Runner/Ready.antt =====
-- What a prepare leaves: where it returns, the workspace that it returns, with what runs for it; where
-- it throws, an account that is in order as long as the store works.
use pair_dock.Prelude.{
  String, true, Option, none, some, [], ◌≡◌, ◌≢◌, refl, sym, ap, subst, inl, inr, Result, ok, err,
  Bool-cases, Option-cases, eq_iff, arith, ==-false_of_ne,
}
use pair_dock.Prelude.Dict.{get}
use pair_dock.Prelude.Actions.{After, continue, rescue, throw}
use pair_dock.Session.Start.Create.{PrepareCommand}
use pair_dock.Workspaces.Sandbox.{SessionWorkspace}
use pair_dock.Workspaces.{SessionRegistry, find_active, find_persisted}
use pair_dock.Workspaces.Begin.{IsSound}
use pair_dock.Runner.Ports.{Failure, delete_local, RunnerPorts}
use pair_dock.Runner.{Host, unregister, present}
use pair_dock.Runner.Cleanup.{Cleanup, cleanup_workspace, is_empty}
use pair_dock.Runner.Prepare.{
  Caught, build_workspace, clean_or_fail, clean_up, abandon, prepare_new, prepare,
}
use pair_dock.Runner.Inputs.{has_preview, not_recovered, no_repository}
use pair_dock.Runner.Accounts.{AccountedBy-same, Accounted, overlay, sandbox_id, tunnel_id}
use pair_dock.Runner.Closing.{Progress, RefersToNothing, cleanup_workspace-Progress}
use pair_dock.Runner.Closed.{IsKept, IsGone, Holds-IsKept, IsGone-IsKept, unregister-IsGone}
use pair_dock.Runner.Outcomes.{LeftAt, Finished, Builds, build_workspace-Builds}

-- The session is ready: its persisted workspace is this one, which has a sandbox and a tunnel.
pub record IsReady (P : RunnerPorts) (id : String) (before : SessionRegistry) (w : SessionWorkspace)
    (host : Host P.World) : Type 0 where
  pub kept : IsKept P id before host
  pub accounted : Accounted host
  pub persisted : find_persisted id host.registry ≡ some w
  pub shown : has_preview w ≡ true

-- The end of a prepare.
abbrev pub Prepares :
    (P : RunnerPorts)
    → String
    → SessionRegistry
    → Host P.World × Result Failure SessionWorkspace
    → Type 0
Prepares P id before = After (IsReady P id before) (λ _ s. IsKept P id before s)

module _ (P : RunnerPorts) (id : String) (before : SessionRegistry) where
  Finished-IsReady :
      (w : SessionWorkspace) (host : Host P.World)
      → Finished P id before w host
      → IsReady P id before w host
  Finished-IsReady w host f =
      let kept =
        Holds-IsKept P id before w host (record { owns = f.owns; recorded = λ _. f.persisted }) in
      record {
        kept = kept;
        accounted =
            AccountedBy-same (overlay id w host.registry) (λ i. find_persisted i host.registry) host
              host (λ i. ap sandbox_id (ground (arith, f.persisted, eq_iff id i)))
              (λ i. ap tunnel_id (ground (arith, f.persisted, eq_iff id i))) refl refl
              f.owns.accounted;
        persisted = f.persisted;
        shown = f.shown;
      }

  unregister_throw :
      (e : Failure) (p : Host P.World × Result Failure (Unit {0}))
      → After (λ _ s. IsGone P id before s) (λ _ s. IsKept P id before s) p
      → Prepares P id before (continue p (λ _. throw e))
  unregister_throw e (s, ok _) g = IsGone-IsKept P id before s g
  unregister_throw e (s, err e') k = k

  clean_or_fail-Prepares :
      (e : Failure) (c0 c : Cleanup P.World)
      → Progress P id before RefersToNothing c0 c
      → Prepares P id before (clean_or_fail P id e c)
  clean_or_fail-Prepares e c0 c p = elim (Bool-cases (is_empty c.errors)) [
    | inl empty ↦ rw empty (
        unregister_throw e (unregister P id c.host)
          (unregister-IsGone P id before c.remaining c.host p.holds.owns (p.clean empty).1))
    | inr failed ↦ rw failed (Holds-IsKept P id before c.remaining c.host p.holds)
  ]

  clean_up-Prepares :
      (e : Failure) (workspace : Option SessionWorkspace) (s : Host P.World)
      → LeftAt P id before workspace s
      → Prepares P id before (clean_up P id e workspace s)
  clean_up-Prepares e none s g = IsGone-IsKept P id before s g
  clean_up-Prepares e (some w) s h =
      clean_or_fail-Prepares e (record { host = s; remaining = w; errors = [] })
        (cleanup_workspace P w delete_local s)
        (cleanup_workspace-Progress P id before w delete_local s h)

  rescue-Prepares :
      (p : Host P.World × Result (Caught (Option SessionWorkspace)) SessionWorkspace)
      → Builds P id before p
      → Prepares P id before (rescue p (abandon P id))
  unfolding abandon
  rescue-Prepares (s, ok w) done = Finished-IsReady w s done
  rescue-Prepares (s, err caught) left = clean_up-Prepares caught.error caught.workspace s left

module _ (P : RunnerPorts) (command : PrepareCommand) (host : Host P.World) where
  open command use {session_id}

  prepare_new-Prepares :
      IsSound host.registry
      → Accounted host
      → Prepares P session_id host.registry (prepare_new P command host)
  prepare_new-Prepares sound accounted =
      let kept : IsKept P session_id host.registry host = record {
        sound = sound;
        accounted = λ _. accounted;
        others = λ i other. refl;
      } in
      elim (Option-cases (find_persisted session_id host.registry)) [
        | inr (w, found) ↦
            let called : prepare_new P command host ≡ (host, err (not_recovered session_id)) =
              ground (arith, found) in
            subst (Prepares P session_id host.registry) (sym called) kept
        | inl missing ↦ elim (Option-cases (present (get command.project_key P.project_paths))) [
          | inl unknown ↦
              let called : prepare_new P command host
                  ≡ (host, err (no_repository command.project_key)) =
                ground (arith, missing, unknown) in
              subst (Prepares P session_id host.registry) (sym called) kept
          | inr (path, known) ↦
              let config = get command.project_key P.preview_configs in
              let built = build_workspace P command path config host in
              let called : prepare_new P command host ≡ rescue built (abandon P session_id) =
                ground (arith, missing, known) in
              subst (Prepares P session_id host.registry) (sym called) (
                rescue-Prepares P session_id host.registry built (
                  build_workspace-Builds P session_id host.registry command config path host refl
                    (record {
                      sound = sound;
                      accounted = accounted;
                      others = λ i other. refl;
                      forgotten = missing;
                    })))
        ]
      ]

  pub prepare-Prepares :
      IsSound host.registry
      → Accounted host
      → Prepares P session_id host.registry (prepare P command host)
  unfolding prepare
  prepare-Prepares sound accounted = elim (Option-cases (find_active session_id host.registry)) [
    | inl quiet ↦
        let called : prepare P command host ≡ prepare_new P command host = ground (arith, quiet) in
        subst (Prepares P session_id host.registry) (sym called)
          (prepare_new-Prepares sound accounted)
    | inr (w, active) ↦ elim (Bool-cases (has_preview w)) [
      | inl shown ↦
          let called : prepare P command host ≡ (host, ok w) = ground (arith, active, shown) in
          subst (Prepares P session_id host.registry) (sym called) (record {
            kept = record { sound = sound; accounted = λ _. accounted; others = λ i other. refl };
            accounted = accounted;
            persisted = sound.agrees session_id w active;
            shown = shown;
          })
      | inr hidden ↦
          let called : prepare P command host ≡ prepare_new P command host =
            ground (arith, active, hidden) in
          subst (Prepares P session_id host.registry) (sym called)
            (prepare_new-Prepares sound accounted)
    ]
  ]

  -- Where the registry is well formed and everything that runs is recorded, a prepare that returns a
  -- workspace has it persisted, with a sandbox and a tunnel. Other sessions keep their persisted
  -- workspaces, and everything that runs is recorded again.
  pub prepare-records :
      {w : SessionWorkspace} {after : Host P.World}
      → IsSound host.registry
      → Accounted host
      → prepare P command host ≡ (after, ok w)
      → (find_persisted session_id after.registry ≡ some w)
        × (has_preview w ≡ true)
        × Accounted after
        × ((i : String)
            → i ≢ session_id
            → find_persisted i after.registry ≡ find_persisted i host.registry)
  prepare-records {w} {after} sound accounted returned =
      let r : IsReady P session_id host.registry w after =
        subst (Prepares P session_id host.registry) returned (prepare-Prepares sound accounted) in
      (
        r.persisted,
        r.shown,
        r.accounted,
        λ i other. r.kept.others i (==-false_of_ne session_id i (λ e. other (sym e))),
      )
