-- ===== src/Runner/Outcomes.antt =====
-- The two ends of a prepare: the workspace is recorded with what runs for it, or an exception left
-- a cleaned session or one that can still be closed.
use pair_dock.Prelude.{
  String, true, Option, none, some, ◌≡◌, refl, subst, ◌∙◌, Result, ok, err, eq_iff, eq_refl, arith,
}
use pair_dock.Prelude.Actions.{
  Action, After, After-map, continue, continue-After, ◌>>=◌, ◌>>◌, return,
}
use pair_dock.Domain.Status.{worktree_creating}
use pair_dock.Session.Start.Create.{PrepareCommand}
use pair_dock.Workspaces.Sandbox.{ProjectPreviewConfig, SandboxRef, SessionWorkspace}
use pair_dock.Workspaces.{SessionRegistry, find_persisted}
use pair_dock.Runner.Ports.{Failure, PreparedWorktree, RunnerPorts}
use pair_dock.Runner.{Host, ask, register, settle}
use pair_dock.Runner.Prepare.{
  Caught, recorded_at, holding, with_sandbox, with_tunnel, make_worktree, boot_sandbox,
  boot_preview, build_workspace, announce,
}
use pair_dock.Runner.Inputs.{prepared_workspace, has_preview}
use pair_dock.Runner.Accounts.{AccountedBy-same, overlay, SaveWorks}
use pair_dock.Runner.Saves.{Stored, Undone, register-After}
use pair_dock.Runner.Owned.{Owns, Holds, Stored-Owns, Undone-Holds}
use pair_dock.Runner.Closing.{RefersToNothing}
use pair_dock.Runner.Closed.{IsGone}
use pair_dock.Runner.Prepared.{SandboxUp, TunnelUp, boot_sandbox-Up, boot_preview-Up}

-- The body goes on behind one of its parts.
pub holding_then :
    {S V A B : Type 0} (Q : A → S → Type 0) (R : B → S → Type 0) (L : V → S → Type 0) (v : V)
    (p : S × Result Failure A) (next : A → Action S (Caught V) B)
    → After Q (λ _ s. L v s) p
    → ((a : A) (s : S) → Q a s → After R (λ caught s'. L caught.workspace s') (next a s))
    → After R (λ caught s'. L caught.workspace s') (continue (recorded_at v p) next)
holding_then Q R L v (s, ok a) next h rest = rest a s h
holding_then Q R L v (s, err e) next h rest = h

module _ (P : RunnerPorts) (id : String) (before : SessionRegistry) where
  -- The state in which the body throws, by the variable `workspace`.
  abbrev pub LeftAt : Option SessionWorkspace → Host P.World → Type 0
  LeftAt none host = IsGone P id before host
  LeftAt (some w) host = Holds P id before w host

  pub record Finished (w : SessionWorkspace) (host : Host P.World) : Type 0 where
    pub owns : Owns P id before w host
    pub persisted : find_persisted id host.registry ≡ some w
    pub shown : has_preview w ≡ true

  module _ (host : Host P.World) (g : IsGone P id before host) where
    moved_on : (world : P.World) → IsGone P id before (record host { world = world })
    moved_on world = record {
      sound = g.sound;
      accounted = record { sandboxes = g.accounted.sandboxes; tunnels = g.accounted.tunnels };
      others = g.others;
      forgotten = g.forgotten;
    }

    -- Nothing runs for the session, so a workspace that refers to nothing accounts for it.
    IsGone-Owns :
        (w : SessionWorkspace) → w.session_id ≡ id → RefersToNothing w → Owns P id before w host
    IsGone-Owns w own (no_sandbox, no_tunnel) = record {
      sound = g.sound;
      session = own;
      accounted =
          AccountedBy-same (λ i. find_persisted i host.registry) (overlay id w host.registry) host
            host (λ i. ground (arith, g.forgotten, eq_iff id i, no_sandbox))
            (λ i. ground (arith, g.forgotten, eq_iff id i, no_tunnel)) refl refl g.accounted;
      others = g.others;
    }

    settled-IsGone :
        {A : Type 0} (answer : P.World × Result Failure A)
        → After
            (λ _ s. IsGone P id before s)
            (λ _ s. IsGone P id before s)
            (settle host (λ _ after. after) answer)
    settled-IsGone (world, ok a) = moved_on world
    settled-IsGone (world, err e) = moved_on world

  make_worktree-IsGone :
      (command : PrepareCommand) (path : String) (host : Host P.World)
      → IsGone P id before host
      → After
          (λ _ s. IsGone P id before s)
          (λ _ s. IsGone P id before s)
          (make_worktree P command path host)
  unfolding make_worktree
  make_worktree-IsGone command path host g =
      continue-After (λ _ s. IsGone P id before s) (λ _ s. IsGone P id before s)
        (λ _ s. IsGone P id before s) (announce P command.session_id worktree_creating host)
        (λ _. ask P (P.prepare_worktree command path))
        (settled-IsGone host g (P.on_progress command.session_id worktree_creating host.world))
        (λ _ s gone. settled-IsGone s gone (P.prepare_worktree command path s.world))

  -- The last registration is saved where the body returns.
  register-Finished :
      (w : SessionWorkspace) (host : Host P.World)
      → has_preview w ≡ true
      → Owns P id before w host
      → After (λ _ s. Finished w s) (λ _ s. Holds P id before w s) (register P w host)
  register-Finished w host shown o =
      After-map {R = λ _ s. Finished w s} {X = λ _ s. Undone (SaveWorks P) host s}
        {Y = λ _ s. Holds P id before w s} (register P w host)
        (λ _ s stored.
          let st : Stored id (some w) host s =
            subst (λ i. Stored i (some w) host s) o.session stored in
          record {
            owns = Stored-Owns P id before w host s o (some w) st;
            persisted = st.persisted id ∙ rw (eq_refl id) refl;
            shown = shown;
          })
        (λ _ s u. Undone-Holds P id before w host s o u) (register-After P host o.sound w)

  abbrev pub Builds :
      Host P.World × Result (Caught (Option SessionWorkspace)) SessionWorkspace → Type 0
  Builds = After Finished (λ caught s. LeftAt caught.workspace s)

  abbrev Building : Type 0
  Building = Action (Host P.World) (Caught (Option SessionWorkspace)) SessionWorkspace

  -- The body of the `try` block from each of its parts on.
  module _ (command : PrepareCommand) (config : Option ProjectPreviewConfig) where
    finish_with : SessionWorkspace → Building
    finish_with w = holding (some w) (register P w) >> return w

    preview_with : SessionWorkspace → SandboxRef → Building
    preview_with w sandbox =
        holding (some (with_sandbox sandbox w))
          (boot_preview P command config sandbox (with_sandbox sandbox w))
        >>= λ tunnel. finish_with (with_tunnel tunnel (with_sandbox sandbox w))

    sandbox_with : PreparedWorktree → Building
    sandbox_with tree =
        holding (some (prepared_workspace command tree))
          (boot_sandbox P command config (prepared_workspace command tree))
        >>= preview_with (prepared_workspace command tree)

    finish_with-Builds :
        (w : SessionWorkspace) (host : Host P.World)
        → has_preview w ≡ true
        → Owns P id before w host
        → Builds (finish_with w host)
    unfolding finish_with
    finish_with-Builds w host shown o =
        holding_then (λ _ s. Finished w s) Finished LeftAt (some w) (register P w host)
          (λ _. return w) (register-Finished w host shown o) (λ _ s done. done)

    preview_with-Builds :
        (w : SessionWorkspace) (sandbox : SandboxRef) (host : Host P.World)
        → w.tunnel_ref ≡ none
        → Owns P id before (with_sandbox sandbox w) host
        → Builds (preview_with w sandbox host)
    unfolding preview_with
    preview_with-Builds w sandbox host free o =
        let w1 = with_sandbox sandbox w in
        holding_then (TunnelUp P id before w1) Finished LeftAt (some w1)
          (boot_preview P command config sandbox w1 host)
          (λ tunnel. finish_with (with_tunnel tunnel w1))
          (boot_preview-Up P id before command config sandbox w1 host free o)
          (λ tunnel s up. finish_with-Builds (with_tunnel tunnel w1) s refl up.0)

    sandbox_with-Builds :
        (tree : PreparedWorktree) (host : Host P.World)
        → command.session_id ≡ id
        → IsGone P id before host
        → Builds (sandbox_with tree host)
    unfolding sandbox_with
    sandbox_with-Builds tree host own g =
        let w = prepared_workspace command tree in
        holding_then (SandboxUp P id before w) Finished LeftAt (some w)
          (boot_sandbox P command config w host) (preview_with w)
          (boot_sandbox-Up P id before command config w host refl
            (IsGone-Owns host g w own (refl, refl)))
          (λ sandbox s up. preview_with-Builds w sandbox s refl up.0)

    pub build_workspace-Builds :
        (path : String) (host : Host P.World)
        → command.session_id ≡ id
        → IsGone P id before host
        → Builds (build_workspace P command path config host)
    unfolding build_workspace sandbox_with preview_with finish_with
    build_workspace-Builds path host own g =
        holding_then (λ _ s. IsGone P id before s) Finished LeftAt none
          (make_worktree P command path host) sandbox_with
          (make_worktree-IsGone command path host g)
          (λ tree s gone. sandbox_with-Builds tree s own gone)
