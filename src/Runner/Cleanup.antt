-- ===== src/Runner/Cleanup.antt =====
-- `cleanupWorkspace`, `closeUnlocked`, `cleanupAll`, `removePreviewResources` and `shutdown` of
-- session-runner.ts. A step that fails is noted, and the next step runs.
use pair_dock.Prelude.{
  String, Bool, true, false, Option, none, some, List, [], ◌∷◌, ◌++◌, map, Result, ok, err, join,
  has_text, if◌then◌else◌,
}
use pair_dock.Prelude.Actions.{◌>>◌, ◌>>=◌, return}
use pair_dock.Prelude.Dict.{get}
use pair_dock.Workspaces.Sandbox.{ProjectPreviewConfig, SandboxRef, SessionWorkspace}
use pair_dock.Workspaces.{find_active, find_persisted, list_active, list_persisted}
use pair_dock.Runner.Ports.{Failure, aggregate, error_message, CloseMode, RunnerPorts}
use pair_dock.Runner.{Host, Act, ask, update, unregister, stop_sandbox, close_tunnel}

-- The variables of a cleanup: `remainingWorkspace` and `errors`.
pub record Cleanup (World : Type 0) : Type 0 where
  pub host : Host World
  pub remaining : SessionWorkspace
  pub errors : List Failure

abbrev pub all_failed : List Failure → Failure
all_failed errors = aggregate (map error_message errors) (join "; " (map error_message errors))

abbrev pub without_preview_url : SessionWorkspace → SessionWorkspace
without_preview_url w = record w { preview_url = none }

abbrev pub without_tunnel : SessionWorkspace → SessionWorkspace
without_tunnel w = record w { preview_url = none; tunnel_ref = none }

abbrev pub without_sandbox : SessionWorkspace → SessionWorkspace
without_sandbox w = record w { sandbox_ref = none }

-- `workspace.sandboxRef?.previewConfig ?? previewConfig`.
abbrev pub resolved : Option SandboxRef → Option ProjectPreviewConfig → Option ProjectPreviewConfig
resolved none config = config
resolved (some ref) config = elim ref.preview_config [ none ↦ config | some own ↦ some own ]

abbrev pub is_empty : List Failure → Bool
is_empty [] = true
is_empty (_ ∷ _) = false

module _ {W : Type 0} where
  -- The end of a `try` block, behind which `remainingWorkspace` is `rest`.
  abbrev pub noted :
      SessionWorkspace → List Failure → Host W × Result Failure (Unit {0}) → Cleanup W
  noted rest errors (host, ok _) = record { host = host; remaining = rest; errors = errors }
  noted rest errors (host, err e) = record {
    host = host;
    remaining = rest;
    errors = errors ++ e ∷ [];
  }

module _ (P : RunnerPorts) where
  abbrev pub companion_stopped : Bool → Cleanup P.World → Cleanup P.World
  companion_stopped cleanup_sessions c =
      noted c.remaining c.errors
        (ask P (P.stop_companion cleanup_sessions c.remaining.session_id) c.host)

  abbrev pub tunnel_closed :
      Cleanup P.World → Host P.World × Result Failure (Unit {0}) → Cleanup P.World
  tunnel_closed c (host, err e) = record c { host = host; errors = c.errors ++ e ∷ [] }
  tunnel_closed c (host, ok _) =
      noted (without_tunnel c.remaining) c.errors (update P (without_tunnel c.remaining) host)

  unfoldable pub release_tunnel : Option ProjectPreviewConfig → Cleanup P.World → Cleanup P.World
  release_tunnel config c = elim c.remaining.tunnel_ref [
    | none ↦ c
    | some ref ↦ tunnel_closed c (close_tunnel P ref config c.host)
  ]

  abbrev pub sandbox_stopped :
      Cleanup P.World → Host P.World × Result Failure (Unit {0}) → Cleanup P.World
  sandbox_stopped c (host, err e) = record c { host = host; errors = c.errors ++ e ∷ [] }
  sandbox_stopped c (host, ok _) =
      noted (without_sandbox c.remaining) c.errors (update P (without_sandbox c.remaining) host)

  unfoldable pub release_sandbox : Option ProjectPreviewConfig → Cleanup P.World → Cleanup P.World
  release_sandbox config c = elim c.remaining.sandbox_ref [
    | none ↦ c
    | some ref ↦ sandbox_stopped c (stop_sandbox P ref config c.host)
  ]

  abbrev pub worktree_cleaned : CloseMode → Cleanup P.World → Cleanup P.World
  worktree_cleaned mode c =
      noted c.remaining c.errors (ask P (P.cleanup_worktree c.remaining mode) c.host)

  unfoldable pub cleanup_workspace : SessionWorkspace → CloseMode → Host P.World → Cleanup P.World
  unfolding release_tunnel release_sandbox
  cleanup_workspace w mode host =
      let config = resolved w.sandbox_ref (get w.project_key P.preview_configs) in
      worktree_cleaned mode (
        release_sandbox config (
          release_tunnel config
            (companion_stopped true (record { host = host; remaining = w; errors = [] }))))

  -- `if (cleanupErrors.length > 0) throw …`, and `unregister` behind it.
  abbrev pub unregister_clean : String → Cleanup P.World → Host P.World × Result Failure (Unit {0})
  unregister_clean id c =
      if is_empty c.errors then unregister P id c.host else (c.host, err (all_failed c.errors))

  -- `closeUnlocked`, which returns `{ cleaned: true }` where it returns; `cleanupAll` has the same
  -- lines.
  unfoldable pub close : String → CloseMode → Act P (Unit {0})
  unfolding cleanup_workspace
  close id mode host = elim (find_persisted id host.registry) [
    | none ↦ (host, ok tt)
    | some w ↦ unregister_clean id (cleanup_workspace w mode host)
  ]

  -- A loop whose body is tried; the errors in their order.
  abbrev pub tried :
      List Failure → Host P.World × Result Failure (Unit {0}) → Host P.World × List Failure
  tried errors (host, ok _) = (host, errors)
  tried errors (host, err e) = (host, errors ++ e ∷ [])

  unfoldable pub each :
      (SessionWorkspace → Act P (Unit {0}))
      → List SessionWorkspace
      → Host P.World × List Failure
      → Host P.World × List Failure
  each body [] h = h
  each body (w ∷ workspaces) h = each body workspaces (tried h.1 (body w h.0))

  abbrev pub raise_all : Host P.World × List Failure → Host P.World × Result Failure (Unit {0})
  raise_all (host, errors) =
      if is_empty errors then (host, ok tt) else (host, err (all_failed errors))

  unfoldable pub cleanup_all : CloseMode → Act P (Unit {0})
  unfolding each close
  cleanup_all mode host =
      raise_all (each (λ w. close w.session_id mode) (list_persisted host.registry) (host, []))

  abbrev pub removed : Cleanup P.World → Host P.World × Result Failure SessionWorkspace
  removed c =
      if is_empty c.errors then (c.host, ok c.remaining) else (c.host, err (all_failed c.errors))

  abbrev pub forget_preview_url :
      Option ProjectPreviewConfig → Cleanup P.World → Host P.World × Result Failure SessionWorkspace
  forget_preview_url config c =
      let rest = without_preview_url c.remaining in
      (update P rest >> (λ host.
          removed (release_sandbox config (record c { host = host; remaining = rest }))))
        c.host

  abbrev pub remove_from :
      Option ProjectPreviewConfig → Cleanup P.World → Host P.World × Result Failure SessionWorkspace
  remove_from config c = elim c.remaining.tunnel_ref [
    | some _ ↦ removed (release_sandbox config (release_tunnel config c))
    | none ↦
        if has_text c.remaining.preview_url
        then forget_preview_url config c
        else removed (release_sandbox config c)
  ]

  unfoldable pub remove_preview_resources :
      SessionWorkspace → Option ProjectPreviewConfig → Act P SessionWorkspace
  unfolding release_tunnel release_sandbox
  remove_preview_resources w config host =
      remove_from (resolved w.sandbox_ref config)
        (companion_stopped false (record { host = host; remaining = w; errors = [] }))

  abbrev pub stop_preview : String → Act P (Unit {0})
  stop_preview id host = elim (find_active id host.registry) [
    | none ↦ (host, ok tt)
    | some current ↦
        (remove_preview_resources current (get current.project_key P.preview_configs) >>= λ _.
        return tt)
          host
  ]

  unfoldable pub shutdown : Act P (Unit {0})
  unfolding each remove_preview_resources
  shutdown host =
      raise_all (each (λ w. stop_preview w.session_id) (list_active host.registry) (host, []))
