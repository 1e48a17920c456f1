-- ===== src/Runner/Prepared.antt =====
-- A prepare that returns has recorded what it started; one that throws has cleaned up, or keeps the
-- account where the store works.
use pair_dock.Prelude.{String, true, Option, none, some, ◌≡◌, inl, inr, Result, Bool-cases, is_some}
use pair_dock.Prelude.Decimal.{is_zero}
use pair_dock.Prelude.Actions.{Action, After, continue, continue-After, ◌>>=◌, ◌>>◌}
use pair_dock.Domain.Status.{docker_starting, preview_starting}
use pair_dock.Session.Start.Create.{PrepareCommand}
use pair_dock.Workspaces.Sandbox.{
  ProjectPreviewConfig, SandboxRef, PreviewTunnelRef, SessionWorkspace,
}
use pair_dock.Workspaces.{SessionRegistry, find_persisted}
use pair_dock.Runner.Ports.{Failure, CheckCommandResult, RunnerPorts}
use pair_dock.Runner.{Host, ask, register, present, start_sandbox, open_tunnel}
use pair_dock.Runner.Prepare.{
  with_sandbox, with_tunnel, run_setup, prepare_host_workspace, expose, boot_sandbox, boot_preview,
  announce,
}
use pair_dock.Runner.Inputs.{
  chain, setup_input, companion_input, wait_input, tunnel_input, setup_result, sandbox_input,
}
use pair_dock.Runner.Accounts.{SaveWorks}
use pair_dock.Runner.Owned.{Owns, Holds, Both, ask-Holds, register-Holds}
use pair_dock.Runner.Started.{start_sandbox-Starts, open_tunnel-Starts}

module _ (P : RunnerPorts) (id : String) (before : SessionRegistry) where
  setup_result-Both :
      (w : SessionWorkspace) (host : Host P.World) (session_id : String)
      (result : CheckCommandResult)
      → Holds P id before w host
      → Both P id before w (host, setup_result session_id result)
  setup_result-Both w host session_id result h = elim (Bool-cases (is_zero result.exit_code)) [
    | inl passed ↦ rw passed h
    | inr failed ↦ rw failed h
  ]

  run_setup-Both :
      (w v : SessionWorkspace) (host : Host P.World) (command : Option String)
      → Holds P id before w host
      → Both P id before w (run_setup P v command host)
  run_setup-Both w v host none h = h
  run_setup-Both w v host (some command) h =
      continue-After (λ _ s. Holds P id before w s) (λ _ s. Holds P id before w s)
        (λ _ s. Holds P id before w s) (ask P (P.run_host_command (setup_input v command)) host)
        (λ result s. (s, setup_result v.session_id result))
        (ask-Holds P id before w host h (P.run_host_command (setup_input v command)))
        (λ result s held. setup_result-Both w s v.session_id result held)

  pub prepare_host-Both :
      (w v : SessionWorkspace) (host : Host P.World) (config : Option ProjectPreviewConfig)
      → Holds P id before w host
      → Both P id before w (prepare_host_workspace P v config host)
  unfolding prepare_host_workspace
  prepare_host-Both w v host config h =
      run_setup-Both w v host (present (chain (λ c. c.setup_command) config)) h

  -- What a start has answered belongs to the session.
  abbrev pub SandboxUp : SessionWorkspace → SandboxRef → Host P.World → Type 0
  SandboxUp w ref host =
      Owns P id before (with_sandbox ref w) host
      × (SaveWorks P → is_some (find_persisted id host.registry) ≡ true)

  abbrev pub TunnelUp : SessionWorkspace → PreviewTunnelRef → Host P.World → Type 0
  TunnelUp w ref host =
      Owns P id before (with_tunnel ref w) host
      × (SaveWorks P → is_some (find_persisted id host.registry) ≡ true)

  -- A port's call, and what stands behind it.
  pub ask_then :
      {A B : Type 0} (w : SessionWorkspace) (R : B → Host P.World → Type 0)
      (call : P.World → P.World × Result Failure A) (next : A → Action (Host P.World) Failure B)
      (host : Host P.World)
      → Holds P id before w host
      → ((a : A) (s : Host P.World)
          → Holds P id before w s
          → After R (λ _ s'. Holds P id before w s') (next a s))
      → After R (λ _ s'. Holds P id before w s') (continue (ask P call host) next)
  ask_then {A} w R call next host h rest =
      continue-After (λ _ s. Holds P id before w s) R (λ _ s. Holds P id before w s)
        (ask P call host) next (ask-Holds P id before w host h call) rest

  pub expose-Starts :
      (w v : SessionWorkspace) (ref : SandboxRef) (config : Option ProjectPreviewConfig)
      (host : Host P.World)
      → v.session_id ≡ id
      → w.tunnel_ref ≡ none
      → Holds P id before w host
      → After (TunnelUp w) (λ _ s. Holds P id before w s) (expose P v ref config host)
  unfolding expose
  expose-Starts w v ref config host own free h =
      let input = tunnel_input P.runtime_owner_id v ref config in
      ask_then w (TunnelUp w) (P.wait_until_ready (wait_input config ref))
        (λ url. ask P (P.start_companion url v.session_id) >> open_tunnel P (input url)) host h
        (λ url s held.
          ask_then w (TunnelUp w) (P.start_companion url v.session_id)
            (λ _. open_tunnel P (input url)) s held
            (λ _ s' held'. open_tunnel-Starts P id before w s' held' (input url) own free))

  register_then :
      {B : Type 0} (w : SessionWorkspace) (R : B → Host P.World → Type 0)
      (next : Action (Host P.World) Failure B) (host : Host P.World)
      → Owns P id before w host
      → ((s : Host P.World)
          → Holds P id before w s
          → After R (λ _ s'. Holds P id before w s') (next s))
      → After R (λ _ s'. Holds P id before w s') (continue (register P w host) (λ _. next))
  register_then w R next host o rest =
      continue-After (λ _ s. Holds P id before w s) R (λ _ s. Holds P id before w s)
        (register P w host) (λ _. next) (register-Holds P id before w host o)
        (λ _ s held. rest s held)

  pub boot_preview-Up :
      (command : PrepareCommand) (config : Option ProjectPreviewConfig) (ref : SandboxRef)
      (w : SessionWorkspace) (host : Host P.World)
      → w.tunnel_ref ≡ none
      → Owns P id before w host
      → After (TunnelUp w) (λ _ s. Holds P id before w s) (boot_preview P command config ref w host)
  unfolding boot_preview
  boot_preview-Up command config ref w host free o =
      register_then w (TunnelUp w)
        (announce P command.session_id preview_starting >> expose P w ref config) host o
        (λ s held.
          ask_then w (TunnelUp w) (P.on_progress command.session_id preview_starting)
            (λ _. expose P w ref config) s held
            (λ _ s' held'. expose-Starts w w ref config s' o.session free held'))

  pub boot_sandbox-Up :
      (command : PrepareCommand) (config : Option ProjectPreviewConfig) (w : SessionWorkspace)
      (host : Host P.World)
      → w.sandbox_ref ≡ none
      → Owns P id before w host
      → After (SandboxUp w) (λ _ s. Holds P id before w s) (boot_sandbox P command config w host)
  unfolding boot_sandbox
  boot_sandbox-Up command config w host free o =
      let starting : Option ProjectPreviewConfig → Action (Host P.World) Failure SandboxRef =
        λ own. start_sandbox P (sandbox_input P.runtime_owner_id command.model_id w config own) in
      let announcing : Option ProjectPreviewConfig → Action (Host P.World) Failure SandboxRef =
        λ own. announce P command.session_id docker_starting >> starting own in
      let preparing = companion_input config command.project_key command.session_id in
      register_then w (SandboxUp w)
        (prepare_host_workspace P w config
          >> (ask P (P.prepare_companion preparing) >>= announcing))
        host o
        (λ s held.
          continue-After (λ _ s'. Holds P id before w s') (SandboxUp w)
            (λ _ s'. Holds P id before w s') (prepare_host_workspace P w config s)
            (λ _. ask P (P.prepare_companion preparing) >>= announcing)
            (prepare_host-Both w w s config held)
            (λ _ s1 held1.
              ask_then w (SandboxUp w) (P.prepare_companion preparing) announcing s1 held1
                (λ own s2 held2.
                  ask_then w (SandboxUp w) (P.on_progress command.session_id docker_starting)
                    (λ _. starting own) s2 held2
                    (λ _ s3 held3.
                      start_sandbox-Starts P id before w s3 held3
                        (sandbox_input P.runtime_owner_id command.model_id w config own) o.session
                        free))))
