-- ===== src/Runner/Started.antt =====
-- What an operation starts and stops, and the account behind it.
use pair_dock.Prelude.{
  String, true, Option, none, some, ◌∷◌, ◌≡◌, refl, All-map, Result, ok, err, is_some, eq_refl,
  arith,
}
use pair_dock.Prelude.Actions.{After}
use pair_dock.Workspaces.Sandbox.{
  SandboxRef, PreviewTunnelRef, ProjectPreviewConfig, SessionWorkspace,
}
use pair_dock.Workspaces.{SessionRegistry, find_persisted}
use pair_dock.Runner.Ports.{Failure, SandboxStartInput, PreviewTunnelOpenInput, RunnerPorts}
use pair_dock.Runner.{Host, stopped, settle, start_sandbox, stop_sandbox, open_tunnel, close_tunnel}
use pair_dock.Runner.Cleanup.{without_tunnel, without_sandbox}
use pair_dock.Runner.Prepare.{with_sandbox, with_tunnel}
use pair_dock.Runner.Accounts.{
  overlay, SaveWorks, sandbox_id, tunnel_id, Covered-start, Covered-stop,
}
use pair_dock.Runner.Owned.{Owns, Holds, moved, is_known}

module _ (P : RunnerPorts) (id : String) (before : SessionRegistry) where
  -- A change of what runs, which the variable follows.
  abbrev pub Follows :
      (w w' : SessionWorkspace) → {A : Type 0} → Host P.World × Result Failure A → Type 0
  Follows w w' =
      After
        (λ _ host.
          Owns P id before w' host
          × (SaveWorks P → is_some (find_persisted id host.registry) ≡ true))
        (λ _ host. Holds P id before w host)

  module _ (w : SessionWorkspace) (host : Host P.World) (h : Holds P id before w host) where
    stop-Follows :
        (ref : SandboxRef) (answer : P.World × Result Failure (Unit {0}))
        → w.sandbox_ref ≡ some ref
        → Follows w (without_sandbox w) (
            settle host
              (λ _ after. record after { sandboxes = stopped ref.id after.sandboxes })
              answer)
    stop-Follows ref (world, err e) had = moved P id before w host h world
    stop-Follows ref (world, ok _) had = (
      record {
        sound = h.owns.sound;
        session = h.owns.session;
        others = h.owns.others;
        accounted = record {
          sandboxes =
              Covered-stop (λ i. sandbox_id (overlay id w host.registry i))
                (λ i. sandbox_id (overlay id (without_sandbox w) host.registry i)) id ref.id
                host.sandboxes (rw (eq_refl id, had) refl) (λ i other. ground (arith, other))
                h.owns.accounted.sandboxes;
          tunnels = All-map _ _ (λ r c. ground (arith, c)) host.tunnels h.owns.accounted.tunnels;
        };
      },
      is_known P id before w host h,
    )

    close-Follows :
        (ref : PreviewTunnelRef) (answer : P.World × Result Failure (Unit {0}))
        → w.tunnel_ref ≡ some ref
        → Follows w (without_tunnel w) (
            settle host (λ _ after. record after { tunnels = stopped ref.id after.tunnels }) answer)
    close-Follows ref (world, err e) had = moved P id before w host h world
    close-Follows ref (world, ok _) had = (
      record {
        sound = h.owns.sound;
        session = h.owns.session;
        others = h.owns.others;
        accounted = record {
          sandboxes =
              All-map _ _ (λ r c. ground (arith, c)) host.sandboxes h.owns.accounted.sandboxes;
          tunnels =
              Covered-stop (λ i. tunnel_id (overlay id w host.registry i))
                (λ i. tunnel_id (overlay id (without_tunnel w) host.registry i)) id ref.id
                host.tunnels (rw (eq_refl id, had) refl) (λ i other. ground (arith, other))
                h.owns.accounted.tunnels;
        };
      },
      is_known P id before w host h,
    )

    pub stop_sandbox-Follows :
        (ref : SandboxRef) (config : Option ProjectPreviewConfig)
        → w.sandbox_ref ≡ some ref
        → Follows w (without_sandbox w) (stop_sandbox P ref config host)
    unfolding stop_sandbox
    stop_sandbox-Follows ref config had =
        stop-Follows ref (P.stop_sandbox ref config host.world) had

    pub close_tunnel-Follows :
        (ref : PreviewTunnelRef) (config : Option ProjectPreviewConfig)
        → w.tunnel_ref ≡ some ref
        → Follows w (without_tunnel w) (close_tunnel P ref config host)
    unfolding close_tunnel
    close_tunnel-Follows ref config had =
        close-Follows ref (P.close_tunnel ref config host.world) had

    -- What is started for the session is what the variable refers to from now on.
    abbrev pub Starts :
        {A : Type 0} → (A → SessionWorkspace) → Host P.World × Result Failure A → Type 0
    Starts next =
        After
          (λ a after.
            Owns P id before (next a) after
            × (SaveWorks P → is_some (find_persisted id after.registry) ≡ true))
          (λ _ after. Holds P id before w after)

    start-Starts :
        (owner : String) (answer : P.World × Result Failure SandboxRef)
        → owner ≡ id
        → w.sandbox_ref ≡ none
        → Starts
            (λ ref. with_sandbox ref w)
            (settle host
              (λ ref after. record after {
                sandboxes = record { owner = owner; ref_id = ref.id } ∷ after.sandboxes;
              })
              answer)
    start-Starts owner (world, err e) own free = moved P id before w host h world
    start-Starts owner (world, ok ref) own free = (
      record {
        sound = h.owns.sound;
        session = h.owns.session;
        others = h.owns.others;
        accounted = record {
          sandboxes =
              Covered-start (λ i. sandbox_id (overlay id w host.registry i))
                (λ i. sandbox_id (overlay id (with_sandbox ref w) host.registry i)) id owner ref.id
                host.sandboxes own (rw (eq_refl id, free) refl) (rw (eq_refl id) refl)
                (λ i other. ground (arith, other)) h.owns.accounted.sandboxes;
          tunnels = All-map _ _ (λ r c. ground (arith, c)) host.tunnels h.owns.accounted.tunnels;
        };
      },
      is_known P id before w host h,
    )

    open-Starts :
        (owner : String) (answer : P.World × Result Failure PreviewTunnelRef)
        → owner ≡ id
        → w.tunnel_ref ≡ none
        → Starts
            (λ ref. with_tunnel ref w)
            (settle host
              (λ ref after. record after {
                tunnels = record { owner = owner; ref_id = ref.id } ∷ after.tunnels;
              })
              answer)
    open-Starts owner (world, err e) own free = moved P id before w host h world
    open-Starts owner (world, ok ref) own free = (
      record {
        sound = h.owns.sound;
        session = h.owns.session;
        others = h.owns.others;
        accounted = record {
          sandboxes =
              All-map _ _ (λ r c. ground (arith, c)) host.sandboxes h.owns.accounted.sandboxes;
          tunnels =
              Covered-start (λ i. tunnel_id (overlay id w host.registry i))
                (λ i. tunnel_id (overlay id (with_tunnel ref w) host.registry i)) id owner ref.id
                host.tunnels own (rw (eq_refl id, free) refl) (rw (eq_refl id) refl)
                (λ i other. ground (arith, other)) h.owns.accounted.tunnels;
        };
      },
      is_known P id before w host h,
    )

    pub start_sandbox-Starts :
        (input : SandboxStartInput)
        → input.session_id ≡ id
        → w.sandbox_ref ≡ none
        → Starts (λ ref. with_sandbox ref w) (start_sandbox P input host)
    unfolding start_sandbox
    start_sandbox-Starts input own free =
        start-Starts input.session_id (P.start_sandbox input host.world) own free

    pub open_tunnel-Starts :
        (input : PreviewTunnelOpenInput)
        → input.session_id ≡ id
        → w.tunnel_ref ≡ none
        → Starts (λ ref. with_tunnel ref w) (open_tunnel P input host)
    unfolding open_tunnel
    open_tunnel-Starts input own free =
        open-Starts input.session_id (P.open_tunnel input host.world) own free
