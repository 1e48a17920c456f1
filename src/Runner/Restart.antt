-- ===== src/Runner/Restart.antt =====
-- A restart of the agent: what ran before it is what the restored workspaces record, and the
-- recovery of each of them keeps the account.
use pair_dock.Prelude.{
  String, Option, none, some, [], ◌∷◌, ◌≡◌, ◌≢◌, refl, sym, ap, subst, arith, ◌∙◌, inl, inr, Result,
  ok, err, Bool-cases, ==-false_of_ne, if◌then◌else◌,
}
use pair_dock.Prelude.Dict.{get, Dict, values, AllEntries, AllEntries-get, Distinct}
use pair_dock.Prelude.Actions.{After, continue, rescue, return, throw}
use pair_dock.Workspaces.Sandbox.{SessionWorkspace}
use pair_dock.Workspaces
use pair_dock.Workspaces.{SessionRegistry, find_persisted, list_persisted, suspend}
use pair_dock.Workspaces.Invariant.{Keyed, suspend-Agrees}
use pair_dock.Workspaces.Store.{
  written, written_as, written_map, values-written_map, get-written_map, written_map-Distinct,
  written_map-Keyed,
}
use pair_dock.Workspaces.Restore.{get-restore, restore-IsSound}
use pair_dock.Runner.Ports.{Failure, RunnerPorts}
use pair_dock.Runner.{Host, ask, settle, present}
use pair_dock.Runner.Recovery.{
  SessionRecoveryResult, nothing_recovered, requires_docker_resources, recover, recovered,
  recover_each, reconcile_for, reconcile, all_recovered, restore,
}
use pair_dock.Runner.Accounts.{AccountedBy-same, SaveWorks, sandbox_id, tunnel_id}
use pair_dock.Runner.Closed.{IsKept, persisted-Holds}
use pair_dock.Runner.Rebuilt.{recover-Ends}
use pair_dock.Runner.Runs.{InOrder}

module _ {ℓ κ μ ν} {V : Type ℓ} (P : String → V → Type κ) (Q : String → V → Type μ)
    (R : String → V → Type ν) where
  AllEntries-zip :
      (m : Dict V)
      → ((k : String) (v : V) → P k v → Q k v → R k v)
      → AllEntries P m
      → AllEntries Q m
      → AllEntries R m
  AllEntries-zip [] f h j = tt
  AllEntries-zip ((k, v) ∷ m) f (p, h) (q, j) = (f k v p q, AllEntries-zip m f h j)

module _ (P : RunnerPorts) (works : SaveWorks P) where
  -- A workspace that is still to be recovered stands in the registry under its session.
  abbrev Waits : Host P.World → String → SessionWorkspace → Type 0
  Waits s k w = (w.session_id ≡ k) × (find_persisted k s.registry ≡ some w)

  -- One recovery leaves the other sessions as they are.
  abbrev Passes : String → Host P.World → Host P.World → Type 0
  Passes id before after =
      InOrder after
      × ((i : String) → i ≢ id → find_persisted i after.registry ≡ find_persisted i before.registry)

  kept-Passes :
      (id : String) (host s : Host P.World) → IsKept P id host.registry s → Passes id host s
  kept-Passes id host s k = (
    record { sound = k.sound; accounted = k.accounted works },
    λ i other. k.others i (==-false_of_ne id i (λ e. other (sym e))),
  )

  suspend-InOrder :
      (id : String) (s : Host P.World)
      → InOrder s
      → InOrder (record s { registry = suspend id s.registry })
  unfolding suspend
  suspend-InOrder id s o = record {
    sound = record {
      agrees = suspend-Agrees id s.registry o.sound.agrees;
      keyed = o.sound.keyed;
      distinct = o.sound.distinct;
    };
    accounted = record { sandboxes = o.accounted.sandboxes; tunnels = o.accounted.tunnels };
  }

  recovered-Passes :
      (result : SessionRecoveryResult) (w : SessionWorkspace) (host : Host P.World)
      (p : Host P.World × Result Failure (Unit {0}))
      → After
          (λ _ s. IsKept P w.session_id host.registry s)
          (λ _ s. IsKept P w.session_id host.registry s)
          p
      → Passes w.session_id host (recovered P result w p).0
  unfolding suspend
  recovered-Passes result w host (s, ok _) k = kept-Passes w.session_id host s k
  recovered-Passes result w host (s, err e) k =
      let (o, others) = kept-Passes w.session_id host s k in
      (suspend-InOrder w.session_id s o, others)

  recover_each-InOrder :
      (m : Dict SessionWorkspace) (h : Host P.World × SessionRecoveryResult)
      → Distinct m
      → AllEntries (Waits h.0) m
      → InOrder h.0
      → InOrder (recover_each P (values m) h).0
  unfolding recover_each
  recover_each-InOrder [] h d waits o = o
  recover_each-InOrder ((k, w) ∷ m) (s, result) (fresh, d) ((own, found), waits) o =
      let here : find_persisted w.session_id s.registry ≡ some w =
        subst (λ i. find_persisted i s.registry ≡ some w) (sym own) found in
      let (o', others) = recovered-Passes result w s (recover P w s) (
        recover-Ends P w.session_id s.registry w s
          (persisted-Holds P w.session_id w s o.sound o.accounted here)) in
      recover_each-InOrder m (recovered P result w (recover P w s)) d
        (AllEntries-zip (λ j v. j ≢ k) (Waits s) (Waits (recovered P result w (recover P w s)).0) m
          (λ j v other wait. (wait.0, others j (λ e. other (e ∙ own)) ∙ wait.1)) fresh waits)
        o'

  -- In order, with this registry.
  abbrev Stays : SessionRegistry → Host P.World → Type 0
  Stays registry s = InOrder s × (s.registry ≡ registry)

  settle-Stays :
      {A : Type 0} (host : Host P.World) (answer : P.World × Result Failure A)
      → InOrder host
      → Stays host.registry (settle host (λ _ after. after) answer).0
  settle-Stays host (w, ok a) o = (
    record {
      sound = o.sound;
      accounted = record { sandboxes = o.accounted.sandboxes; tunnels = o.accounted.tunnels };
    },
    refl,
  )
  settle-Stays host (w, err e) o = (
    record {
      sound = o.sound;
      accounted = record { sandboxes = o.accounted.sandboxes; tunnels = o.accounted.tunnels };
    },
    refl,
  )

  rescue-Stays :
      (registry : SessionRegistry) (p : Host P.World × Result Failure (Unit {0}))
      → Stays registry p.0
      → Stays registry
          (rescue p (λ (e : Failure).
            if requires_docker_resources P then throw {A = Unit {0}} e else return tt)).0
  rescue-Stays registry (s, ok _) o = o
  rescue-Stays registry (s, err e) o = elim (Bool-cases (requires_docker_resources P)) [
    | inl needed ↦ rw needed o
    | inr spare ↦ rw spare o
  ]

  reconcile_for-Stays :
      (owner : Option String) (host : Host P.World)
      → InOrder host
      → Stays host.registry (reconcile_for P owner host).0
  reconcile_for-Stays none host o = (o, refl)
  reconcile_for-Stays (some owner) host o =
      rescue-Stays host.registry (ask P (P.reconcile_orphans owner) host)
        (settle-Stays host (P.reconcile_orphans owner host.world) o)

  module _ (m : Dict SessionWorkspace) (d : Distinct m) (k : Keyed m) where
    -- Each workspace that has been read waits in the registry.
    Waits-restored :
        (s : Host P.World) → s.registry ≡ Workspaces.restore (values m) → AllEntries (Waits s) m
    Waits-restored s same = AllEntries-get (Waits s) m d (λ j v found.
        (k j v found, ap (λ r. find_persisted j r) same ∙ get-restore m d k j ∙ found))

    all_recovered-InOrder :
        (p : Host P.World × Result Failure (Unit {0}))
        → Stays (Workspaces.restore (values m)) p.0
        → InOrder (continue p (λ _. all_recovered P (values m))).0
    all_recovered-InOrder (s, ok _) (o, same) =
        recover_each-InOrder m (s, nothing_recovered) d (Waits-restored s same) o
    all_recovered-InOrder (s, err e) (o, same) = o

  -- What is written of a workspace refers to its sandbox and its tunnel.
  written_sandbox_id : (o : Option SessionWorkspace) → sandbox_id (written_as o) ≡ sandbox_id o
  written_sandbox_id none = refl
  written_sandbox_id (some w) = ground arith

  written_tunnel_id : (o : Option SessionWorkspace) → tunnel_id (written_as o) ≡ tunnel_id o
  written_tunnel_id none = refl
  written_tunnel_id (some w) = refl

  restored_sandbox :
      (n : Dict SessionWorkspace) (i : String) (r : SessionRegistry)
      → find_persisted i r ≡ get i (written_map n)
      → sandbox_id (find_persisted i r) ≡ sandbox_id (get i n)
  restored_sandbox n i r found =
      ap sandbox_id (found ∙ get-written_map i n) ∙ written_sandbox_id (get i n)

  restored_tunnel :
      (n : Dict SessionWorkspace) (i : String) (r : SessionRegistry)
      → find_persisted i r ≡ get i (written_map n)
      → tunnel_id (find_persisted i r) ≡ tunnel_id (get i n)
  restored_tunnel n i r found =
      ap tunnel_id (found ∙ get-written_map i n) ∙ written_tunnel_id (get i n)

  -- Where every save succeeds and the store gives back what it writes of the persisted workspaces, a
  -- restart of the agent in a state in order leaves one in order: the registry is well formed, and
  -- everything that runs is recorded, whether each session is recovered or not and whether `restore`
  -- returns or throws.
  pub restore-InOrder :
      (host : Host P.World) {world : P.World}
      → InOrder host
      → P.load host.world ≡ (world, ok (written (list_persisted host.registry)))
      → InOrder (restore P host).0
  unfolding restore
  restore-InOrder host {world} o loads =
      let n = host.registry.persisted_workspaces in
      let m = written_map n in
      let distinct = written_map-Distinct n o.sound.distinct in
      let own : Keyed m = written_map-Keyed n o.sound.keyed in
      let stored = values m in
      let restarted : Host P.World = record host {
        world = world;
        registry = Workspaces.restore stored;
      } in
      let called : restore P host ≡ continue (reconcile P restarted) (λ _. all_recovered P stored) =
        rw (loads, ← values-written_map n) refl in
      subst (λ q. InOrder q.0) (sym called)
        (all_recovered-InOrder m distinct own (reconcile P restarted) (
          reconcile_for-Stays (present P.runtime_owner_id) restarted (record {
            sound = restore-IsSound m distinct own;
            accounted =
                AccountedBy-same (λ i. find_persisted i host.registry)
                  (λ i. find_persisted i restarted.registry) host restarted
                  (λ i. restored_sandbox n i (restarted.registry) (get-restore m distinct own i))
                  (λ i. restored_tunnel n i (restarted.registry) (get-restore m distinct own i))
                  refl refl o.accounted;
          })))
