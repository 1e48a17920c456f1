-- ===== src/Runner/Removing.antt =====
-- `removePreviewResources` keeps the account: where it returns, the workspace refers to nothing.
use pair_dock.Prelude.{
  String, false, Option, none, [], ◌≡◌, refl, sym, subst, ◌∙◌, inl, inr, Result, Bool-cases,
  Option-cases, has_text, arith,
}
use pair_dock.Prelude.Actions.{After, After-map, continue-After}
use pair_dock.Workspaces.Sandbox.{ProjectPreviewConfig, SessionWorkspace}
use pair_dock.Workspaces.{SessionRegistry}
use pair_dock.Runner.Ports.{Failure, RunnerPorts}
use pair_dock.Runner.{Host, update}
use pair_dock.Runner.Cleanup.{
  Cleanup, without_preview_url, is_empty, companion_stopped, release_tunnel, release_sandbox,
  resolved, removed, forget_preview_url, remove_from, remove_preview_resources,
}
use pair_dock.Runner.Accounts.{AccountedBy-same, overlay}
use pair_dock.Runner.Owned.{Owns, Holds, update-Holds, is_known}
use pair_dock.Runner.Closing.{
  Progress, RefersToNothing, companion-Progress, release_tunnel-Progress, release_sandbox-Progress,
}
use pair_dock.Runner.Closed.{IsKept, Holds-IsKept}

module _ (P : RunnerPorts) (id : String) (before : SessionRegistry) where
  abbrev pub Empties : Host P.World × Result Failure SessionWorkspace → Type 0
  Empties = After (λ w s. Holds P id before w s × RefersToNothing w) (λ _ s. IsKept P id before s)

  removed-Empties :
      (c0 c : Cleanup P.World) → Progress P id before RefersToNothing c0 c → Empties (removed P c)
  removed-Empties c0 c p = elim (Bool-cases (is_empty c.errors)) [
    | inl empty ↦ rw empty (p.holds, (p.clean empty).1)
    | inr failed ↦ rw failed (Holds-IsKept P id before c.remaining c.host p.holds)
  ]

  -- Once there is no tunnel, the sandbox is what is left.
  release_last :
      (config : Option ProjectPreviewConfig) (c : Cleanup P.World)
      → c.remaining.tunnel_ref ≡ none
      → Holds P id before c.remaining c.host
      → Empties (removed P (release_sandbox P config c))
  release_last config c free h =
      let p = release_sandbox-Progress P id before c h config in
      removed-Empties c (release_sandbox P config c) (record {
        holds = p.holds;
        clean = λ empty.
            let (was, (no_sandbox, same)) = p.clean empty in (was, (no_sandbox, same ∙ free));
      })

  release_both :
      (config : Option ProjectPreviewConfig) (c : Cleanup P.World)
      → Holds P id before c.remaining c.host
      → Empties (removed P (release_sandbox P config (release_tunnel P config c)))
  release_both config c h =
      let c1 = release_tunnel P config c in
      let p1 = release_tunnel-Progress P id before c h config in
      let p2 = release_sandbox-Progress P id before c1 p1.holds config in
      removed-Empties c (release_sandbox P config c1) (record {
        holds = p2.holds;
        clean = λ empty.
            let (e1, (no_sandbox, same)) = p2.clean empty in
            let (e0, (no_tunnel, _)) = p1.clean e1 in (e0, (no_sandbox, same ∙ no_tunnel));
      })

  forget-Empties :
      (config : Option ProjectPreviewConfig) (c : Cleanup P.World)
      → c.remaining.tunnel_ref ≡ none
      → Holds P id before c.remaining c.host
      → Empties (forget_preview_url P config c)
  forget-Empties config c free h =
      let rest = without_preview_url c.remaining in
      let owns : Owns P id before rest c.host = record {
        sound = h.owns.sound;
        session = h.owns.session;
        accounted =
            AccountedBy-same (overlay id c.remaining c.host.registry)
              (overlay id rest c.host.registry) c.host c.host (λ i. ground arith)
              (λ i. ground arith) refl refl h.owns.accounted;
        others = h.owns.others;
      } in
      continue-After (λ _ s. Holds P id before rest s)
        (λ w s. Holds P id before w s × RefersToNothing w) (λ _ s. IsKept P id before s)
        (update P rest c.host)
        (λ _ host.
          removed P (release_sandbox P config (record c { host = host; remaining = rest })))
        (After-map {Q = λ _ s. Holds P id before rest s} {Y = λ _ s. IsKept P id before s}
          (update P rest c.host) (λ _ s held. held)
          (λ _ s held. Holds-IsKept P id before rest s held)
          (update-Holds P id before rest c.host owns (is_known P id before c.remaining c.host h)))
        (λ _ s held. release_last config (record c { host = s; remaining = rest }) free held)

  remove_from-Empties :
      (config : Option ProjectPreviewConfig) (c : Cleanup P.World)
      → Holds P id before c.remaining c.host
      → Empties (remove_from P config c)
  remove_from-Empties config c h = elim (Option-cases c.remaining.tunnel_ref) [
    | inr (ref, had) ↦
        let called : remove_from P config c
            ≡ removed P (release_sandbox P config (release_tunnel P config c)) =
          ground (arith, had) in
        subst Empties (sym called) (release_both config c h)
    | inl free ↦ elim (Bool-cases (has_text c.remaining.preview_url)) [
      | inl shown ↦
          let called : remove_from P config c ≡ forget_preview_url P config c =
            ground (arith, free, shown) in
          subst Empties (sym called) (forget-Empties config c free h)
      | inr hidden ↦
          let called : remove_from P config c ≡ removed P (release_sandbox P config c) =
            ground (arith, free, hidden) in
          subst Empties (sym called) (release_last config c free h)
    ]
  ]

  pub remove-Empties :
      (w : SessionWorkspace) (config : Option ProjectPreviewConfig) (host : Host P.World)
      → Holds P id before w host
      → Empties (remove_preview_resources P w config host)
  unfolding remove_preview_resources
  remove-Empties w config host h =
      let c0 : Cleanup P.World = record { host = host; remaining = w; errors = [] } in
      let c1 = companion_stopped P false c0 in
      let p1 = companion-Progress P id before c0 h false in
      remove_from-Empties (resolved w.sandbox_ref config) c1 p1.holds
