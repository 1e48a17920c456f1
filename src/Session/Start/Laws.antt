-- ===== src/Session/Start/Laws.antt =====
-- Who can start a session, and what a started session has.
use pair_dock.Prelude.{
  String, true, false, Option, some, ◌==◌, ◌≡◌, ◌↔◌, ◌⊎◌, inl, inr, refl, ap, subst, is_some,
  or_else, ok, Option-cases, eq_iff, arith,
}
use pair_dock.Domain.{UserKind, developer, pm, Identity, Project, ProjectReadinessSnapshot}
use pair_dock.Agents.Registry.{Registry}
use pair_dock.Agents.Registry.Invariant.{IsConsistent}
use pair_dock.Agents.Binding.{is_connected, assert_compatible_if_connected, assert_connected}
use pair_dock.Agents.Binding.Laws.{assert_connected_iff}
use pair_dock.Session.Start.{
  SessionStartSource, from_developer, from_pm, StartData, is_from_developer, is_ready,
  default_source, assert_developer_can_start, assert_pm_can_start, by_kind, assert_can_start,
}

kind_cases : (k : UserKind) → (k ≡ developer) ⊎ (k ≡ pm)
kind_cases developer = inl refl
kind_cases pm = inr refl

module _ (fold : String → String) (data_of : StartData) (r : Registry) where
  -- The policy answers with the project that it was given.
  same_project :
      (kind : UserKind) (q p : Project) (user : Identity) (source : SessionStartSource)
      → by_kind fold data_of r kind q user source ≡ ok p
      → q ≡ p
  unfolding assert_developer_can_start assert_pm_can_start
  same_project developer q p user source h = ground (arith, h)
  same_project pm q p user source h = ground (arith, h)

  -- The owner, from the developer's side, whose agent is not another's, and no failing readiness.
  pub record DeveloperMay (p : Project) (user : Identity) (requested : Option SessionStartSource)
      : Type 0 where
    pub kind : user.kind ≡ developer
    pub flow : is_from_developer (or_else requested from_developer) ≡ true
    pub owner : p.owner_user_id ≡ user.id
    pub compatible : assert_compatible_if_connected fold p r ≡ ok tt
    pub not_failing :
        (s : ProjectReadinessSnapshot) → data_of.find_readiness p.id ≡ some s → s.all_ok ≡ true

  -- A member of a shared project that is enabled, connected and ready, from the PM's side.
  pub record PmMay (p : Project) (user : Identity) (requested : Option SessionStartSource)
      : Type 0 where
    pub kind : user.kind ≡ pm
    pub flow : is_from_developer (or_else requested from_pm) ≡ false
    pub member : is_some (data_of.find_membership p.id user.id) ≡ true
    pub enabled : p.pm_can_start_sessions ≡ true
    pub connected : is_connected fold p r ≡ true
    pub ready : is_ready (data_of.find_readiness p.id) ≡ true

  module _ (p : Project) (user : Identity) (requested : Option SessionStartSource) where
    developer_may :
        user.kind ≡ developer
        → assert_developer_can_start fold data_of r p user (or_else requested from_developer) ≡ ok p
        → DeveloperMay p user requested
    unfolding assert_developer_can_start
    developer_may kind h = record {
      kind = kind;
      flow = ground (arith, h);
      owner = (eq_iff p.owner_user_id user.id).0 (ground (arith, h));
      compatible = ground (arith, h);
      not_failing = λ s e. ground (arith, h, e);
    }

    developer_passes :
        DeveloperMay p user requested
        → assert_developer_can_start fold data_of r p user (or_else requested from_developer) ≡ ok p
    unfolding assert_developer_can_start
    developer_passes may =
        let owner : (p.owner_user_id == user.id) ≡ true =
          (eq_iff p.owner_user_id user.id).1 may.owner in
        elim (Option-cases (data_of.find_readiness p.id)) [
          | inl e ↦ ground (arith, e, owner, may.flow, may.compatible)
          | inr (s, e) ↦ ground (arith, e, owner, may.flow, may.compatible, may.not_failing s e)
        ]

    module _ (c : IsConsistent r) where
      connected_iff : (assert_connected fold p r ≡ ok tt) ↔ (is_connected fold p r ≡ true)
      connected_iff = (assert_connected_iff fold p r c).0

      pm_may :
          user.kind ≡ pm
          → assert_pm_can_start fold data_of r p user (or_else requested from_pm) ≡ ok p
          → PmMay p user requested
      unfolding assert_pm_can_start
      pm_may kind h = record {
        kind = kind;
        flow = ground (arith, h);
        member = ground (arith, h);
        enabled = ground (arith, h);
        connected = connected_iff.0 (ground (arith, h));
        ready = ground (arith, h);
      }

      pm_passes :
          PmMay p user requested
          → assert_pm_can_start fold data_of r p user (or_else requested from_pm) ≡ ok p
      unfolding assert_pm_can_start
      pm_passes may =
          let connected : assert_connected fold p r ≡ ok tt = connected_iff.1 may.connected in
          ground (arith, connected, may.flow, may.member, may.enabled, may.ready)

      by_kind_iff :
          (by_kind fold data_of r user.kind p user (or_else requested (default_source user.kind))
            ≡ ok p)
          ↔ (DeveloperMay p user requested ⊎ PmMay p user requested)
      unfolding assert_developer_can_start assert_pm_can_start
      by_kind_iff = (
        λ h. elim (kind_cases user.kind) [
          | inl kind ↦ inl (developer_may kind (rw kind at h))
          | inr kind ↦ inr (pm_may kind (rw kind at h))
        ],
        λ may. elim may [
          | inl d ↦ rw (d.kind) (developer_passes d)
          | inr m ↦ rw (m.kind) (pm_passes m)
        ],
      )

-- Over a consistent registry, a request to start a session is granted for a project exactly when
-- the project is the one asked for and its owner asks as a developer, whose connected agent is not
-- in conflict with the project and whose readiness is not failing; or a member asks as a PM, the
-- project is open to PMs, its agent is connected, and its readiness is confirmed.
pub assert_can_start_iff :
    (fold : String → String) (data_of : StartData) (r : Registry) (project_id : String)
    (user : Identity) (requested : Option SessionStartSource) (p : Project)
    → IsConsistent r
    → (assert_can_start fold data_of r project_id user requested ≡ ok p) ↔ (
        (data_of.find_project project_id ≡ some p)
        × (DeveloperMay fold data_of r p user requested ⊎ PmMay fold data_of r p user requested))
unfolding assert_can_start
assert_can_start_iff fold data_of r project_id user requested p c =
    let source = or_else requested (default_source user.kind) in
    (
      λ h. elim (Option-cases (data_of.find_project project_id)) [
        | inl missing ↦ absurd (ground (arith, h, missing))
        | inr (q, found) ↦
            let granted : by_kind fold data_of r user.kind q user source ≡ ok p =
              ground (arith, h, found) in
            let same : q ≡ p = same_project fold data_of r user.kind q p user source granted in
            (
              rw found (ap some same),
              (by_kind_iff fold data_of r p user requested c).0
                  (subst (λ x. by_kind fold data_of r user.kind x user source ≡ ok p) same granted),
            )
      ],
      λ (found, may). rw found ((by_kind_iff fold data_of r p user requested c).1 may),
    )
