-- ===== src/Agents/Binding/Laws.antt =====
-- What the checks of a project's binding establish, over a consistent registry.
use pair_dock.Prelude.{
  String, true, false, none, some, List, [], ◌∷◌, ◌==◌, ◌≡◌, refl, inl, inr, has_text, find, any,
  ok, arith, eq_iff, Option-cases, Bool-cases, ◌↔◌,
}
use pair_dock.Prelude.Dict.{get, values, find-values}
use pair_dock.Domain.{Project}
use pair_dock.Agents.Registry.{
  PublishedProject, ConnectedAgentSnapshot, Registry, publishes, list_snapshots, find_socket_id,
}
use pair_dock.Agents.Registry.Invariant.{IsConsistent}
use pair_dock.Agents.Registry.Lookup.{Publishes, find_socket_id-Publishes}
use pair_dock.Agents.Binding.{
  Binding, find_published, find_published_project, owner_agrees, matches_project, is_connected,
  assert_published_repository_matches, assert_connected,
}

found-any :
    (key : String) (ps : List PublishedProject) (p : PublishedProject)
    → find (λ c. c.key == key) ps ≡ some p
    → any (λ c. c.key == key) ps ≡ true
found-any key [] p h = cc
found-any key (q ∷ ps) p h = elim (Bool-cases (q.key == key)) [
  | inl same ↦ rw same
  | inr other ↦ rw other (found-any key ps p (rw other at h))
]

missing-any :
    (key : String) (ps : List PublishedProject)
    → find (λ c. c.key == key) ps ≡ none
    → any (λ c. c.key == key) ps ≡ false
missing-any key [] h = refl
missing-any key (q ∷ ps) h = elim (Bool-cases (q.key == key)) [
  | inl same ↦ absurd (ground arith)
  | inr other ↦ rw other (missing-any key ps (rw other at h))
]

find_published-publishes :
    (key : String) (xs : List ConnectedAgentSnapshot) (b : Binding)
    → find_published key xs ≡ some b
    → (x : ConnectedAgentSnapshot) × (find (publishes key) xs ≡ some x)
      × (find (λ c. c.key == key) x.projects ≡ some b.project)
      × (b.owner_user_id ≡ x.owner_user_id)
unfolding find_published
find_published-publishes key [] b h = cc
find_published-publishes key (x ∷ xs) b h =
    elim (Option-cases (find (λ c. c.key == key) x.projects)) [
      | inr (p, found) ↦ (x, rw (found-any key x.projects p found) refl, ground arith, ground arith)
      | inl missing ↦
          rw (missing-any key x.projects missing) (find_published-publishes key xs b (ground arith))
    ]

-- What the binding of a project to a connected agent consists of.
pub record IsBound (fold : String → String) (p : Project) (r : Registry) : Type 0 where
  pub agent_id : String
  pub socket_id : String
  pub snapshot : ConnectedAgentSnapshot
  pub project : PublishedProject
  pub registered : get agent_id r.snapshot_by_agent_id ≡ some snapshot
  pub connected : get agent_id r.socket_id_by_agent_id ≡ some socket_id
  pub listed : find (λ c. c.key == p.agent_project_key) snapshot.projects ≡ some project
  pub same_repository : fold project.repo_full_name ≡ fold p.repo_full_name
  pub same_owner : owner_agrees snapshot.owner_user_id p.owner_user_id ≡ true

module _ (fold : String → String) (p : Project) (r : Registry) (c : IsConsistent r) where
  find_published_project-IsBound :
      (b : Binding)
      → find_published_project p.agent_project_key r ≡ some b
      → matches_project fold b p ≡ true
      → IsBound fold p r
  unfolding find_published_project list_snapshots matches_project
  find_published_project-IsBound b h m =
      let (x, first, listed, owner) =
        find_published-publishes p.agent_project_key (values r.snapshot_by_agent_id) b h in
      let (a, e, _) =
        find-values (publishes p.agent_project_key) r.snapshot_by_agent_id c.distinct first in
      let (s, connected) = c.snapshot_connected a x e in
      record {
        agent_id = a;
        socket_id = s;
        snapshot = x;
        project = b.project;
        registered = e;
        connected = connected;
        listed = listed;
        same_repository = (eq_iff _ _).0 (ground arith);
        same_owner = rw (← owner) (ground arith);
      }

  IsBound-Publishes : (b : IsBound fold p r) → Publishes r p.agent_project_key b.agent_id
  IsBound-Publishes b = record {
    snapshot = b.snapshot;
    registered = b.registered;
    listed = found-any p.agent_project_key b.snapshot.projects b.project b.listed;
  }

  -- A bound project's key leads to a socket with a name that is not empty.
  IsBound-reachable : IsBound fold p r → has_text (find_socket_id p.agent_project_key r) ≡ true
  unfolding find_socket_id
  IsBound-reachable b = elim (Option-cases (get p.agent_project_key r.socket_id_by_agent_id)) [
    | inr (s, known) ↦ ground (
      arith,
      c.socket_truthy s p.agent_project_key (c.socket_of_agent s p.agent_project_key known),
    )
    | inl no_agent ↦ ground (
      arith,
      find_socket_id-Publishes r p.agent_project_key b.agent_id b.socket_id c (IsBound-Publishes b)
          b.connected no_agent,
      c.socket_truthy b.socket_id b.agent_id (c.socket_of_agent b.socket_id b.agent_id b.connected),
    )
  ]

  is_connected-IsBound : is_connected fold p r ≡ true → IsBound fold p r
  unfolding is_connected
  is_connected-IsBound h = elim (Option-cases (find_published_project p.agent_project_key r)) [
    | inl missing ↦ absurd (ground arith)
    | inr (b, found) ↦ find_published_project-IsBound b found (ground arith)
  ]

  assert-matches_iff :
      (assert_published_repository_matches fold p r ≡ ok tt) ↔ (is_connected fold p r ≡ true)
  unfolding assert_published_repository_matches is_connected
  assert-matches_iff = ground arith

-- Over a consistent registry a project passes `assertConnected` exactly when `isConnected` holds,
-- and then a connected agent publishes its key, for the same repository up to case and outer
-- space, and for the same owner where the agent has one.
pub assert_connected_iff :
    (fold : String → String) (p : Project) (r : Registry)
    → IsConsistent r
    → ((assert_connected fold p r ≡ ok tt) ↔ (is_connected fold p r ≡ true))
      × (assert_connected fold p r ≡ ok tt → IsBound fold p r)
unfolding assert_connected
assert_connected_iff fold p r c =
    let to : assert_connected fold p r ≡ ok tt → is_connected fold p r ≡ true =
      λ h. (assert-matches_iff fold p r c).0 (ground arith) in
    let from : is_connected fold p r ≡ true → assert_connected fold p r ≡ ok tt = λ h. ground (
      arith,
      (assert-matches_iff fold p r c).1 h,
      IsBound-reachable fold p r c (is_connected-IsBound fold p r c h),
    ) in
    ((to, from), λ h. is_connected-IsBound fold p r c (to h))
