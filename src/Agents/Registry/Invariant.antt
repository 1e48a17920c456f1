-- ===== src/Agents/Registry/Invariant.antt =====
-- The three maps of the registry stay in step.
use pair_dock.Prelude.{
  String, true, false, not, ◌&&◌, Option, none, some, List, [], ◌∷◌, ◌==◌, ◌≡◌, subst, inl, inr,
  eq_iff, arith, Bool-cases, truthy, any, ok, Option-cases,
}
use pair_dock.Prelude.Dict.{Dict, get, Distinct, find-values-none}
use pair_dock.Agents.Registry.{
  PublishedProject, ConnectedAgentSnapshot, Registry, RegisterError, already_connected,
  socket_registered, publishes, check_other, find_conflict, check_projects, store, register,
}

-- A socket stands for one agent and an agent for one socket, an agent has a snapshot exactly while
-- it has a socket, and no project key is published by two agents.
pub record IsConsistent (r : Registry) : Type 0 where
  pub agent_of_socket :
      (s a : String)
      → get s r.agent_id_by_socket_id ≡ some a
      → get a r.socket_id_by_agent_id ≡ some s
  pub socket_of_agent :
      (s a : String)
      → get a r.socket_id_by_agent_id ≡ some s
      → get s r.agent_id_by_socket_id ≡ some a
  pub named :
      (a : String) (x : ConnectedAgentSnapshot)
      → get a r.snapshot_by_agent_id ≡ some x
      → x.agent_id ≡ a
  pub snapshot_connected :
      (a : String) (x : ConnectedAgentSnapshot)
      → get a r.snapshot_by_agent_id ≡ some x
      → (s : String) × (get a r.socket_id_by_agent_id ≡ some s)
  pub agent_snapshot :
      (s a : String)
      → get a r.socket_id_by_agent_id ≡ some s
      → (x : ConnectedAgentSnapshot) × (get a r.snapshot_by_agent_id ≡ some x)
  pub socket_truthy : (s a : String) → get s r.agent_id_by_socket_id ≡ some a → truthy s ≡ true
  pub agent_truthy : (s a : String) → get s r.agent_id_by_socket_id ≡ some a → truthy a ≡ true
  pub exclusive :
      (key a b : String) (x y : ConnectedAgentSnapshot)
      → get a r.snapshot_by_agent_id ≡ some x
      → get b r.snapshot_by_agent_id ≡ some y
      → publishes key x ≡ true
      → publishes key y ≡ true
      → a ≡ b
  pub distinct : Distinct r.snapshot_by_agent_id

check_other_passed :
    (previous : Option String) (current p : String) (refused : String → RegisterError)
    → check_other previous current refused ≡ ok tt
    → previous ≡ some p
    → truthy p ≡ true
    → p ≡ current
unfolding check_other
check_other_passed none current p refused h e t = cc
check_other_passed (some q) current p refused h e t = ground (arith, eq_iff q current)

-- What `register` has checked when it returns, and what it returns.
pub record Registered (socket_id : String) (x : ConnectedAgentSnapshot) (r r' : Registry)
    : Type 0 where
  pub same_socket :
      (s : String)
      → get x.agent_id r.socket_id_by_agent_id ≡ some s
      → truthy s ≡ true
      → s ≡ socket_id
  pub same_agent :
      (a : String)
      → get socket_id r.agent_id_by_socket_id ≡ some a
      → truthy a ≡ true
      → a ≡ x.agent_id
  pub unclaimed : check_projects x.agent_id x.projects r.snapshot_by_agent_id ≡ ok tt
  pub stored : r' ≡ store socket_id x r

pub register-Registered :
    (socket_id : String) (x : ConnectedAgentSnapshot) (r r' : Registry)
    → register socket_id x r ≡ ok r'
    → Registered socket_id x r r'
unfolding register
register-Registered socket_id x r r' h = record {
  same_socket = λ s.
      check_other_passed (get x.agent_id r.socket_id_by_agent_id) socket_id s
        (λ _. already_connected x.agent_id) (ground arith);
  same_agent = λ a.
      check_other_passed (get socket_id r.agent_id_by_socket_id) x.agent_id a
        (socket_registered socket_id) (ground arith);
  unclaimed = ground arith;
  stored = ground arith;
}

unpublished :
    (agent_id key b k : String) (m : Dict ConnectedAgentSnapshot) (y : ConnectedAgentSnapshot)
    → find_conflict agent_id k m ≡ none
    → k ≡ key
    → get b m ≡ some y
    → (y.agent_id == agent_id) ≡ false
    → publishes key y ≡ false
unfolding find_conflict
unpublished agent_id key b k m y free same e other =
    let miss = find-values-none (λ s. not (s.agent_id == agent_id) && publishes k s) m b free e in
    subst (λ t. publishes t y ≡ false) same (ground arith)

-- A project that passed the check is published by no other agent.
pub check_projects_passed :
    (agent_id key b : String) (ps : List PublishedProject) (m : Dict ConnectedAgentSnapshot)
    (y : ConnectedAgentSnapshot)
    → check_projects agent_id ps m ≡ ok tt
    → any (λ p. p.key == key) ps ≡ true
    → get b m ≡ some y
    → (y.agent_id == agent_id) ≡ false
    → publishes key y ≡ false
unfolding check_projects
check_projects_passed agent_id key b [] m y h k e other = cc
check_projects_passed agent_id key b (p ∷ ps) m y h k e other =
    elim (Option-cases (find_conflict agent_id p.key m)) [
      | inr (z, conflict) ↦ absurd (ground arith)
      | inl free ↦ elim (Bool-cases (p.key == key)) [
        | inl same ↦ unpublished agent_id key b p.key m y free ((eq_iff p.key key).0 same) e other
        | inr differs ↦
            check_projects_passed agent_id key b ps m y (ground arith) (rw differs at k) e other
      ]
    ]
