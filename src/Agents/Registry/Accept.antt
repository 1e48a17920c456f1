-- ===== src/Agents/Registry/Accept.antt =====
-- When a registration is accepted, and what can be looked up behind it.
use pair_dock.Prelude.{
  String, true, not, ◌&&◌, Option, none, some, List, [], ◌∷◌, ◌==◌, ◌≡◌, refl, inl, inr, eq_iff,
  eq_refl, arith, truthy, any, ok, Option-cases,
}
use pair_dock.Prelude.Dict.{get, find-values, get-set_self}
use pair_dock.Agents.Registry.{
  PublishedProject, ConnectedAgentSnapshot, Registry, RegisterError, already_connected,
  socket_registered, publishes, check_other, find_conflict, check_projects, store, register,
  keep_text, find_agent_id, find_socket_id,
}
use pair_dock.Agents.Registry.Invariant.{IsConsistent}
use pair_dock.Agents.Registry.Register.{register-IsConsistent}
use pair_dock.Agents.Registry.Lookup.{Publishes, find_socket_id-Publishes}

-- No other agent publishes one of the keys of `x`, agent `x.agent_id` has no other socket, and the
-- socket has no other agent.
pub record IsFree (socket : String) (x : ConnectedAgentSnapshot) (r : Registry) : Type 0 where
  pub one_socket : (s : String) → get x.agent_id r.socket_id_by_agent_id ≡ some s → s ≡ socket
  pub one_agent : (a : String) → get socket r.agent_id_by_socket_id ≡ some a → a ≡ x.agent_id
  pub own_keys : (key a : String) → publishes key x ≡ true → Publishes r key a → a ≡ x.agent_id

check_other_free :
    (previous : Option String) (current : String) (refused : String → RegisterError)
    → ((p : String) → previous ≡ some p → p ≡ current)
    → check_other previous current refused ≡ ok tt
unfolding check_other
check_other_free none current refused same = refl
check_other_free (some p) current refused same = ground (arith, same p refl, eq_iff p current)

module _ (agent_id : String) (r : Registry) (c : IsConsistent r) where
  free_key :
      (key : String)
      → ((a : String) → Publishes r key a → a ≡ agent_id)
      → find_conflict agent_id key r.snapshot_by_agent_id ≡ none
  unfolding find_conflict
  free_key key own = elim (Option-cases (find_conflict agent_id key r.snapshot_by_agent_id)) [
    | inl free ↦ free
    | inr (y, found) ↦
        let (a, e, p) =
          find-values (λ s. not (s.agent_id == agent_id) && publishes key s) r.snapshot_by_agent_id
            c.distinct found in
        let listed : publishes key y ≡ true = ground arith in
        let mine : a ≡ agent_id =
          own a (record { snapshot = y; registered = e; listed = listed }) in
        absurd (ground (arith, c.named a y e, eq_iff y.agent_id agent_id))
  ]

  free_keys :
      (ps : List PublishedProject)
      → ((key a : String) → any (λ p. p.key == key) ps ≡ true → Publishes r key a → a ≡ agent_id)
      → check_projects agent_id ps r.snapshot_by_agent_id ≡ ok tt
  unfolding check_projects
  free_keys [] own = refl
  free_keys (p ∷ ps) own = ground (
    arith,
    free_key p.key (λ a. own p.key a (rw (eq_refl p.key) refl)),
    free_keys ps (λ key a k. own key a (ground arith)),
  )

module _ (socket : String) (x : ConnectedAgentSnapshot) (r : Registry) where
  register-store : IsConsistent r → IsFree socket x r → register socket x r ≡ ok (store socket x r)
  unfolding register
  register-store c free = ground (
    arith,
    check_other_free (get x.agent_id r.socket_id_by_agent_id) socket
        (λ _. already_connected x.agent_id) free.one_socket,
    check_other_free (get socket r.agent_id_by_socket_id) x.agent_id (socket_registered socket)
        free.one_agent,
    free_keys x.agent_id r c x.projects free.own_keys,
  )

  store-lookups :
      (find_agent_id socket (store socket x r) ≡ some x.agent_id)
      × (get x.agent_id (store socket x r).socket_id_by_agent_id ≡ some socket)
      × (find_socket_id x.agent_id (store socket x r) ≡ some socket)
  unfolding find_agent_id find_socket_id store
  store-lookups =
      let own = get-set_self x.agent_id socket r.socket_id_by_agent_id in
      (get-set_self socket x.agent_id r.agent_id_by_socket_id, own, ground arith)

  store-Publishes :
      (key : String) → publishes key x ≡ true → Publishes (store socket x r) key x.agent_id
  unfolding store
  store-Publishes key k = record {
    snapshot = record x { owner_user_id = keep_text x.owner_user_id };
    registered = get-set_self x.agent_id _ r.snapshot_by_agent_id;
    listed = k;
  }

-- Over a consistent registry, a registration of a socket and an agent with names that are not
-- empty, which conflicts with no other socket, agent or project key, is accepted; then the
-- socket stands for the agent, and the agent's id and each of its project keys that is no agent's
-- id lead to the socket.
pub register_accepts :
    (socket : String) (x : ConnectedAgentSnapshot) (r : Registry)
    → IsConsistent r
    → truthy socket ≡ true
    → truthy x.agent_id ≡ true
    → IsFree socket x r
    → (r' : Registry) × (register socket x r ≡ ok r')
      × (find_agent_id socket r' ≡ some x.agent_id)
      × (find_socket_id x.agent_id r' ≡ some socket)
      × ((key : String)
          → publishes key x ≡ true
          → get key r'.socket_id_by_agent_id ≡ none
          → find_socket_id key r' ≡ some socket)
register_accepts socket x r c ts ta free =
    let accepted = register-store socket x r c free in
    let (agent, own, id) = store-lookups socket x r in
    (
      store socket x r,
      accepted,
      agent,
      id,
      λ key k no_agent.
          find_socket_id-Publishes (store socket x r) key x.agent_id socket
            (register-IsConsistent socket x r (store socket x r) c ts ta accepted)
            (store-Publishes socket x r key k) own no_agent,
    )
