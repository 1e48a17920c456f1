-- ===== src/Agents/Registry/Register.antt =====
-- `register` keeps the registry consistent.
use pair_dock.Prelude.{
  String, Bool, true, false, some, ◌==◌, ◌≡◌, sym, subst, ◌∙◌, ◌⊎◌, inl, inr, eq_iff, arith,
  Bool-cases, truthy, ok,
}
use pair_dock.Prelude.Dict.{get, Distinct, get-set, set-Distinct}
use pair_dock.Agents.Registry.{
  ConnectedAgentSnapshot, Registry, publishes, store, register, keep_text,
}
use pair_dock.Agents.Registry.Invariant.{
  IsConsistent, Registered, register-Registered, check_projects_passed,
}

module _ (socket : String) (x : ConnectedAgentSnapshot) (r : Registry) (c : IsConsistent r)
    (g : Registered socket x r (store socket x r)) (ts : truthy socket ≡ true)
    (ta : truthy x.agent_id ≡ true) where
  abbrev kept : ConnectedAgentSnapshot
  kept = record x { owner_user_id = keep_text x.owner_user_id }

  store-agent_of_socket :
      (s a : String)
      → get s (store socket x r).agent_id_by_socket_id ≡ some a
      → get a (store socket x r).socket_id_by_agent_id ≡ some s
  unfolding store
  store-agent_of_socket s a h = ground (
    arith,
    get-set socket s x.agent_id r.agent_id_by_socket_id,
    get-set x.agent_id a socket r.socket_id_by_agent_id,
    eq_iff socket s,
    eq_iff x.agent_id a,
    c.agent_of_socket s a,
    c.socket_truthy s a,
    g.same_socket s,
  )

  store-socket_of_agent :
      (s a : String)
      → get a (store socket x r).socket_id_by_agent_id ≡ some s
      → get s (store socket x r).agent_id_by_socket_id ≡ some a
  unfolding store
  store-socket_of_agent s a h = ground (
    arith,
    get-set socket s x.agent_id r.agent_id_by_socket_id,
    get-set x.agent_id a socket r.socket_id_by_agent_id,
    eq_iff socket s,
    eq_iff x.agent_id a,
    c.socket_of_agent s a,
    c.agent_truthy s a,
    g.same_agent a,
  )

  store-named :
      (a : String) (y : ConnectedAgentSnapshot)
      → get a (store socket x r).snapshot_by_agent_id ≡ some y
      → y.agent_id ≡ a
  unfolding store
  store-named a y h =
      ground
        (arith, get-set x.agent_id a kept r.snapshot_by_agent_id, eq_iff x.agent_id a, c.named a y)

  store-snapshot_connected :
      (a : String) (y : ConnectedAgentSnapshot)
      → get a (store socket x r).snapshot_by_agent_id ≡ some y
      → (s : String) × (get a (store socket x r).socket_id_by_agent_id ≡ some s)
  unfolding store
  store-snapshot_connected a y h = elim (Bool-cases (x.agent_id == a)) [
    | inl same ↦ (socket, ground (arith, get-set x.agent_id a socket r.socket_id_by_agent_id))
    | inr other ↦
        let (s, e) =
          c.snapshot_connected a y
            (ground (arith, get-set x.agent_id a kept r.snapshot_by_agent_id)) in
        (s, ground (arith, get-set x.agent_id a socket r.socket_id_by_agent_id))
  ]

  store-agent_snapshot :
      (s a : String)
      → get a (store socket x r).socket_id_by_agent_id ≡ some s
      → (y : ConnectedAgentSnapshot) × (get a (store socket x r).snapshot_by_agent_id ≡ some y)
  unfolding store
  store-agent_snapshot s a h = elim (Bool-cases (x.agent_id == a)) [
    | inl same ↦ (kept, ground (arith, get-set x.agent_id a kept r.snapshot_by_agent_id))
    | inr other ↦
        let (y, e) =
          c.agent_snapshot s a
            (ground (arith, get-set x.agent_id a socket r.socket_id_by_agent_id)) in
        (y, ground (arith, get-set x.agent_id a kept r.snapshot_by_agent_id))
  ]

  store-truthy :
      (s a : String)
      → get s (store socket x r).agent_id_by_socket_id ≡ some a
      → (truthy s ≡ true) × (truthy a ≡ true)
  unfolding store
  store-truthy s a h = elim (Bool-cases (socket == s)) [
    | inl same ↦ (
      rw (← (eq_iff socket s).0 same) ts,
      let e : x.agent_id ≡ a =
            ground (arith, get-set socket s x.agent_id r.agent_id_by_socket_id) in
          rw (← e) ta,
    )
    | inr other ↦
        let e : get s r.agent_id_by_socket_id ≡ some a =
          ground (arith, get-set socket s x.agent_id r.agent_id_by_socket_id) in
        (c.socket_truthy s a e, c.agent_truthy s a e)
  ]

  store-Distinct : Distinct (store socket x r).snapshot_by_agent_id
  unfolding store
  store-Distinct = set-Distinct x.agent_id kept r.snapshot_by_agent_id c.distinct

  -- A snapshot in the new map is the announced one, or an old one of another agent.
  store-snapshot :
      (a : String) (y : ConnectedAgentSnapshot)
      → get a (store socket x r).snapshot_by_agent_id ≡ some y
      → ((a ≡ x.agent_id) × (y ≡ kept))
        ⊎ (((a == x.agent_id) ≡ false) × (get a r.snapshot_by_agent_id ≡ some y))
  unfolding store
  store-snapshot a y h = ground (
    arith,
    get-set x.agent_id a kept r.snapshot_by_agent_id,
    eq_iff x.agent_id a,
    eq_iff a x.agent_id,
  )

  -- The announced projects are new to all other agents.
  store-free :
      (key b : String) (y : ConnectedAgentSnapshot)
      → publishes key x ≡ true
      → get b r.snapshot_by_agent_id ≡ some y
      → (b == x.agent_id) ≡ false
      → publishes key y ≡ false
  store-free key b y k e other =
      check_projects_passed x.agent_id key b x.projects r.snapshot_by_agent_id y g.unclaimed k e
        (rw (c.named b y e) other)

  clash : {t : Bool} → t ≡ false → t ≡ true → {A : Type 0} → A
  clash off on = cc

  store-exclusive :
      (key a b : String) (y z : ConnectedAgentSnapshot)
      → get a (store socket x r).snapshot_by_agent_id ≡ some y
      → get b (store socket x r).snapshot_by_agent_id ≡ some z
      → publishes key y ≡ true
      → publishes key z ≡ true
      → a ≡ b
  store-exclusive key a b y z ha hb ka kb = elim (store-snapshot a y ha) [
    | inl (new_a, same_y) ↦ elim (store-snapshot b z hb) [
      | inl (new_b, same_z) ↦ new_a ∙ sym new_b
      | inr (old_b, e) ↦
          clash (store-free key b z (subst (λ w. publishes key w ≡ true) same_y ka) e old_b) kb
    ]
    | inr (old_a, d) ↦ elim (store-snapshot b z hb) [
      | inl (new_b, same_z) ↦
          clash (store-free key a y (subst (λ w. publishes key w ≡ true) same_z kb) d old_a) ka
      | inr (old_b, e) ↦ c.exclusive key a b y z d e ka kb
    ]
  ]

-- A registration that is accepted, of a socket and an agent with names that are not empty, keeps
-- a consistent registry consistent.
pub register-IsConsistent :
    (socket : String) (x : ConnectedAgentSnapshot) (r r' : Registry)
    → IsConsistent r
    → truthy socket ≡ true
    → truthy x.agent_id ≡ true
    → register socket x r ≡ ok r'
    → IsConsistent r'
register-IsConsistent socket x r r' c ts ta h =
    let g = register-Registered socket x r r' h in
    let k : Registered socket x r (store socket x r) = subst (Registered socket x r) g.stored g in
    let kept_all : IsConsistent (store socket x r) = record {
      agent_of_socket = store-agent_of_socket socket x r c k ts ta;
      socket_of_agent = store-socket_of_agent socket x r c k ts ta;
      named = store-named socket x r c k ts ta;
      snapshot_connected = store-snapshot_connected socket x r c k ts ta;
      agent_snapshot = store-agent_snapshot socket x r c k ts ta;
      socket_truthy = λ s a e. (store-truthy socket x r c k ts ta s a e).0;
      agent_truthy = λ s a e. (store-truthy socket x r c k ts ta s a e).1;
      exclusive = store-exclusive socket x r c k ts ta;
      distinct = store-Distinct socket x r c k ts ta;
    } in
    rw g.stored kept_all
