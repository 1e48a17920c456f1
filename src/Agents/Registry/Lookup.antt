-- ===== src/Agents/Registry/Lookup.antt =====
-- The look-ups by socket, agent and project key, and what a disconnect leaves of them.
use pair_dock.Prelude.{
  String, true, none, some, ◌≡◌, ◌≢◌, refl, sym, subst, ◌∙◌, ◌⊎◌, inl, inr, arith, find,
  Option-cases,
}
use pair_dock.Prelude.Dict.{get, values, find-values, find-values-none, get-delete_self}
use pair_dock.Agents.Registry.{
  ConnectedAgentSnapshot, Registry, publishes, unregister, find_agent_id, find_socket_id,
  find_socket_id_by_project_key,
}
use pair_dock.Agents.Registry.Invariant.{IsConsistent}
use pair_dock.Agents.Registry.Unregister.{unregister-IsConsistent}

-- Agent `a` is connected through a socket and publishes a project under this key.
pub record Publishes (r : Registry) (key a : String) : Type 0 where
  pub snapshot : ConnectedAgentSnapshot
  pub registered : get a r.snapshot_by_agent_id ≡ some snapshot
  pub listed : publishes key snapshot ≡ true

find_by_key :
    (r : Registry) (key s : String)
    → IsConsistent r
    → find_socket_id_by_project_key key r ≡ some s
    → (a : String) × (get s r.agent_id_by_socket_id ≡ some a) × Publishes r key a
unfolding find_socket_id_by_project_key
find_by_key r key s c h =
    elim (Option-cases (find (publishes key) (values r.snapshot_by_agent_id))) [
      | inl missing ↦ absurd (ground arith)
      | inr (x, found) ↦
          let (a, e, p) = find-values (publishes key) r.snapshot_by_agent_id c.distinct found in
          let socket : get x.agent_id r.socket_id_by_agent_id ≡ some s = ground arith in
          (
            a,
            c.socket_of_agent s a
                (subst (λ n. get n r.socket_id_by_agent_id ≡ some s) (c.named a x e) socket),
            record { snapshot = x; registered = e; listed = p },
          )
    ]

-- Over a consistent registry, a socket that is found for an agent or a project key is the one of
-- that agent, or of an agent that publishes the key.
pub find_socket_id_sound :
    (r : Registry) (id s : String)
    → IsConsistent r
    → find_socket_id id r ≡ some s
    → (a : String) × (get s r.agent_id_by_socket_id ≡ some a) × ((a ≡ id) ⊎ Publishes r id a)
unfolding find_socket_id
find_socket_id_sound r id s c h = elim (Option-cases (get id r.socket_id_by_agent_id)) [
  | inr (t, known) ↦
      let same : t ≡ s = ground arith in
      (
        id,
        c.socket_of_agent s id (subst (λ u. get id r.socket_id_by_agent_id ≡ some u) same known),
        inl refl,
      )
  | inl unknown ↦ let (a, e, p) = find_by_key r id s c (ground arith) in (a, e, inr p)
]

find_agent_id-unregister :
    (r : Registry) (socket : String)
    → IsConsistent r
    → find_agent_id socket (unregister socket r) ≡ none
unfolding find_agent_id unregister
find_agent_id-unregister r socket c = elim (Option-cases (get socket r.agent_id_by_socket_id)) [
  | inl missing ↦ ground arith
  | inr (a, known) ↦
      ground (arith, c.agent_truthy socket a known, get-delete_self socket r.agent_id_by_socket_id)
]

not_found :
    (r : Registry) (socket id : String)
    → IsConsistent r
    → find_agent_id socket r ≡ none
    → find_socket_id id r ≢ some socket
unfolding find_agent_id
not_found r socket id c gone h = let (a, e, _) = find_socket_id_sound r id socket c h in cc

-- Once a socket of a consistent registry is unregistered, it stands for no agent, and no agent id
-- and no project key leads to it.
pub unregister_forgets :
    (r : Registry) (socket id : String)
    → IsConsistent r
    → (find_agent_id socket (unregister socket r) ≡ none)
      × (find_socket_id id (unregister socket r) ≢ some socket)
unregister_forgets r socket id c =
    let gone = find_agent_id-unregister r socket c in
    (gone, not_found (unregister socket r) socket id (unregister-IsConsistent socket r c) gone)

-- The socket of an agent is found under each of its project keys that is no agent's id.
pub find_socket_id-Publishes :
    (r : Registry) (key a s : String)
    → IsConsistent r
    → Publishes r key a
    → get a r.socket_id_by_agent_id ≡ some s
    → get key r.socket_id_by_agent_id ≡ none
    → find_socket_id key r ≡ some s
unfolding find_socket_id
find_socket_id-Publishes r key a s c p connected no_agent =
    elim (Option-cases (find (publishes key) (values r.snapshot_by_agent_id))) [
      | inl missing ↦
          let unlisted =
            find-values-none (publishes key) r.snapshot_by_agent_id a missing p.registered in
          absurd (ground (arith, p.listed))
      | inr (y, found) ↦
          let (b, e, q) = find-values (publishes key) r.snapshot_by_agent_id c.distinct found in
          let same : y.agent_id ≡ a =
            c.named b y e ∙ c.exclusive key b a y p.snapshot e p.registered q p.listed in
          ground (arith, subst (λ n. get n r.socket_id_by_agent_id ≡ some s) (sym same) connected)
    ]
