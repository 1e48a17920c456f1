-- ===== src/Agents/Registry/Unregister.antt =====
-- A disconnected socket leaves the registry with its agent, and the registry stays consistent.
use pair_dock.Prelude.{
  String, false, some, ◌==◌, ◌≡◌, sym, subst, inl, inr, eq_iff, arith, Option-cases,
}
use pair_dock.Prelude.Dict.{Dict, get, delete, get-delete, delete-Distinct}
use pair_dock.Agents.Registry.{Registry, unregister}
use pair_dock.Agents.Registry.Invariant.{IsConsistent}

module _ (socket a : String) (r : Registry) (c : IsConsistent r)
    (known : get socket r.agent_id_by_socket_id ≡ some a) where
  abbrev without : Registry
  without = record {
    agent_id_by_socket_id = delete socket r.agent_id_by_socket_id;
    socket_id_by_agent_id = delete a r.socket_id_by_agent_id;
    snapshot_by_agent_id = delete a r.snapshot_by_agent_id;
  }

  unregister-without : unregister socket r ≡ without
  unfolding unregister
  unregister-without = ground (arith, c.agent_truthy socket a known)

  without-agent_of_socket :
      (s b : String)
      → get s without.agent_id_by_socket_id ≡ some b
      → get b without.socket_id_by_agent_id ≡ some s
  without-agent_of_socket s b h = ground (
    arith,
    get-delete socket s r.agent_id_by_socket_id,
    get-delete a b r.socket_id_by_agent_id,
    eq_iff socket s,
    eq_iff a b,
    c.agent_of_socket s b,
    c.agent_of_socket socket a known,
  )

  without-socket_of_agent :
      (s b : String)
      → get b without.socket_id_by_agent_id ≡ some s
      → get s without.agent_id_by_socket_id ≡ some b
  without-socket_of_agent s b h = ground (
    arith,
    get-delete socket s r.agent_id_by_socket_id,
    get-delete a b r.socket_id_by_agent_id,
    eq_iff socket s,
    eq_iff a b,
    c.socket_of_agent s b,
    known,
  )

  -- What is left of a map was there before, under another key.
  left {ℓ} :
      {V : Type ℓ} (b : String) (m : Dict V) {v : V}
      → get b (delete a m) ≡ some v
      → ((a == b) ≡ false) × (get b m ≡ some v)
  left b m h = ground (arith, get-delete a b m)

  without-IsConsistent : IsConsistent without
  without-IsConsistent = record {
    agent_of_socket = without-agent_of_socket;
    socket_of_agent = without-socket_of_agent;
    named = λ b y h. c.named b y (left b r.snapshot_by_agent_id h).1;
    snapshot_connected = λ b y h.
        let (other, old) = left b r.snapshot_by_agent_id h in
        let (s, e) = c.snapshot_connected b y old in
        (s, ground (arith, get-delete a b r.socket_id_by_agent_id));
    agent_snapshot = λ s b h.
        let (other, old) = left b r.socket_id_by_agent_id h in
        let (y, e) = c.agent_snapshot s b old in
        (y, ground (arith, get-delete a b r.snapshot_by_agent_id));
    socket_truthy =
        λ s b h. c.socket_truthy s b (ground (arith, get-delete socket s r.agent_id_by_socket_id));
    agent_truthy =
        λ s b h. c.agent_truthy s b (ground (arith, get-delete socket s r.agent_id_by_socket_id));
    exclusive = λ key b d y z hb hd kb kd.
        c.exclusive key b d y z (left b r.snapshot_by_agent_id hb).1
          (left d r.snapshot_by_agent_id hd).1 kb kd;
    distinct = delete-Distinct a r.snapshot_by_agent_id c.distinct;
  }

-- Unregistering any socket keeps a consistent registry consistent.
pub unregister-IsConsistent :
    (socket : String) (r : Registry) → IsConsistent r → IsConsistent (unregister socket r)
unfolding unregister
unregister-IsConsistent socket r c = elim (Option-cases (get socket r.agent_id_by_socket_id)) [
  | inl missing ↦ rw (missing, unregister) c
  | inr (a, known) ↦
      subst IsConsistent (sym (unregister-without socket a r c known))
        (without-IsConsistent socket a r c known)
]
