-- ===== src/Runner/Accounts.antt =====
-- The account of what runs: every sandbox and tunnel that runs for a session is the one that a
-- workspace of that session refers to.
use pair_dock.Prelude.{
  String, true, false, not, Option, none, some, List, ◌∷◌, ◌==◌, ◌≡◌, ap, ◌∙◌, inl, inr, Bool-cases,
  All, All-keep, All-map, if◌then◌else◌, eq_iff, arith, is_ok,
}
use pair_dock.Workspaces.Sandbox.{SessionWorkspace}
use pair_dock.Workspaces.{SessionRegistry, find_persisted}
use pair_dock.Runner.Ports.{RunnerPorts}
use pair_dock.Runner.{Running, Host, stopped}

abbrev pub sandbox_id : Option SessionWorkspace → Option String
sandbox_id none = none
sandbox_id (some w) = elim w.sandbox_ref [ none ↦ none | some ref ↦ some ref.id ]

abbrev pub tunnel_id : Option SessionWorkspace → Option String
tunnel_id none = none
tunnel_id (some w) = elim w.tunnel_ref [ none ↦ none | some ref ↦ some ref.id ]

-- What runs is what these workspaces refer to.
abbrev pub Covered : (String → Option String) → List Running → Type 0
Covered refs = All (λ r. refs r.owner ≡ some r.ref_id)

pub record AccountedBy {W : Type 0} (known : String → Option SessionWorkspace) (host : Host W)
    : Type 0 where
  pub sandboxes : Covered (λ i. sandbox_id (known i)) host.sandboxes
  pub tunnels : Covered (λ i. tunnel_id (known i)) host.tunnels

-- Everything that runs is recorded by the persisted workspace of its session.
abbrev pub Accounted : {W : Type 0} → Host W → Type 0
Accounted host = AccountedBy (λ i. find_persisted i host.registry) host

-- The persisted workspaces, but for one session, whose workspace is in a variable.
abbrev pub overlay : String → SessionWorkspace → SessionRegistry → String → Option SessionWorkspace
overlay id w r i = if id == i then some w else find_persisted i r

-- The store never refuses a save.
abbrev pub SaveWorks : RunnerPorts → Type 0
SaveWorks P =
    (contents : List SessionWorkspace) (world : P.World) → is_ok (P.save contents world).1 ≡ true

module _ {W : Type 0} where
  pub AccountedBy-same :
      (known known' : String → Option SessionWorkspace) (host host' : Host W)
      → ((i : String) → sandbox_id (known' i) ≡ sandbox_id (known i))
      → ((i : String) → tunnel_id (known' i) ≡ tunnel_id (known i))
      → host'.sandboxes ≡ host.sandboxes
      → host'.tunnels ≡ host.tunnels
      → AccountedBy known host
      → AccountedBy known' host'
  AccountedBy-same known known' host host' s t p q a = record {
    sandboxes = rw p (All-map _ _ (λ r h. s r.owner ∙ h) host.sandboxes a.sandboxes);
    tunnels = rw q (All-map _ _ (λ r h. t r.owner ∙ h) host.tunnels a.tunnels);
  }

pub Covered-start :
    (refs refs' : String → Option String) (id owner ref_id : String) (running : List Running)
    → owner ≡ id
    → refs id ≡ none
    → refs' id ≡ some ref_id
    → ((i : String) → (id == i) ≡ false → refs' i ≡ refs i)
    → Covered refs running
    → Covered refs' (record { owner = owner; ref_id = ref_id } ∷ running)
Covered-start refs refs' id owner ref_id running own free now others c = (
  ap refs' own ∙ now,
  All-map _ _
      (λ r h. elim (Bool-cases (id == r.owner)) [
        | inl own ↦
            let e : refs id ≡ some r.ref_id = ap refs ((eq_iff id r.owner).0 own) ∙ h in
            absurd (cc (free, e))
        | inr other ↦ others r.owner other ∙ h
      ])
      running c,
)

pub Covered-stop :
    (refs refs' : String → Option String) (id ref_id : String) (running : List Running)
    → refs id ≡ some ref_id
    → ((i : String) → (id == i) ≡ false → refs' i ≡ refs i)
    → Covered refs running
    → Covered refs' (stopped ref_id running)
Covered-stop refs refs' id ref_id running had others c =
    All-keep _ _ (λ r. not (r.ref_id == ref_id))
      (λ r kept h. elim (Bool-cases (id == r.owner)) [
        | inl own ↦
            let e : refs id ≡ some r.ref_id = ap refs ((eq_iff id r.owner).0 own) ∙ h in
            let same : r.ref_id ≡ ref_id = cc (e, had) in
            absurd (ground (arith, eq_iff r.ref_id ref_id))
        | inr other ↦ others r.owner other ∙ h
      ])
      running c
