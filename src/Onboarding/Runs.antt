-- ===== src/Onboarding/Runs.antt =====
-- The service over all its requests: what it leaves after any of them.
use pair_dock.Prelude.{
  ℕ, ◌+◌, String, Bool, true, false, Option, none, some, List, [], ◌∷◌, length, Result, ok, err,
  ◌≡◌, refl, All, arith, ◌<>◌,
}
use pair_dock.Prelude.Actions.{continue, ◌>>=◌, ◌>>◌}
use pair_dock.Domain.{Identity}
use pair_dock.Agents.Delivery.{Network}
use pair_dock.Onboarding.{
  Pairing, OnboardingError, Onboarding, ClaimResult, PairingClaim, Act, allow_public,
  allow_authenticated, require_developer, start, check_claimable, claim_input, claim_answer, claim,
  claim_pairing, details, details_of, approve, approved, approve_pairing, revoke, revoked,
  revoke_agent, create_pairing, has_code, find_entry, pairing_ttl_ms,
}
use pair_dock.Onboarding.Enrolled.{Backed, claims, revoke-IsEnrolled}
use pair_dock.Onboarding.Requests.{
  InOrder, FindsById, create_pairing-InOrder, approve_pairing-InOrder, claim_pairing-InOrder,
}

-- The requests, with the random codes and the times that they are served with.
pub data Request : Type 0 where
  starts : (device_name remote_address id device_code user_code : String) → (now : ℕ) → Request
  claims_with : (device_code remote_address uuid token : String) → (now later : ℕ) → Request
  approves : (user_code : String) → Option Identity → (now later : ℕ) → Request
  revokes : (agent_id : String) → Option Identity → (now : ℕ) → Request

module _ (hash : String → String) (find_user : String → Option Identity) (net : Network) where
  abbrev pub perform : Request → Onboarding → Onboarding
  perform (starts device address id device_code user_code now) state =
      (start hash device address id device_code user_code now state).0
  perform (claims_with device_code address uuid token now later) state =
      (claim hash find_user device_code address uuid token now later state).0
  perform (approves user_code user now later) state = (approve user_code user now later state).0
  perform (revokes agent_id user now) state = (revoke net agent_id user now state).0

  unfoldable pub perform_all : List Request → Onboarding → Onboarding
  perform_all [] state = state
  perform_all (request ∷ requests) state = perform_all requests (perform request state)

continue-InOrder :
    {A B : Type 0} (p : Onboarding × Result OnboardingError A) (next : A → Act B)
    → InOrder p.0
    → ((a : A) (state : Onboarding) → InOrder state → InOrder (next a state).0)
    → InOrder (continue p next).0
continue-InOrder (state, ok a) next e keeps = keeps a state e
continue-InOrder (state, err x) next e keeps = e

require_developer-InOrder :
    (user : Option Identity) (state : Onboarding)
    → InOrder state
    → InOrder (require_developer user state).0
require_developer-InOrder none state e = e
require_developer-InOrder (some user) state e = ground (arith, e)

check-InOrder :
    (code_hash : String) (now : ℕ) (hash : String → String) (state : Onboarding)
    → InOrder state
    → InOrder (check_claimable hash code_hash now state).0
check-InOrder code_hash now hash state e = ground (arith, e)

start-InOrder :
    (hash : String → String) (device address id device_code user_code : String) (now : ℕ)
    (state : Onboarding)
    → InOrder state
    → InOrder (start hash device address id device_code user_code now state).0
unfolding start
start-InOrder hash device address id device_code user_code now state e =
    continue-InOrder (allow_public ("start:" <> address) 30 now state)
      (λ _. create_pairing id (record {
        device_code_hash = hash device_code;
        user_code = user_code;
        device_name = device;
        expires_at = now + pairing_ttl_ms;
        owner_user_id = none;
        approved_at = none;
        claimed_at = none;
      }))
      e (λ _ s o. create_pairing-InOrder id _ s refl o)

claim-InOrder :
    (hash : String → String) (find_user : String → Option Identity)
    (device_code address uuid token : String) (now later : ℕ) (state : Onboarding)
    → FindsById find_user
    → InOrder state
    → InOrder (claim hash find_user device_code address uuid token now later state).0
unfolding claim
claim-InOrder hash find_user device_code address uuid token now later state by_id e =
    let input = claim_input hash device_code ("agent-" <> uuid) token later in
    let answer : ClaimResult → Act PairingClaim =
      λ result s. (s, claim_answer hash input token result) in
    let device = allow_public ("device:" <> hash device_code) 125 now in
    continue-InOrder (allow_public ("claims:" <> address) 2400 now state)
      (λ _.
        check_claimable hash (hash device_code) now
        >> (device >> (claim_pairing find_user input >>= answer)))
      e
      (λ _ s o.
        continue-InOrder (check_claimable hash (hash device_code) now s)
          (λ _. device >> (claim_pairing find_user input >>= answer))
          (check-InOrder (hash device_code) now hash s o)
          (λ _ s1 o1.
            continue-InOrder (device s1) (λ _. claim_pairing find_user input >>= answer) o1
              (λ _ s2 o2.
                continue-InOrder (claim_pairing find_user input s2) answer
                  (claim_pairing-InOrder find_user by_id input s2 o2) (λ _ s3 o3. o3))))

details-InOrder :
    (user_code : String) (user : Option Identity) (now : ℕ) (state : Onboarding)
    → InOrder state
    → InOrder (details user_code user now state).0
unfolding details
details-InOrder user_code user now state e =
    let look : Identity → Act Pairing =
      λ d s. (s, details_of d.id now (find_entry (has_code user_code) s.pairings)) in
    continue-InOrder (require_developer user state)
      (λ d. allow_authenticated ("approval:" <> d.id) 30 now >> look d)
      (require_developer-InOrder user state e)
      (λ d s o.
        continue-InOrder (allow_authenticated ("approval:" <> d.id) 30 now s) (λ _. look d) o
          (λ _ s1 o1. o1))

approve-InOrder :
    (user_code : String) (user : Option Identity) (now later : ℕ) (state : Onboarding)
    → InOrder state
    → InOrder (approve user_code user now later state).0
unfolding approve
approve-InOrder user_code user now later state e =
    let done : Identity → Pairing → Act (Unit {0}) =
      λ d p s. approved (approve_pairing user_code d.id later s) in
    continue-InOrder (require_developer user state) (λ d. details user_code (some d) now >>= done d)
      (require_developer-InOrder user state e)
      (λ d s o.
        continue-InOrder (details user_code (some d) now s) (done d)
          (details-InOrder user_code (some d) now s o)
          (λ p s1 o1. approve_pairing-InOrder user_code d.id later s1 o1))

revoked-InOrder :
    (net : Network) (agent_id : String) (p : Onboarding × Bool)
    → InOrder p.0
    → InOrder (revoked net agent_id p).0
revoked-InOrder net agent_id (s, true) e = e
revoked-InOrder net agent_id (s, false) e = e

revoke-InOrder :
    (net : Network) (agent_id : String) (user : Option Identity) (now : ℕ) (state : Onboarding)
    → InOrder state
    → InOrder (revoke net agent_id user now state).0
unfolding revoke revoke_agent
revoke-InOrder net agent_id user now state e =
    continue-InOrder (require_developer user state)
      (λ d s. revoked net agent_id (revoke_agent agent_id d.id now s))
      (require_developer-InOrder user state e)
      (λ d s o.
        revoked-InOrder net agent_id (revoke_agent agent_id d.id now s)
          (revoke-IsEnrolled s.pairings s.agents agent_id d.id now o))

module _ (hash : String → String) (find_user : String → Option Identity) (net : Network)
    (by_id : FindsById find_user) where
  perform-InOrder :
      (request : Request) (state : Onboarding)
      → InOrder state
      → InOrder (perform hash find_user net request state)
  perform-InOrder (starts device address id device_code user_code now) state =
      start-InOrder hash device address id device_code user_code now state
  perform-InOrder (claims_with device_code address uuid token now later) state =
      claim-InOrder hash find_user device_code address uuid token now later state by_id
  perform-InOrder (approves user_code user now later) state =
      approve-InOrder user_code user now later state
  perform-InOrder (revokes agent_id user now) state = revoke-InOrder net agent_id user now state

  perform_all-InOrder :
      (requests : List Request) (state : Onboarding)
      → InOrder state
      → InOrder (perform_all hash find_user net requests state)
  unfolding perform_all
  perform_all-InOrder [] state e = e
  perform_all-InOrder (request ∷ requests) state e =
      perform_all-InOrder requests (perform hash find_user net request state)
        (perform-InOrder request state e)

  -- Where users are found under their own ids, any requests from a state without pairings and agents
  -- leave each agent, revoked or not, with a pairing that its owner has approved, that was claimed
  -- when the agent was registered and before it expired, and that has the agent's name; and there are
  -- as many agents as claimed pairings.
  pub agents-Backed :
      (requests : List Request) (state : Onboarding)
      → state.pairings ≡ []
      → state.agents ≡ []
      → All
          (Backed (perform_all hash find_user net requests state).pairings)
          (perform_all hash find_user net requests state).agents
        × (length (perform_all hash find_user net requests state).agents
            ≡ claims (perform_all hash find_user net requests state).pairings)
  unfolding claims
  agents-Backed requests state no_pairings no_agents =
      let e =
        perform_all-InOrder requests state
          (rw (no_pairings, no_agents) (record { distinct = tt; backed = tt; counted = refl })) in
      (e.backed, e.counted)
