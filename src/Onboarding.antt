-- ===== src/Onboarding.antt =====
-- The pairing of a developer's agent: apps/api/src/agent-onboarding/agent-onboarding.service.ts over
-- apps/api/src/persistence/adapters/agent-enrollment.repository.ts. Random codes and the clock are
-- arguments, in the order in which the source asks for them; hashes and users are parameters. The
-- pairings are a table by their primary key.
pub mod Limiter
pub mod Enrolled
pub mod Requests
pub mod Runs
mod Tests
use pair_dock.Prelude.{
  ℕ, ◌+◌, String, Bool, true, false, not, ◌&&◌, ◌||◌, Option, none, some, List, [], ◌∷◌, ◌++◌, ◌==◌,
  map, find, keep, any, is_some, Result, ok, err, or_else, length, ltb, leb, eqb, ◌<>◌,
  if◌then◌else◌,
}
use pair_dock.Prelude.Dict.{Dict, get, set}
use pair_dock.Prelude.Actions.{Action, ◌>>=◌, ◌>>◌, return, throw}
use pair_dock.Domain.{Identity, UserKind, developer}
use pair_dock.Agents.Registry.{find_socket_id, unregister}
use pair_dock.Agents.Delivery.{Hub, Network, disconnect_agent}
use pair_dock.Onboarding.Limiter.{AttemptBucket, assert_allowed}

pub record Pairing : Type 0 where
  pub device_code_hash : String
  pub user_code : String
  pub device_name : String
  pub expires_at : ℕ
  pub owner_user_id : Option String
  pub approved_at : Option ℕ
  pub claimed_at : Option ℕ

-- A registered agent. An agent that was not paired has no credential here.
pub record Registration : Type 0 where
  pub agent_id : String
  pub owner_user_id : String
  pub display_name : String
  pub credential_hash : String
  pub project_key_prefix : String
  pub paired_at : ℕ
  pub revoked_at : Option ℕ
  pub disconnected_at : Option ℕ

pub data OnboardingError : Type 0 where
  too_many_attempts gone pairing_gone not_found already_approved not_developer agent_not_found :
      OnboardingError
  unique_violation : OnboardingError

pub record Onboarding : Type 0 where
  pub pairings : Dict Pairing
  pub agents : List Registration
  pub public_buckets : Dict AttemptBucket
  pub authenticated_buckets : Dict AttemptBucket
  pub hub : Hub

pub record ClaimInput : Type 0 where
  pub device_code_hash : String
  pub credential_hash : String
  pub agent_id : String
  pub project_key_prefix : String
  pub now : ℕ

pub data ClaimResult : Type 0 where
  pending unavailable : ClaimResult
  paired : (owner_name : String) → ClaimResult

pub data PairingClaim : Type 0 where
  still_pending : PairingClaim
  now_paired : (agent_id project_key_prefix auth_token owner_name : String) → PairingClaim

abbrev pub Act : Type 0 → Type 0
Act A = Action Onboarding OnboardingError A

abbrev pub pairing_ttl_ms : ℕ
pairing_ttl_ms = 600000

abbrev pub has_hash : String → Pairing → Bool
has_hash hash p = p.device_code_hash == hash

abbrev pub has_code : String → Pairing → Bool
has_code code p = p.user_code == code

-- `findUnique`: the entry, with its key.
abbrev pub find_entry : (Pairing → Bool) → Dict Pairing → Option (String × Pairing)
find_entry test pairings = find (λ e. test e.1) pairings

-- `expiresAt > now` of a query, and the guard on a pairing that was read.
abbrev pub is_open : ℕ → Pairing → Bool
is_open now p = not (is_some p.claimed_at) && ltb now p.expires_at

abbrev pub approvable : String → ℕ → Pairing → Bool
approvable code now p = has_code code p && (not (is_some p.approved_at) && is_open now p)

-- `createPairing`: the codes are unique.
unfoldable pub create_pairing : String → Pairing → Act (Unit {0})
create_pairing id p state =
    if is_some (get id state.pairings)
      || (is_some (find_entry (has_hash p.device_code_hash) state.pairings)
          || is_some (find_entry (has_code p.user_code) state.pairings))
    then (state, err unique_violation)
    else (record state { pairings = set id p state.pairings }, ok tt)

-- `approvePairing`.
abbrev pub approve_entry : String → ℕ → Option (String × Pairing) → Onboarding → Onboarding × Bool
approve_entry owner now none state = (state, false)
approve_entry owner now (some (id, p)) state = (
  record state {
    pairings =
        set id (record p { owner_user_id = some owner; approved_at = some now }) state.pairings;
  },
  true,
)

unfoldable pub approve_pairing : String → String → ℕ → Onboarding → Onboarding × Bool
approve_pairing code owner now state =
    approve_entry owner now (find_entry (approvable code now) state.pairings) state

abbrev pub owner_name : Identity → String
owner_name user = or_else user.display_name user.email

abbrev pub registration : ClaimInput → String → String → Registration
registration input owner device_name = record {
  agent_id = input.agent_id;
  owner_user_id = owner;
  display_name = device_name;
  credential_hash = input.credential_hash;
  project_key_prefix = input.project_key_prefix;
  paired_at = input.now;
  revoked_at = none;
  disconnected_at = some input.now;
}

-- The unique columns of an agent.
abbrev pub clashes : ClaimInput → Registration → Bool
clashes input a = a.agent_id == input.agent_id || a.credential_hash == input.credential_hash

module _ (find_user : String → Option Identity) where
  -- The transaction behind its two guards. The pairing is as it was read, so that the update that
  -- marks it counts one row; a clash of the agent's unique columns undoes it.
  abbrev pub consume : ClaimInput → String → Pairing → Identity → Act ClaimResult
  consume input id p owner state =
      if any (clashes input) state.agents then (state, err unique_violation) else (
        record state {
          pairings = set id (record p { claimed_at = some input.now }) state.pairings;
          agents = state.agents ++ registration input owner.id p.device_name ∷ [];
        },
        ok (paired (owner_name owner)),
      )

  abbrev pub owner_of : Pairing → Option Identity
  owner_of p = elim p.owner_user_id [ none ↦ none | some id ↦ find_user id ]

  abbrev pub claim_owned : ClaimInput → String → Pairing → Option Identity → Act ClaimResult
  claim_owned input id p none state = (state, ok pending)
  claim_owned input id p (some owner) state = elim p.approved_at [
    | none ↦ (state, ok pending)
    | some _ ↦ consume input id p owner state
  ]

  abbrev pub claim_entry : ClaimInput → Option (String × Pairing) → Act ClaimResult
  claim_entry input none state = (state, ok unavailable)
  claim_entry input (some (id, p)) state =
      if is_open input.now p
      then claim_owned input id p (owner_of p) state
      else (state, ok unavailable)

  -- `claimPairing`: a transaction, in which what is thrown undoes the writes.
  unfoldable pub claim_pairing : ClaimInput → Act ClaimResult
  claim_pairing input state =
      claim_entry input (find_entry (has_hash input.device_code_hash) state.pairings) state

-- `revokeAgent`.
abbrev pub is_agent_of : String → String → Registration → Bool
is_agent_of agent_id owner a = a.agent_id == agent_id && a.owner_user_id == owner

abbrev pub revoked_row : String → String → ℕ → Registration → Registration
revoked_row agent_id owner now a =
    if is_agent_of agent_id owner a
    then record a { revoked_at = some now; disconnected_at = some now }
    else a

unfoldable pub revoke_agent : String → String → ℕ → Onboarding → Onboarding × Bool
revoke_agent agent_id owner now state = (
  record state { agents = map (revoked_row agent_id owner now) state.agents },
  eqb (length (keep (is_agent_of agent_id owner) state.agents)) 1,
)

-- `assertAllowed` in a scope.
abbrev pub allow_public : String → ℕ → ℕ → Act (Unit {0})
allow_public key limit now state =
    let (buckets, granted) = assert_allowed key limit now state.public_buckets in
    (record state { public_buckets = buckets }, if granted then ok tt else err too_many_attempts)

abbrev pub allow_authenticated : String → ℕ → ℕ → Act (Unit {0})
allow_authenticated key limit now state =
    let (buckets, granted) = assert_allowed key limit now state.authenticated_buckets in
    (
      record state { authenticated_buckets = buckets },
      if granted then ok tt else err too_many_attempts,
    )

abbrev pub require_developer : Option Identity → Act Identity
require_developer none = throw not_developer
require_developer (some user) = elim user.kind [ developer ↦ return user | _ ↦ throw not_developer ]

module _ (hash : String → String) where
  unfoldable pub start : String → String → String → String → String → ℕ → Act (Unit {0})
  unfolding create_pairing
  start device_name remote_address id device_code user_code now =
      allow_public ("start:" <> remote_address) 30 now
      >> create_pairing id (record {
        device_code_hash = hash device_code;
        user_code = user_code;
        device_name = device_name;
        expires_at = now + pairing_ttl_ms;
        owner_user_id = none;
        approved_at = none;
        claimed_at = none;
      })

  -- The answer to a claim of the repository.
  abbrev pub claim_answer : ClaimInput → String → ClaimResult → Result OnboardingError PairingClaim
  claim_answer input token unavailable = err gone
  claim_answer input token pending = ok still_pending
  claim_answer input token (paired name) =
      ok (now_paired input.agent_id input.project_key_prefix token name)

  -- The pairing that a device asks for, before the claim of the repository.
  abbrev pub check_claimable : String → ℕ → Act (Unit {0})
  check_claimable code_hash now state =
      if any (λ e. has_hash code_hash e.1 && is_open now e.1) state.pairings
      then (state, ok tt)
      else (state, err gone)

  abbrev pub claim_input : String → String → String → ℕ → ClaimInput
  claim_input device_code agent_id token now = record {
    device_code_hash = hash device_code;
    credential_hash = hash token;
    agent_id = agent_id;
    project_key_prefix = agent_id <> "-";
    now = now;
  }

  unfoldable pub claim :
      (String → Option Identity) → String → String → String → String → ℕ → ℕ → Act PairingClaim
  unfolding claim_pairing
  claim find_user device_code remote_address uuid token now later =
      let input = claim_input device_code ("agent-" <> uuid) token later in
      allow_public ("claims:" <> remote_address) 2400 now
      >> (check_claimable (hash device_code) now
          >> (allow_public ("device:" <> hash device_code) 125 now
              >> (claim_pairing find_user input >>= λ result state.
                  (state, claim_answer input token result))))

-- What a developer may see of a pairing.
abbrev pub is_visible_to : String → Pairing → Bool
is_visible_to developer_id p = elim p.owner_user_id [
  | none ↦ true
  | some owner ↦ owner == developer_id
]

abbrev pub details_of : String → ℕ → Option (String × Pairing) → Result OnboardingError Pairing
details_of developer_id now none = err not_found
details_of developer_id now (some entry) =
    if is_open now entry.1
    then (if is_visible_to developer_id entry.1 then ok entry.1 else err not_found)
    else err pairing_gone

-- The texts in which the details are shown are left out.
unfoldable pub details : String → Option Identity → ℕ → Act Pairing
details user_code user now = require_developer user >>= λ developer.
    allow_authenticated ("approval:" <> developer.id) 30 now >> λ state.
    (state, details_of developer.id now (find_entry (has_code user_code) state.pairings))

abbrev pub approved : Onboarding × Bool → Onboarding × Result OnboardingError (Unit {0})
approved (state, done) = (state, if done then ok tt else err already_approved)

unfoldable pub approve : String → Option Identity → ℕ → ℕ → Act (Unit {0})
unfolding details approve_pairing
approve user_code user now later = require_developer user >>= λ developer.
    details user_code (some developer) now >>= λ pairing state.
    approved (approve_pairing user_code developer.id later state)

abbrev pub revoked :
    Network → String → Onboarding × Bool → Onboarding × Result OnboardingError (Unit {0})
revoked net agent_id (state, true) =
    (record state { hub = disconnect_agent net agent_id state.hub }, ok tt)
revoked net agent_id (state, false) = (state, err agent_not_found)

unfoldable pub revoke : Network → String → Option Identity → ℕ → Act (Unit {0})
unfolding revoke_agent
revoke net agent_id user now = require_developer user >>= λ developer state.
    revoked net agent_id (revoke_agent agent_id developer.id now state)
