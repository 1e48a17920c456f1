-- ===== src/Agents/Authentication.antt =====
-- The tokens of agents: the constructor of `AgentAuthenticationService` and `authenticate`, of
-- apps/api/src/agent-gateway/agent-authentication.service.ts, on credentials that JSON has been read
-- to. A key is ASCII; the length of a token is in bytes, as there.
pub mod Laws
mod Tests
use Prim.Native.Char.{code}
use Prim.Native.String.{len}
use pair_dock.Prelude.{
  ℕ, String, Bool, true, false, not, ◌&&◌, Option, none, some, List, [], ◌∷◌, ◌++◌, ◌==◌,
  if◌then◌else◌, truthy, all, find, includes, leb, eqb, Result, ok, err, guard, require, ◌>>=◌,
  ◌>>◌,
}
use pair_dock.Agents.Gateway.{Principal, SocketIdentity, test_agent, authenticated, is_key}

-- `token` is `none` where it is no text, and `project_keys` where it is no array.
pub record CredentialInput : Type 0 where
  pub project_keys : Option (List String)
  pub token : Option String

pub record Configured : Type 0 where
  pub agent_id : String
  pub project_keys : List String
  pub token : String

pub data ConfigurationError : Type 0 where
  invalid_agent_id without_keys no_valid_key : (agent_id : String) → ConfigurationError
  short_token token_taken : ConfigurationError
  key_taken : (project_key : String) → ConfigurationError

pub data AuthenticationError : Type 0 where
  missing_token invalid_token : AuthenticationError

-- A header that is given once, or more often.
pub data Header : Type 0 where
  single : String → Header
  repeated : List String → Header

-- `EnrolledAgentCredential`, of agents that were paired.
pub record Enrolled : Type 0 where
  pub agent_id : String
  pub owner_user_id : String
  pub project_key_prefix : String
  pub revoked : Bool

abbrev pub minimum_agent_token_length : ℕ
minimum_agent_token_length = 32

-- `[...new Set(keys)]`, behind the keys that were seen.
unfoldable pub unique : List String → List String → List String
unique seen [] = []
unique seen (key ∷ keys) =
    let first = key ∷ unique (key ∷ seen) keys in
    let again = unique seen keys in if includes key seen then again else first

abbrev pub is_empty : List String → Bool
is_empty [] = true
is_empty (_ ∷ _) = false

-- The loop over `assignedProjectKeys`.
unfoldable pub check_unassigned : List String → List String → Result ConfigurationError (Unit {0})
check_unassigned assigned [] = ok tt
check_unassigned assigned (key ∷ keys) =
    let rest = check_unassigned assigned keys in
    if includes key assigned then err (key_taken key) else rest

-- The callback of `map`, with the tokens and the keys that were assigned before.
unfoldable pub configure_one :
    List String → List String → String → CredentialInput → Result ConfigurationError Configured
unfolding check_unassigned
configure_one tokens assigned agent_id credential = do
  guard (is_key agent_id) (invalid_agent_id agent_id)
  keys ← require credential.project_keys (without_keys agent_id)
  token ← require credential.token short_token
  guard (leb minimum_agent_token_length (len token)) short_token
  guard (not (includes token tokens)) token_taken
  let own = unique [] keys
  guard (not (is_empty own) && all is_key own) (no_valid_key agent_id)
  check_unassigned assigned own
  ok (record { agent_id = agent_id; project_keys = own; token = token })

-- The constructor, for the entries of the configured credentials.
unfoldable pub configure :
    List String
    → List String
    → List (String × CredentialInput)
    → Result ConfigurationError (List Configured)
configure tokens assigned [] = ok []
configure tokens assigned ((agent_id, credential) ∷ entries) = do
  c ← configure_one tokens assigned agent_id credential
  cs ← configure (c.token ∷ tokens) (assigned ++ c.project_keys) entries
  ok (c ∷ cs)

-- What is left behind a prefix.
abbrev pub behind : String → String → Option String
behind String.[] s = some s
behind (String.◌∷◌ c prefix) String.[] = none
behind (String.◌∷◌ c prefix) (String.◌∷◌ d s) =
    let rest = behind prefix s in if eqb (code c) (code d) then rest else none

abbrev pub given_token : String → Result AuthenticationError String
given_token token = if truthy token then ok token else err missing_token

-- `extractBearerToken`.
abbrev pub extract_bearer_token :
    (String → String) → Option Header → Result AuthenticationError String
extract_bearer_token trim (some (single header)) =
    require (behind "Bearer " header) missing_token >>= λ token. given_token (trim token)
extract_bearer_token trim _ = err missing_token

abbrev pub principal_of : Configured → Principal
principal_of c = record {
  agent_id = c.agent_id;
  project_keys = c.project_keys;
  owner_user_id = none;
  project_key_prefix = none;
}

abbrev pub enrolled_principal : Enrolled → Principal
enrolled_principal e = record {
  agent_id = e.agent_id;
  project_keys = [];
  owner_user_id = some e.owner_user_id;
  project_key_prefix = some e.project_key_prefix;
}

-- The loop over the configured credentials.
unfoldable pub find_configured : String → List Configured → Option Configured
find_configured token = find (λ c. c.token == token)

abbrev pub authenticate_enrolled : Option Enrolled → Result AuthenticationError SocketIdentity
authenticate_enrolled none = err invalid_token
authenticate_enrolled (some e) =
    if e.revoked then err invalid_token else ok (authenticated (enrolled_principal e))

abbrev pub authenticate_token :
    (String → Option Enrolled)
    → Option Configured
    → String
    → Result AuthenticationError SocketIdentity
authenticate_token find_by_token (some c) token = ok (authenticated (principal_of c))
authenticate_token find_by_token none token = authenticate_enrolled (find_by_token token)

-- `!authorizationHeader`.
abbrev pub is_absent : Option Header → Bool
is_absent none = true
is_absent (some (single header)) = not (truthy header)
is_absent (some (repeated _)) = false

abbrev pub has_none : List Configured → Bool
has_none [] = true
has_none (_ ∷ _) = false

-- `authenticate`. The enrolled credential is found by the hash of a token.
unfoldable pub authenticate :
    Bool
    → (String → String)
    → (String → Option Enrolled)
    → List Configured
    → Option Header
    → Result AuthenticationError SocketIdentity
unfolding find_configured
authenticate in_tests trim find_by_token credentials header =
    if in_tests && (has_none credentials && is_absent header) then ok test_agent else (do
      token ← extract_bearer_token trim header
      authenticate_token find_by_token (find_configured token credentials) token)
