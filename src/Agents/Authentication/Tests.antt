-- ===== src/Agents/Authentication/Tests.antt =====
-- Two configured agents, and an enrolled one.
use pair_dock.Prelude.{
  String, true, false, Option, none, some, List, [], ◌∷◌, ◌≡◌, refl, All, ok, err, ◌<>◌, ◌==◌,
  if◌then◌else◌,
}
use pair_dock.Agents.Gateway.{authenticated, test_agent, is_key}
use pair_dock.Agents.Authentication.{
  CredentialInput, Configured, single, Enrolled, token_taken, key_taken, short_token, missing_token,
  invalid_token, unique, check_unassigned, configure_one, configure, principal_of,
  enrolled_principal, find_configured, authenticate,
}
use pair_dock.Agents.Authentication.Laws.{IsExclusive, configure-IsExclusive}

abbrev credential : String → String → CredentialInput
credential token key = record { project_keys = some (key ∷ key ∷ []); token = some token }

abbrev token_a : String
token_a = "aaaaaaaaaaaaaaaaaaaaaaaaaaaaaaaa"

abbrev token_b : String
token_b = "bbbbbbbbbbbbbbbbbbbbbbbbbbbbbbbb"

abbrev entries : List (String × CredentialInput)
entries = ("mac", credential token_a "shop") ∷ ("pc", credential token_b "bank") ∷ []

abbrev both : List Configured
both =
    record { agent_id = "mac"; project_keys = "shop" ∷ []; token = token_a }
    ∷ record { agent_id = "pc"; project_keys = "bank" ∷ []; token = token_b }
    ∷ []

abbrev same : String → String
same text = text

abbrev enrolled : Enrolled
enrolled = record {
  agent_id = "agent-x";
  owner_user_id = "ada";
  project_key_prefix = "agent-x-";
  revoked = false;
}

abbrev find_by_token : String → Option Enrolled
find_by_token token =
    if token == "paired"
    then some enrolled
    else (if token == "old" then some (record enrolled { revoked = true }) else none)

configured : configure [] [] entries ≡ ok both
unfolding configure configure_one unique check_unassigned is_key
configured = refl

refusals :
    (configure [] [] (("mac", credential "short" "shop") ∷ []) ≡ err short_token)
    × (configure [] [] (("mac", credential token_a "shop") ∷ ("pc", credential token_a "bank") ∷ [])
        ≡ err token_taken)
    × (configure [] [] (("mac", credential token_a "shop") ∷ ("pc", credential token_b "shop") ∷ [])
        ≡ err (key_taken "shop"))
unfolding configure configure_one unique check_unassigned is_key
refusals = (refl, refl, refl)

answers :
    (authenticate false same find_by_token both (some (single "Bearer paired"))
      ≡ ok (authenticated (enrolled_principal enrolled)))
    × (authenticate false same find_by_token both (some (single "Bearer old")) ≡ err invalid_token)
    × (authenticate false same find_by_token both (some (single "Basic paired"))
        ≡ err missing_token)
    × (authenticate true same find_by_token [] none ≡ ok test_agent)
unfolding authenticate find_configured
answers = (refl, refl, refl, refl)

configure-IsExclusive_example :
    IsExclusive both
    × All
        (λ c.
          authenticate false same find_by_token both (some (single ("Bearer " <> c.token)))
          ≡ ok (authenticated (principal_of c)))
        both
configure-IsExclusive_example =
    configure-IsExclusive entries both false same find_by_token configured (refl, (refl, tt))
