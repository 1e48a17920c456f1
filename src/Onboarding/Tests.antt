-- ===== src/Onboarding/Tests.antt =====
-- A device is paired by a developer, and a key that tries too often.
use pair_dock.Prelude.{
  ℕ, String, Option, none, some, List, [], ◌∷◌, length, ok, err, ◌≡◌, refl, All, ◌≤◌, arith, ◌==◌,
  if◌then◌else◌, eq_iff,
}
use pair_dock.Prelude.Dict.{get, set}
use pair_dock.Domain.{Identity, developer}
use pair_dock.Agents.Delivery.{Network, no_reply}
use pair_dock.Agents.Registry.{no_agents}
use pair_dock.Onboarding.{
  Onboarding, now_paired, still_pending, gone, already_approved, start, claim, approve,
}
use pair_dock.Onboarding.Limiter.{assert_allowed}
use pair_dock.Onboarding.Limiter.Bounds.{Attempt, allowed, allowed-le-limit}
use pair_dock.Onboarding.Enrolled.{Backed, claims}
use pair_dock.Onboarding.Runs.{Request, starts, claims_with, approves, perform_all, agents-Backed}

abbrev ada : Identity
ada = record { id = "u1"; email = "a@b"; display_name = some "Ada"; kind = developer }

abbrev same : String → String
same code = code

abbrev find_user : String → Option Identity
find_user id = if id == "u1" then some ada else none

abbrev network : Network
network = record { find_credential = λ id. none; reply = λ socket command. no_reply }

abbrev empty : Onboarding
empty = record {
  pairings = [];
  agents = [];
  public_buckets = [];
  authenticated_buckets = [];
  hub = record { registry = no_agents; sent = [] };
}

abbrev waiting : Onboarding
waiting = (start same "laptop" "ip" "p1" "device" "CODE" 0 empty).0

abbrev accepted : Onboarding
accepted = (approve "CODE" (some ada) 5 5 waiting).0

abbrev served : Onboarding
served = (claim same find_user "device" "ip" "x" "token" 7 7 accepted).0

replies :
    ((claim same find_user "device" "ip" "x" "token" 1 1 waiting).1 ≡ ok still_pending)
    × ((approve "CODE" (some ada) 5 5 waiting).1 ≡ ok tt)
    × ((approve "CODE" (some ada) 6 6 accepted).1 ≡ err already_approved)
    × ((claim same find_user "device" "ip" "x" "token" 7 7 accepted).1
        ≡ ok (now_paired "agent-x" "agent-x-" "token" "Ada"))
    × ((claim same find_user "device" "ip" "y" "other" 8 8 served).1 ≡ err gone)
    × ((claim same find_user "device" "ip" "x" "token" 600000 600000 accepted).1 ≡ err gone)
unfolding start claim approve assert_allowed get set
replies = (refl, refl, refl, refl, refl, refl)

abbrev requests : List Request
requests =
    starts "laptop" "ip" "p1" "device" "CODE" 0
    ∷ approves "CODE" (some ada) 5 5
    ∷ claims_with "device" "ip" "x" "token" 7 7
    ∷ []

agents-Backed_example :
    All
      (Backed (perform_all same find_user network requests empty).pairings)
      (perform_all same find_user network requests empty).agents
    × (length (perform_all same find_user network requests empty).agents
        ≡ claims (perform_all same find_user network requests empty).pairings)
agents-Backed_example =
    agents-Backed same find_user network (λ id user h. ground (arith, h, eq_iff id "u1")) requests
      empty refl refl

abbrev try_at : ℕ → Attempt
try_at now = record { key = "k"; limit = 1; now = now }

refuses : allowed "k" (try_at 10 ∷ try_at 20 ∷ try_at 700000 ∷ []) [] ≡ 2
unfolding allowed assert_allowed get set
refuses = refl

allowed-le-limit_example : allowed "k" (try_at 10 ∷ try_at 20 ∷ []) [] ≤ 1
unfolding get
allowed-le-limit_example =
    allowed-le-limit "k" 1 10 (try_at 10 ∷ try_at 20 ∷ []) [] refl
      ((omega arith, omega arith, λ _. refl), ((omega arith, omega arith, λ _. refl), tt))
