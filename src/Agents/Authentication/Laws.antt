-- ===== src/Agents/Authentication/Laws.antt =====
-- A token is that of one agent, and a project key is assigned to one.
use pair_dock.Prelude.{
  String, Bool, true, false, ◌||◌, Option, some, List, [], ◌∷◌, ◌++◌, ◌<>◌, truthy, ◌≡◌, ◌≢◌, refl,
  ap, All, All-map, all, includes, leb, ok, first_returns, subst, Bool-cases, Option-cases, inl,
  inr, arith,
}
use Prim.Native.String.{len}
use text.Mathlib.TextLemmas.{nil-append, cons-append}
use text.Mathlib.TextEquality.{eq_iff}
use text.Mathlib.TextPositions.{eq_refl}
use pair_dock.Agents.Gateway.{authenticated, is_key}
use pair_dock.Agents.Authentication.{
  single, behind, CredentialInput, Configured, Enrolled, minimum_agent_token_length, is_empty,
  check_unassigned, configure_one, configure, principal_of, find_configured, authenticate,
}

-- The agent has an identifier, a long token and at least one project key, all of the pattern.
pub record IsValid (c : Configured) : Type 0 where
  pub agent_id : is_key c.agent_id ≡ true
  pub token : leb minimum_agent_token_length (len c.token) ≡ true
  pub some_key : is_empty c.project_keys ≡ false
  pub keys : all is_key c.project_keys ≡ true

-- Two agents have different tokens and no project key in common.
pub record Apart (c d : Configured) : Type 0 where
  pub tokens : d.token ≢ c.token
  pub keys :
      (key : String) → includes key c.project_keys ≡ true → includes key d.project_keys ≡ false

abbrev pub IsExclusive : List Configured → Type 0
IsExclusive [] = Unit {0}
IsExclusive (c ∷ cs) = IsValid c × All (Apart c) cs × IsExclusive cs

-- What the loop has not assigned before.
record Fresh (tokens assigned : List String) (d : Configured) : Type 0 where
  token : includes d.token tokens ≡ false
  keys : (key : String) → includes key assigned ≡ true → includes key d.project_keys ≡ false

includes-append :
    (key : String) (xs ys : List String)
    → includes key (xs ++ ys) ≡ (includes key xs || includes key ys)
includes-append key [] ys = refl
includes-append key (x ∷ xs) ys = ground (arith, includes-append key xs ys)

check_unassigned-Disjoint :
    (assigned own : List String)
    → check_unassigned assigned own ≡ ok tt
    → (key : String) → includes key assigned ≡ true
    → includes key own ≡ false
unfolding check_unassigned
check_unassigned-Disjoint assigned [] h key taken = refl
check_unassigned-Disjoint assigned (k ∷ own) h key taken = elim (Bool-cases (includes k assigned)) [
  | inl bad ↦ absurd (ground arith)
  | inr good ↦
      ground (arith, eq_iff k key, check_unassigned-Disjoint assigned own (rw good at h) key taken)
]

-- A credential that the callback returns passes its tests.
parts :
    (tokens assigned : List String) (agent_id : String) (credential : CredentialInput)
    (c : Configured)
    → configure_one tokens assigned agent_id credential ≡ ok c
    → IsValid c
      × (includes c.token tokens ≡ false)
      × (check_unassigned assigned c.project_keys ≡ ok tt)
unfolding configure_one
parts tokens assigned agent_id credential c h = elim (Option-cases credential.project_keys) [
  | inl no_keys ↦ absurd (ground arith)
  | inr (keys, given_keys) ↦ elim (Option-cases credential.token) [
    | inl no_token ↦ absurd (ground arith)
    | inr (token, given_token) ↦ (
      record {
        agent_id = ground arith;
        token = ground arith;
        some_key = ground arith;
        keys = ground arith;
      },
      ground arith,
      ground arith,
    )
  ]
]

module _ (tokens assigned : List String) (c : Configured) where
  weaken :
      (d : Configured)
      → Fresh (c.token ∷ tokens) (assigned ++ c.project_keys) d
      → Fresh tokens assigned d
  weaken d f = record {
    token = ground (arith, f.token);
    keys = λ key taken. ground (arith, f.keys key, includes-append key assigned c.project_keys);
  }

  Fresh-Apart :
      (d : Configured) → Fresh (c.token ∷ tokens) (assigned ++ c.project_keys) d → Apart c d
  Fresh-Apart d f = record {
    tokens = λ same. ground (arith, f.token, eq_iff c.token d.token);
    keys = λ key own. ground (arith, f.keys key, includes-append key assigned c.project_keys);
  }

configure-Fresh :
    (tokens assigned : List String) (entries : List (String × CredentialInput))
    (cs : List Configured)
    → configure tokens assigned entries ≡ ok cs
    → All (Fresh tokens assigned) cs × IsExclusive cs
unfolding configure
configure-Fresh tokens assigned [] cs h =
    let same : [] ≡ cs = cc in
    subst (λ l. All (Fresh tokens assigned) l × IsExclusive l) same (tt, tt)
configure-Fresh tokens assigned ((agent_id, credential) ∷ entries) cs h =
    let (c, one, rest) = first_returns (configure_one tokens assigned agent_id credential) _ h in
    let (ds, more, last) =
      first_returns (configure (c.token ∷ tokens) (assigned ++ c.project_keys) entries) _ rest in
    let same : c ∷ ds ≡ cs = cc last in
    let (valid, new, unassigned) = parts tokens assigned agent_id credential c one in
    let (fresh, exclusive) =
      configure-Fresh (c.token ∷ tokens) (assigned ++ c.project_keys) entries ds more in
    subst (λ l. All (Fresh tokens assigned) l × IsExclusive l) same
      (
        (
          record {
            token = new;
            keys = check_unassigned-Disjoint assigned c.project_keys unassigned;
          },
          All-map _ _ (weaken tokens assigned c) ds fresh,
        ),
        (valid, All-map _ _ (Fresh-Apart tokens assigned c) ds fresh, exclusive),
      )

-- A token that is not that of the first agent is looked for behind it.
find-later :
    (c : Configured) (ds es : List Configured)
    → All (Apart c) ds
    → All (λ d. find_configured d.token es ≡ some d) ds
    → All (λ d. find_configured d.token (c ∷ es) ≡ some d) ds
unfolding find_configured
find-later c [] es apart found = tt
find-later c (d ∷ ds) es (a, apart) (f, found) =
    (ground (arith, a.tokens, eq_iff c.token d.token, f), find-later c ds es apart found)

find-own :
    (cs : List Configured) → IsExclusive cs → All (λ c. find_configured c.token cs ≡ some c) cs
unfolding find_configured
find-own [] h = tt
find-own (c ∷ cs) (valid, apart, exclusive) =
    (rw (eq_refl c.token) refl, find-later c cs cs apart (find-own cs exclusive))

behind-append : (prefix t : String) → behind prefix (prefix <> t) ≡ some t
behind-append String.[] t = ap some (nil-append t)
behind-append (String.◌∷◌ c prefix) t =
    rw (cons-append c prefix t) (ground (arith, behind-append prefix t))

long-truthy : (t : String) → leb minimum_agent_token_length (len t) ≡ true → truthy t ≡ true
long-truthy String.[] h = absurd (ground arith)
long-truthy (String.◌∷◌ _ _) h = refl

authenticates :
    (cs : List Configured) (c : Configured) (in_tests : Bool) (trim : String → String)
    (find_by_token : String → Option Enrolled)
    → find_configured c.token cs ≡ some c
    → truthy c.token ≡ true
    → trim c.token ≡ c.token
    → authenticate in_tests trim find_by_token cs (some (single ("Bearer " <> c.token)))
      ≡ ok (authenticated (principal_of c))
unfolding authenticate find_configured
authenticates [] c in_tests trim find_by_token found given kept = absurd (cc found)
authenticates (d ∷ ds) c in_tests trim find_by_token found given kept =
    ground (arith, behind-append "Bearer " c.token, kept)

All-authenticate :
    (cs : List Configured) (in_tests : Bool) (trim : String → String)
    (find_by_token : String → Option Enrolled) (ds : List Configured)
    → All (λ c. find_configured c.token cs ≡ some c) ds
    → IsExclusive ds
    → All (λ c. trim c.token ≡ c.token) ds
    → All
        (λ c.
          authenticate in_tests trim find_by_token cs (some (single ("Bearer " <> c.token)))
          ≡ ok (authenticated (principal_of c)))
        ds
All-authenticate cs in_tests trim find_by_token [] found exclusive kept = tt
All-authenticate cs in_tests trim find_by_token (d ∷ ds) (f, found) (valid, apart, exclusive)
      (k, kept) =
    (
      authenticates cs d in_tests trim find_by_token f (long-truthy d.token valid.token) k,
      All-authenticate cs in_tests trim find_by_token ds found exclusive kept,
    )

-- Where the constructor accepts the credentials, each agent has a valid identifier, a token of 32
-- bytes or more and valid project keys, and no two agents have the same token or a project key in
-- common. Where trimming leaves the tokens as they are, the header that bears the token of one of
-- the agents authenticates that agent with its project keys, whatever agents are enrolled.
pub configure-IsExclusive :
    (entries : List (String × CredentialInput)) (cs : List Configured) (in_tests : Bool)
    (trim : String → String) (find_by_token : String → Option Enrolled)
    → configure [] [] entries ≡ ok cs
    → All (λ c. trim c.token ≡ c.token) cs
    → IsExclusive cs
      × All
          (λ c.
            authenticate in_tests trim find_by_token cs (some (single ("Bearer " <> c.token)))
            ≡ ok (authenticated (principal_of c)))
          cs
configure-IsExclusive entries cs in_tests trim find_by_token h kept =
    let (fresh, exclusive) = configure-Fresh [] [] entries cs h in
    (
      exclusive,
      All-authenticate cs in_tests trim find_by_token cs (find-own cs exclusive) exclusive kept,
    )
