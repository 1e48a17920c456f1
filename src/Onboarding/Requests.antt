-- ===== src/Onboarding/Requests.antt =====
-- The requests that change the pairings, in any order.
use pair_dock.Prelude.{
  ℕ, ◌<◌, String, true, Option, none, some, any, is_some, ◌≡◌, refl, sym, ap, ◌∙◌, inl, inr,
  Bool-cases, Option-cases, arith,
}
use pair_dock.Prelude.Dict.{get}
use pair_dock.Domain.{Identity}
use pair_dock.Onboarding.{
  Pairing, Onboarding, ClaimInput, find_entry, has_hash, is_open, approvable, create_pairing,
  approve_entry, approve_pairing, claim_entry, registration, clashes, owner_of, claim_owned,
  claim_pairing, approved,
}
use pair_dock.Onboarding.Enrolled.{IsEnrolled, entry-get, set-IsEnrolled, claim-IsEnrolled}

-- The pairings and the agents of a state are in order.
abbrev pub InOrder : Onboarding → Type 0
InOrder state = IsEnrolled state.pairings state.agents

pub create_pairing-InOrder :
    (id : String) (p : Pairing) (state : Onboarding)
    → p.claimed_at ≡ none
    → InOrder state
    → InOrder (create_pairing id p state).0
unfolding create_pairing
create_pairing-InOrder id p state idle e = elim (Option-cases (get id state.pairings)) [
  | inr (w, known) ↦ ground (arith, known)
  | inl free ↦
      let written =
        set-IsEnrolled id p state.pairings state.agents (λ w h. absurd (cc (free, h))) idle e in
      ground (arith, written)
]

approve_entry-InOrder :
    (code owner : String) (now : ℕ) (entry : Option (String × Pairing)) (state : Onboarding)
    → find_entry (approvable code now) state.pairings ≡ entry
    → InOrder state
    → InOrder (approve_entry owner now entry state).0
approve_entry-InOrder code owner now none state found e = e
approve_entry-InOrder code owner now (some (k, p)) state found e =
    let (here, test) = entry-get (approvable code now) state.pairings e.distinct found in
    let idle : p.claimed_at ≡ none = ground (arith, test) in
    set-IsEnrolled k (record p { owner_user_id = some owner; approved_at = some now })
      state.pairings state.agents (λ w h. cc (here, h, idle)) idle e

pub approve_pairing-InOrder :
    (code owner : String) (now : ℕ) (state : Onboarding)
    → InOrder state
    → InOrder (approve_pairing code owner now state).0
unfolding approve_pairing
approve_pairing-InOrder code owner now state =
    approve_entry-InOrder code owner now (find_entry (approvable code now) state.pairings) state
      refl

-- A user is found under the own id.
abbrev pub FindsById : (String → Option Identity) → Type 0
FindsById find_user = (id : String) (user : Identity) → find_user id ≡ some user → user.id ≡ id

module _ (find_user : String → Option Identity) (by_id : FindsById find_user) where
  claim_owned-InOrder :
      (input : ClaimInput) (id : String) (p : Pairing) (owner : Option Identity)
      (state : Onboarding)
      → get id state.pairings ≡ some p
      → is_open input.now p ≡ true
      → owner_of find_user p ≡ owner
      → InOrder state
      → InOrder (claim_owned find_user input id p owner state).0
  claim_owned-InOrder input id p none state here open_now found e = e
  claim_owned-InOrder input id p (some owner) state here open_now found e =
      let idle : p.claimed_at ≡ none = ground (arith, open_now) in
      let in_time : input.now < p.expires_at = ground (arith, open_now) in
      elim (Option-cases p.approved_at) [
        | inl waiting ↦ rw waiting e
        | inr (since, approved) ↦ elim (Bool-cases (any (clashes input) state.agents)) [
          | inl clash ↦ rw (approved, clash) e
          | inr unique ↦
              let owned : p.owner_user_id ≡ some owner.id = elim (Option-cases p.owner_user_id) [
                | inl nobody ↦ absurd (ground (arith, nobody, found))
                | inr (o, of) ↦ of ∙ ap (λ i. some i) (sym (by_id o owner (rw of at found)))
              ] in
              let written =
                claim-IsEnrolled id (record p { claimed_at = some input.now }) state.pairings
                  state.agents (registration input owner.id p.device_name)
                  (λ w h. cc (here, h, idle))
                  (record {
                    claimed = refl;
                    owned = owned;
                    approved = ap is_some approved;
                    in_time = in_time;
                    named = refl;
                  })
                  e in
              ground (arith, approved, unique, written)
        ]
      ]

  claim_entry-InOrder :
      (input : ClaimInput) (entry : Option (String × Pairing)) (state : Onboarding)
      → find_entry (has_hash input.device_code_hash) state.pairings ≡ entry
      → InOrder state
      → InOrder (claim_entry find_user input entry state).0
  claim_entry-InOrder input none state found e = e
  claim_entry-InOrder input (some (k, p)) state found e =
      let (here, test) =
        entry-get (has_hash input.device_code_hash) state.pairings e.distinct found in
      elim (Bool-cases (is_open input.now p)) [
        | inl open_now ↦
            rw open_now
              (claim_owned-InOrder input k p (owner_of find_user p) state here open_now refl e)
        | inr shut ↦ rw shut e
      ]

  pub claim_pairing-InOrder :
      (input : ClaimInput) (state : Onboarding)
      → InOrder state
      → InOrder (claim_pairing find_user input state).0
  unfolding claim_pairing
  claim_pairing-InOrder input state =
      claim_entry-InOrder input (find_entry (has_hash input.device_code_hash) state.pairings) state
        refl
