-- ===== src/Onboarding/Enrolled.antt =====
-- Every registered agent has a pairing of its own that its owner has approved.
use pair_dock.Prelude.{
  ℕ, suc, ◌+◌, ◌<◌, String, Bool, true, false, Option, none, some, List, [], ◌∷◌, ◌++◌, ◌==◌, map,
  is_some, length, ◌≡◌, ◌≢◌, refl, sym, ap, ◌∙◌, inl, inr, Bool-cases, All, All-map, All-append,
  eq_iff, eq_refl, ==-false_of_ne, arith,
}
use pair_dock.Prelude.Dict.{
  Dict, get, set, get-set, get-set_self, Distinct, set-Distinct, get-AllEntries,
}
use pair_dock.Onboarding.{Pairing, Registration, find_entry, revoked_row, is_agent_of}

-- The pairing `p` is that of the agent `a`.
pub record Backs (p : Pairing) (a : Registration) : Type 0 where
  pub claimed : p.claimed_at ≡ some a.paired_at
  pub owned : p.owner_user_id ≡ some a.owner_user_id
  pub approved : is_some p.approved_at ≡ true
  pub in_time : a.paired_at < p.expires_at
  pub named : p.device_name ≡ a.display_name

abbrev pub Backed : Dict Pairing → Registration → Type 0
Backed pairings a = (id : String) × (p : Pairing) × (get id pairings ≡ some p) × Backs p a

abbrev pub bit : Bool → ℕ
bit true = 1
bit false = 0

-- How many pairings have been claimed.
unfoldable pub claims : Dict Pairing → ℕ
claims [] = 0
claims ((_, p) ∷ pairings) = bit (is_some p.claimed_at) + claims pairings

-- Each agent has a claimed pairing, and there are as many of the one as of the other.
pub record IsEnrolled (pairings : Dict Pairing) (agents : List Registration) : Type 0 where
  pub distinct : Distinct pairings
  pub backed : All (Backed pairings) agents
  pub counted : length agents ≡ claims pairings

pub entry-get :
    (test : Pairing → Bool) (m : Dict Pairing) {k : String} {v : Pairing}
    → Distinct m
    → find_entry test m ≡ some (k, v)
    → (get k m ≡ some v) × (test v ≡ true)
unfolding get
entry-get test [] d h = cc
entry-get test ((j, w) ∷ m) {k} {v} (fresh, d) h = elim (Bool-cases (test w)) [
  | inl hit ↦
      let found : ◌≡◌ {A = Option (String × Pairing)} (some (j, w)) (some (k, v)) =
        ground (arith, hit, h) in
      let key : j ≡ k = cc (found) in
      let value : w ≡ v = cc (found) in (rw (key, eq_refl k, value) refl, rw (← value) hit)
  | inr miss ↦
      let (found, holds) = entry-get test m d (rw miss at h) in
      (
        rw (==-false_of_ne j k (λ e. get-AllEntries (λ i x. i ≢ j) k m fresh found (sym e))) found,
        holds,
      )
]

length-append : (xs ys : List Registration) → length (xs ++ ys) ≡ length xs + length ys
length-append [] ys = omega arith
length-append (x ∷ xs) ys = omega (arith, length-append xs ys)

-- A pairing is written over one that was not claimed, or over none.
module _ (k : String) (v : Pairing) where
  abbrev Unclaimed : Dict Pairing → Type 0
  Unclaimed m = (w : Pairing) → get k m ≡ some w → w.claimed_at ≡ none

  claims-set :
      (m : Dict Pairing) → Unclaimed m → claims (set k v m) ≡ claims m + bit (is_some v.claimed_at)
  unfolding claims set get
  claims-set [] u = omega arith
  claims-set ((j, w) ∷ m) u = elim (Bool-cases (j == k)) [
    | inl same ↦
        let idle : w.claimed_at ≡ none = u w (rw same refl) in rw (same, idle) (omega arith)
    | inr other ↦ let ih = claims-set m (λ x h. u x (rw other h)) in rw other (omega (arith, ih))
  ]

  set-Backed :
      (m : Dict Pairing) (a : Registration) → Unclaimed m → Backed m a → Backed (set k v m) a
  set-Backed m a u (id, p, found, b) = elim (Bool-cases (k == id)) [
    | inl same ↦
        let e : k ≡ id = (eq_iff k id).0 same in
        let idle : p.claimed_at ≡ none = u p (rw e found) in absurd (cc (idle, b.claimed))
    | inr other ↦ (id, p, get-set k id v m ∙ rw other found, b)
  ]

  pub set-IsEnrolled :
      (m : Dict Pairing) (agents : List Registration)
      → Unclaimed m
      → v.claimed_at ≡ none
      → IsEnrolled m agents
      → IsEnrolled (set k v m) agents
  set-IsEnrolled m agents u idle e = record {
    distinct = set-Distinct k v m e.distinct;
    backed = All-map (Backed m) (Backed (set k v m)) (λ a. set-Backed m a u) agents e.backed;
    counted = omega (arith, e.counted, claims-set m u, ap (λ c. bit (is_some c)) idle);
  }

  pub claim-IsEnrolled :
      (m : Dict Pairing) (agents : List Registration) (a : Registration)
      → Unclaimed m
      → Backs v a
      → IsEnrolled m agents
      → IsEnrolled (set k v m) (agents ++ a ∷ [])
  claim-IsEnrolled m agents a u b e = record {
    distinct = set-Distinct k v m e.distinct;
    backed =
        All-append (Backed (set k v m)) agents (a ∷ [])
          (All-map (Backed m) (Backed (set k v m)) (λ x. set-Backed m x u) agents e.backed)
          ((k, v, get-set_self k v m, b), tt);
    counted = omega (
      arith,
      e.counted,
      claims-set m u,
      length-append agents (a ∷ []),
      ap (λ c. bit (is_some c)) b.claimed,
    );
  }

-- A revocation does not touch what a pairing backs.
revoked-Backed :
    (m : Dict Pairing) (agent_id owner : String) (now : ℕ) (agents : List Registration)
    → All (Backed m) agents
    → All (Backed m) (map (revoked_row agent_id owner now) agents)
revoked-Backed m agent_id owner now [] h = tt
revoked-Backed m agent_id owner now (a ∷ agents) ((id, p, found, b), h) =
    elim (Bool-cases (is_agent_of agent_id owner a)) [
      | inl hit ↦ rw hit (
        (
          id,
          p,
          found,
          record {
            claimed = b.claimed;
            owned = b.owned;
            approved = b.approved;
            in_time = b.in_time;
            named = b.named;
          },
        ),
        revoked-Backed m agent_id owner now agents h,
      )
      | inr miss ↦ rw miss ((id, p, found, b), revoked-Backed m agent_id owner now agents h)
    ]

length-revoked :
    (agent_id owner : String) (now : ℕ) (agents : List Registration)
    → length (map (revoked_row agent_id owner now) agents) ≡ length agents
length-revoked agent_id owner now [] = refl
length-revoked agent_id owner now (a ∷ agents) =
    ap (λ n. suc n) (length-revoked agent_id owner now agents)

pub revoke-IsEnrolled :
    (m : Dict Pairing) (agents : List Registration) (agent_id owner : String) (now : ℕ)
    → IsEnrolled m agents
    → IsEnrolled m (map (revoked_row agent_id owner now) agents)
revoke-IsEnrolled m agents agent_id owner now e = record {
  distinct = e.distinct;
  backed = revoked-Backed m agent_id owner now agents e.backed;
  counted = length-revoked agent_id owner now agents ∙ e.counted;
}
