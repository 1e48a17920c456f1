-- ===== src/Onboarding/Limiter/Bounds.antt =====
-- How many attempts of a key are allowed within a window.
use pair_dock.Prelude.{
  ℕ, ◌+◌, ◌-◌, ◌≤◌, ◌<◌, String, Bool, true, false, none, some, List, [], ◌∷◌, ◌≡◌, refl, length,
  leb, inl, inr, Bool-cases, Option-cases, All, All-map, ◌==◌, eq_iff, if◌then◌else◌, ◌&&◌, arith,
}
use pair_dock.Prelude.Dict.{Dict, get, set, get-set, get-set_self}
use pair_dock.Onboarding.Limiter.{
  AttemptBucket, attempt_window_ms, max_tracked_buckets, sweep, counted, fresh_bucket,
  count_attempt, assert_allowed,
}

-- A call of the limiter.
pub record Attempt : Type 0 where
  pub key : String
  pub limit : ℕ
  pub now : ℕ

abbrev pub bit : Bool → ℕ
bit true = 1
bit false = 0

-- How many of the attempts of `k` are allowed.
unfoldable pub allowed : String → List Attempt → Dict AttemptBucket → ℕ
allowed k [] buckets = 0
allowed k (a ∷ attempts) buckets =
    let (after, granted) = assert_allowed a.key a.limit a.now buckets in
    bit (granted && a.key == k) + allowed k attempts after

-- Attempts within a window that starts at `start`, those of `k` with this limit.
abbrev pub Within : String → ℕ → ℕ → Attempt → Type 0
Within k limit start a =
    (start ≤ a.now) × (a.now < start + attempt_window_ms) × (a.key ≡ k → a.limit ≡ limit)

get-sweep :
    (k : String) (now : ℕ) (m : Dict AttemptBucket) {b : AttemptBucket}
    → get k m ≡ some b
    → now < b.expires_at
    → get k (sweep now m) ≡ some b
unfolding get sweep
get-sweep k now [] h live = cc
get-sweep k now ((j, c) ∷ m) h live = elim (Bool-cases (j == k)) [
  | inl same ↦ ground (arith, h, same)
  | inr other ↦ ground (arith, other, get-sweep k now m (rw other at h) live)
]

get-sweep-none :
    (k : String) (now : ℕ) (m : Dict AttemptBucket) → get k m ≡ none → get k (sweep now m) ≡ none
unfolding get sweep
get-sweep-none k now [] h = refl
get-sweep-none k now ((j, c) ∷ m) h = elim (Bool-cases (j == k)) [
  | inl same ↦ absurd (ground (arith, h, same))
  | inr other ↦ ground (arith, other, get-sweep-none k now m (rw other at h))
]

-- Another key's attempt leaves a live bucket, or its absence, as it is.
other-live :
    (k : String) (a : Attempt) (m : Dict AttemptBucket) {b : AttemptBucket}
    → (a.key == k) ≡ false
    → get k m ≡ some b
    → a.now < b.expires_at
    → get k (assert_allowed a.key a.limit a.now m).0 ≡ some b
unfolding assert_allowed
other-live k a m {b} other h live =
    let kept = get-sweep k a.now m h live in
    let s = sweep a.now m in
    elim (Option-cases (get a.key s)) [
      | inr (c, e) ↦ ground (arith, e, other, kept, get-set a.key k (counted c) s)
      | inl e ↦ ground (arith, e, other, kept, get-set a.key k (counted (fresh_bucket a.now)) s)
    ]

other-none :
    (k : String) (a : Attempt) (m : Dict AttemptBucket)
    → (a.key == k) ≡ false
    → get k m ≡ none
    → get k (assert_allowed a.key a.limit a.now m).0 ≡ none
unfolding assert_allowed
other-none k a m other h =
    let kept = get-sweep-none k a.now m h in
    let s = sweep a.now m in
    elim (Option-cases (get a.key s)) [
      | inr (c, e) ↦ ground (arith, e, other, kept, get-set a.key k (counted c) s)
      | inl e ↦ ground (arith, e, other, kept, get-set a.key k (counted (fresh_bucket a.now)) s)
    ]

-- An attempt of the key itself in its live bucket.
own-live :
    (k : String) (limit now : ℕ) (m : Dict AttemptBucket) {b : AttemptBucket}
    → get k m ≡ some b
    → now < b.expires_at
    → assert_allowed k limit now m ≡ count_attempt k limit b (sweep now m)
unfolding assert_allowed
own-live k limit now m h live = ground (arith, get-sweep k now m h live)

own-none :
    (k : String) (limit now : ℕ) (m : Dict AttemptBucket)
    → get k m ≡ none
    → assert_allowed k limit now m ≡ (
        if leb max_tracked_buckets (length (sweep now m))
        then (sweep now m, false)
        else count_attempt k limit (fresh_bucket now) (sweep now m))
unfolding assert_allowed
own-none k limit now m h = ground (arith, get-sweep-none k now m h)

-- Attempts before a bucket expires.
abbrev Before : String → ℕ → ℕ → Attempt → Type 0
Before k limit end a = (a.now < end) × (a.key ≡ k → a.limit ≡ limit)

live-bound :
    (k : String) (limit : ℕ) (attempts : List Attempt) (m : Dict AttemptBucket) (b : AttemptBucket)
    → get k m ≡ some b
    → All (Before k limit b.expires_at) attempts
    → allowed k attempts m ≤ limit - b.attempts
unfolding allowed
live-bound k limit [] m b h _ = omega arith
live-bound k limit (a ∷ attempts) m b h ((soon, same_limit), rest) =
    elim (Bool-cases (a.key == k)) [
      | inr other ↦
          let ih =
            live-bound k limit attempts (assert_allowed a.key a.limit a.now m).0 b
              (other-live k a m other h soon) rest in
          ground (arith, other, ih)
      | inl own ↦
          let key : a.key ≡ k = (eq_iff a.key k).0 own in
          let step : assert_allowed a.key a.limit a.now m
              ≡ count_attempt k limit b (sweep a.now m) =
            rw (key, same_limit key) (own-live k limit a.now m h soon) in
          let ih =
            live-bound k limit attempts (set k (counted b) (sweep a.now m)) (counted b)
              (get-set_self k (counted b) (sweep a.now m)) rest in
          rw (own, step) (ground (arith, ih))
    ]

Within-Before :
    (k : String) (limit start expires_at : ℕ) (attempts : List Attempt)
    → start + attempt_window_ms ≤ expires_at
    → All (Within k limit start) attempts
    → All (Before k limit expires_at) attempts
Within-Before k limit start expires_at attempts late =
    All-map (Within k limit start) (Before k limit expires_at)
      (λ a (from, to, same). (omega arith, same)) attempts

-- Of the attempts of a key that has no bucket, those with this limit and any number of attempts of
-- other keys among them, no more than the limit are allowed within a window of ten minutes.
pub allowed-le-limit :
    (k : String) (limit start : ℕ) (attempts : List Attempt) (buckets : Dict AttemptBucket)
    → get k buckets ≡ none
    → All (Within k limit start) attempts
    → allowed k attempts buckets ≤ limit
unfolding allowed
allowed-le-limit k limit start [] m h _ = omega arith
allowed-le-limit k limit start (a ∷ attempts) m h ((from, to, same_limit), rest) =
    elim (Bool-cases (a.key == k)) [
      | inr other ↦
          let ih =
            allowed-le-limit k limit start attempts (assert_allowed a.key a.limit a.now m).0
              (other-none k a m other h) rest in
          ground (arith, other, ih)
      | inl own ↦
          let key : a.key ≡ k = (eq_iff a.key k).0 own in
          let s = sweep a.now m in
          let b = counted (fresh_bucket a.now) in
          let step = own-none k limit a.now m h in
          let call : assert_allowed a.key a.limit a.now m ≡ assert_allowed k limit a.now m =
            rw (key, same_limit key) refl in
          let full = allowed-le-limit k limit start attempts s (get-sweep-none k a.now m h) rest in
          let started =
            live-bound k limit attempts (set k b s) b (get-set_self k b s)
              (Within-Before k limit start b.expires_at attempts (omega arith) rest) in
          elim (Bool-cases (leb max_tracked_buckets (length s))) [
            | inl crowded ↦ rw (own, call, step, crowded) (omega (arith, full))
            | inr room ↦ rw (own, call, step, room) (ground (arith, started))
          ]
    ]
