-- ===== src/Onboarding/Limiter.antt =====
-- `AgentPairingLimiter` of apps/api/src/agent-onboarding/agent-pairing-limiter.ts: the attempts of a
-- key in a window of ten minutes. Times are milliseconds.
pub mod Bounds
use pair_dock.Prelude.{
  ℕ, ◌+◌, String, Bool, true, false, Option, none, some, List, [], ◌∷◌, length, keep, ltb, leb,
  if◌then◌else◌,
}
use pair_dock.Prelude.Dict.{Dict, get, set}

pub record AttemptBucket : Type 0 where
  pub attempts : ℕ
  pub expires_at : ℕ

abbrev pub attempt_window_ms : ℕ
attempt_window_ms = 600000

abbrev pub max_tracked_buckets : ℕ
max_tracked_buckets = 10000

-- The loop over the buckets.
unfoldable pub sweep : ℕ → Dict AttemptBucket → Dict AttemptBucket
sweep now buckets = keep (λ e. ltb now e.1.expires_at) buckets

abbrev pub counted : AttemptBucket → AttemptBucket
counted bucket = record bucket { attempts = bucket.attempts + 1 }

abbrev pub fresh_bucket : ℕ → AttemptBucket
fresh_bucket now = record { attempts = 0; expires_at = now + attempt_window_ms }

-- One more attempt in a bucket, which is refused beyond the limit.
abbrev pub count_attempt :
    String → ℕ → AttemptBucket → Dict AttemptBucket → Dict AttemptBucket × Bool
count_attempt key limit bucket live =
    (set key (counted bucket) live, leb (bucket.attempts + 1) limit)

abbrev pub allow_in : String → ℕ → ℕ → Dict AttemptBucket → Dict AttemptBucket × Bool
allow_in key limit now live = elim (get key live) [
  | some bucket ↦ count_attempt key limit bucket live
  | none ↦
      if leb max_tracked_buckets (length live)
      then (live, false)
      else count_attempt key limit (fresh_bucket now) live
]

-- `assertAllowed` on the buckets of a scope: `false` where it throws.
unfoldable pub assert_allowed : String → ℕ → ℕ → Dict AttemptBucket → Dict AttemptBucket × Bool
unfolding sweep
assert_allowed key limit now buckets = allow_in key limit now (sweep now buckets)
