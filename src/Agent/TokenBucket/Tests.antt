-- ===== src/Agent/TokenBucket/Tests.antt =====
-- crates/node-agent/src/limit/token_bucket.rs: the bucket of a rule with 8 Mbit/s.
use emorelay.Base.{ℕ, ◌+◌, ◌*◌, ◌≤◌, ◌≡◌, refl, false, some, List, [], ◌∷◌, max, arith}
use emorelay.Base.Signed.{pos}
use emorelay.Agent.TokenBucket.{Bucket, BucketState, nano, from_mbps, refill, try_acquire, acquire}
use emorelay.Agent.TokenBucket.Rate.{granted, after, elapsed, granted_bound}
use emorelay.Agent.TokenBucket.Acquire.{acquire_total}

abbrev bucket : Bucket
bucket = record { rate_bytes_per_sec = 1000000; burst_bytes = 200000 }

abbrev full : BucketState
full = record { tokens = 200000 * nano; last_refill = 0 }

abbrev drained : BucketState
drained = record { tokens = 0; last_refill = 0 }

eight_mbps : from_mbps (pos 8) 0 ≡ some (bucket, full)
unfolding from_mbps
eight_mbps = refl

abbrev window : List (ℕ × ℕ)
window = (0, 150000) ∷ (0, 150000) ∷ (nano, 150000) ∷ []

granted_bound_example :
    (granted bucket (after bucket full ((5, 1000) ∷ [])) window * nano
      ≤ 200000 * nano + elapsed window * (8 * 125000))
    × (200000 ≡ max (8 * 25000) 65536)
granted_bound_example = granted_bound 7 0 bucket full ((5, 1000) ∷ []) window eight_mbps

acquire_total_example :
    (end : BucketState × ℕ) × (acquire 1000001 bucket drained 0 500000 ≡ some end)
acquire_total_example =
    acquire_total 1000001 bucket drained 0 500000 (omega arith) (omega arith) (omega arith)

refused : (try_acquire bucket drained 0 1000).1 ≡ false
unfolding try_acquire refill
refused = refl
