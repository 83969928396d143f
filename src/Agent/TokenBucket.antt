-- ===== src/Agent/TokenBucket.antt =====
-- crates/node-agent/src/limit/token_bucket.rs. Time is in nanoseconds and a token is a billionth of
-- a byte, so that a refill is a whole number; the rounding of the source's floats is left out.
pub mod Rate
pub mod Acquire
mod Tests
use emorelay.Base.{
  ℕ, zero, suc, ◌+◌, ◌-◌, ◌*◌, ◌/◌, Bool, true, false, Option, none, some, leb, max, min, ◌==◌,
  if◌then◌else◌,
}
use emorelay.Base.Signed.{ℤ, pos, negsuc}

pub record Bucket : Type 0 where
  pub rate_bytes_per_sec : ℕ
  pub burst_bytes : ℕ

pub record BucketState : Type 0 where
  pub tokens : ℕ
  pub last_refill : ℕ

abbrev pub nano : ℕ
nano = 1000000000

-- A bucket that is full at `now`; `none` is no limit.
pub from_mbps : ℤ → ℕ → Option (Bucket × BucketState)
from_mbps (negsuc n) now = none
from_mbps (pos zero) now = none
from_mbps (pos (suc n)) now =
    let rate = suc n * 125000 in
    let burst = max (rate / 5) 65536 in
    some (
      record { rate_bytes_per_sec = rate; burst_bytes = burst },
      record { tokens = burst * nano; last_refill = now },
    )

pub refill : Bucket → BucketState → ℕ → BucketState
refill b st now = record {
  tokens = min (st.tokens + (now - st.last_refill) * b.rate_bytes_per_sec) (b.burst_bytes * nano);
  last_refill = now;
}

-- The critical section that both ways of asking share: refill, then take the tokens if they are there.
pub try_acquire : Bucket → BucketState → ℕ → ℕ → BucketState × Bool
unfolding refill
try_acquire b st now want =
    let st' = refill b st now in
    if leb (want * nano) st'.tokens
    then (record st' { tokens = st'.tokens - want * nano }, true)
    else (st', false)

-- The time until the tokens that are missing have come, rounded up.
pub wait_for : Bucket → BucketState → ℕ → ℕ
wait_for b st chunk = (chunk * nano - st.tokens + (b.rate_bytes_per_sec - 1)) / b.rate_bytes_per_sec

-- `acquire` of one task alone: the state and the time when it has all that it wants. Each round is
-- one try for the next chunk; a failed try sleeps until the chunk is there.
pub acquire : ℕ → Bucket → BucketState → ℕ → ℕ → Option (BucketState × ℕ)
acquire zero b st now remaining = none
acquire (suc fuel) b st now remaining =
    let chunk = min remaining b.burst_bytes in
    let (st', taken) = try_acquire b st now chunk in
    let next = acquire fuel b st' now (remaining - chunk) in
    let retry = acquire fuel b st' (now + wait_for b st' chunk) remaining in
    if remaining == 0 then some (st, now) else (if taken then next else retry)
