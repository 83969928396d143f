-- ===== src/Agent/TokenBucket/Acquire.antt =====
-- A task that waits gets its bytes: the loop of `acquire` ends.
use native.Mathlib.Nat.{div-add-mod, mod-lt, mul_comm}
use emorelay.Base.{
  ℕ, zero, suc, ◌+◌, ◌-◌, ◌*◌, ◌/◌, ◌≤◌, ◌<◌, ◌≡◌, refl, ap, ◌∙◌, true, false, some, min, arith,
  Bool-cases, inl, inr,
}
use emorelay.Agent.TokenBucket.{Bucket, BucketState, nano, try_acquire, wait_for, acquire}

ceil-le : (x r : ℕ) → 0 < r → x ≤ (x + (r - 1)) / r * r
ceil-le x r h = omega (
  arith,
  div-add-mod (x + (r - 1)) r,
  mod-lt (x + (r - 1)) {m = r} h,
  mul_comm r ((x + (r - 1)) / r),
)

try_acquire-enough :
    (b : Bucket) (st : BucketState) (now w chunk : ℕ)
    → st.last_refill ≡ now
    → chunk ≤ b.burst_bytes
    → chunk * nano ≤ st.tokens + w * b.rate_bytes_per_sec
    → (try_acquire b st (now + w) chunk).1 ≡ true
unfolding try_acquire
try_acquire-enough b st now w chunk at c enough =
    let e : now + w - st.last_refill ≡ w = omega arith in
    ground (arith, ap (λ (x : ℕ). x * b.rate_bytes_per_sec) e)

try_acquire-failed :
    (b : Bucket) (st : BucketState) (now chunk : ℕ)
    → (try_acquire b st now chunk).1 ≡ false
    → let st' = (try_acquire b st now chunk).0 in
      (st'.last_refill ≡ now) × (st'.tokens < chunk * nano)
unfolding try_acquire
try_acquire-failed b st now chunk failed = ground arith

-- After the wait that follows a failed try for at most the burst, a second try for the same bytes
-- succeeds, if no other task comes between.
pub try_acquire-wait_for :
    (b : Bucket) (st : BucketState) (now chunk : ℕ)
    → 0 < b.rate_bytes_per_sec
    → chunk ≤ b.burst_bytes
    → (try_acquire b st now chunk).1 ≡ false
    → let st' = (try_acquire b st now chunk).0 in
      (try_acquire b st' (now + wait_for b st' chunk) chunk).1 ≡ true
unfolding wait_for
try_acquire-wait_for b st now chunk r c failed =
    let (at, short) = try_acquire-failed b st now chunk failed in
    let st' = (try_acquire b st now chunk).0 in
    let enough = ceil-le (chunk * nano - st'.tokens) b.rate_bytes_per_sec r in
    try_acquire-enough b st' now (wait_for b st' chunk) chunk at c (omega (arith, enough, short))

acquire-next :
    (fuel : ℕ) (b : Bucket) (st : BucketState) (now remaining : ℕ)
    → 0 < remaining
    → (try_acquire b st now (min remaining b.burst_bytes)).1 ≡ true
    → acquire (suc fuel) b st now remaining
      ≡ acquire fuel b
          (try_acquire b st now (min remaining b.burst_bytes)).0
          now
          (remaining - min remaining b.burst_bytes)
unfolding acquire
acquire-next fuel b st now remaining p taken = ground arith

acquire-retry :
    (fuel : ℕ) (b : Bucket) (st : BucketState) (now remaining : ℕ)
    → 0 < remaining
    → (try_acquire b st now (min remaining b.burst_bytes)).1 ≡ false
    → let st' = (try_acquire b st now (min remaining b.burst_bytes)).0 in
      acquire (suc fuel) b st now remaining
      ≡ acquire fuel b st' (now + wait_for b st' (min remaining b.burst_bytes)) remaining
unfolding acquire
acquire-retry fuel b st now remaining p failed = ground arith

acquire-done :
    (fuel : ℕ) (b : Bucket) (st : BucketState) (now : ℕ)
    → acquire (suc fuel) b st now 0 ≡ some (st, now)
unfolding acquire
acquire-done fuel b st now = refl

-- Two rounds per byte are enough for all that a task wants that is alone, from any state of a bucket
-- with a positive rate and burst, and however large the amount is beside the burst: the loop ends.
pub acquire_total :
    (fuel : ℕ) (b : Bucket) (st : BucketState) (now remaining : ℕ)
    → 0 < b.rate_bytes_per_sec
    → 0 < b.burst_bytes
    → 2 * remaining < fuel
    → (end : BucketState × ℕ) × (acquire fuel b st now remaining ≡ some end)
acquire_total zero b st now remaining r u f = absurd (omega arith)
acquire_total (suc fuel) b st now zero r u f = ((st, now), acquire-done fuel b st now)
acquire_total (suc zero) b st now (suc remaining) r u f = absurd (omega arith)
acquire_total (suc (suc fuel)) b st now (suc remaining) r u f =
    let chunk = min (suc remaining) b.burst_bytes in
    let st' = (try_acquire b st now chunk).0 in
    let later = now + wait_for b st' chunk in
    let st'' = (try_acquire b st' later chunk).0 in
    let next = acquire_total (suc fuel) b st' now (suc remaining - chunk) r u (omega arith) in
    let again = acquire_total fuel b st'' later (suc remaining - chunk) r u (omega arith) in
    elim (Bool-cases (try_acquire b st now chunk).1) [
      | inl taken ↦
          (next.0, acquire-next (suc fuel) b st now (suc remaining) (omega arith) taken ∙ next.1)
      | inr failed ↦ (
        again.0,
        acquire-retry (suc fuel) b st now (suc remaining) (omega arith) failed
            ∙ acquire-next fuel b st' later (suc remaining) (omega arith)
                (try_acquire-wait_for b st now chunk r (omega arith) failed)
            ∙ again.1,
      )
    ]
