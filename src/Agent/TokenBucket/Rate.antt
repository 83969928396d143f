-- ===== src/Agent/TokenBucket/Rate.antt =====
-- The bucket lets no more through than its burst and what has flowed in since.
use emorelay.Base.{
  ℕ, suc, ◌+◌, ◌-◌, ◌*◌, ◌≤◌, ◌≡◌, ap, List, [], ◌∷◌, max, some, if◌then◌else◌, arith,
}
use emorelay.Base.Signed.{pos}
use native.Mathlib.Nat.{add-mul}
use emorelay.Agent.TokenBucket.{from_mbps, Bucket, BucketState, nano, try_acquire}

-- One try each, by whichever task: the time that has passed since the try before and the bytes asked for.
abbrev pub granted : Bucket → BucketState → List (ℕ × ℕ) → ℕ
granted b st [] = 0
granted b st ((dt, want) ∷ tries) =
    let (st', taken) = try_acquire b st (st.last_refill + dt) want in
    (if taken then want else 0) + granted b st' tries

abbrev pub elapsed : List (ℕ × ℕ) → ℕ
elapsed [] = 0
elapsed ((dt, want) ∷ tries) = dt + elapsed tries

-- One try: what it takes and what stays is covered by what was there and what flowed in.
try_acquire-cover :
    (b : Bucket) (st : BucketState) (dt want : ℕ)
    → let (st', taken) = try_acquire b st (st.last_refill + dt) want in
      ((if taken then want else 0) * nano + st'.tokens ≤ st.tokens + dt * b.rate_bytes_per_sec)
      × (st'.last_refill ≡ st.last_refill + dt)
unfolding try_acquire
try_acquire-cover b st dt want =
    let e : st.last_refill + dt - st.last_refill ≡ dt = omega arith in
    ground (arith, ap (λ (x : ℕ). x * b.rate_bytes_per_sec) e)

granted-cover :
    (b : Bucket) (st : BucketState) (tries : List (ℕ × ℕ))
    → granted b st tries * nano ≤ st.tokens + elapsed tries * b.rate_bytes_per_sec
granted-cover b st [] = omega arith
granted-cover b st ((dt, want) ∷ tries) =
    let (cover, at) = try_acquire-cover b st dt want in
    let (st', taken) = try_acquire b st (st.last_refill + dt) want in
    let rest = granted-cover b st' tries in
    let split = add-mul (if taken then want else 0) (granted b st' tries) nano in
    let flow = add-mul dt (elapsed tries) b.rate_bytes_per_sec in
    omega (arith, split, flow, cover, rest)

abbrev pub after : Bucket → BucketState → List (ℕ × ℕ) → BucketState
after b st [] = st
after b st ((dt, want) ∷ tries) = after b (try_acquire b st (st.last_refill + dt) want).0 tries

try_acquire-tokens :
    (b : Bucket) (st : BucketState) (now want : ℕ)
    → (try_acquire b st now want).0.tokens ≤ b.burst_bytes * nano
unfolding try_acquire
try_acquire-tokens b st now want = ground arith

after-tokens :
    (b : Bucket) (st : BucketState) (tries : List (ℕ × ℕ))
    → st.tokens ≤ b.burst_bytes * nano
    → (after b st tries).tokens ≤ b.burst_bytes * nano
after-tokens b st [] h = h
after-tokens b st ((dt, want) ∷ tries) h =
    after-tokens b (try_acquire b st (st.last_refill + dt) want).0 tries
      (try_acquire-tokens b st (st.last_refill + dt) want)

-- The limit that a rule's bandwidth stands for: in any stretch of the bucket's life, after whatever
-- came before, all tasks together are granted at most the burst and what the rate brings in that
-- time. The burst is a fifth of a second of the rate, and 64 KiB at least.
pub granted_bound :
    (m now : ℕ) (b : Bucket) (st : BucketState) (before window : List (ℕ × ℕ))
    → from_mbps (pos (suc m)) now ≡ some (b, st)
    → (granted b (after b st before) window * nano
        ≤ b.burst_bytes * nano + elapsed window * (suc m * 125000))
      × (b.burst_bytes ≡ max (suc m * 25000) 65536)
unfolding from_mbps
granted_bound m now b st before window h =
    let full : st.tokens ≤ b.burst_bytes * nano = ground arith in
    let capped = after-tokens b st before full in
    let cover = granted-cover b (after b st before) window in
    let rate : b.rate_bytes_per_sec ≡ suc m * 125000 = ground arith in
    let flow = ap (λ (x : ℕ). elapsed window * x) rate in
    (omega (arith, capped, cover, flow), ground arith)
