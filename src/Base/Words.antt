-- ===== src/Base/Words.antt =====
-- Machine words as their bit patterns: a w-bit integer, signed or not, is a number below 2 ^ w.
use Prim.Native.Nat.{ℕ, ◌+◌, ◌%◌}

abbrev pub mod64 : ℕ
mod64 = 18446744073709551616

abbrev pub mod63 : ℕ
mod63 = 9223372036854775808

abbrev pub mod32 : ℕ
mod32 = 4294967296

-- `fetch_add` of an atomic and `wrapping_add`: the sum wraps. On the two's complement patterns
-- of `i64` it is the same function.
abbrev pub wrapping_add : ℕ → ℕ → ℕ
wrapping_add a b = (a + b) % mod64
