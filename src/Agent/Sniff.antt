-- ===== src/Agent/Sniff.antt =====
-- crates/node-agent/src/sniff.rs, and the loop of `bridge` in relay/tcp.rs that peeks at a new
-- connection until it can tell. A byte is a number below 256.
pub mod Prefix
pub mod Loop
mod Tests
use Prim.Native.Nat.{bit_and}
use Prim.Native.Char.{code}
use emorelay.Base.{
  ℕ, ◌≤◌, Bool, true, false, not, ◌&&◌, ◌||◌, Option, none, some, List, [], ◌∷◌, String, leb, ltb,
  ◌==◌, if◌then◌else◌, length,
}

-- The bytes of an ASCII text.
abbrev pub bytes : String → List ℕ
bytes String.[] = []
bytes (String.◌∷◌ c s) = code c ∷ bytes s

abbrev pub block_http : ℕ
block_http = 1

abbrev pub block_tls : ℕ
block_tls = 2

abbrev pub block_socks : ℕ
block_socks = 4

-- `mask & bit != 0`
pub has_bit : ℕ → ℕ → Bool
has_bit mask bit = not (bit_and mask bit == 0)

-- `b.starts_with(m)`
abbrev pub starts_with : List ℕ → List ℕ → Bool
starts_with b [] = true
starts_with [] (y ∷ m) = false
starts_with (x ∷ b) (y ∷ m) = x == y && starts_with b m

abbrev pub http_methods : List (List ℕ)
http_methods =
    bytes "GET "
    ∷ bytes "POST "
    ∷ bytes "PUT "
    ∷ bytes "HEAD "
    ∷ bytes "DELETE "
    ∷ bytes "OPTIONS "
    ∷ bytes "PATCH "
    ∷ bytes "TRACE "
    ∷ bytes "CONNECT "
    ∷ bytes "PRI "
    ∷ []

pub is_tls_client_hello : List ℕ → Bool
is_tls_client_hello (a ∷ b ∷ c ∷ rest) = a == 0x16 && (b == 0x03 && leb c 0x04)
is_tls_client_hello _ = false

pub any_method : List (List ℕ) → List ℕ → Bool
any_method [] b = false
any_method (m ∷ ms) b = starts_with b m || any_method ms b

pub is_http_request : List ℕ → Bool
is_http_request b = any_method http_methods b

pub is_socks : List ℕ → Bool
is_socks (a ∷ b ∷ rest) =
    if a == 0x05 then leb 1 b else (if a == 0x04 then b == 0x01 || b == 0x02 else false)
is_socks _ = false

pub data Protocol : Type 0 where
  tls http socks : Protocol

-- The three fingerprints in the order in which they are tried.
pub fingerprint : List ℕ → ℕ → Option Protocol
fingerprint first mask =
    if has_bit mask block_tls && is_tls_client_hello first
    then some tls
    else (if has_bit mask block_http && is_http_request first
        then some http
        else (if has_bit mask block_socks && is_socks first then some socks else none))

pub sniff_blocked : List ℕ → ℕ → Option Protocol
unfolding fingerprint
sniff_blocked [] mask = none
sniff_blocked (x ∷ first) mask = if mask == 0 then none else fingerprint (x ∷ first) mask

pub tls_prefix_possible : List ℕ → Bool
tls_prefix_possible [] = true
tls_prefix_possible (a ∷ []) = a == 0x16
tls_prefix_possible (a ∷ b ∷ []) = a == 0x16 && b == 0x03
tls_prefix_possible (a ∷ b ∷ c ∷ rest) = a == 0x16 && (b == 0x03 && leb c 0x04)

pub any_prefix : List (List ℕ) → List ℕ → Bool
any_prefix [] b = false
any_prefix (m ∷ ms) b = (starts_with m b || starts_with b m) || any_prefix ms b

pub http_prefix_possible : List ℕ → Bool
http_prefix_possible b = any_prefix http_methods b

pub socks_prefix_possible : List ℕ → Bool
socks_prefix_possible [] = true
socks_prefix_possible (a ∷ rest) = a == 0x05 || a == 0x04

pub prefix_possible : List ℕ → ℕ → Bool
prefix_possible [] mask = true
prefix_possible (x ∷ first) mask =
    (has_bit mask block_tls && tls_prefix_possible (x ∷ first))
    || ((has_bit mask block_http && http_prefix_possible (x ∷ first))
        || (has_bit mask block_socks && socks_prefix_possible (x ∷ first)))

pub could_be_blocked : List ℕ → ℕ → Bool
unfolding prefix_possible
could_be_blocked first mask = if mask == 0 then false else prefix_possible first mask

abbrev pub min_sniff_len : ℕ
min_sniff_len = 8

-- What one round of the loop meets: the bytes that `peek` shows, at most 16 of them, and whether
-- the deadline strikes during the pause after it; or the deadline or an error in `peek` itself.
pub data Peek : Type 0 where
  shown : List ℕ → Bool → Peek
  cut_off : Peek

-- `some p` breaks the connection off; `none` lets it pass. The list ends with the deadline.
pub sniff_loop : ℕ → List Peek → Option Protocol
sniff_loop mask [] = none
sniff_loop mask (cut_off ∷ peeks) = none
sniff_loop mask (shown [] late ∷ peeks) = none
sniff_loop mask (shown (x ∷ first) late ∷ peeks) =
    let more = sniff_loop mask peeks in
    elim (sniff_blocked (x ∷ first) mask) [
      | some p ↦ some p
      | none ↦
          if not (could_be_blocked (x ∷ first) mask)
          then none
          else (if leb min_sniff_len (length (x ∷ first))
              then none
              else (if late then none else more))
    ]

-- `bridge` sniffs only where the node blocks something.
pub admit : ℕ → List Peek → Option Protocol
admit mask peeks = if mask == 0 then none else sniff_loop mask peeks
