-- ===== src/Agent/Frame.antt =====
-- crates/node-agent/src/tunnel/frame.rs: frames on the tunnel. A stream is a list of bytes; the
-- transport delivers in order what was written.
pub mod RoundTrip
mod Tests
use emorelay.Base.{
  ℕ, zero, suc, ◌+◌, ◌*◌, ◌/◌, ◌%◌, Bool, Option, none, some, List, [], ◌∷◌, ◌++◌, leb,
  if◌then◌else◌, length,
}

abbrev pub stream_tcp : ℕ
stream_tcp = 0x01

abbrev pub stream_udp : ℕ
stream_udp = 0x02

-- `u16::try_from(payload.len())`, its two bytes with the high one first, then the payload. `none`
-- is the error, before which nothing is written.
unfoldable pub write_frame : List ℕ → Option (List ℕ)
write_frame payload =
    if leb (length payload) 65535
    then some (length payload / 256 ∷ length payload % 256 ∷ payload)
    else none

-- `read_exact` of n bytes: the bytes and the rest of the stream, or an error at its end.
unfoldable pub read_exact : ℕ → List ℕ → Option (List ℕ × List ℕ)
read_exact zero s = some ([], s)
read_exact (suc n) [] = none
read_exact (suc n) (x ∷ s) = elim (read_exact n s) [
  | none ↦ none
  | some (xs, rest) ↦ some (x ∷ xs, rest)
]

unfoldable pub read_frame : List ℕ → Option (List ℕ × List ℕ)
read_frame (hi ∷ lo ∷ s) = read_exact (hi * 256 + lo) s
read_frame _ = none
