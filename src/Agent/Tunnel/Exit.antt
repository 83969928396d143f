-- ===== src/Agent/Tunnel/Exit.antt =====
-- crates/node-agent/src/tunnel/task.rs: the exit of a tunnel. The transport, the resolver and the connects are
-- arguments; a connect that takes too long counts as one that fails, and for UDP the bind of the local
-- socket counts as a part of it.
use emorelay.Base.{
  ℕ, zero, suc, Bool, Option, none, some, List, [], ◌∷◌, String, ◌==◌, length, if◌then◌else◌,
}
use emorelay.Base.Ip.{IpAddr}
use emorelay.Agent.Frame.{stream_tcp, stream_udp, read_frame}
use emorelay.Agent.Relay.{filter_af, try_ips}

-- The datagrams that are sent: one for each frame, until the stream has no whole frame more or a send
-- fails. Each frame takes two bytes at least, so the length of the stream is fuel enough; `sendable`
-- tells by the fuel that is left whether a send succeeds.
unfoldable pub datagrams : (ℕ → Bool) → ℕ → List ℕ → List (List ℕ)
datagrams sendable zero s = []
datagrams sendable (suc fuel) s = elim (read_frame s) [
  | none ↦ []
  | some (payload, rest) ↦
      let more = datagrams sendable fuel rest in if sendable fuel then payload ∷ more else []
]

-- What comes of a connection at the exit: an error, or the bytes or datagrams that the target gets.
pub data Outcome : Type 0 where
  no_preamble unresolved no_address unreachable : Outcome
  unknown_preamble : ℕ → Outcome
  bridged : IpAddr → List ℕ → Outcome
  sends : IpAddr → List (List ℕ) → Outcome

-- The resolver fails, or answers; of its addresses those of the family that the rule prefers are tried.
abbrev pub reach :
    (String → Option IpAddr)
    → Option (List IpAddr)
    → (IpAddr → ℕ → Bool)
    → String
    → ℕ
    → String
    → (IpAddr → Outcome)
    → Outcome
reach parse none connect host port remote_af serve = unresolved
reach parse (some ips) connect host port remote_af serve = elim (filter_af ips remote_af) [
  | [] ↦ no_address
  | ip ∷ ips ↦ elim (try_ips parse connect host port (ip ∷ ips)).0 [
    | none ↦ unreachable
    | some found ↦ serve found
  ]
]

module _ (parse : String → Option IpAddr) (resolve : String → Option (List IpAddr))
    (connect_tcp connect_udp : IpAddr → ℕ → Bool) (sendable : ℕ → Bool) where
  -- `handle_hop_conn` at the exit, on the bytes that the stream has brought.
  unfoldable pub handle_exit : String → ℕ → String → List ℕ → Outcome
  handle_exit host port remote_af [] = no_preamble
  handle_exit host port remote_af (preamble ∷ s) =
      if preamble == stream_tcp
      then reach parse (resolve host) connect_tcp host port remote_af (λ ip. bridged ip s)
      else (if preamble == stream_udp
          then reach parse (resolve host) connect_udp host port remote_af
              (λ ip. sends ip (datagrams sendable (length s) s))
          else unknown_preamble preamble)

-- What the target gets of a connection.
abbrev pub bytes_of : Outcome → List ℕ
bytes_of (bridged ip s) = s
bytes_of o = []

abbrev pub datagrams_of : Outcome → List (List ℕ)
datagrams_of (sends ip ps) = ps
datagrams_of o = []
