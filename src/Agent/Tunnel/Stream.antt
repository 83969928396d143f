-- ===== src/Agent/Tunnel/Stream.antt =====
-- crates/node-agent/src/tunnel/task.rs: the copying of bytes. A stream is the bytes that are written to it,
-- in order; how many of them a read returns is up to the transport.
use emorelay.Base.{ℕ, suc, Bool, true, false, List, [], ◌∷◌, ◌++◌, length, take, drop, min}
use emorelay.Base.Words.{wrapping_add}
use emorelay.Agent.Frame.{stream_tcp, stream_udp}

-- 64 * 1024 with a limit of the bandwidth and at the hops, 256 * 1024 without.
abbrev pub hop_buffer : ℕ
hop_buffer = 65536

abbrev pub buf_size : Bool → ℕ
buf_size limited = elim limited [ true ↦ 65536 | false ↦ 262144 ]

-- What a read of at most `size` bytes takes, where `n` more than one have come.
abbrev pub read_size : ℕ → ℕ → ℕ
read_size size n = min (suc n) size

-- The rounds of `copy_raw` so far: what is written, and what is still to be read.
unfoldable pub copy_raw : List ℕ → List ℕ → List ℕ × List ℕ
copy_raw [] s = ([], s)
copy_raw (n ∷ ns) s =
    let k = read_size hop_buffer n in
    let rest = copy_raw ns (drop k s) in (take k s ++ rest.0, rest.1)

-- `copy_counted`: each chunk is counted once it is written.
unfoldable pub copy_counted : Bool → List ℕ → ℕ → List ℕ → (List ℕ × List ℕ) × ℕ
copy_counted limited [] counted s = (([], s), counted)
copy_counted limited (n ∷ ns) counted s =
    let k = read_size (buf_size limited) n in
    let chunk = take k s in
    let rest = copy_counted limited ns (wrapping_add counted (length chunk)) (drop k s) in
    ((chunk ++ rest.0.0, rest.0.1), rest.1)

-- The bytes of the stream that leave the last hop before the exit, with the reads of each hop.
unfoldable pub through : List (List ℕ) → List ℕ → List ℕ
through [] s = s
through (ns ∷ hops) s = through hops (copy_raw ns s).0

-- `entry_tcp_conn` writes the preamble, and then the bytes of the client that it has copied.
unfoldable pub entry_tcp_stream : Bool → List ℕ → List ℕ → List ℕ
entry_tcp_stream limited ns client = stream_tcp ∷ (copy_counted limited ns 0 client).0.0

-- `open_udp_session` writes the preamble, and its writer the frames.
abbrev pub entry_udp_stream : List ℕ → List ℕ
entry_udp_stream frames = stream_udp ∷ frames
