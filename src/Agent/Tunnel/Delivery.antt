-- ===== src/Agent/Tunnel/Delivery.antt =====
-- crates/node-agent/src/tunnel/task.rs: from the entry over the middle hops to the target.
use mathlib.Core.List.{append_assoc}
use emorelay.Base.{
  ℕ, ◌≡◌, refl, sym, ap, subst, ◌∙◌, Bool, true, Option, none, some, List, [], ◌∷◌, ◌++◌, String,
  ◌≤◌, All, length, take, drop, take-drop, arith, Option-cases, inl, inr, List-cases,
}
use emorelay.Base.Ip.{IpAddr}
use emorelay.Base.Words.{wrapping_add}
use emorelay.Agent.Frame.{stream_tcp, stream_udp}
use emorelay.Agent.Frame.RoundTrip.{write_all}
use emorelay.Agent.Relay.{filter_af, try_ips}
use emorelay.Agent.Tunnel.Stream.{
  buf_size, read_size, copy_counted, through, entry_tcp_stream, entry_udp_stream,
}
use emorelay.Agent.Tunnel.Exit.{
  datagrams, Outcome, unresolved, no_address, unreachable, sends, bridged, reach, handle_exit,
  bytes_of, datagrams_of,
}
use emorelay.Agent.Tunnel.Prefix.{
  IsPrefix, IsPrefix-trans, through-IsPrefix, datagrams-IsPrefix, datagrams-write_all, first, tail,
  reach_of, through-all,
}

copy_counted-whole :
    (limited : Bool) (ns : List ℕ) (counted : ℕ) (s : List ℕ)
    → (copy_counted limited ns counted s).0.0 ++ (copy_counted limited ns counted s).0.1 ≡ s
unfolding copy_counted
copy_counted-whole limited [] counted s = refl
copy_counted-whole limited (n ∷ ns) counted s =
    let k = read_size (buf_size limited) n in
    let rest = copy_counted limited ns (wrapping_add counted (length (take k s))) (drop k s) in
    append_assoc (take k s) rest.0.0 rest.0.1
    ∙ ap (λ l. take k s ++ l)
        (copy_counted-whole limited ns (wrapping_add counted (length (take k s))) (drop k s))
    ∙ take-drop k s

module _ (parse : String → Option IpAddr) (resolve : String → Option (List IpAddr))
    (connect_tcp connect_udp : IpAddr → ℕ → Bool) (sendable : ℕ → Bool) (host : String) (port : ℕ)
    (remote_af : String) where
  -- Whatever the address, a target that is reached gets the same.
  reach-cases :
      (P : Outcome → Type 0) (ips : Option (List IpAddr)) (connect : IpAddr → ℕ → Bool)
      (serve : IpAddr → Outcome)
      → ((o : Outcome) → (bytes_of o ≡ []) × (datagrams_of o ≡ []) → P o)
      → ((ip : IpAddr) → P (serve ip))
      → P (reach parse ips connect host port remote_af serve)
  reach-cases P none connect serve idle served = idle unresolved (refl, refl)
  reach-cases P (some ips) connect serve idle served = elim (List-cases (filter_af ips remote_af)) [
    | inl e ↦ rw (e, reach) (idle no_address (refl, refl))
    | inr (ip, rest, e) ↦ elim (Option-cases (try_ips parse connect host port (ip ∷ rest)).0) [
      | inl f ↦ rw (e, f, reach) (idle unreachable (refl, refl))
      | inr (found, f) ↦ rw (e, f, reach) (served found)
    ]
  ]

  abbrev exit : List ℕ → Outcome
  exit r = handle_exit parse resolve connect_tcp connect_udp sendable host port remote_af r

  exit_udp :
      (P : Outcome → Type 0) (s : List ℕ)
      → ((o : Outcome) → (bytes_of o ≡ []) × (datagrams_of o ≡ []) → P o)
      → ((ip : IpAddr) → P (sends ip (datagrams sendable (length s) s)))
      → P (exit (stream_udp ∷ s))
  unfolding handle_exit
  exit_udp P s idle served =
      reach-cases P (resolve host) connect_udp (λ ip. sends ip (datagrams sendable (length s) s))
        idle served

  exit_tcp :
      (P : Outcome → Type 0) (s : List ℕ)
      → ((o : Outcome) → (bytes_of o ≡ []) × (datagrams_of o ≡ []) → P o)
      → ((ip : IpAddr) → P (bridged ip s))
      → P (exit (stream_tcp ∷ s))
  unfolding handle_exit
  exit_tcp P s idle served =
      reach-cases P (resolve host) connect_tcp (λ ip. bridged ip s) idle served

  exit_empty : (datagrams_of (exit []) ≡ []) × (bytes_of (exit []) ≡ [])
  unfolding handle_exit
  exit_empty = (refl, refl)

  abbrev pub Datagrams : List (List ℕ) → Outcome → Type 0
  Datagrams ps o = IsPrefix (datagrams_of o) ps × (bytes_of o ≡ [])

  abbrev pub Bytes : List ℕ → Outcome → Type 0
  Bytes client o = IsPrefix (bytes_of o) client × (datagrams_of o ≡ [])

  exit-Datagrams :
      (ps : List (List ℕ)) (out r : List ℕ)
      → write_all ps ≡ some out
      → IsPrefix r (entry_udp_stream out)
      → Datagrams ps (exit r)
  exit-Datagrams ps out [] w p = ((ps, ap (λ l. l ++ ps) exit_empty.0), exit_empty.1)
  exit-Datagrams ps out (x ∷ s) w (later, e) =
      let head : x ≡ stream_udp = ap (first x) e in
      let rest : s ++ later ≡ out = ap tail e in
      subst (λ b. Datagrams ps (exit (b ∷ s))) (sym head)
        (exit_udp (Datagrams ps) s (λ o n. ((ps, ap (λ l. l ++ ps) n.1), n.0))
          (λ ip.
            (datagrams-IsPrefix sendable ps out s (length s) w (later, rest) (omega arith), refl)))

  exit-Bytes : (client r : List ℕ) → IsPrefix r (stream_tcp ∷ client) → Bytes client (exit r)
  exit-Bytes client [] p = ((client, ap (λ l. l ++ client) exit_empty.1), exit_empty.0)
  exit-Bytes client (x ∷ s) (later, e) =
      let head : x ≡ stream_tcp = ap (first x) e in
      let rest : s ++ later ≡ client = ap tail e in
      subst (λ b. Bytes client (exit (b ∷ s))) (sym head)
        (exit_tcp (Bytes client) s (λ o n. ((client, ap (λ l. l ++ client) n.0), n.1))
          (λ ip. ((later, rest), refl)))

  -- Over any middle hops, however their reads cut the stream and wherever it stands at the moment: what
  -- the target has got of a session of UDP is a beginning of the payloads whose frames were written, each
  -- datagram whole and in order, and it gets no bytes as of a TCP connection.
  pub through-Datagrams :
      (hops : List (List ℕ)) (ps : List (List ℕ)) (out : List ℕ)
      → write_all ps ≡ some out
      → Datagrams ps (exit (through hops (entry_udp_stream out)))
  through-Datagrams hops ps out w =
      exit-Datagrams ps out (through hops (entry_udp_stream out)) w
        (through-IsPrefix hops (entry_udp_stream out))

  -- Over any middle hops, however the reads of the entry and of the hops cut the stream: what the target
  -- has got of a TCP connection is a beginning of what the client has sent, byte by byte, and it gets no
  -- datagram.
  pub through-Bytes :
      (hops : List (List ℕ)) (limited : Bool) (ns client : List ℕ)
      → Bytes client (exit (through hops (entry_tcp_stream limited ns client)))
  unfolding entry_tcp_stream
  through-Bytes hops limited ns client =
      let copied = (copy_counted limited ns 0 client).0 in
      exit-Bytes client (through hops (stream_tcp ∷ copied.0)) (
        IsPrefix-trans (through hops (stream_tcp ∷ copied.0)) (stream_tcp ∷ copied.0)
          (stream_tcp ∷ client) (through-IsPrefix hops (stream_tcp ∷ copied.0))
          (copied.1, ap (λ l. stream_tcp ∷ l) (copy_counted-whole limited ns 0 client)))

  exit-sends :
      (s : List ℕ) (ips : List IpAddr) (ip : IpAddr) (rest : List IpAddr) (found : IpAddr)
      → resolve host ≡ some ips
      → filter_af ips remote_af ≡ ip ∷ rest
      → (try_ips parse connect_udp host port (ip ∷ rest)).0 ≡ some found
      → exit (stream_udp ∷ s) ≡ sends found (datagrams sendable (length s) s)
  unfolding handle_exit
  exit-sends s ips ip rest found r e t = rw (r, e, t, reach) refl

  -- Over any middle hops whose reads, however they cut the stream, together take as many bytes as it has:
  -- if the exit reaches an address of the target that is left after the rule's preference and every send
  -- succeeds, the target has got every payload whose frame was written, in order.
  pub through-arrives :
      (hops : List (List ℕ)) (ps : List (List ℕ)) (out : List ℕ) (ips : List IpAddr) (ip : IpAddr)
      (rest : List IpAddr) (found : IpAddr)
      → ((n : ℕ) → sendable n ≡ true)
      → write_all ps ≡ some out
      → All (λ ns. length (entry_udp_stream out) ≤ reach_of ns) hops
      → resolve host ≡ some ips
      → filter_af ips remote_af ≡ ip ∷ rest
      → (try_ips parse connect_udp host port (ip ∷ rest)).0 ≡ some found
      → exit (through hops (entry_udp_stream out)) ≡ sends found ps
  through-arrives hops ps out ips ip rest found k w long r e t =
      ap exit (through-all hops (entry_udp_stream out) long)
      ∙ exit-sends out ips ip rest found r e t
      ∙ ap (sends found) (datagrams-write_all sendable ps out (length out) k w (omega arith))
