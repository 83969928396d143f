-- ===== src/Agent/Tunnel/Target.antt =====
-- crates/node-agent/src/tunnel/task.rs: the addresses that the exit reaches.
use emorelay.Base.{
  ℕ, ◌≡◌, ap, subst, Bool, true, Option, none, some, List, [], ◌∷◌, String, if◌then◌else◌, ◌==◌,
  All, arith, Bool-cases, Option-cases, List-cases, inl, inr, unwrap_or, length,
}
use emorelay.Base.Ip.{IpAddr}
use emorelay.Agent.Frame.{stream_tcp, stream_udp}
use emorelay.Agent.Relay.{filter_af, guard_resolved_target, try_ips}
use emorelay.Agent.Relay.Guard.{admits, filter_af-admits}
use emorelay.Agent.Tunnel.Exit.{Outcome, bridged, sends, reach, datagrams, handle_exit}

module _ (parse : String → Option IpAddr) where
  abbrev pub Admitted : String → String → IpAddr → Type 0
  Admitted host remote_af ip =
      (admits remote_af ip ≡ true) × (guard_resolved_target parse host ip ≡ true)

  -- The address that a connection or datagrams of the outcome go to.
  abbrev pub Reaches : String → String → Outcome → Type 0
  Reaches host remote_af (bridged ip s) = Admitted host remote_af ip
  Reaches host remote_af (sends ip ps) = Admitted host remote_af ip
  Reaches host remote_af o = Unit

  found-Admitted :
      (connect : IpAddr → ℕ → Bool) (host remote_af : String) (port : ℕ) (ips : List IpAddr)
      (ip : IpAddr)
      → All (λ i. admits remote_af i ≡ true) ips
      → (try_ips parse connect host port ips).0 ≡ some ip
      → Admitted host remote_af ip
  unfolding try_ips
  found-Admitted connect host remote_af port [] ip a e = absurd (ground (arith, e))
  found-Admitted connect host remote_af port (i ∷ ips) ip (b, a) e =
      elim (Bool-cases (guard_resolved_target parse host i)) [
        | inr f ↦ found-Admitted connect host remote_af port ips ip a (rw (f, if◌then◌else◌) at e)
        | inl f ↦ elim (Bool-cases (connect i port)) [
          | inl g ↦
              let same : some i ≡ some ip = rw (f, g, if◌then◌else◌) at e in
              subst (Admitted host remote_af) (ap (λ o. unwrap_or o i) same) (b, f)
          | inr g ↦
              found-Admitted connect host remote_af port ips ip a (rw (f, g, if◌then◌else◌) at e)
        ]
      ]

  reach-Reaches :
      (ips : Option (List IpAddr)) (connect : IpAddr → ℕ → Bool) (host remote_af : String)
      (port : ℕ) (serve : IpAddr → Outcome)
      → ((ip : IpAddr) → Admitted host remote_af ip → Reaches host remote_af (serve ip))
      → Reaches host remote_af (reach parse ips connect host port remote_af serve)
  reach-Reaches none connect host remote_af port serve k = tt
  reach-Reaches (some ips) connect host remote_af port serve k =
      let admitted = filter_af-admits parse ips remote_af in
      elim (List-cases (filter_af ips remote_af)) [
        | inl e ↦ rw (e, reach) tt
        | inr (ip, rest, e) ↦ elim (Option-cases (try_ips parse connect host port (ip ∷ rest)).0) [
          | inl f ↦ rw (e, f, reach) tt
          | inr (found, f) ↦
              rw (e, f, reach)
                (k found (
                  found-Admitted connect host remote_af port (ip ∷ rest) found
                    (subst (All (λ i. admits remote_af i ≡ true)) e admitted) f))
        ]
      ]

  -- Whatever a stream carries, what the resolver answers and which connects succeed: bytes or datagrams
  -- leave the exit only for an address of the family that the rule prefers, and for no internal address
  -- unless the target of the rule is itself an address literal.
  pub handle_exit-Reaches :
      (resolve : String → Option (List IpAddr)) (connect_tcp connect_udp : IpAddr → ℕ → Bool)
      (sendable : ℕ → Bool) (host : String) (port : ℕ) (remote_af : String) (s : List ℕ)
      → Reaches host remote_af
          (handle_exit parse resolve connect_tcp connect_udp sendable host port remote_af s)
  unfolding handle_exit
  handle_exit-Reaches resolve connect_tcp connect_udp sendable host port remote_af [] = tt
  handle_exit-Reaches resolve connect_tcp connect_udp sendable host port remote_af (b ∷ s) =
      elim (Bool-cases (b == stream_tcp)) [
        | inl e ↦
            rw (e, if◌then◌else◌)
              (reach-Reaches (resolve host) connect_tcp host remote_af port (λ ip. bridged ip s)
                (λ ip a. a))
        | inr e ↦ elim (Bool-cases (b == stream_udp)) [
          | inl f ↦
              rw (e, f, if◌then◌else◌)
                (reach-Reaches (resolve host) connect_udp host remote_af port
                  (λ ip. sends ip (datagrams sendable (length s) s)) (λ ip a. a))
          | inr f ↦ rw (e, f, if◌then◌else◌) tt
        ]
      ]
