-- ===== src/Panel/Split/Chain.antt =====
-- The parts of a split rule form the chain of the tunnel's hops.
use emorelay.Base.{
  ℕ, suc, ◌+◌, ◌%◌, ◌≡◌, ◌<◌, refl, ap, ap₂, ◌∙◌, true, false, Option, none, some, List, [], ◌∷◌,
  ◌==◌, if◌then◌else◌, length, unwrap_or, arith, get_elem?, zero, All, is_some,
}
use emorelay.Base.Signed.{pos}
use emorelay.Base.Words.{mod32}
use emorelay.Proto.{Rule, TunnelContext}
use emorelay.Panel.Split.{
  SplitInput, HopInput, entry_role, exit_role, next_addr, next_inter_port, hop_rule, split_from,
  split_tunnel_rule,
}

-- The hops after the first i + 1.
abbrev pub after : ℕ → List HopInput → List HopInput
after i [] = []
after zero (h ∷ hops) = hops
after (suc i) (h ∷ hops) = after i hops

abbrev pub part : SplitInput → ℕ → ℕ → List HopInput → Option HopInput → Option (ℕ × Rule)
part input n i rest none = none
part input n i rest (some hop) = some (hop.node_id, hop_rule input n i hop rest)

split_from-get :
    (input : SplitInput) (n i k : ℕ) (hops : List HopInput)
    → get_elem? (split_from input n i hops) k
      ≡ part input n (i + k) (after k hops) (get_elem? hops k)
unfolding split_from
split_from-get input n i k [] = refl
split_from-get input n i zero (h ∷ hops) =
    ap (λ j. some (h.node_id, hop_rule input n j h hops)) (omega arith)
split_from-get input n i (suc k) (h ∷ hops) =
    split_from-get input n (suc i) k hops
    ∙ ap (λ j. part input n j (after k hops) (get_elem? hops k)) (omega arith)

after-next :
    (k : ℕ) (hops : List HopInput) (next : HopInput)
    → get_elem? hops (suc k) ≡ some next
    → (next_addr (after k hops) ≡ next.addr)
      × (next_inter_port (after k hops) ≡ unwrap_or next.inter_port 0 % mod32)
      × (suc k < length hops)
after-next k [] next e = ground (arith, e)
after-next zero (h ∷ []) next e = ground (arith, e)
after-next zero (h ∷ g ∷ hops) next e = ground (arith, e)
after-next (suc k) (h ∷ hops) next e = ground (arith, after-next k hops next e)

-- What is said of the parts of two hops that follow one another.
abbrev pub Linked : SplitInput → List HopInput → ℕ → HopInput → HopInput → Type 0
Linked input hops k hop next =
    (p q : Rule) × (c d : TunnelContext) × (get_elem? (split_tunnel_rule input hops) k
      ≡ some (hop.node_id, p))
    × (get_elem? (split_tunnel_rule input hops) (suc k) ≡ some (next.node_id, q))
    × (p.tunnel ≡ some c)
    × (q.tunnel ≡ some d)
    × (c.next_hop_addr ≡ next.addr)
    × (c.next_hop_inter_port ≡ d.self_inter_port)
    × (c.transport ≡ d.transport)
    × (c.self_ordinal ≡ k)
    × (d.self_ordinal ≡ suc k)
    × (p.id ≡ q.id)
    × (p.enabled ≡ q.enabled)
    × ((c.role == entry_role) ≡ (k == 0))
    × ((d.role == entry_role) ≡ false)
    × ((d.role == exit_role) ≡ (suc (suc k) == length hops))
    × (p.bandwidth_mbps ≡ (if k == 0 then input.bandwidth_mbps else pos 0))
    × (q.bandwidth_mbps ≡ pos 0)
    × (p.max_connections ≡ (if k == 0 then input.max_connections else pos 0))
    × (q.max_connections ≡ pos 0)

-- Two hops of a tunnel that follow one another get parts of the same rule. The first part dials the
-- address of the next hop at the very port on which the second part listens, both speak the tunnel's
-- transport and know their place. Only the part of the first hop is an entry, and only that one
-- carries the limits of bandwidth and of connections; only the last is an exit.
pub split_tunnel_rule-Linked :
    (input : SplitInput) (hops : List HopInput) (k : ℕ) (hop next : HopInput)
    → get_elem? hops k ≡ some hop
    → get_elem? hops (suc k) ≡ some next
    → Linked input hops k hop next
unfolding split_tunnel_rule
split_tunnel_rule-Linked input hops k hop next e f =
    let n = length hops in
    let (addr, port, short) = after-next k hops next f in
    (
      hop_rule input n k hop (after k hops),
      hop_rule input n (suc k) next (after (suc k) hops),
      _,
      _,
      at_0 k hop e,
      at_0 (suc k) next f,
      refl,
      refl,
      addr,
      port,
      refl,
      refl,
      refl,
      refl,
      refl,
      ground (arith, short),
      ground (arith, short),
      ground (arith, short),
      refl,
      ground arith,
      refl,
      ground arith,
    )
  where
    at_0 :
        (i : ℕ) (h : HopInput)
        → get_elem? hops i ≡ some h
        → get_elem? (split_tunnel_rule input hops) i
          ≡ some (h.node_id, hop_rule input (length hops) i h (after i hops))
    at_0 i h e =
        split_from-get input (length hops) 0 i hops
        ∙ ap₂ (λ j o. part input (length hops) j (after i hops) o) (omega arith) e

split_from-tunnelled :
    (input : SplitInput) (n i : ℕ) (hops : List HopInput)
    → All (λ (p : ℕ × Rule). is_some p.1.tunnel ≡ true) (split_from input n i hops)
unfolding split_from
split_from-tunnelled input n i [] = tt
split_from-tunnelled input n i (h ∷ hops) = (refl, split_from-tunnelled input n (suc i) hops)

pub split_tunnel_rule-tunnelled :
    (input : SplitInput) (hops : List HopInput)
    → All (λ (p : ℕ × Rule). is_some p.1.tunnel ≡ true) (split_tunnel_rule input hops)
unfolding split_tunnel_rule
split_tunnel_rule-tunnelled input hops = split_from-tunnelled input (length hops) 0 hops
