-- ===== src/Agent/Sniff/Loop.antt =====
-- However the first bytes of a connection are cut into pieces, the verdict is that of the stream.
use emorelay.Base.{
  ℕ, ◌≤◌, ◌≡◌, refl, ap, false, List, [], ◌∷◌, ◌++◌, ◌≢◌, length, All, arith, is_some,
}
use emorelay.Agent.Sniff.{Peek, shown, sniff_blocked, sniff_loop, admit}
use emorelay.Agent.Sniff.Prefix.{sniff_blocked-prefix, sniff_blocked_mono, sniff_blocked-long}

-- A piece that a peek can show of a stream: a prefix of it that is not empty.
abbrev pub IsPrefix : List ℕ → List ℕ → Type 0
IsPrefix s c = (c ≢ []) × ((r : List ℕ) × (c ++ r ≡ s))

-- Rounds that end before the deadline.
abbrev pub in_time : List (List ℕ) → List Peek
in_time [] = []
in_time (c ∷ cs) = shown c false ∷ in_time cs

-- One round with fewer than eight bytes: the verdict is that of the rounds that follow.
round-IsPrefix :
    (mask : ℕ) (s c : List ℕ) (peeks : List Peek)
    → IsPrefix s c
    → is_some (sniff_loop mask peeks) ≡ is_some (sniff_blocked s mask)
    → is_some (sniff_loop mask (shown c false ∷ peeks)) ≡ is_some (sniff_blocked s mask)
unfolding sniff_loop
round-IsPrefix mask s [] peeks p h = absurd (p.0 refl)
round-IsPrefix mask s (x ∷ c) peeks (_, (r, e)) h = ground (
  arith,
  ap (λ (l : List ℕ). sniff_blocked l mask) e,
  sniff_blocked-prefix (x ∷ c) r mask,
  sniff_blocked_mono (x ∷ c) r mask,
  sniff_blocked-long (x ∷ c) r mask,
)

last-IsPrefix :
    (mask : ℕ) (s c : List ℕ)
    → IsPrefix s c
    → 8 ≤ length c
    → is_some (sniff_loop mask (shown c false ∷ [])) ≡ is_some (sniff_blocked s mask)
unfolding sniff_loop
last-IsPrefix mask s [] p l = absurd (p.0 refl)
last-IsPrefix mask s (x ∷ c) (_, (r, e)) l = ground (
  arith,
  ap (λ (k : List ℕ). sniff_blocked k mask) e,
  sniff_blocked-prefix (x ∷ c) r mask,
  sniff_blocked-long (x ∷ c) r mask,
)

sniff_loop-in_time :
    (mask : ℕ) (s : List ℕ) (cs : List (List ℕ)) (last : List ℕ)
    → All (IsPrefix s) cs
    → IsPrefix s last
    → 8 ≤ length last
    → is_some (sniff_loop mask (in_time (cs ++ last ∷ []))) ≡ is_some (sniff_blocked s mask)
sniff_loop-in_time mask s [] last a p l = last-IsPrefix mask s last p l
sniff_loop-in_time mask s (c ∷ cs) last a p l =
    round-IsPrefix mask s c _ a.0 (sniff_loop-in_time mask s cs last a.1 p l)

-- If every round shows a nonempty prefix of the client's stream before the deadline and the last
-- round shows at least eight bytes, then the connection is broken off exactly if the stream
-- carries the fingerprint of a blocked protocol.
pub admit-in_time :
    (mask : ℕ) (s : List ℕ) (cs : List (List ℕ)) (last : List ℕ)
    → All (IsPrefix s) cs
    → IsPrefix s last
    → 8 ≤ length last
    → is_some (admit mask (in_time (cs ++ last ∷ []))) ≡ is_some (sniff_blocked s mask)
unfolding admit sniff_blocked
admit-in_time mask s cs last a p l = ground (arith, sniff_loop-in_time mask s cs last a p l)
