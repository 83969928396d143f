-- ===== src/Agent/Select.antt =====
-- crates/node-agent/src/select.rs: the order in which the targets of a rule are tried.
-- `hash_ip` stands for the standard library's `DefaultHasher` on an address.
pub mod Rotation
use emorelay.Base.{ℕ, zero, suc, ◌+◌, ◌%◌, Bool, List, [], ◌∷◌, String, str_eq, leb, if◌then◌else◌}
use emorelay.Base.Words.{wrapping_add}

-- a..a + k
abbrev pub range_from : ℕ → ℕ → List ℕ
range_from a zero = []
range_from a (suc k) = a ∷ range_from (suc a) k

-- `.map(|i| (start + i) % n)`
abbrev pub turn : ℕ → ℕ → List ℕ → List ℕ
turn n start [] = []
turn n start (i ∷ is) = ((start + i) % n) ∷ turn n start is

-- The indices 0..n turned so that `start` comes first.
abbrev pub rotation : ℕ → ℕ → List ℕ
rotation n start = turn n start (range_from 0 n)

module _ {Ip : Type 0} (hash_ip : Ip → ℕ) where
  -- The first index tried and the round-robin counter afterwards.
  pub start_of : ℕ → String → Ip → ℕ → ℕ × ℕ
  start_of n strategy client_ip rr =
      if str_eq strategy "round"
      then (rr % n, wrapping_add rr 1)
      else (if str_eq strategy "rand"
          then (wrapping_add (hash_ip client_ip) rr % n, wrapping_add rr 1)
          else (if str_eq strategy "hash" then (hash_ip client_ip % n, rr) else (0, rr)))

  -- `rr` is the rule's atomic counter; the result holds its new value.
  pub target_order : ℕ → String → Ip → ℕ → List ℕ × ℕ
  target_order n strategy client_ip rr =
      if leb n 1
      then (range_from 0 n, rr)
      else (let (start, rr') = start_of n strategy client_ip rr in (rotation n start, rr'))
