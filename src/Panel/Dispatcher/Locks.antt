-- ===== src/Panel/Dispatcher/Locks.antt =====
-- `lock_nodes` takes each lock once, in an order that rules out a deadlock.
use emorelay.Base.{ℕ, ◌≤◌, ◌<◌, ◌≡◌, refl, ap, ◌∙◌, List, [], ◌∷◌, ◌==◌, contains, arith, ◌||◌}
use emorelay.Panel.Dispatcher.{place, sort, dedup, lock_order}

-- Each is at most the next.
abbrev pub Ascending : List ℕ → Type 0
Ascending [] = Unit
Ascending (a ∷ []) = Unit
Ascending (a ∷ b ∷ bs) = (a ≤ b) × Ascending (b ∷ bs)

-- Each is less than the next.
abbrev pub Climbing : List ℕ → Type 0
Climbing [] = Unit
Climbing (a ∷ []) = Unit
Climbing (a ∷ b ∷ bs) = (a < b) × Climbing (b ∷ bs)

place-Ascending : (a : ℕ) (bs : List ℕ) → Ascending bs → Ascending (place a bs)
unfolding place
place-Ascending a [] h = tt
place-Ascending a (b ∷ []) h = ground arith
place-Ascending a (b ∷ c ∷ bs) h = ground (arith, place-Ascending a (c ∷ bs) h.1)

sort-Ascending : (ns : List ℕ) → Ascending (sort ns)
unfolding sort
sort-Ascending [] = tt
sort-Ascending (a ∷ ns) = place-Ascending a (sort ns) (sort-Ascending ns)

contains-place : (a : ℕ) (bs : List ℕ) (x : ℕ) → contains (place a bs) x ≡ (a == x || contains bs x)
unfolding place
contains-place a [] x = refl
contains-place a (b ∷ bs) x = ground (arith, contains-place a bs x)

contains-sort : (ns : List ℕ) (x : ℕ) → contains (sort ns) x ≡ contains ns x
unfolding sort
contains-sort [] x = refl
contains-sort (a ∷ ns) x = contains-place a (sort ns) x ∙ ap (λ b. a == x || b) (contains-sort ns x)

contains-dedup : (ns : List ℕ) (x : ℕ) → contains (dedup ns) x ≡ contains ns x
unfolding dedup
contains-dedup [] x = refl
contains-dedup (a ∷ []) x = refl
contains-dedup (a ∷ b ∷ bs) x = ground (arith, contains-dedup (b ∷ bs) x)

-- What follows `a` in a strictly ascending list of the same numbers.
dedup_from-Climbing :
    (a b : ℕ) (bs : List ℕ)
    → a < b
    → Climbing (dedup (b ∷ bs))
    → Ascending (b ∷ bs)
    → Climbing (a ∷ dedup (b ∷ bs))
unfolding dedup
dedup_from-Climbing a b [] l c s = (l, tt)
dedup_from-Climbing a b (d ∷ bs) l c (m, s) = ground (arith, dedup_from-Climbing a d bs)

dedup-Climbing : (ns : List ℕ) → Ascending ns → Climbing (dedup ns)
unfolding dedup
dedup-Climbing [] h = tt
dedup-Climbing (a ∷ []) h = tt
dedup-Climbing (a ∷ b ∷ bs) (l, h) =
    ground (arith, dedup-Climbing (b ∷ bs) h, dedup_from-Climbing a b bs)

-- The locks are taken in strictly ascending order, so each once, and they are the locks of just the
-- nodes that were asked for.
pub lock_order-Climbing :
    (node_ids : List ℕ)
    → Climbing (lock_order node_ids)
      × ((x : ℕ) → contains (lock_order node_ids) x ≡ contains node_ids x)
unfolding lock_order
lock_order-Climbing node_ids = (
  dedup-Climbing (sort node_ids) (sort-Ascending node_ids),
  λ x. contains-dedup (sort node_ids) x ∙ contains-sort node_ids x,
)
