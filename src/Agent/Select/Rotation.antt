-- ===== src/Agent/Select/Rotation.antt =====
-- Every order is a rotation of all targets, and round robin spreads the first choice evenly.
use mathlib.Core.List.{Perm, perm_append_comm}
use mathlib.Core.List.Perm
use emorelay.Base.{
  ℕ, zero, suc, ◌+◌, ◌-◌, ◌%◌, ◌≤◌, ◌<◌, ◌≡◌, refl, sym, ap, ap₂, subst, ◌∙◌, false, List, [], ◌∷◌,
  ◌++◌, String, leb, if◌then◌else◌, arith, Bool-cases, inl, inr, get_or,
}
use emorelay.Base.Words.{mod64, wrapping_add}
use emorelay.Agent.Select.{range_from, rotation, turn, start_of, target_order}
use native.Mathlib.Nat.{mod-eq_of_lt, mod-lt, mod-add-mod}

range_from-append : (a j k : ℕ) → range_from a (j + k) ≡ range_from a j ++ range_from (a + j) k
range_from-append a zero k = ground arith
range_from-append a (suc j) k =
    let e : suc j + k ≡ suc (j + k) = omega arith in
    rw e (ground (arith, range_from-append (suc a) j k))

turn-append : (n s : ℕ) (xs ys : List ℕ) → turn n s (xs ++ ys) ≡ turn n s xs ++ turn n s ys
turn-append n s [] ys = refl
turn-append n s (x ∷ xs) ys = ground (arith, turn-append n s xs ys)

turn-low : (n s a k : ℕ) → s + a + k ≤ n → turn n s (range_from a k) ≡ range_from (s + a) k
turn-low n s a zero h = refl
turn-low n s a (suc k) h =
    let here : (s + a) % n ≡ s + a = mod-eq_of_lt (omega arith) in
    let e : s + suc a ≡ suc (s + a) = omega arith in
    let rest = turn-low n s (suc a) k (omega arith) in cc (ap (λ (x : ℕ). range_from x k) e)

wrapped : (n x : ℕ) → n ≤ x → x < n + n → x % n ≡ x - n
wrapped n x l u = grind (arith)

turn-high :
    (n s a k : ℕ)
    → s < n
    → n ≤ s + a
    → a + k ≤ n
    → turn n s (range_from a k) ≡ range_from (s + a - n) k
turn-high n s a zero h l u = refl
turn-high n s a (suc k) h l u =
    let e : s + suc a - n ≡ suc (s + a - n) = omega arith in
    let here : (s + a) % n ≡ s + a - n = wrapped n (s + a) l (omega arith) in
    let rest = turn-high n s (suc a) k h (omega arith) (omega arith) in
    cc (ap (λ (x : ℕ). range_from x k) e)

rotation-eq : (n s : ℕ) → s < n → rotation n s ≡ range_from s (n - s) ++ range_from 0 s
rotation-eq n s h =
    let e : n ≡ n - s + s = omega arith in
    ap (λ (m : ℕ). turn n s (range_from 0 m)) e
    ∙ ground (
      arith,
      range_from-append 0 (n - s) s,
      turn-append n s (range_from 0 (n - s)) (range_from (n - s) s),
      turn-low n s 0 (n - s) (omega arith),
      turn-high n s (n - s) s h (omega arith) (omega arith),
    )

rotation-perm : (n s : ℕ) → s < n → Perm (rotation n s) (range_from 0 n)
rotation-perm n s h = rw (rotation-eq n s h) (
    Perm.trans (perm_append_comm (range_from s (n - s)) (range_from 0 s))
      (subst (λ l. Perm (range_from 0 s ++ range_from s (n - s)) l) whole (Perm.refl _)))
  where
    whole : range_from 0 s ++ range_from s (n - s) ≡ range_from 0 n
    whole = ground (
      arith,
      range_from-append 0 s (n - s),
      (let e : s + (n - s) ≡ n = omega arith in ap (range_from 0) e),
    )

rotation-first : (n c : ℕ) → 1 < n → get_or (rotation n (c % n)) 0 n ≡ c % n
rotation-first zero c h = absurd (omega arith)
rotation-first (suc n) c h =
    let z : c + 0 ≡ c = omega arith in mod-add-mod c (suc n) 0 ∙ ap (λ (x : ℕ). x % suc n) z

turn-mod : (n c : ℕ) (is : List ℕ) → turn n (c % n) is ≡ turn n c is
turn-mod n c [] = refl
turn-mod n c (i ∷ is) = ap₂ (λ (x : ℕ) xs. x ∷ xs) (mod-add-mod c n i) (turn-mod n c is)

module _ {Ip : Type 0} (hash_ip : Ip → ℕ) where
  start_of_bound :
      (n : ℕ) (strategy : String) (ip : Ip) (rr : ℕ)
      → 0 < n
      → (start_of hash_ip n strategy ip rr).0 < n
  unfolding start_of
  start_of_bound n strategy ip rr h = ground arith

  -- Whatever the strategy, the client and the counter, each of the `n` targets is tried exactly once.
  pub target_order-perm :
      (n : ℕ) (strategy : String) (ip : Ip) (rr : ℕ)
      → Perm (target_order hash_ip n strategy ip rr).0 (range_from 0 n)
  unfolding target_order
  target_order-perm n strategy ip rr = elim (Bool-cases (leb n 1)) [
    | inl few ↦ rw few (Perm.refl _)
    | inr many ↦
        rw (many, if◌then◌else◌)
          (rotation-perm n (start_of hash_ip n strategy ip rr).0
            (start_of_bound n strategy ip rr (ground arith)))
  ]

  -- The first choices of `k` calls in a row, the counter handed on from call to call.
  abbrev pub firsts : ℕ → Ip → ℕ → ℕ → List ℕ
  firsts n ip rr zero = []
  firsts n ip rr (suc k) =
      let (order, rr') = target_order hash_ip n "round" ip rr in
      get_or order 0 n ∷ firsts n ip rr' k

  round_order :
      (n : ℕ) (ip : Ip) (rr : ℕ)
      → 1 < n
      → target_order hash_ip n "round" ip rr ≡ (rotation n (rr % n), wrapping_add rr 1)
  unfolding target_order start_of
  round_order n ip rr h = let e : leb n 1 ≡ false = ground arith in rw (e, if◌then◌else◌)

  firsts-eq :
      (n k c j : ℕ) (ip : Ip)
      → 1 < n
      → c + j + k < mod64
      → firsts n ip (c + j) k ≡ turn n c (range_from j k)
  firsts-eq n zero c j ip h w = refl
  firsts-eq n (suc k) c j ip h w =
      let o = round_order n ip (c + j) h in
      let e : wrapping_add (c + j) 1 ≡ c + suc j = omega arith in
      rw o (
        ap₂ (λ (x : ℕ) xs. x ∷ xs) (rotation-first n (c + j) h)
          (rw e (firsts-eq n k c (suc j) ip h (omega arith))))

  -- Over `n` round-robin calls in a row each of the `n` targets is the first choice once, if there
  -- are at least two, from any counter that does not wrap meanwhile.
  pub firsts-perm :
      (n c : ℕ) (ip : Ip) → 1 < n → c + n < mod64 → Perm (firsts n ip c n) (range_from 0 n)
  firsts-perm n c ip h w =
      subst (λ (l : List ℕ). Perm l (range_from 0 n)) (sym even)
        (rotation-perm n (c % n) (mod-lt c (omega arith)))
    where
      even : firsts n ip c n ≡ rotation n (c % n)
      even =
          let z : c + 0 ≡ c = omega arith in
          subst (λ (x : ℕ). firsts n ip x n ≡ turn n c (range_from 0 n)) z
            (firsts-eq n n c 0 ip h (omega arith))
          ∙ sym (turn-mod n c (range_from 0 n))
