-- ===== src/Panel/Grants/Replace.antt =====
-- crates/panel-server/src/models/grant.rs: what a user may use after the grants are replaced.
use emorelay.Base.{
  ℕ, ◌≡◌, refl, sym, ap, ◌∙◌, Bool, true, false, not, ◌&&◌, ◌||◌, Option, none, some, List, [], ◌∷◌,
  ◌++◌, ◌==◌, ==_iff, ==_refl, is_some, if◌then◌else◌, retain, any, contains, arith, Bool-cases,
  inl, inr,
}
use emorelay.Base.Signed.{ℤ}
use emorelay.Base.Dict
use emorelay.Panel.Db.{Db, first, find_node, find_tunnel}
use emorelay.Panel.Dispatcher.{lock_order}
use emorelay.Panel.Dispatcher.Locks.{lock_order-Climbing}
use emorelay.Panel.Grants.{
  NodeGrant, TunnelGrant, Grants, node_granted, tunnel_grant_num, dedup_grants, node_rows,
  tunnel_rows, set_node_grants, set_tunnel_grants,
}

module _ {A : Type 0} (p : A → Bool) where
  is_some-first : (xs : List A) → is_some (first p xs) ≡ any p xs
  is_some-first [] = refl
  is_some-first (x ∷ xs) = ground (arith, is_some-first xs)

  any-append : (xs ys : List A) → any p (xs ++ ys) ≡ (any p xs || any p ys)
  any-append [] ys = refl
  any-append (x ∷ xs) ys = ground (arith, any-append xs ys)

  -- The rows that pass are all kept, or all dropped.
  first-retain_all :
      (q : A → Bool) (xs : List A)
      → ((x : A) → p x ≡ true → q x ≡ true)
      → first p (retain q xs) ≡ first p xs
  first-retain_all q [] k = refl
  first-retain_all q (x ∷ xs) k = elim (Bool-cases (p x)) [
    | inl e ↦ rw (k x e, e, if◌then◌else◌) refl
    | inr e ↦ elim (Bool-cases (q x)) [
      | inl f ↦ rw (f, e, if◌then◌else◌) (first-retain_all q xs k)
      | inr f ↦ rw (f, e, if◌then◌else◌) (first-retain_all q xs k)
    ]
  ]

  first-retain-none :
      (q : A → Bool) (xs : List A)
      → ((x : A) → q x ≡ true → p x ≡ false)
      → first p (retain q xs) ≡ none
  first-retain-none q [] k = refl
  first-retain-none q (x ∷ xs) k = elim (Bool-cases (q x)) [
    | inl f ↦ rw (f, k x f, if◌then◌else◌) (first-retain-none q xs k)
    | inr f ↦ rw (f, if◌then◌else◌) (first-retain-none q xs k)
  ]

  first-append :
      (xs ys : List A)
      → first p (xs ++ ys) ≡ elim (first p xs) [ none ↦ first p ys | some x ↦ some x ]
  first-append [] ys = refl
  first-append (x ∷ xs) ys = elim (Bool-cases (p x)) [
    | inl e ↦ rw (e, if◌then◌else◌) refl
    | inr e ↦ rw (e, if◌then◌else◌) (first-append xs ys)
  ]

abbrev tunnel_limit : Option TunnelGrant → Option ℤ
tunnel_limit o = elim o [ none ↦ none | some r ↦ r.forward_rules_limit_in_tunnel ]

abbrev pub flatten : Option (Option ℤ) → Option ℤ
flatten none = none
flatten (some o) = o

module _ (db : Db) (user_id : ℕ) where
  any-node_rows :
      (v n : ℕ) (nids : List ℕ)
      → any (λ r. r.user_id == v && r.node_id == n) (node_rows db user_id nids)
        ≡ ((user_id == v) && (contains nids n && is_some (find_node db n)))
  any-node_rows v n [] = ground arith
  any-node_rows v n (nid ∷ nids) =
      let rest = any-node_rows v n nids in
      elim (Bool-cases (nid == n)) [
        | inl e ↦
            let same = ap (λ i. is_some (find_node db i)) ((==_iff nid n).0 e) in
            ground (arith, e, same, rest)
        | inr e ↦ ground (arith, e, rest)
      ]

  -- After the grants of a user are replaced, the user may use exactly the nodes that were asked for and
  -- are not deleted; what any other user may use is as before.
  pub set_node_grants-node_granted :
      (g : Grants) (node_ids : List ℕ) (v n : ℕ)
      → node_granted (set_node_grants db g user_id node_ids) v n ≡ (
          if user_id == v
          then contains node_ids n && is_some (find_node db n)
          else node_granted g v n)
  unfolding node_granted set_node_grants
  set_node_grants-node_granted g node_ids v n =
      let p : NodeGrant → Bool = λ r. r.user_id == v && r.node_id == n in
      let kept = retain (λ (r : NodeGrant). not (r.user_id == user_id)) g.nodes in
      let added = node_rows db user_id (lock_order node_ids) in
      let all = is_some-first p (kept ++ added) ∙ any-append p kept added in
      let new = any-node_rows v n (lock_order node_ids) in
      let asked = (lock_order-Climbing node_ids).1 n in
      elim (Bool-cases (user_id == v)) [
        | inl e ↦
            let old : any p kept ≡ false =
              sym (is_some-first p kept)
              ∙ ap is_some (
                  first-retain-none p _ g.nodes (λ r f. ground (
                    arith,
                    f,
                    e,
                    ==_iff r.user_id user_id,
                    ==_iff r.user_id v,
                    ==_iff user_id v,
                  ))) in
            ground (arith, e, all, new, asked, old)
        | inr e ↦
            let old : any p kept ≡ is_some (first p g.nodes) =
              sym (is_some-first p kept)
              ∙ ap is_some (
                  first-retain_all p _ g.nodes (λ r f. ground (
                    arith,
                    f,
                    e,
                    ==_iff r.user_id user_id,
                    ==_iff r.user_id v,
                    ==_iff user_id v,
                  ))) in
            ground (arith, e, all, new, old)
      ]

  first-tunnel_rows :
      (t : ℕ) (grants : List (ℕ × Option ℤ))
      → tunnel_limit
          (first (λ r. r.user_id == user_id && r.tunnel_id == t) (tunnel_rows db user_id grants))
        ≡ (if is_some (find_tunnel db t) then flatten (Dict.lookup t grants) else none)
  first-tunnel_rows t [] = elim (Bool-cases (is_some (find_tunnel db t))) [
    | inl e ↦ rw e refl
    | inr e ↦ rw e refl
  ]
  first-tunnel_rows t ((tid, num) ∷ grants) =
      let rest = first-tunnel_rows t grants in
      elim (Bool-cases (tid == t)) [
        | inl e ↦
            let same = ap (λ i. is_some (find_tunnel db i)) ((==_iff tid t).0 e) in
            elim (Bool-cases (is_some (find_tunnel db t))) [
              | inl f ↦ rw (same ∙ f, ==_refl user_id, e, f, if◌then◌else◌) refl
              | inr f ↦ rw (same ∙ f, e, f, if◌then◌else◌) (rest ∙ rw (f, if◌then◌else◌) refl)
            ]
        | inr e ↦ elim (Bool-cases (is_some (find_tunnel db tid))) [
          | inl f ↦ rw (f, ==_refl user_id, e, if◌then◌else◌) rest
          | inr f ↦ rw (f, e, if◌then◌else◌) rest
        ]
      ]

  lookup-dedup_grants :
      (t : ℕ) (seen : List ℕ) (grants : List (ℕ × Option ℤ))
      → Dict.lookup t (dedup_grants seen grants)
        ≡ (if contains seen t then none else Dict.lookup t grants)
  unfolding dedup_grants
  lookup-dedup_grants t seen [] = ground arith
  lookup-dedup_grants t seen ((tid, num) ∷ grants) =
      let fresh = lookup-dedup_grants t (tid ∷ seen) grants in
      let rest = lookup-dedup_grants t seen grants in
      elim (Bool-cases (tid == t)) [
        | inl e ↦
            let same = ap (contains seen) ((==_iff tid t).0 e) in
            elim (Bool-cases (contains seen t)) [
              | inl f ↦ rw (same ∙ f, e, f, if◌then◌else◌) (rest ∙ rw (f, if◌then◌else◌) refl)
              | inr f ↦ rw (same ∙ f, e, f, if◌then◌else◌) refl
            ]
        | inr e ↦ elim (Bool-cases (contains seen tid)) [
          | inl f ↦ rw (f, e, if◌then◌else◌) rest
          | inr f ↦ rw (f, e, if◌then◌else◌) (fresh ∙ rw (e, if◌then◌else◌) refl)
        ]
      ]

  -- After the tunnel grants of a user are replaced, the limit of the user's rules over a tunnel is that of
  -- the first grant of the tunnel in the request, and there is none if the tunnel is deleted or was not
  -- in the request.
  pub set_tunnel_grants-tunnel_grant_num :
      (g : Grants) (grants : List (ℕ × Option ℤ)) (t : ℕ)
      → tunnel_grant_num (set_tunnel_grants db g user_id grants) user_id t
        ≡ (if is_some (find_tunnel db t) then flatten (Dict.lookup t grants) else none)
  unfolding tunnel_grant_num set_tunnel_grants
  set_tunnel_grants-tunnel_grant_num g grants t =
      let p : TunnelGrant → Bool = λ r. r.user_id == user_id && r.tunnel_id == t in
      let kept = retain (λ (r : TunnelGrant). not (r.user_id == user_id)) g.tunnels in
      let added = tunnel_rows db user_id (dedup_grants [] grants) in
      let old : first p kept ≡ none = first-retain-none p _ g.tunnels (λ r f. ground (arith, f)) in
      let step : first p (kept ++ added) ≡ first p added =
        first-append p kept added
        ∙ ap (λ o. elim o [ none ↦ first p added | some x ↦ some x ]) old in
      ap tunnel_limit step
      ∙ first-tunnel_rows t (dedup_grants [] grants)
      ∙ ap (λ o. if is_some (find_tunnel db t) then flatten o else none)
          (lookup-dedup_grants t [] grants)
