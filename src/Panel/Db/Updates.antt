-- ===== src/Panel/Db/Updates.antt =====
-- What the updates of a rule keep.
use emorelay.Base.{
  ℕ, ◌≡◌, refl, sym, ap, subst, ◌∙◌, Bool, true, not, ◌&&◌, some, List, [], ◌∷◌, ◌==◌,
  if◌then◌else◌, unwrap_or, All, arith, Bool-cases, inl, inr,
}
use emorelay.Panel.Db.{DbRule, Fields, with_fields, update_rows, first}

-- An update of the fields keeps a rule's identity: its id, owner, node, protocol, tunnel and life.
pub with_fields-kept :
    (u : Fields) (r : DbRule)
    → ((with_fields u r).id ≡ r.id)
      × ((with_fields u r).user_id ≡ r.user_id)
      × ((with_fields u r).node_id ≡ r.node_id)
      × ((with_fields u r).protocol ≡ r.protocol)
      × ((with_fields u r).tunnel_id ≡ r.tunnel_id)
      × ((with_fields u r).deleted ≡ r.deleted)
unfolding with_fields
with_fields-kept u r = (refl, refl, refl, refl, refl, refl)

module _ (Q : DbRule → Type 0) (id : ℕ) where
  -- Each live rule of the id has the property.
  abbrev pub EachLive : List DbRule → Type 0
  EachLive rules = All (λ r. (r.id == id && not r.deleted) ≡ true → Q r) rules

  pub EachLive-update_rows :
      (f : DbRule → DbRule) (rules : List DbRule)
      → ((r : DbRule) → Q r → Q (f r))
      → EachLive rules
      → EachLive (update_rows f id rules).0
  EachLive-update_rows f [] k o = tt
  EachLive-update_rows f (r ∷ rules) k (x, o) = elim (Bool-cases (r.id == id && not r.deleted)) [
    | inl e ↦ rw (e, if◌then◌else◌) ((λ h. k r (x e)), EachLive-update_rows f rules k o)
    | inr e ↦ rw (e, if◌then◌else◌) (x, EachLive-update_rows f rules k o)
  ]

  pub found-EachLive :
      (rules : List DbRule) (e : DbRule)
      → EachLive rules
      → first (λ r. r.id == id && not r.deleted) rules ≡ some e
      → Q e
  found-EachLive [] e o s = absurd (ground (arith, s))
  found-EachLive (r ∷ rules) e (x, o) s = elim (Bool-cases (r.id == id && not r.deleted)) [
    | inl t ↦
        let one : some r ≡ some e = ap (λ b. if b then some r else first live rules) (sym t) ∙ s in
        subst Q (ap (λ o. unwrap_or o r) one) (x t)
    | inr t ↦
        found-EachLive rules e o (ap (λ b. if b then some r else first live rules) (sym t) ∙ s)
  ]
    where
      live : DbRule → Bool
      live r = r.id == id && not r.deleted
