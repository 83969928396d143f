-- ===== src/Panel/Rules/Removal.antt =====
-- crates/panel-server/src/routes/rules.rs: a deletion.
use emorelay.Base.{
  ℕ, ◌≡◌, refl, sym, ap, subst, ◌∙◌, Bool, true, not, ◌&&◌, none, some, List, [], ◌∷◌, ◌++◌, ◌==◌,
  if◌then◌else◌, arith, Bool-cases, inl, inr,
}
use emorelay.Panel.Db.{DbRule, update_rows, find_rule, first}
use emorelay.Panel.Ports.Table.{found-id}
use emorelay.Panel.Dispatcher.{dispatch}
use emorelay.Panel.Dispatch.{remove_command, rule_target_nodes, dispatch_rule_remove_to}
use emorelay.Panel.Rules.{Formats, AuthUser, Site, find_by_id, can_touch, ensure_can_touch}
use emorelay.Panel.Rules.Handlers.{deletes, delete, handle, serve}
use emorelay.Panel.Rules.Deliver.{Connected, dispatch-Connected}

abbrev live : ℕ → DbRule → Bool
live id r = r.id == id && not r.deleted

abbrev mark : DbRule → DbRule
mark r = record r { deleted = true }

found-changes :
    (id : ℕ) (rules : List DbRule) (e : DbRule)
    → first (live id) rules ≡ some e
    → not ((update_rows mark id rules).1 == 0) ≡ true
found-changes id [] e s = absurd (ground (arith, s))
found-changes id (r ∷ rules) e s = elim (Bool-cases (live id r)) [
  | inl t ↦ rw (t, if◌then◌else◌) (ground arith)
  | inr t ↦
      rw (t, if◌then◌else◌)
        (found-changes id rules e
          (ap (λ b. if b then some r else first (live id) rules) (sym t) ∙ s))
]

deleted-absent :
    (id : ℕ) (rules : List DbRule) → first (live id) (update_rows mark id rules).0 ≡ none
deleted-absent id [] = refl
deleted-absent id (r ∷ rules) = elim (Bool-cases (live id r)) [
  | inl t ↦ rw (t, if◌then◌else◌) (ground (arith, deleted-absent id rules))
  | inr t ↦ rw (t, if◌then◌else◌) (ground (arith, t, deleted-absent id rules))
]

module _ (formats : Formats) (s : Site) (auth : AuthUser) where
  -- Whoever may touch a live rule without a tunnel, on a node that is connected with room in its
  -- channel, can delete it: the rule is no longer found, and the command that removes it waits last in
  -- the channel.
  pub serve-deletes :
      (id g : ℕ) (e : DbRule)
      → find_rule s.db id ≡ some e
      → can_touch auth e ≡ true
      → e.tunnel_id ≡ none
      → Connected s.dispatcher e.node_id g
      → (find_by_id (serve formats s auth (deletes id)) id ≡ none)
        × (((serve formats s auth (deletes id)).dispatcher.channel g).waiting
            ≡ (s.dispatcher.channel g).waiting ++ (remove_command id ∷ []))
  unfolding serve handle delete ensure_can_touch rule_target_nodes dispatch_rule_remove_to
  serve-deletes id g e found touch plain c =
      let same : e.id ≡ id = (found-id id s.db.rules e found).0 in
      rw (found, touch, found-changes id s.db.rules e found, plain, delete)
        (
          rw (deleted-absent id s.db.rules, find_by_id) refl,
          subst
              (λ i.
                ((dispatch s.dispatcher e.node_id (remove_command i)).0.channel g).waiting
                ≡ (s.dispatcher.channel g).waiting ++ (remove_command id ∷ []))
              (sym same) (dispatch-Connected s.dispatcher e.node_id g (remove_command id) c),
        )
