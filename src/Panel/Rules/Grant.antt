-- ===== src/Panel/Rules/Grant.antt =====
-- crates/panel-server/src/routes/rules.rs: what a user may do without a grant.
use emorelay.Base.{
  ℕ, ◌≡◌, refl, sym, ap, subst, ◌∙◌, Bool, true, false, not, ◌&&◌, ◌||◌, Option, is_some, none,
  some, ==_iff, arith, Option-cases, inl, inr,
}
use emorelay.Base.Result.{ok}
use emorelay.Panel.Db.{find_rule}
use emorelay.Panel.Grants.{node_granted, tunnel_granted}
use emorelay.Panel.Rules.{
  Formats, AuthUser, Site, bad_request, tunnel_not_granted, node_not_granted,
}
use emorelay.Panel.Rules.Create.{CreateRuleRequest, check_grant}
use emorelay.Panel.Rules.Update.{UpdateRuleRequest, redirecting, still_granted}
use emorelay.Panel.Rules.Create
use emorelay.Panel.Rules.Update
use emorelay.Panel.Rules.Create.Admission.{create-cases}
use emorelay.Panel.Rules.Update.Admission.{update-cases}
use emorelay.Panel.Rules.Create.Admission as Creation
use emorelay.Panel.Rules.Update.Admission as Change
use emorelay.Panel.Rules.Handlers.{
  Request, creates, updates, deletes, enables, disables, restarts, handle, serve,
}
use emorelay.Panel.Rules.Handlers.Cases.{after-answer}
use emorelay.Panel.Rules.Owners.{owner_of_self, touched-owner}
use emorelay.Panel.Rules.Writes.{guard-ok, guard-ok_only}

-- The grant of the tunnel if there is one, and of the node if not.
abbrev pub granted_for : Site → ℕ → Option ℕ → ℕ → Bool
granted_for s user_id tunnel_id node_id = elim tunnel_id [
  | some tid ↦ tunnel_granted s.grants user_id tid
  | none ↦ node_granted s.grants user_id node_id
]

-- An update that names the listener's address or port, the target's host or port, or extra targets.
abbrev pub names_endpoint : UpdateRuleRequest → Bool
names_endpoint req =
    (is_some req.listen_ip || is_some req.listen_port)
    || ((is_some req.target_host || is_some req.target_port) || is_some req.extra_targets)

-- A request that places a rule, or names an endpoint of a rule, where the user has no grant.
abbrev pub lacks_grant : Site → AuthUser → Request → Bool
lacks_grant s auth (creates req) = not (granted_for s auth.sub req.tunnel_id req.node_id)
lacks_grant s auth (updates id req) = elim (find_rule s.db id) [
  | none ↦ false
  | some existing ↦
      names_endpoint req && not (granted_for s auth.sub existing.tunnel_id existing.node_id)
]
lacks_grant s auth (deletes id) = false
lacks_grant s auth (enables id) = false
lacks_grant s auth (disables id) = false
lacks_grant s auth (restarts id) = false

module _ (formats : Formats) (s : Site) (auth : AuthUser) (user : auth.is_admin ≡ false) where
  creation-granted :
      (r : CreateRuleRequest) (a : Creation.Admitted formats s auth r)
      → granted_for s auth.sub r.tunnel_id r.node_id ≡ true
  unfolding check_grant
  creation-granted r a =
      let self : a.owner_id ≡ auth.sub =
        (==_iff a.owner_id auth.sub).0
          (owner_of_self s auth r.user_id a.owner_id user a.owner_ok) in
      let checked : check_grant s false auth.sub r.node_id r.tunnel_id ≡ ok tt =
        subst (λ b. check_grant s b auth.sub r.node_id r.tunnel_id ≡ ok tt) user
          (subst (λ n. check_grant s auth.is_admin n r.node_id r.tunnel_id ≡ ok tt) self
            a.grant_ok) in
      elim (Option-cases r.tunnel_id) [
        | inl e ↦ rw e (
            guard-ok_only _ (bad_request node_not_granted)
              (subst (λ t. check_grant s false auth.sub r.node_id t ≡ ok tt) e checked))
        | inr (tid, e) ↦
            rw e
              (guard-ok (tunnel_granted s.grants auth.sub tid) (bad_request tunnel_not_granted) _ tt
                (subst (λ t. check_grant s false auth.sub r.node_id t ≡ ok tt) e checked)).0
      ]

  update-granted :
      (id : ℕ) (r : UpdateRuleRequest) (a : Change.Admitted formats s auth id r)
      → (not (names_endpoint r) || granted_for s auth.sub a.existing.tunnel_id a.existing.node_id)
        ≡ true
  update-granted id r a =
      let self : a.existing.user_id ≡ auth.sub =
        (==_iff a.existing.user_id auth.sub).0 (touched-owner auth a.existing user a.touch_ok) in
      let kept : (not (names_endpoint r)
            || granted_for s a.existing.user_id a.existing.tunnel_id a.existing.node_id)
          ≡ true =
        ground (arith, a.grant_ok, user) in
      subst
        (λ n.
          (not (names_endpoint r) || granted_for s n a.existing.tunnel_id a.existing.node_id)
          ≡ true)
        self kept

  -- For a user who is no administrator and has no grant of the tunnel, or of the node of a rule without
  -- one: a request to create a rule there, or an update of a rule there that names the listener's address
  -- or port, the target's host or port, or extra targets, changes nothing at all.
  pub serve-lacks_grant :
      (req : Request) → lacks_grant s auth req ≡ true → serve formats s auth req ≡ s
  unfolding serve handle
  serve-lacks_grant (creates r) l =
      after-answer s (λ t. t ≡ s) (Create.create formats s auth r) _
        (create-cases formats s auth r (λ t. t ≡ s) refl
          (λ a rule f. absurd (ground (arith, l, creation-granted r a))))
  serve-lacks_grant (updates id r) l =
      after-answer s (λ t. t ≡ s) (Update.update formats s auth id r) _
        (update-cases formats s auth id r (λ t. t ≡ s) refl
          (λ a rule f.
            let lacking : (names_endpoint r
                  && not (granted_for s auth.sub a.existing.tunnel_id a.existing.node_id))
                ≡ true =
              sym (
                ap
                  (λ o. elim o [
                    | none ↦ false
                    | some e ↦
                        names_endpoint r && not (granted_for s auth.sub e.tunnel_id e.node_id)
                  ])
                  a.found)
              ∙ l in
            absurd (ground (arith, lacking, update-granted id r a, user))))
  serve-lacks_grant (deletes id) l = absurd (ground (arith, l))
  serve-lacks_grant (enables id) l = absurd (ground (arith, l))
  serve-lacks_grant (disables id) l = absurd (ground (arith, l))
  serve-lacks_grant (restarts id) l = absurd (ground (arith, l))
