-- ===== src/Panel/Sessions/Revocation.antt =====
-- A token is worth what its last registration says, until it expires or its node is revoked.
use emorelay.Base.{
  ℕ, ◌≡◌, refl, sym, ap, ◌∙◌, true, false, Option, none, some, List, [], ◌∷◌, String, str_eq,
  str_eq_iff, ◌==◌, ltb, if◌then◌else◌, arith, Bool-cases, inl, inr,
}
use emorelay.Panel.Sessions.{
  SessionInfo, SessionRegistry, get, drop_token, retain_other_nodes, new, insert, verify,
  revoke_node,
}

pub data Call : Type 0 where
  inserts : String → SessionInfo → Call
  revokes : ℕ → Call

abbrev pub run : SessionRegistry → List Call → SessionRegistry
run r [] = r
run r (inserts token info ∷ cs) = run (insert r token info) cs
run r (revokes node_id ∷ cs) = run (revoke_node r node_id) cs

-- What is left of a session when a node is revoked.
abbrev pub spared : ℕ → Option SessionInfo → Option SessionInfo
spared node_id none = none
spared node_id (some s) = if s.node_id == node_id then none else some s

-- What the calls say of a token: the last registration, unless its node was revoked since.
abbrev pub said : List Call → String → Option SessionInfo → Option SessionInfo
said [] token old = old
said (inserts t info ∷ cs) token old = said cs token (if str_eq t token then some info else old)
said (revokes node_id ∷ cs) token old = said cs token (spared node_id old)

-- No token stands twice.
abbrev pub IsFresh : List (String × SessionInfo) → Type 0
IsFresh [] = Unit
IsFresh ((t, s) ∷ m) = (get m t ≡ none) × IsFresh m

get-drop_token :
    (m : List (String × SessionInfo)) (t token : String)
    → get (drop_token m t) token ≡ (if str_eq t token then none else get m token)
get-drop_token [] t token = ground arith
get-drop_token ((u, s) ∷ m) t token = elim (Bool-cases (str_eq u t)) [
  | inl e ↦
      let same : u ≡ t = (str_eq_iff u t).0 e in
      rw (e, if◌then◌else◌) (get-drop_token m t token ∙ ground (arith, same))
  | inr e ↦
      let other : str_eq t token ≡ true → str_eq u token ≡ false =
        λ f. ap (str_eq u) (sym ((str_eq_iff t token).0 f)) ∙ e in
      ground (arith, e, other, get-drop_token m t token)
]

drop_token-IsFresh :
    (m : List (String × SessionInfo)) (t : String) → IsFresh m → IsFresh (drop_token m t)
drop_token-IsFresh [] t f = tt
drop_token-IsFresh ((u, s) ∷ m) t (a, f) =
    ground (arith, a, get-drop_token m t u, drop_token-IsFresh m t f)

get-retain_absent :
    (m : List (String × SessionInfo)) (node_id : ℕ) (token : String)
    → get m token ≡ none
    → get (retain_other_nodes m node_id) token ≡ none
get-retain_absent [] node_id token e = refl
get-retain_absent ((u, s) ∷ m) node_id token e =
    ground (arith, e, get-retain_absent m node_id token)

get-retain_other_nodes :
    (m : List (String × SessionInfo)) (node_id : ℕ) (token : String)
    → IsFresh m
    → get (retain_other_nodes m node_id) token ≡ spared node_id (get m token)
get-retain_other_nodes [] node_id token f = refl
get-retain_other_nodes ((u, s) ∷ m) node_id token (a, f) = elim (Bool-cases (str_eq u token)) [
  | inl e ↦
      let absent : get m token ≡ none = ap (get m) (sym ((str_eq_iff u token).0 e)) ∙ a in
      ground (arith, e, get-retain_absent m node_id token absent)
  | inr e ↦ ground (arith, e, get-retain_other_nodes m node_id token f)
]

retain_other_nodes-IsFresh :
    (m : List (String × SessionInfo)) (node_id : ℕ)
    → IsFresh m
    → IsFresh (retain_other_nodes m node_id)
retain_other_nodes-IsFresh [] node_id f = tt
retain_other_nodes-IsFresh ((u, s) ∷ m) node_id (a, f) =
    ground (arith, get-retain_absent m node_id u a, retain_other_nodes-IsFresh m node_id f)

said-get :
    (r : SessionRegistry) (cs : List Call) (token : String)
    → IsFresh r.sessions
    → get (run r cs).sessions token ≡ said cs token (get r.sessions token)
unfolding insert revoke_node
said-get r [] token f = refl
said-get r (inserts t info ∷ cs) token f =
    said-get (insert r t info) cs token (
      ground (
        arith,
        get-drop_token r.sessions t t,
        (str_eq_iff t t).1 refl,
        drop_token-IsFresh r.sessions t f,
      ))
    ∙ ap (said cs token) (ground (arith, get-drop_token r.sessions t token))
said-get r (revokes node_id ∷ cs) token f =
    said-get (revoke_node r node_id) cs token (retain_other_nodes-IsFresh r.sessions node_id f)
    ∙ ap (said cs token) (get-retain_other_nodes r.sessions node_id token f)

abbrev pub unexpired : ℕ → Option SessionInfo → Option SessionInfo
unexpired now_unix none = none
unexpired now_unix (some s) = if ltb now_unix s.expires_at_unix then some s else none

-- After any registrations and revocations, a token is verified exactly with the session of its last
-- registration, if that session's node was not revoked since and it has not expired.
pub verify-run :
    (cs : List Call) (token : String) (now_unix : ℕ)
    → verify (run new cs) token now_unix ≡ unexpired now_unix (said cs token none)
unfolding verify new
verify-run cs token now_unix = ap (unexpired now_unix) (said-get new cs token tt)
