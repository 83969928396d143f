-- ===== src/Panel/Ports/Free.antt =====
-- The port that is chosen automatically.
use emorelay.Base.{
  ltb, contains, ◌||◌, ℕ, zero, suc, ◌+◌, ◌-◌, ◌≤◌, ◌<◌, ◌≡◌, sym, subst, Bool, true, false, not,
  ◌&&◌, Option, none, some, List, String, str_eq, str_eq_iff, ◌==◌, if◌then◌else◌, any, any_mono,
  is_some, arith, Bool-cases, inl, inr, ==_iff,
}
use emorelay.Panel.Db.{Db, DbRule, Node}
use emorelay.Panel.Ports.{
  first_port, allocate_port, choose_port, is_free, validate_protocol, excludes, conflicts,
  same_port, is_excluded, blocked_by_rules, ensure_no_protocol_conflict, is_unique, insert_rule,
  create_checked,
}

-- What the answer of a search from `port` over `count` ports says.
abbrev pub Found : (ℕ → Bool) → ℕ → ℕ → Option ℕ → Type 0
Found free port count none = (q : ℕ) → port ≤ q → q < port + count → free q ≡ false
Found free port count (some p) =
    (free p ≡ true)
    × (port ≤ p)
    × (p < port + count)
    × ((q : ℕ) → port ≤ q → q < p → free q ≡ false)

first_port-Found :
    (free : ℕ → Bool) (port count : ℕ) → Found free port count (first_port free port count)
unfolding first_port
first_port-Found free port zero = λ q a b. ground (arith, a, b)
first_port-Found free port (suc count) = elim (Bool-cases (free port)) [
  | inl e ↦ rw (e, if◌then◌else◌) (e, omega arith, omega arith, λ q a b. ground (arith, a, b))
  | inr e ↦
      rw (e, if◌then◌else◌)
        (later e (first_port free (suc port) count) (first_port-Found free (suc port) count))
]
  where
    at : free port ≡ false → (q : ℕ) → port ≤ q → (suc port ≤ q → free q ≡ false) → free q ≡ false
    at e q a rest = elim (Bool-cases (port == q)) [
      | inl s ↦ subst (λ x. free x ≡ false) ((==_iff port q).0 s) e
      | inr s ↦ rest (ground (arith, a, s))
    ]

    later :
        free port ≡ false
        → (o : Option ℕ) → Found free (suc port) count o
        → Found free port (suc count) o
    later e none f = λ q a b. at e q a (λ c. f q c (omega (arith, b)))
    later e (some p) (f, a, b, c) =
        (f, omega (arith, a), omega (arith, b), λ q x y. at e q x (λ z. c q z y))

-- The chosen port lies in the node's pool, is not reserved, and is taken neither by a live rule of a
-- conflicting protocol nor by a live tunnel, and it is the least such port; if no port is chosen, the
-- pool has none.
pub allocate_port-least :
    (db : Db) (node : Node) (listen_ip protocol : String) (reserved : List ℕ)
    → node.port_pool_min ≤ node.port_pool_max
    → Found
        (is_free db node listen_ip protocol reserved)
        node.port_pool_min
        (suc node.port_pool_max - node.port_pool_min)
        (allocate_port db node listen_ip protocol reserved)
unfolding allocate_port
allocate_port-least db node listen_ip protocol reserved pool =
    first_port-Found (is_free db node listen_ip protocol reserved) node.port_pool_min
      (suc node.port_pool_max - node.port_pool_min)

-- The port of a new rule, asked for or chosen, is not reserved, and it lies in the pool unless it is for
-- a tunnel and an administrator asks.
pub choose_port_lem :
    (db : Db) (node : Node) (listen_ip protocol : String) (reserved : List ℕ) (asked : Option ℕ)
    (is_tunnel is_admin : Bool) (p : ℕ)
    → choose_port db node listen_ip protocol reserved asked is_tunnel is_admin ≡ some p
    → (not (contains reserved p) ≡ true)
      × (((is_tunnel && is_admin) || not (ltb p node.port_pool_min || ltb node.port_pool_max p))
          ≡ true)
unfolding choose_port allocate_port
choose_port_lem db node listen_ip protocol reserved none is_tunnel is_admin p e =
    let (free, low, high, _) =
      subst
        (Found (is_free db node listen_ip protocol reserved) node.port_pool_min
          (suc node.port_pool_max - node.port_pool_min))
        e
        (first_port-Found (is_free db node listen_ip protocol reserved) node.port_pool_min
          (suc node.port_pool_max - node.port_pool_min)) in
    (ground (arith, free), ground (arith, low, high))
choose_port_lem db node listen_ip protocol reserved (some q) is_tunnel is_admin p e =
    (ground (arith, e), ground (arith, e))

-- The checks of the protocol and the unique index refuse only what the choice of a port avoids.
refused-conflicts :
    (p q : String)
    → validate_protocol p ≡ true
    → (excludes p q ≡ true → conflicts p q ≡ true) × (str_eq q p ≡ true → conflicts p q ≡ true)
unfolding validate_protocol
refused-conflicts p q v = elim (Bool-cases (str_eq p "tcp")) [
  | inl e ↦ subst Goal (sym ((str_eq_iff p "tcp").0 e)) (ground arith, ground arith)
  | inr e ↦ elim (Bool-cases (str_eq p "udp")) [
    | inl f ↦ subst Goal (sym ((str_eq_iff p "udp").0 f)) (ground arith, ground arith)
    | inr f ↦
        subst Goal (sym ((str_eq_iff p "tcp_udp").0 (ground (arith, v, e, f))))
          (ground arith, ground arith)
  ]
]
  where
    Goal : String → Type 0
    Goal s =
        (excludes s q ≡ true → conflicts s q ≡ true) × (str_eq q s ≡ true → conflicts s q ≡ true)

-- A new rule of a known protocol, with the port that was chosen for its node, address and protocol,
-- is never refused for a conflict; if the node's pool is not empty.
pub create_checked-allocate_port :
    (db : Db) (node : Node) (reserved : List ℕ) (r : DbRule)
    → validate_protocol r.protocol ≡ true
    → r.node_id ≡ node.id
    → allocate_port db node r.listen_ip r.protocol reserved ≡ some r.listen_port
    → node.port_pool_min ≤ node.port_pool_max
    → is_some (create_checked db r) ≡ true
unfolding create_checked insert_rule is_unique ensure_no_protocol_conflict
create_checked-allocate_port db node reserved r v at e pool = ground (arith, not_excluded, unique)
  where
    free : is_free db node r.listen_ip r.protocol reserved r.listen_port ≡ true
    free =
        (subst
          (Found (is_free db node r.listen_ip r.protocol reserved) node.port_pool_min
            (suc node.port_pool_max - node.port_pool_min))
          e (allocate_port-least db node r.listen_ip r.protocol reserved pool)).0

    clear : blocked_by_rules db.rules node r.listen_ip r.protocol r.listen_port ≡ false
    clear = ground (arith, free)

    not_excluded :
        any
          (λ o.
            same_port r.node_id r.listen_ip r.listen_port o
            && (excludes r.protocol o.protocol && not (is_excluded none o)))
          db.rules
        ≡ false
    not_excluded =
        any_mono _
          (λ o. same_port node.id r.listen_ip r.listen_port o && conflicts r.protocol o.protocol)
          db.rules (λ o h. ground (arith, h, at, (refused-conflicts r.protocol o.protocol v).0))
          clear

    unique :
        any
          (λ o.
            not (o.id == db.next_rule_id)
            && (same_port r.node_id r.listen_ip r.listen_port o && str_eq o.protocol r.protocol))
          db.rules
        ≡ false
    unique =
        any_mono _
          (λ o. same_port node.id r.listen_ip r.listen_port o && conflicts r.protocol o.protocol)
          db.rules (λ o h. ground (arith, h, at, (refused-conflicts r.protocol o.protocol v).1))
          clear
