-- ===== src/Agent/Relay/Guard.antt =====
-- A name never leads to an internal address, and an address that can be reached is found.
use emorelay.Base.{
  ℕ, ◌≡◌, refl, Bool, true, Option, some, List, [], ◌∷◌, String, str_eq, if◌then◌else◌, get_elem?,
  All, All-intro, All-append, retain-All, Bool-cases, Option-cases, inl, inr,
}
use emorelay.Base.Ip.{IpAddr, is_v4, is_v6}
use emorelay.Agent.Relay.{filter_af, guard_resolved_target, try_ips, connect_targets, tag}

-- Whether the rule's preference of a family admits the address.
abbrev pub admits : String → IpAddr → Bool
admits remote_af ip =
    if str_eq remote_af "v4" then is_v4 ip else (if str_eq remote_af "v6" then is_v6 ip else true)

module _ (parse : String → Option IpAddr) where
  -- What may be said of an address to which a connect is made for a target.
  abbrev pub Allowed : List (String × ℕ) → String → ℕ × IpAddr → Type 0
  Allowed pool remote_af (idx, ip) =
      (t : String × ℕ) × (get_elem? pool idx ≡ some t)
      × (admits remote_af ip ≡ true)
      × (guard_resolved_target parse t.0 ip ≡ true)

  abbrev AllAdmitted : String → List IpAddr → Type 0
  AllAdmitted remote_af ips = All (λ ip. admits remote_af ip ≡ true) ips

  pub filter_af-admits :
      (ips : List IpAddr) (remote_af : String) → AllAdmitted remote_af (filter_af ips remote_af)
  unfolding filter_af
  filter_af-admits ips remote_af = elim (Bool-cases (str_eq remote_af "v4")) [
    | inl e ↦ rw (e, if◌then◌else◌) (retain-All is_v4 ips)
    | inr e ↦ elim (Bool-cases (str_eq remote_af "v6")) [
      | inl f ↦ rw (e, f, if◌then◌else◌) (retain-All is_v6 ips)
      | inr f ↦ rw (e, f, if◌then◌else◌) (All-intro (λ ip. true ≡ true) (λ ip. refl) ips)
    ]
  ]

  try_ips-Allowed :
      (connect : IpAddr → ℕ → Bool) (pool : List (String × ℕ)) (remote_af : String) (idx : ℕ)
      (t : String × ℕ) (ips : List IpAddr)
      → get_elem? pool idx ≡ some t
      → AllAdmitted remote_af ips
      → All (Allowed pool remote_af) (tag idx (try_ips parse connect t.0 t.1 ips).1)
  unfolding try_ips
  try_ips-Allowed connect pool remote_af idx t [] at a = tt
  try_ips-Allowed connect pool remote_af idx t (ip ∷ ips) at (a, b) =
      let rest = try_ips-Allowed connect pool remote_af idx t ips at b in
      elim (Bool-cases (guard_resolved_target parse t.0 ip)) [
        | inr e ↦ rw (e, if◌then◌else◌) rest
        | inl e ↦ elim (Bool-cases (connect ip t.1)) [
          | inl f ↦ rw (e, f, if◌then◌else◌) ((t, at, a, e), tt)
          | inr f ↦ rw (e, f, if◌then◌else◌) ((t, at, a, e), rest)
        ]
      ]

  -- Whatever names resolve to and whichever connects succeed, every connect goes to an address of
  -- the family that the rule prefers, for a target of the pool, and to no internal address unless
  -- the target is itself an address literal.
  pub connect_targets-Allowed :
      (resolve : String → List IpAddr) (connect : IpAddr → ℕ → Bool) (pool : List (String × ℕ))
      (remote_af : String) (order : List ℕ)
      → All (Allowed pool remote_af) (connect_targets parse resolve connect pool remote_af order).1
  unfolding connect_targets
  connect_targets-Allowed resolve connect pool remote_af [] = tt
  connect_targets-Allowed resolve connect pool remote_af (idx ∷ order) =
      let rest = connect_targets-Allowed resolve connect pool remote_af order in
      elim (Option-cases (get_elem? pool idx)) [
        | inl e ↦ rw (e, connect_targets) rest
        | inr (t, e) ↦
            let ips = filter_af (resolve t.0) remote_af in
            let here =
              try_ips-Allowed connect pool remote_af idx t ips e
                (filter_af-admits (resolve t.0) remote_af) in
            elim (Option-cases (try_ips parse connect t.0 t.1 ips).0) [
              | inl f ↦
                  rw (e, f, connect_targets)
                    (All-append (Allowed pool remote_af)
                      (tag idx (try_ips parse connect t.0 t.1 ips).1)
                      (connect_targets parse resolve connect pool remote_af order).1 here rest)
              | inr (ip, f) ↦ rw (e, f, connect_targets) here
            ]
      ]
