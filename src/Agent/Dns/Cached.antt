-- ===== src/Agent/Dns/Cached.antt =====
-- What the cache answers was once the answer, and the cache stays small.
use emorelay.Base.{
  ℕ, ◌-◌, ◌≤◌, ◌<◌, ◌≡◌, refl, sym, ◌∙◌, subst, ◌⊎◌, inl, inr, Bool, true, not, Option, none, some,
  List, [], ◌∷◌, String, str_eq, str_eq_iff, ltb, length, length-retain, retain, if◌then◌else◌,
  arith, All, Bool-cases, Option-cases,
}
use emorelay.Base.Ip.{IpAddr}
use emorelay.Agent.Dns.{
  ttl, max_entries, Entry, find, is_fresh, cache_get, insert, cache_put, remember, resolve_target,
}

retain-kept :
    (P : Entry → Type 0) (p : Entry → Bool) (es : List Entry) → All P es → All P (retain p es)
retain-kept P p [] a = tt
retain-kept P p (e ∷ es) (a, b) = elim (Bool-cases (p e)) [
  | inl h ↦ rw (h, if◌then◌else◌) (a, retain-kept P p es b)
  | inr h ↦ rw (h, if◌then◌else◌) (retain-kept P p es b)
]

module _ (parse : String → Option IpAddr) (resolve : String → ℕ → Option (List IpAddr)) where
  abbrev Said : Entry → Type 0
  Said e = resolve e.host e.at ≡ some e.ips

  record IsCache (cache : List Entry) : Type 0 where
    pub said : All Said cache
    pub small : length cache ≤ max_entries

  insert-IsCache :
      (e : Entry) (es : List Entry)
      → Said e
      → All Said es
      → ltb (length es) max_entries ≡ true
      → IsCache (insert e es)
  insert-IsCache e es s a small =
      let p : Entry → Bool = λ o. not (str_eq o.host e.host) in
      record {
        said = (s, retain-kept Said p es a);
        small = ground (arith, length-retain p es, small);
      }

  cache_put-IsCache :
      (cache : List Entry) (host : String) (ips : List IpAddr) (now : ℕ)
      → IsCache cache
      → resolve host now ≡ some ips
      → IsCache (cache_put cache host ips now)
  unfolding cache_put
  cache_put-IsCache cache host ips now i s =
      let fresh = retain (is_fresh now) cache in
      let e : Entry = record { host = host; ips = ips; at = now } in
      let kept = retain-kept Said (is_fresh now) cache i.said in
      elim (Bool-cases (ltb (length cache) max_entries)) [
        | inl h ↦ rw h (insert-IsCache e cache s i.said h)
        | inr h ↦ elim (Bool-cases (ltb (length fresh) max_entries)) [
          | inl k ↦ rw (h, k) (insert-IsCache e fresh s kept k)
          | inr k ↦
              rw (h, k)
                (record {
                  said = kept;
                  small = omega (arith, length-retain (is_fresh now) cache, i.small);
                })
        ]
      ]

  remember-IsCache :
      (cache : List Entry) (host : String) (done : ℕ)
      → IsCache cache
      → IsCache (remember parse resolve cache host done)
  unfolding remember
  remember-IsCache cache host done i = elim (Option-cases (resolve host done)) [
    | inl e ↦ rw (e, remember) i
    | inr ([], e) ↦ rw (e, remember) i
    | inr (ip ∷ ips, e) ↦ rw (e, remember) (cache_put-IsCache cache host (ip ∷ ips) done i e)
  ]

  resolve_target-IsCache :
      (cache : List Entry) (host : String) (now done : ℕ)
      → IsCache cache
      → IsCache (resolve_target parse resolve cache host now done).0
  unfolding resolve_target
  resolve_target-IsCache cache host now done i = elim (Option-cases (parse host)) [
    | inr (ip, e) ↦ rw (e, resolve_target) i
    | inl e ↦ elim (Option-cases (cache_get cache host now)) [
      | inr (ips, g) ↦ rw (e, g, resolve_target) i
      | inl g ↦ rw (e, g, resolve_target) (remember-IsCache cache host done i)
    ]
  ]

  -- Calls that were made on an empty cache: the name, when it was asked and when the answer came.
  abbrev pub run : List Entry → List (String × (ℕ × ℕ)) → List Entry
  run cache [] = cache
  run cache ((host, (now, done)) ∷ cs) = run (resolve_target parse resolve cache host now done).0 cs

  run-IsCache :
      (cache : List Entry) (cs : List (String × (ℕ × ℕ))) → IsCache cache → IsCache (run cache cs)
  run-IsCache cache [] i = i
  run-IsCache cache ((host, (now, done)) ∷ cs) i =
      run-IsCache (resolve_target parse resolve cache host now done).0 cs
        (resolve_target-IsCache cache host now done i)

  -- After any calls on an empty cache it holds at most 1024 names.
  pub run-length : (cs : List (String × (ℕ × ℕ))) → length (run [] cs) ≤ 1024
  run-length cs = (run-IsCache [] cs (record { said = tt; small = omega arith })).small

  -- What may be answered for a name: a literal stands for itself, and else it is what the name
  -- resolves to when the call ends, or resolved to less than 60 s before the call.
  abbrev pub Answer : String → ℕ → ℕ → Option (List IpAddr) → Type 0
  Answer host now done o =
      ((ip : IpAddr) × (parse host ≡ some ip) × (o ≡ some (ip ∷ [])))
      ⊎ ((parse host ≡ none) × ((t : ℕ) × (o ≡ resolve host t) × ((t ≡ done) ⊎ (now - t < ttl))))

  find-Said :
      (host : String) (cache : List Entry) (e : Entry)
      → All Said cache
      → find host cache ≡ some e
      → resolve host e.at ≡ some e.ips
  find-Said host [] e a h =
      absurd (subst (λ (o : Option Entry). elim o [ none ↦ Unit | some x ↦ ⊥ ]) h tt)
  find-Said host (x ∷ cache) e (a, b) h = elim (Bool-cases (str_eq x.host host)) [
    | inl k ↦
        let same : some x ≡ some e = sym (rw (k, if◌then◌else◌) refl) ∙ h in
        let at_host : resolve host x.at ≡ some x.ips =
          subst (λ (n : String). resolve n x.at ≡ some x.ips) ((str_eq_iff x.host host).0 k) a in
        subst
          (λ (o : Option Entry). elim o [ none ↦ Unit | some y ↦ resolve host y.at ≡ some y.ips ])
          same at_host
    | inr k ↦ find-Said host cache e b (sym (rw (k, if◌then◌else◌) refl) ∙ h)
  ]

  cache_get-Said :
      (host : String) (cache : List Entry) (now : ℕ) (ips : List IpAddr)
      → All Said cache
      → cache_get cache host now ≡ some ips
      → (t : ℕ) × (some ips ≡ resolve host t) × (now - t < ttl)
  unfolding cache_get
  cache_get-Said host cache now ips a h = elim (Option-cases (find host cache)) [
    | inl k ↦ absurd (ground (arith, h, k))
    | inr (e, k) ↦
        let s = find-Said host cache e a k in (e.at, ground (arith, h, k, s), ground (arith, h, k))
  ]

  -- After any calls on an empty cache, the answer to a call is the literal itself, or what the name resolves to when the
  -- call ends, or what it resolved to less than 60 s before the call.
  pub resolve_target-Answer :
      (cs : List (String × (ℕ × ℕ))) (host : String) (now done : ℕ)
      → Answer host now done (resolve_target parse resolve (run [] cs) host now done).1
  unfolding resolve_target
  resolve_target-Answer cs host now done =
      let cache = run [] cs in
      let i = run-IsCache [] cs (record { said = tt; small = omega arith }) in
      elim (Option-cases (parse host)) [
        | inr (ip, e) ↦ rw (e, resolve_target) (inl (ip, refl, refl))
        | inl e ↦ elim (Option-cases (cache_get cache host now)) [
          | inr (ips, g) ↦
              let (t, s, l) = cache_get-Said host cache now ips i.said g in
              rw (e, g, resolve_target) (inr (refl, (t, s, inr l)))
          | inl g ↦ rw (e, g, resolve_target) (inr (refl, (done, refl, inl refl)))
        ]
      ]
