-- ===== src/Panel/Dispatcher/Progress.antt =====
-- Tasks that hold the locks of several nodes cannot wait for one another for ever.
use emorelay.Base.{
  ℕ, zero, suc, ◌≤◌, ◌<◌, ◌≡◌, refl, sym, ap, subst, ◌∙◌, Bool, true, false, not, Option, none,
  some, List, [], ◌∷◌, ◌==◌, contains, arith, Bool-cases, inl, inr, ◌⊎◌, take, get_elem?, any, max,
  Option-cases, ==_iff,
}
use emorelay.Panel.Dispatcher.{lock_order}
use emorelay.Panel.Dispatcher.Locks.{Climbing, lock_order-Climbing}

-- A call of `lock_nodes`, or its critical section, that has taken so many of its locks.
pub record Task : Type 0 where
  pub node_ids : List ℕ
  pub taken : ℕ

abbrev pub held : Task → List ℕ
held t = take t.taken (lock_order t.node_ids)

-- The lock that the task waits for, if it has not got all of them.
abbrev pub next_lock : Task → Option ℕ
next_lock t = get_elem? (lock_order t.node_ids) t.taken

abbrev pub holds : ℕ → Task → Bool
holds w t = contains (held t) w

-- Whether the task goes on at once: it has all its locks and will give them back, or no task holds
-- the next.
abbrev pub goes_on : List Task → Option ℕ → Bool
goes_on tasks none = true
goes_on tasks (some w) = not (any (holds w) tasks)

abbrev pub can_move : List Task → Task → Bool
can_move tasks t = goes_on tasks (next_lock t)

In : Task → List Task → Type 0
In t [] = ⊥
In t (u ∷ us) = (t ≡ u) ⊎ In t us

any-In : (p : Task → Bool) (ts : List Task) → any p ts ≡ true → (t : Task) × In t ts × (p t ≡ true)
unfolding In
any-In p [] e = ground (arith, e)
any-In p (t ∷ ts) e = elim (Bool-cases (p t)) [
  | inl f ↦ (t, inl refl, f)
  | inr f ↦ let (u, i, g) = any-In p ts (ground (arith, e, f)) in (u, inr i, g)
]

none-In : (p : Task → Bool) (ts : List Task) (t : Task) → any p ts ≡ false → In t ts → p t ≡ false
unfolding In
none-In p [] t e i = absurd i
none-In p (u ∷ us) t e (inl same) = ap p same ∙ ground (arith, e)
none-In p (u ∷ us) t e (inr i) = none-In p us t (ground (arith, e)) i

Climbing-below :
    (a : ℕ) (bs : List ℕ) (n w : ℕ) → Climbing (a ∷ bs) → get_elem? bs n ≡ some w → a < w
Climbing-below a (b ∷ bs) zero w (l, c) e = ground (arith, e)
Climbing-below a (b ∷ bs) (suc n) w (l, c) e = omega (arith, l, Climbing-below b bs n w c e)
Climbing-below a [] n w c e = ground (arith, e)

Climbing-tail : (a : ℕ) (bs : List ℕ) → Climbing (a ∷ bs) → Climbing bs
Climbing-tail a [] c = tt
Climbing-tail a (b ∷ bs) c = c.1

Climbing-take :
    (ns : List ℕ) (n h w : ℕ)
    → Climbing ns
    → contains (take n ns) h ≡ true
    → get_elem? ns n ≡ some w
    → h < w
Climbing-take ns zero h w c i e = ground (arith, i)
Climbing-take [] (suc n) h w c i e = ground (arith, i)
Climbing-take (a ∷ ns) (suc n) h w c i e = elim (Bool-cases (a == h)) [
  | inl f ↦ subst (λ x. x < w) ((==_iff a h).0 f) (Climbing-below a ns n w c e)
  | inr f ↦ Climbing-take ns n h w (Climbing-tail a ns c) (ground (arith, i, f)) e
]

abbrev pub target : Option ℕ → ℕ
target none = 0
target (some w) = w

abbrev pub top : List Task → ℕ
top [] = 0
top (t ∷ ts) = max (target (next_lock t)) (top ts)

top-lem : (t : Task) (ts : List Task) → In t ts → target (next_lock t) ≤ top ts
unfolding In
top-lem t [] i = absurd i
top-lem t (u ∷ us) (inl same) =
    subst (λ x. target (next_lock t) ≤ max (target (next_lock x)) (top us)) same (omega arith)
top-lem t (u ∷ us) (inr i) = omega (arith, top-lem t us i)

module _ (tasks : List Task) (stuck : any (can_move tasks) tasks ≡ false) where
  -- A task that cannot go on waits for a lock that another holds, which waits for a higher one.
  higher :
      (t : Task)
      → In t tasks
      → (u : Task) × In u tasks × (target (next_lock t) < target (next_lock u))
  higher t i = elim (Option-cases (next_lock t)) [
    | inl e ↦
        absurd (ground (arith, none-In (can_move tasks) tasks t stuck i, ap (goes_on tasks) e))
    | inr (w, e) ↦
        let taken : any (holds w) tasks ≡ true =
          ground (arith, none-In (can_move tasks) tasks t stuck i, ap (goes_on tasks) e) in
        let (u, j, h) = any-In (holds w) tasks taken in
        (u, j, subst (λ x. x < target (next_lock u)) (sym (ap target e)) (waits u j w h))
  ]
    where
      waits : (u : Task) → In u tasks → (w : ℕ) → holds w u ≡ true → w < target (next_lock u)
      waits u j w h = elim (Option-cases (next_lock u)) [
        | inl e ↦
            absurd (ground (arith, none-In (can_move tasks) tasks u stuck j, ap (goes_on tasks) e))
        | inr (v, e) ↦
            subst (λ x. w < x) (sym (ap target e))
              (Climbing-take (lock_order u.node_ids) u.taken w v (lock_order-Climbing u.node_ids).0
                h e)
      ]

  climb : (t : Task) → In t tasks → (n : ℕ) → (u : Task) × In u tasks × (n ≤ target (next_lock u))
  climb t i zero = (t, i, omega arith)
  climb t i (suc n) =
      let (u, j, l) = climb t i n in let (v, k, m) = higher u j in (v, k, omega (arith, l, m))

  never_stuck : (t : Task) → In t tasks → ⊥
  never_stuck t i =
      let (u, j, l) = climb t i (suc (top tasks)) in omega (arith, l, top-lem u tasks j)

-- However far any number of tasks have got with taking the locks that they need, at least one of them
-- goes on: it either has all its locks and gives them back, or the next one is free.
pub lock_order-progress : (t : Task) (ts : List Task) → any (can_move (t ∷ ts)) (t ∷ ts) ≡ true
unfolding In
lock_order-progress t ts = elim (Bool-cases (any (can_move (t ∷ ts)) (t ∷ ts))) [
  | inl e ↦ e
  | inr e ↦ absurd (never_stuck (t ∷ ts) e t (inl refl))
]
