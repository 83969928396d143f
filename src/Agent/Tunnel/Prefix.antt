-- ===== src/Agent/Tunnel/Prefix.antt =====
-- crates/node-agent/src/tunnel/task.rs: what has come through is a beginning of what was sent.
use mathlib.Core.List.{append_assoc}
use emorelay.Base.{
  ℕ, zero, suc, ◌+◌, ◌-◌, ◌≤◌, ◌<◌, ◌*◌, ◌/◌, ◌%◌, ◌≡◌, refl, sym, ap, ap₂, subst, ◌∙◌, Bool, true,
  false, none, some, List, [], ◌∷◌, ◌++◌, length, length-append, take, drop, take-drop, arith,
  Option-cases, Bool-cases, inl, inr, ◌⊎◌, leb, if◌then◌else◌, unwrap_or, All, min,
}
use emorelay.Agent.Frame.{write_frame, read_exact, read_frame}
use emorelay.Agent.Frame.RoundTrip.{write_all, read_frame-write_frame}
use emorelay.Agent.Tunnel.Stream.{hop_buffer, read_size, copy_raw, through}
use emorelay.Agent.Tunnel.Exit.{datagrams}

-- What comes first, and what is still to come.
abbrev pub IsPrefix {ℓ} : {A : Type ℓ} → List A → List A → Type ℓ
IsPrefix {A = A} xs ys = (later : List A) × (xs ++ later ≡ ys)

pub IsPrefix-trans :
    {A : Type 0} (xs ys zs : List A) → IsPrefix xs ys → IsPrefix ys zs → IsPrefix xs zs
IsPrefix-trans xs ys zs (a, e) (b, f) = (a ++ b, sym (append_assoc xs a b) ∙ ap (λ l. l ++ b) e ∙ f)

pub copy_raw-whole : (ns s : List ℕ) → (copy_raw ns s).0 ++ (copy_raw ns s).1 ≡ s
unfolding copy_raw
copy_raw-whole [] s = refl
copy_raw-whole (n ∷ ns) s =
    let k = read_size hop_buffer n in
    append_assoc (take k s) (copy_raw ns (drop k s)).0 (copy_raw ns (drop k s)).1
    ∙ ap (λ l. take k s ++ l) (copy_raw-whole ns (drop k s))
    ∙ take-drop k s

pub through-IsPrefix : (hops : List (List ℕ)) (s : List ℕ) → IsPrefix (through hops s) s
unfolding through
through-IsPrefix [] s = ([], append_nil s)
  where
    append_nil : (xs : List ℕ) → xs ++ [] ≡ xs
    append_nil [] = refl
    append_nil (x ∷ xs) = ap (λ l. x ∷ l) (append_nil xs)
through-IsPrefix (ns ∷ hops) s =
    IsPrefix-trans (through hops (copy_raw ns s).0) (copy_raw ns s).0 s
      (through-IsPrefix hops (copy_raw ns s).0) ((copy_raw ns s).1, copy_raw-whole ns s)

-- What the reads of a hop take at most: the sizes are those of `read` with a buffer of 65536.
abbrev pub reach_of : List ℕ → ℕ
reach_of [] = 0
reach_of (n ∷ ns) = min (suc n) 65536 + reach_of ns

length-drop : (n : ℕ) (s : List ℕ) → length (drop n s) ≡ length s - n
length-drop zero s = omega arith
length-drop (suc n) [] = omega arith
length-drop (suc n) (x ∷ s) = omega (arith, length-drop n s)

-- A hop whose reads reach the end of the stream has written all of it.
copy_raw-all : (ns s : List ℕ) → length s ≤ reach_of ns → (copy_raw ns s).0 ≡ s
unfolding copy_raw
copy_raw-all [] [] h = refl
copy_raw-all [] (x ∷ s) h = absurd (omega (arith, h))
copy_raw-all (n ∷ ns) s h =
    let k = read_size hop_buffer n in
    ap (λ l. take k s ++ l) (copy_raw-all ns (drop k s) (omega (arith, h, length-drop k s)))
    ∙ take-drop k s

-- Hops that all read to the end pass the stream on whole.
pub through-all :
    (hops : List (List ℕ)) (s : List ℕ)
    → All (λ ns. length s ≤ reach_of ns) hops
    → through hops s ≡ s
unfolding through
through-all [] s h = refl
through-all (ns ∷ hops) s (x, h) = ap (through hops) (copy_raw-all ns s x) ∙ through-all hops s h

abbrev pub first : ℕ → List ℕ → ℕ
first d [] = d
first d (x ∷ xs) = x

abbrev pub tail : List ℕ → List ℕ
tail [] = []
tail (x ∷ xs) = xs

-- A beginning of a text and the text after it: it holds the text, or is shorter.
split :
    (f more r later : List ℕ)
    → r ++ later ≡ f ++ more
    → ((rest : List ℕ) × (r ≡ f ++ rest) × (rest ++ later ≡ more)) ⊎ (length r < length f)
split [] more r later e = inl (r, refl, e)
split (x ∷ f) more [] later e = inr (omega arith)
split (x ∷ f) more (y ∷ r) later e =
    let head : y ≡ x = ap (first x) e in
    elim (split f more r later (ap tail e)) [
      | inl (rest, p, q) ↦ inl (rest, ap₂ (λ a b. a ∷ b) head p, q)
      | inr short ↦ inr (omega (arith, short))
    ]

read_exact-short : (n : ℕ) (s : List ℕ) → length s < n → read_exact n s ≡ none
unfolding read_exact
read_exact-short zero s h = absurd (omega (arith, h))
read_exact-short (suc n) [] h = refl
read_exact-short (suc n) (x ∷ s) h = rw (read_exact-short n s (omega (arith, h)), read_exact) refl

abbrev frame : List ℕ → List ℕ
frame payload = length payload / 256 ∷ length payload % 256 ∷ payload

frame_of : (payload out : List ℕ) → write_frame payload ≡ some out → out ≡ frame payload
unfolding write_frame
frame_of payload out w = elim (Bool-cases (leb (length payload) 65535)) [
  | inl e ↦ ap (λ o. unwrap_or o out) (sym w ∙ ap (λ b. if b then some (frame payload) else none) e)
  | inr e ↦ absurd (ground (arith, sym w ∙ ap (λ b. if b then some (frame payload) else none) e))
]

second : ℕ → List ℕ → ℕ
second d [] = d
second d (x ∷ xs) = first d xs

-- A frame that has not come whole is not read.
read_frame-short :
    (payload r later more : List ℕ)
    → r ++ later ≡ frame payload ++ more
    → length r < length (frame payload)
    → read_frame r ≡ none
unfolding read_frame second
read_frame-short payload [] later more e h = refl
read_frame-short payload (hi ∷ []) later more e h = refl
read_frame-short payload (hi ∷ lo ∷ r) later more e h =
    let high : hi ≡ length payload / 256 = ap (first hi) e in
    let low : lo ≡ length payload % 256 = ap (second lo) e in
    read_exact-short (hi * 256 + lo) r (omega (arith, high, low, h))

datagrams-stuck :
    (ok : ℕ → Bool) (fuel : ℕ) (r : List ℕ) → read_frame r ≡ none → datagrams ok fuel r ≡ []
unfolding datagrams
datagrams-stuck ok zero r e = refl
datagrams-stuck ok (suc fuel) r e = rw (e, datagrams) refl

datagrams-read :
    (ok : ℕ → Bool) (fuel : ℕ) (p r rest : List ℕ)
    → read_frame r ≡ some (p, rest)
    → datagrams ok (suc fuel) r ≡ (if ok fuel then p ∷ datagrams ok fuel rest else [])
unfolding datagrams
datagrams-read ok fuel p r rest e = rw (e, datagrams) refl

if-IsPrefix :
    (b : Bool) (p : List ℕ) (xs ps : List (List ℕ))
    → IsPrefix xs ps
    → IsPrefix (if b then p ∷ xs else []) (p ∷ ps)
if-IsPrefix true p xs ps (left, v) = (left, ap (λ l. p ∷ l) v)
if-IsPrefix false p xs ps (left, v) = (p ∷ ps, refl)

datagrams_none : (ok : ℕ → Bool) (ps : List (List ℕ)) (r : List ℕ) → datagrams ok 0 r ++ ps ≡ ps
unfolding datagrams
datagrams_none ok ps r = refl

read_frame-empty : (r later : List ℕ) → r ++ later ≡ [] → read_frame r ≡ none
unfolding read_frame
read_frame-empty [] later e = refl
read_frame-empty (x ∷ r) later e = cc

-- The datagrams that the exit has sent, at any moment, are a beginning of the payloads whose frames were
-- written.
pub datagrams-IsPrefix :
    (ok : ℕ → Bool) (ps : List (List ℕ)) (out r : List ℕ) (fuel : ℕ)
    → write_all ps ≡ some out
    → IsPrefix r out
    → length r ≤ fuel
    → IsPrefix (datagrams ok fuel r) ps
datagrams-IsPrefix ok ps out r zero w p b = (ps, datagrams_none ok ps r)
datagrams-IsPrefix ok [] out r (suc fuel) w (later, e) b =
    let none_sent : [] ≡ out = ap (λ o. unwrap_or o out) w in
    (
      [],
      ap (λ l. l ++ [])
          (datagrams-stuck ok (suc fuel) r (read_frame-empty r later (e ∙ sym none_sent))),
    )
datagrams-IsPrefix ok (p ∷ ps) out r (suc fuel) w (later, e) b =
    elim (Option-cases (write_frame p)) [
      | inl f ↦ absurd (ground (arith, f, w))
      | inr (one, f) ↦ elim (Option-cases (write_all ps)) [
        | inl g ↦ absurd (ground (arith, f, g, w))
        | inr (more, g) ↦
            let whole : write_all (p ∷ ps) ≡ some (one ++ more) = rw (f, g, write_all) refl in
            let sent : out ≡ one ++ more = ap (λ o. unwrap_or o out) (sym w ∙ whole) in
            let framed = frame_of p one f in
            elim (split one more r later (e ∙ sent)) [
              | inl (rest, q, u) ↦
                  let size = ap length q ∙ length-append one rest in
                  let long = ap length framed in
                  let read =
                    datagrams-read ok fuel p r rest
                      (ap read_frame q ∙ read_frame-write_frame p one rest f) in
                  subst (λ l. IsPrefix l (p ∷ ps)) (sym read)
                    (if-IsPrefix (ok fuel) p (datagrams ok fuel rest) ps (
                      datagrams-IsPrefix ok ps more rest fuel g (later, u)
                        (omega (arith, size, long, b))))
              | inr short ↦ (
                p ∷ ps,
                ap (λ l. l ++ p ∷ ps)
                    (datagrams-stuck ok (suc fuel) r (
                      read_frame-short p r later more (e ∙ sent ∙ ap (λ l. l ++ more) framed)
                        (subst (λ l. length r < length l) framed short))),
              )
            ]
      ]
    ]

-- All of a stream of frames is read.
pub datagrams-write_all :
    (ok : ℕ → Bool) (ps : List (List ℕ)) (out : List ℕ) (fuel : ℕ)
    → ((n : ℕ) → ok n ≡ true)
    → write_all ps ≡ some out
    → length out ≤ fuel
    → datagrams ok fuel out ≡ ps
datagrams-write_all ok [] out fuel k w b =
    let none_sent : [] ≡ out = ap (λ o. unwrap_or o out) w in
    datagrams-stuck ok fuel out
      (subst (λ l. read_frame l ≡ none) none_sent (read_frame-empty [] [] refl))
datagrams-write_all ok (p ∷ ps) out fuel k w b = elim (Option-cases (write_frame p)) [
  | inl f ↦ absurd (ground (arith, f, w))
  | inr (one, f) ↦ elim (Option-cases (write_all ps)) [
    | inl g ↦ absurd (ground (arith, f, g, w))
    | inr (more, g) ↦
        let whole : write_all (p ∷ ps) ≡ some (one ++ more) = rw (f, g, write_all) refl in
        let sent : out ≡ one ++ more = ap (λ o. unwrap_or o out) (sym w ∙ whole) in
        let size = ap length sent ∙ length-append one more in
        let long = ap length (frame_of p one f) in
        subst (λ n. datagrams ok n out ≡ p ∷ ps) (suc_pred fuel (omega (arith, size, long, b)))
          (datagrams-read ok (fuel - 1) p out more
              (ap read_frame sent ∙ read_frame-write_frame p one more f)
            ∙ ap (λ b. if b then p ∷ datagrams ok (fuel - 1) more else []) (k (fuel - 1))
            ∙ ap (λ l. p ∷ l)
                (datagrams-write_all ok ps more (fuel - 1) k g (omega (arith, size, long, b))))
  ]
]
  where
    suc_pred : (n : ℕ) → 1 ≤ n → suc (n - 1) ≡ n
    suc_pred n h = omega (arith, h)
