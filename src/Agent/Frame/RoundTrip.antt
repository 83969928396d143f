-- ===== src/Agent/Frame/RoundTrip.antt =====
-- What is written is read back, frame by frame.
use mathlib.Core.List.{append_assoc}
use emorelay.Base.{
  ℕ, zero, suc, ◌≡◌, refl, Option, none, some, List, [], ◌∷◌, ◌++◌, length, arith, Option-cases,
  inl, inr,
}
use emorelay.Agent.Frame.{write_frame, read_exact, read_frame}

read_exact-append : (xs rest : List ℕ) → read_exact (length xs) (xs ++ rest) ≡ some (xs, rest)
unfolding read_exact
read_exact-append [] rest = refl
read_exact-append (x ∷ xs) rest = ground (arith, read_exact-append xs rest)

-- A written frame is read back whole, whatever follows it on the stream.
pub read_frame-write_frame :
    (payload out rest : List ℕ)
    → write_frame payload ≡ some out
    → read_frame (out ++ rest) ≡ some (payload, rest)
unfolding write_frame read_frame
read_frame-write_frame payload out rest h = ground (arith, read_exact-append payload rest)

-- All frames of a list, in order.
abbrev pub write_all : List (List ℕ) → Option (List ℕ)
write_all [] = some []
write_all (p ∷ ps) = elim (write_frame p) [
  | none ↦ none
  | some out ↦ elim (write_all ps) [ none ↦ none | some more ↦ some (out ++ more) ]
]

abbrev pub read_all : ℕ → List ℕ → Option (List (List ℕ) × List ℕ)
read_all zero s = some ([], s)
read_all (suc n) s = elim (read_frame s) [
  | none ↦ none
  | some (p, rest) ↦ elim (read_all n rest) [ none ↦ none | some (ps, end) ↦ some (p ∷ ps, end) ]
]

-- Any list of payloads that could be written is read back as it was, frame by frame, up to
-- whatever follows on the stream.
pub read_all-write_all :
    (ps : List (List ℕ)) (out rest : List ℕ)
    → write_all ps ≡ some out
    → read_all (length ps) (out ++ rest) ≡ some (ps, rest)
read_all-write_all [] out rest h = ground arith
read_all-write_all (p ∷ ps) out rest h = elim (Option-cases (write_frame p)) [
  | inl e ↦ absurd (ground (arith, e))
  | inr (one, e) ↦ elim (Option-cases (write_all ps)) [
    | inl f ↦ absurd (ground (arith, e, f))
    | inr (more, f) ↦ ground (
      arith,
      e,
      f,
      append_assoc one more rest,
      read_frame-write_frame p one (more ++ rest) e,
      read_all-write_all ps more rest f,
    )
  ]
]
