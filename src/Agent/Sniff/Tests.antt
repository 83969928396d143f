-- ===== src/Agent/Sniff/Tests.antt =====
-- crates/node-agent/src/sniff.rs: a TLS client whose first byte comes alone.
use emorelay.Base.{ℕ, ◌≡◌, ◌≢◌, refl, subst, true, List, [], ◌∷◌, ◌++◌, arith, is_some}
use emorelay.Agent.Sniff.{
  block_tls, sniff_blocked, admit, fingerprint, has_bit, is_tls_client_hello,
}
use emorelay.Agent.Sniff.Loop.{IsPrefix, in_time, admit-in_time}

abbrev hello : List ℕ
hello = 0x16 ∷ 3 ∷ 1 ∷ 2 ∷ 0 ∷ 1 ∷ 0 ∷ 1 ∷ []

abbrev rest : List ℕ
rest = 3 ∷ 1 ∷ 2 ∷ 0 ∷ 1 ∷ 0 ∷ 1 ∷ []

nonempty : (x : ℕ) (xs : List ℕ) → x ∷ xs ≢ []
nonempty x xs e = subst (λ (l : List ℕ). elim l [ [] ↦ ⊥ | y ∷ ys ↦ Unit ]) e tt

byte-IsPrefix : IsPrefix hello (0x16 ∷ [])
byte-IsPrefix = (nonempty 0x16 [], (rest, refl))

hello-IsPrefix : IsPrefix hello hello
hello-IsPrefix = (nonempty 0x16 rest, ([], refl))

admit-in_time_example :
    is_some (admit block_tls (in_time ((0x16 ∷ []) ∷ hello ∷ [])))
    ≡ is_some (sniff_blocked hello block_tls)
admit-in_time_example =
    admit-in_time block_tls hello ((0x16 ∷ []) ∷ []) hello (byte-IsPrefix, tt) hello-IsPrefix
      (omega arith)

blocked : is_some (sniff_blocked ((0x16 ∷ []) ++ rest) block_tls) ≡ true
unfolding sniff_blocked fingerprint has_bit is_tls_client_hello
blocked = refl
