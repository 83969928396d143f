-- ===== src/Base/Dict.antt =====
-- A `HashMap` with integer keys, as an association list. Its order stands for the unspecified
-- order in which the map iterates.
use emorelay.Base.Tests.{◌==◌, ==_iff, if◌then◌else◌, is_some, Bool-cases}
use emorelay.Base.Lists.{contains}
use Prim.Native.Nat.{ℕ}
use mathlib.Core.Path.{◌≡◌, refl, ap}
use mathlib.Core.Logic.{inl, inr}
use mathlib.Core.Bool.{Bool, false}
use mathlib.Core.List.{List, [], ◌∷◌}
use mathlib.Core.Option.{Option, none, some}
use native.Mathlib.Omega.{arith}

module _ {ℓ} {V : Type ℓ} where
  abbrev pub lookup : ℕ → List (ℕ × V) → Option V
  lookup k [] = none
  lookup k ((j, v) ∷ m) = if j == k then some v else lookup k m

  abbrev pub remove : ℕ → List (ℕ × V) → List (ℕ × V)
  remove k [] = []
  remove k ((j, v) ∷ m) = if j == k then remove k m else (j, v) ∷ remove k m

  abbrev pub insert : ℕ → V → List (ℕ × V) → List (ℕ × V)
  insert k v m = (k, v) ∷ remove k m

  -- `retain` by a test on the keys.
  abbrev pub retain_keys : (ℕ → Bool) → List (ℕ × V) → List (ℕ × V)
  retain_keys p [] = []
  retain_keys p ((j, v) ∷ m) = if p j then (j, v) ∷ retain_keys p m else retain_keys p m

  abbrev pub keys : List (ℕ × V) → List ℕ
  keys [] = []
  keys ((j, v) ∷ m) = j ∷ keys m

  abbrev pub values : List (ℕ × V) → List V
  values [] = []
  values ((j, v) ∷ m) = v ∷ values m

  pub lookup-remove :
      (k j : ℕ) (m : List (ℕ × V)) → lookup j (remove k m) ≡ (if k == j then none else lookup j m)
  lookup-remove k j [] = ground arith
  lookup-remove k j ((i, v) ∷ m) = ground (arith, lookup-remove k j m)

  pub lookup-insert :
      (k j : ℕ) (v : V) (m : List (ℕ × V))
      → lookup j (insert k v m) ≡ (if k == j then some v else lookup j m)
  lookup-insert k j v m = ground (arith, lookup-remove k j m)

  pub lookup-retain_keys :
      (p : ℕ → Bool) (j : ℕ) (m : List (ℕ × V))
      → lookup j (retain_keys p m) ≡ (if p j then lookup j m else none)
  lookup-retain_keys p j [] = ground arith
  lookup-retain_keys p j ((i, v) ∷ m) = elim (Bool-cases (i == j)) [
    | inl h ↦
        let e : p i ≡ p j = ap p ((==_iff i j).0 h) in ground (arith, e, lookup-retain_keys p j m)
    | inr h ↦ ground (arith, lookup-retain_keys p j m)
  ]

  pub contains-keys : (k : ℕ) (m : List (ℕ × V)) → contains (keys m) k ≡ is_some (lookup k m)
  contains-keys k [] = refl
  contains-keys k ((j, v) ∷ m) = ground (arith, contains-keys k m)

  -- No key stands twice.
  abbrev pub IsMap : List (ℕ × V) → Type 0
  IsMap [] = Unit
  IsMap ((j, v) ∷ m) = (contains (keys m) j ≡ false) × IsMap m

  pub contains-remove :
      (k j : ℕ) (m : List (ℕ × V))
      → contains (keys m) j ≡ false
      → contains (keys (remove k m)) j ≡ false
  contains-remove k j [] h = refl
  contains-remove k j ((i, v) ∷ m) h = ground (arith, contains-remove k j m)

  pub contains-remove_self : (k : ℕ) (m : List (ℕ × V)) → contains (keys (remove k m)) k ≡ false
  contains-remove_self k [] = refl
  contains-remove_self k ((i, v) ∷ m) = ground (arith, contains-remove_self k m)

  pub remove-IsMap : (k : ℕ) (m : List (ℕ × V)) → IsMap m → IsMap (remove k m)
  remove-IsMap k [] h = tt
  remove-IsMap k ((i, v) ∷ m) h = ground (arith, remove-IsMap k m h.1, contains-remove k i m h.0)

  pub insert-IsMap : (k : ℕ) (v : V) (m : List (ℕ × V)) → IsMap m → IsMap (insert k v m)
  insert-IsMap k v m h = (contains-remove_self k m, remove-IsMap k m h)
