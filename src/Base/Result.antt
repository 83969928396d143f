-- ===== src/Base/Result.antt =====
-- Rust's `Result`: a value or an error, and `?` as the bind of a `do` block.
use emorelay.Base.{Bool, true, false, Option, none, some, List, [], ◌∷◌, All, ◌≡◌, refl}

pub data Result {ℓ} (E : Type 0) (A : Type ℓ) : Type ℓ where
  ok : A → Result E A
  err : E → Result E A

infixl 5 ◌>>=◌ ◌>>◌
abbrev pub ◌>>=◌ {ℓ κ} :
    {E : Type 0} {A : Type ℓ} {B : Type κ} → Result E A → (A → Result E B) → Result E B
ok a >>= f = f a
err e >>= f = err e

abbrev pub ◌>>◌ {ℓ} : {E : Type 0} {B : Type ℓ} → Result E (Unit {0}) → Result E B → Result E B
m >> k = m >>= λ _. k

-- `if !b { return Err(e) }`
abbrev pub guard : {E : Type 0} → Bool → E → Result E (Unit {0})
guard true e = ok tt
guard false e = err e

-- Early returns one after the other: the first condition that fails decides the error.
abbrev pub require : {E : Type 0} → List (Bool × E) → Result E (Unit {0})
require [] = ok tt
require ((b, e) ∷ gs) = guard b e >> require gs

pub require-ok :
    {E : Type 0} (gs : List (Bool × E)) → require gs ≡ ok tt → All (λ (g : Bool × E). g.0 ≡ true) gs
require-ok [] h = tt
require-ok ((true, e) ∷ gs) h = (refl, require-ok gs h)
require-ok ((false, e) ∷ gs) h = cc

pub require->>-ok {ℓ} :
    {E : Type 0} {A : Type ℓ} (gs : List (Bool × E)) (m : Result E A) (a : A)
    → (require gs >> m) ≡ ok a
    → All (λ (g : Bool × E). g.0 ≡ true) gs × (m ≡ ok a)
require->>-ok [] m a h = (tt, h)
require->>-ok ((true, e) ∷ gs) m a h =
    let (passed, rest) = require->>-ok gs m a h in ((refl, passed), rest)
require->>-ok ((false, e) ∷ gs) m a h = cc

-- A chain that returns has a first step that returns.
pub >>=-ok {ℓ κ} :
    {E : Type 0} {A : Type ℓ} {B : Type κ} (m : Result E A) (f : A → Result E B) (b : B)
    → (m >>= f) ≡ ok b
    → (a : A) × (m ≡ ok a) × (f a ≡ ok b)
>>=-ok (ok a) f b h = (a, refl, h)
>>=-ok (err e) f b h = cc

abbrev pub ok_or {ℓ} : {E : Type 0} {A : Type ℓ} → Option A → E → Result E A
ok_or none e = err e
ok_or (some a) e = ok a

-- The state after a request: an error leaves it as it was.
abbrev pub after {ℓ} : {E S : Type 0} {A : Type ℓ} → S → Result E (S × A) → S
after s (ok (s', a)) = s'
after s (err e) = s

module _ {E S : Type 0} (s : S) (P : S → Type 0) (start : P s) where
  -- A property of the state holds after a chain if it holds after the rest of it, whatever its
  -- first step returns.
  pub after->>= {ℓ κ} :
      {A : Type ℓ} {B : Type κ} (m : Result E A) (f : A → Result E (S × B))
      → ((a : A) → m ≡ ok a → P (after s (f a)))
      → P (after s (m >>= f))
  after->>= (ok a) f k = k a refl
  after->>= (err e) f k = start

  pub after-guard {κ} :
      {B : Type κ} (b : Bool) (e : E) (m : Result E (S × B))
      → (b ≡ true → P (after s m))
      → P (after s (guard b e >> m))
  after-guard true e m k = k refl
  after-guard false e m k = start

  pub after-ok_or {ℓ κ} :
      {A : Type ℓ} {B : Type κ} (o : Option A) (e : E) (f : A → Result E (S × B))
      → ((a : A) → o ≡ some a → P (after s (f a)))
      → P (after s (ok_or o e >>= f))
  after-ok_or (some a) e f k = k a refl
  after-ok_or none e f k = start

pub ok_injective {ℓ} :
    {E : Type 0} {A : Type ℓ} (a b : A) → ◌≡◌ {A = Result E A} (ok a) (ok b) → a ≡ b
ok_injective a b h = cc
