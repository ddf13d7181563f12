-- ===== src/Base/Raise.antt =====
-- A raised exception as a value: `Result E A` is a call that returns an `A` or raises an `E`.
use mathlib.Core.Path.{◌≡◌, refl}
use mathlib.Core.Bool.{Bool, true, false}
use mathlib.Core.Option.{Option, none, some}

pub data Result {ℓ} (E A : Type ℓ) : Type ℓ where
  ok : A → Result E A
  err : E → Result E A

infixl 5 ◌>>=◌ ◌>>◌
abbrev pub ◌>>=◌ {ℓ} : {E A B : Type ℓ} → Result E A → (A → Result E B) → Result E B
ok a >>= f = f a
err e >>= f = err e

abbrev pub ◌>>◌ {ℓ} : {E B : Type ℓ} → Result E (Unit {ℓ}) → Result E B → Result E B
m >> k = m >>= λ _. k

-- `if b: raise e`
abbrev pub raise_if : {E : Type 0} → Bool → E → Result E (Unit {0})
raise_if true e = err e
raise_if false e = ok tt

pub ok-injective : {E A : Type 0} (a b : A) → ◌≡◌ {A = Result E A} (ok a) (ok b) → a ≡ b
ok-injective a b h = cc

-- A call that raises returns nothing.
pub err-ne-ok : {E A : Type 0} (e : E) (b : A) → ◌≡◌ {A = Result E A} (err e) (ok b) → ⊥
err-ne-ok e b h = cc

-- A chain of calls that returns: its first call returned, and so did the rest.
pub bind_ok :
    {E A B : Type 0} (m : Result E A) (f : A → Result E B) (b : B)
    → (m >>= f) ≡ ok b
    → (a : A) × (m ≡ ok a) × (f a ≡ ok b)
bind_ok (ok a) f b h = (a, refl, h)
bind_ok (err e) f b h = cc

-- A check that returns has not raised.
pub raise_if_ok : {E : Type 0} (b : Bool) (e : E) (u : Unit {0}) → raise_if b e ≡ ok u → b ≡ false
raise_if_ok true e u h = absurd (err-ne-ok e u h)
raise_if_ok false e u h = refl

-- a chain of calls that may give nothing
infixl 5 ◌>>=?◌
abbrev pub ◌>>=?◌ : {A B : Type 0} → Option A → (A → Option B) → Option B
none >>=? f = none
some a >>=? f = f a
