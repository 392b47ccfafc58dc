-- ===== src/Base/Fallible.antt =====
-- `Option` as a monad: its own `none` in the source, or a panic where the model says so.
use mathlib.Core.Path.{◌≡◌, refl, subst}
use mathlib.Core.Bool.{Bool, true, false}
use mathlib.Core.Option.{Option, none, some}
use batuta.Base.Tests.{if◌then◌else◌}

infixl 5 ◌>>=◌ ◌>>◌
abbrev pub ◌>>=◌ {ℓ κ} : {A : Type ℓ} {B : Type κ} → Option A → (A → Option B) → Option B
some a >>= f = f a
none >>= f = none

abbrev pub ◌>>◌ {ℓ κ} : {A : Type ℓ} {B : Type κ} → Option A → Option B → Option B
m >> k = m >>= λ _. k

-- A computation that returns, with a value that `P` holds of.
pub data Returns {ℓ} {A : Type ℓ} (P : A → Type 0) : Option A → Type ℓ where
  returns : (a : A) → P a → Returns P (some a)

module _ {ℓ} {A B : Type ℓ} {P : A → Type 0} {Q : B → Type 0} where
  pub Returns-bind :
      (m : Option A) (f : A → Option B)
      → Returns P m
      → ((a : A) → P a → Returns Q (f a))
      → Returns Q (m >>= f)
  Returns-bind (some a) f (returns _ h) k = k a h
  Returns-bind none f h k = elim h [ ]

module _ {ℓ} {A : Type ℓ} where
  pub Returns-if :
      {P : A → Type 0} (b : Bool) (m n : Option A)
      → (b ≡ true → Returns P m)
      → (b ≡ false → Returns P n)
      → Returns P (if b then m else n)
  Returns-if true m n hm hn = hm refl
  Returns-if false m n hm hn = hn refl

  pub Returns-weaken :
      {P Q : A → Type 0} (m : Option A) → ((a : A) → P a → Q a) → Returns P m → Returns Q m
  Returns-weaken (some a) k (returns _ h) = returns a (k a h)
  Returns-weaken none k h = elim h [ ]

  pub Returns-some : {P : A → Type 0} (m : Option A) → Returns P m → (a : A) × (m ≡ some a) × P a
  Returns-some (some a) (returns _ h) = (a, refl, h)
  Returns-some none h = elim h [ ]

  -- The value is returned.
  pub Returns-eq : {P : A → Type 0} (m : Option A) {a : A} → Returns P m → m ≡ some a → P a
  Returns-eq {P} (some b) (returns _ h) e = subst P (some_injective b _ e) h
    where
      some_injective : (x y : A) → some x ≡ some y → x ≡ y
      some_injective x y e = cc
  Returns-eq none h e = elim h [ ]
