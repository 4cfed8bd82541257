-- ===== src/Prelude/Maybe.antt =====
-- Chains of steps that may give nothing.
use mathlib.Core.Path.{◌≡◌, refl, subst}
use mathlib.Core.Bool.{Bool, true, false}
use mathlib.Core.Option.{Option, none, some}

infixl 5 ◌>>=◌ ◌>>◌
abbrev pub ◌>>=◌ {ℓ κ} : {A : Type ℓ} {B : Type κ} → Option A → (A → Option B) → Option B
none >>= f = none
some a >>= f = f a

abbrev pub ◌>>◌ {κ} : {B : Type κ} → Option (Unit {0}) → Option B → Option B
m >> k = m >>= λ _. k

-- `if not test: return None`
abbrev pub guard : Bool → Option (Unit {0})
guard true = some tt
guard false = none

-- What a successful chain went through.
pub >>=-eq-some {ℓ κ} :
    {A : Type ℓ} {B : Type κ} (m : Option A) (f : A → Option B) {b : B}
    → (m >>= f) ≡ some b
    → (a : A) × (m ≡ some a) × (f a ≡ some b)
>>=-eq-some none f h = cc
>>=-eq-some (some a) f h = (a, refl, h)

-- What there is, if there is something, has the property.
abbrev pub Holds {ℓ κ} : {A : Type ℓ} → (A → Type κ) → Option A → Type κ
Holds P none = Unit
Holds P (some a) = P a

module _ {ℓ κ} {A : Type ℓ} {B : Type κ} where
  pub Holds-bind {μ} :
      (P : B → Type μ) (m : Option A) (f : A → Option B)
      → ((a : A) → Holds P (f a))
      → Holds P (m >>= f)
  Holds-bind P none f h = tt
  Holds-bind P (some a) f h = h a

  pub Holds-bind_from {μ ν} :
      (Q : A → Type ν) (P : B → Type μ) (m : Option A) (f : A → Option B)
      → Holds Q m
      → ((a : A) → Q a → Holds P (f a))
      → Holds P (m >>= f)
  Holds-bind_from Q P none f q h = tt
  Holds-bind_from Q P (some a) f q h = h a q

pub Holds-some {ℓ κ} :
    {A : Type ℓ} (P : A → Type κ) (m : Option A) {a : A} → Holds P m → m ≡ some a → P a
Holds-some P none h e = cc
Holds-some P (some b) h e = subst P (cc) h
