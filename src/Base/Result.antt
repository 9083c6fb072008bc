-- ===== src/Base/Result.antt =====
-- std::expected<T, E>, with the early return on an error as `◌>>=◌`.
use mathlib.Core.Path.{◌≡◌, refl, subst}
use mathlib.Core.Logic.{◌⊎◌, inl, inr}

pub data Expected {ℓ κ} (E : Type ℓ) (A : Type κ) : Type (ℓ ⊔ κ) where
  value : A → Expected E A
  unexpected : E → Expected E A

infixl 5 ◌>>=◌
abbrev pub ◌>>=◌ {ℓ κ μ} :
    {E : Type ℓ} {A : Type κ} {B : Type μ} → Expected E A → (A → Expected E B) → Expected E B
value a >>= f = f a
unexpected e >>= f = unexpected e

pub >>=-eq-value {ℓ κ μ} :
    {E : Type ℓ} {A : Type κ} {B : Type μ} (m : Expected E A) (f : A → Expected E B) {b : B}
    → (m >>= f) ≡ value b
    → (a : A) × (m ≡ value a) × (f a ≡ value b)
>>=-eq-value (value a) f h = (a, refl, h)
>>=-eq-value (unexpected e) f h = cc

pub Expected-cases {ℓ κ} :
    {E : Type ℓ} {A : Type κ} (m : Expected E A)
    → ((a : A) × (m ≡ value a)) ⊎ ((e : E) × (m ≡ unexpected e))
Expected-cases (value a) = inl (a, refl)
Expected-cases (unexpected e) = inr (e, refl)

-- What every value of a result has.
pub data After {ℓ κ μ} {E : Type ℓ} {A : Type κ} (P : A → Type μ)
    : Expected E A → Type (ℓ ⊔ κ ⊔ μ) where
  on_value : (a : A) → P a → After P (value a)
  on_error : (e : E) → After P (unexpected e)

pub After-value {ℓ κ μ} :
    {E : Type ℓ} {A : Type κ} (P : A → Type μ) (m : Expected E A) (a : A)
    → After P m
    → m ≡ value a
    → P a
After-value P (value x) a (on_value _ p) e = let same : x ≡ a = cc in subst P same p
After-value P (unexpected x) a _ e = cc

pub After-intro {ℓ κ μ} :
    {E : Type ℓ} {A : Type κ} (P : A → Type μ) (m : Expected E A)
    → ((a : A) → m ≡ value a → P a)
    → After P m
After-intro P (value a) h = on_value a (h a refl)
After-intro P (unexpected e) h = on_error e

pub After->>= {ℓ κ μ ν ρ} :
    {E : Type ℓ} {A : Type κ} {B : Type μ} {P : A → Type ν} {Q : B → Type ρ} {m : Expected E A}
    (f : A → Expected E B)
    → After P m
    → ((a : A) → P a → After Q (f a))
    → After Q (m >>= f)
After->>= f (on_value a p) h = h a p
After->>= f (on_error e) h = on_error e
