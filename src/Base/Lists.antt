-- ===== src/Base/Lists.antt =====
-- Lists measured and indexed by native numbers, under the library's names, and predicates on them.
use Prim.Native.Nat.{ℕ, zero, suc, ◌+◌, ◌-◌, min}
use mathlib.Core.Path.{◌≡◌, refl, ap}
use mathlib.Core.List.{List, [], ◌∷◌, ◌++◌, map}
use mathlib.Core.Option.{Option, none, some}
use mathlib.Core.Bool.{Bool, cond}
use native.Mathlib.Omega.{arith}

module _ {ℓ} {A : Type ℓ} where
  abbrev pub length : List A → ℕ
  length [] = 0
  length (x ∷ xs) = suc (length xs)

  abbrev pub take : ℕ → List A → List A
  take zero xs = []
  take (suc n) [] = []
  take (suc n) (x ∷ xs) = x ∷ take n xs

  abbrev pub drop : ℕ → List A → List A
  drop zero xs = xs
  drop (suc n) [] = []
  drop (suc n) (x ∷ xs) = drop n xs

  abbrev pub get_elem? : List A → ℕ → Option A
  get_elem? [] i = none
  get_elem? (x ∷ xs) zero = some x
  get_elem? (x ∷ xs) (suc i) = get_elem? xs i

  pub length-append : (xs ys : List A) → length (xs ++ ys) ≡ length xs + length ys
  length-append [] ys = omega arith
  length-append (x ∷ xs) ys = omega (arith, length-append xs ys)

  pub take-append-drop : (n : ℕ) (xs : List A) → take n xs ++ drop n xs ≡ xs
  take-append-drop zero xs = refl
  take-append-drop (suc n) [] = refl
  take-append-drop (suc n) (x ∷ xs) = rw (take-append-drop n xs)

  pub length-take : (n : ℕ) (xs : List A) → length (take n xs) ≡ min n (length xs)
  length-take zero xs = omega arith
  length-take (suc n) [] = omega arith
  length-take (suc n) (x ∷ xs) = omega (arith, length-take n xs)

  pub length-drop : (n : ℕ) (xs : List A) → length (drop n xs) ≡ length xs - n
  length-drop zero xs = omega arith
  length-drop (suc n) [] = omega arith
  length-drop (suc n) (x ∷ xs) = omega (arith, length-drop n xs)

  pub take-append : (xs ys : List A) → take (length xs) (xs ++ ys) ≡ xs
  take-append [] ys = refl
  take-append (x ∷ xs) ys = ap (◌∷◌ x) (take-append xs ys)

  pub drop-append : (xs ys : List A) → drop (length xs) (xs ++ ys) ≡ ys
  drop-append [] ys = refl
  drop-append (x ∷ xs) ys = drop-append xs ys

-- The elements that pass a test, in order.
abbrev pub select {ℓ} : {A : Type ℓ} → (A → Bool) → List A → List A
select p [] = []
select p (x ∷ xs) = let rest = select p xs in cond (p x) (x ∷ rest) rest

module _ {ℓ κ} {A : Type ℓ} (P : A → Type κ) where
  abbrev pub All : List A → Type κ
  All [] = Unit
  All (x ∷ xs) = P x × All xs

  pub All-append : (xs ys : List A) → All xs → All ys → All (xs ++ ys)
  All-append [] ys _ hy = hy
  All-append (x ∷ xs) ys (px, hx) hy = (px, All-append xs ys hx hy)

  pub All-append_inv : (xs ys : List A) → All (xs ++ ys) → All xs × All ys
  All-append_inv [] ys h = (tt, h)
  All-append_inv (x ∷ xs) ys (px, h) = let (hx, hy) = All-append_inv xs ys h in ((px, hx), hy)

pub All-imp {ℓ κ μ} :
    {A : Type ℓ} (P : A → Type κ) (Q : A → Type μ)
    → ((a : A) → P a → Q a)
    → (xs : List A) → All P xs
    → All Q xs
All-imp P Q f [] _ = tt
All-imp P Q f (x ∷ xs) (px, h) = (f x px, All-imp P Q f xs h)

-- Every element is related to each later one.
abbrev pub Ordered {ℓ κ} : {A : Type ℓ} → (A → A → Type κ) → List A → Type κ
Ordered R [] = Unit
Ordered R (x ∷ xs) = All (R x) xs × Ordered R xs

-- Two lists of one length, related place by place.
abbrev pub All₂ {ℓ κ} : {A : Type ℓ} {B : Type κ} → (A → B → Type 0) → List A → List B → Type 0
All₂ R [] [] = Unit
All₂ R [] (y ∷ ys) = ⊥
All₂ R (x ∷ xs) [] = ⊥
All₂ R (x ∷ xs) (y ∷ ys) = R x y × All₂ R xs ys

module _ {ℓ κ μ} {A : Type ℓ} {B : Type κ} (f : A → B) where
  pub All-map : (P : B → Type μ) (xs : List A) → All (λ x. P (f x)) xs → All P (map f xs)
  All-map P [] _ = tt
  All-map P (x ∷ xs) (px, h) = (px, All-map P xs h)

  pub All-map_inv : (P : B → Type μ) (xs : List A) → All P (map f xs) → All (λ x. P (f x)) xs
  All-map_inv P [] _ = tt
  All-map_inv P (x ∷ xs) (px, h) = (px, All-map_inv P xs h)

  pub Ordered-map :
      (R : B → B → Type μ) (xs : List A) → Ordered (λ x y. R (f x) (f y)) xs → Ordered R (map f xs)
  Ordered-map R [] _ = tt
  Ordered-map R (x ∷ xs) (hx, h) = (All-map (R (f x)) xs hx, Ordered-map R xs h)

  pub Ordered-map_inv :
      (R : B → B → Type μ) (xs : List A) → Ordered R (map f xs) → Ordered (λ x y. R (f x) (f y)) xs
  Ordered-map_inv R [] _ = tt
  Ordered-map_inv R (x ∷ xs) (hx, h) = (All-map_inv (R (f x)) xs hx, Ordered-map_inv R xs h)

pub Ordered-append_left {ℓ κ} :
    {A : Type ℓ} (R : A → A → Type κ) (xs ys : List A) → Ordered R (xs ++ ys) → Ordered R xs
Ordered-append_left R [] ys _ = tt
Ordered-append_left R (x ∷ xs) ys (hx, h) =
    ((All-append_inv (R x) xs ys hx).0, Ordered-append_left R xs ys h)

pub Ordered-imp {ℓ κ μ} :
    {A : Type ℓ} (R : A → A → Type κ) (S : A → A → Type μ)
    → ((a b : A) → R a b → S a b)
    → (xs : List A) → Ordered R xs
    → Ordered S xs
Ordered-imp R S f [] _ = tt
Ordered-imp R S f (x ∷ xs) (hx, h) = (All-imp (R x) (S x) (f x) xs hx, Ordered-imp R S f xs h)

pub All-zip {ℓ κ μ} :
    {A : Type ℓ} (P : A → Type κ) (Q : A → Type μ) (xs : List A)
    → All P xs
    → All Q xs
    → All (λ x. P x × Q x) xs
All-zip P Q [] _ _ = tt
All-zip P Q (x ∷ xs) (p, ps) (q, qs) = ((p, q), All-zip P Q xs ps qs)

pub All-drop {ℓ κ} :
    {A : Type ℓ} (P : A → Type κ) (n : ℕ) (xs : List A) → All P xs → All P (drop n xs)
All-drop P zero xs h = h
All-drop P (suc n) [] h = h
All-drop P (suc n) (x ∷ xs) (px, h) = All-drop P n xs h

pub Ordered-drop {ℓ κ} :
    {A : Type ℓ} (R : A → A → Type κ) (n : ℕ) (xs : List A) → Ordered R xs → Ordered R (drop n xs)
Ordered-drop R zero xs h = h
Ordered-drop R (suc n) [] h = h
Ordered-drop R (suc n) (x ∷ xs) (_, h) = Ordered-drop R n xs h

pub Ordered-append_cross {ℓ κ} :
    {A : Type ℓ} (R : A → A → Type κ) (xs ys : List A)
    → Ordered R (xs ++ ys)
    → All (λ x. All (R x) ys) xs
Ordered-append_cross R [] ys _ = tt
Ordered-append_cross R (x ∷ xs) ys (hx, h) =
    ((All-append_inv (R x) xs ys hx).1, Ordered-append_cross R xs ys h)

pub drop-suc {ℓ} :
    {A : Type ℓ} (n : ℕ) (xs : List A) {y : A} {ys : List A}
    → drop n xs ≡ y ∷ ys
    → drop (suc n) xs ≡ ys
drop-suc zero [] e = cc
drop-suc zero (x ∷ xs) e = cc
drop-suc (suc n) [] e = cc
drop-suc (suc n) (x ∷ xs) e = drop-suc n xs e

pub Ordered-append_right {ℓ κ} :
    {A : Type ℓ} (R : A → A → Type κ) (xs ys : List A) → Ordered R (xs ++ ys) → Ordered R ys
Ordered-append_right R [] ys h = h
Ordered-append_right R (x ∷ xs) ys (_, h) = Ordered-append_right R xs ys h

-- The sum of a function over a list.
abbrev pub total {ℓ} : {A : Type ℓ} → (A → ℕ) → List A → ℕ
total f [] = 0
total f (x ∷ xs) = f x + total f xs

pub total-append {ℓ} :
    {A : Type ℓ} (f : A → ℕ) (xs ys : List A) → total f (xs ++ ys) ≡ total f xs + total f ys
total-append f [] ys = omega arith
total-append f (x ∷ xs) ys = ground (arith, total-append f xs ys)

-- Taking an element out of the middle.
pub total-middle {ℓ} :
    {A : Type ℓ} (f : A → ℕ) (xs : List A) (y : A) (ys : List A)
    → total f (xs ++ y ∷ ys) ≡ total f (xs ++ ys) + f y
total-middle f [] y ys = omega arith
total-middle f (x ∷ xs) y ys = ground (arith, total-middle f xs y ys)

pub length-middle {ℓ} :
    {A : Type ℓ} (xs : List A) (y : A) (ys : List A)
    → length (xs ++ y ∷ ys) ≡ suc (length (xs ++ ys))
length-middle [] y ys = refl
length-middle (x ∷ xs) y ys = ground (arith, length-middle xs y ys)
