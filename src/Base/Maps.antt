-- ===== src/Base/Maps.antt =====
-- std::unordered_map as an association list: find, operator[], try_emplace and erase.
use Prim.Native.Nat.{ℕ, ◌+◌, ◌≤◌}
use mathlib.Core.Path.{◌≡◌, refl, ap, sym}
use mathlib.Core.Logic.{◌↔◌, inl, inr}
use mathlib.Core.Bool.{Bool, true, false}
use mathlib.Core.Option.{Option, none, some}
use mathlib.Core.List.{List, [], ◌∷◌}
use native.Mathlib.Omega.{arith}
use package.karu.Base.Tests.{◌==◌, ==_iff, if◌then◌else◌, Bool-cases}
use package.karu.Base.Lists.{All, All-imp, Ordered, length, select}
use package.karu.Base.Text.{Bytes, text_eq, text_eq_iff}

-- A key: operator== of its type.
pub record Key {ℓ} (K : Type ℓ) : Type ℓ where
  pub same : K → K → Bool
  pub same_iff : (a b : K) → (same a b ≡ true) ↔ (a ≡ b)

instance abbrev pub text_key : Key Bytes
text_key = record { same = text_eq; same_iff = text_eq_iff }

instance abbrev pub number_key : Key ℕ
number_key = record { same = ◌==◌; same_iff = ==_iff }

abbrev pub or_else {ℓ} : {A : Type ℓ} → Option A → Option A → Option A
or_else none later = later
or_else (some a) later = some a

same_trans {ℓ} :
    {K : Type ℓ} ⦃e : Key K⦄ (a b x : K)
    → e.same a b ≡ true
    → e.same a x ≡ false
    → e.same b x ≡ false
same_trans ⦃e⦄ a b x h n = rw (← (e.same_iff a b).0 h) n

module _ {ℓ κ} {K : Type ℓ} {V : Type κ} ⦃e : Key K⦄ where
  -- find(key), with `none` for end().
  abbrev pub find_in : List (K × V) → K → Option V
  find_in [] k = none
  find_in ((a, v) ∷ m) k = let later = find_in m k in if e.same a k then some v else later

  -- map[key] = value
  abbrev pub assign : List (K × V) → K → V → List (K × V)
  assign [] k v = (k, v) ∷ []
  assign ((a, w) ∷ m) k v =
      let later = assign m k v in if e.same a k then (k, v) ∷ m else (a, w) ∷ later

  -- try_emplace(key, value)
  abbrev pub try_emplace : List (K × V) → K → V → List (K × V)
  try_emplace [] k v = (k, v) ∷ []
  try_emplace ((a, w) ∷ m) k v =
      let later = try_emplace m k v in if e.same a k then (a, w) ∷ m else (a, w) ∷ later

  -- erase(key)
  abbrev pub erase : List (K × V) → K → List (K × V)
  erase [] k = []
  erase ((a, w) ∷ m) k = let later = erase m k in if e.same a k then later else (a, w) ∷ later

  -- A map is a function: each operation changes it at one key.
  pub find_in-assign :
      (m : List (K × V)) (k : K) (v : V) (x : K)
      → find_in (assign m k v) x ≡ (if e.same k x then some v else find_in m x)
  find_in-assign [] k v x = refl
  find_in-assign ((a, w) ∷ m) k v x =
      ground (arith, find_in-assign m k v x, e.same_iff a k, e.same_iff a x, e.same_iff k x)

  pub find_in-try_emplace :
      (m : List (K × V)) (k : K) (v : V) (x : K)
      → find_in (try_emplace m k v) x ≡ or_else (find_in m x) (if e.same k x then some v else none)
  find_in-try_emplace [] k v x = refl
  find_in-try_emplace ((a, u) ∷ m) k v x =
      ground (arith, find_in-try_emplace m k v x, e.same_iff a k, e.same_iff a x, e.same_iff k x)

  pub find_in-erase :
      (m : List (K × V)) (k x : K)
      → find_in (erase m k) x ≡ (if e.same k x then none else find_in m x)
  find_in-erase [] k x = ground arith
  find_in-erase ((a, w) ∷ m) k x =
      ground (arith, find_in-erase m k x, e.same_iff a k, e.same_iff a x, e.same_iff k x)

  pub All-assign {μ} :
      (P : K × V → Type μ) (m : List (K × V)) (k : K) (v : V)
      → P (k, v)
      → All P m
      → All P (assign m k v)
  All-assign P [] k v p h = (p, tt)
  All-assign P ((a, w) ∷ m) k v p (pa, h) = elim (Bool-cases (e.same a k)) [
    | inl t ↦ rw t (p, h)
    | inr t ↦ rw t (pa, All-assign P m k v p h)
  ]

  pub All-try_emplace {μ} :
      (P : K × V → Type μ) (m : List (K × V)) (k : K) (v : V)
      → P (k, v)
      → All P m
      → All P (try_emplace m k v)
  All-try_emplace P [] k v p h = (p, tt)
  All-try_emplace P ((a, w) ∷ m) k v p (pa, h) = elim (Bool-cases (e.same a k)) [
    | inl t ↦ rw t (pa, h)
    | inr t ↦ rw t (pa, All-try_emplace P m k v p h)
  ]

  pub All-erase {μ} : (P : K × V → Type μ) (m : List (K × V)) (k : K) → All P m → All P (erase m k)
  All-erase P [] k h = h
  All-erase P ((a, w) ∷ m) k (pa, h) = elim (Bool-cases (e.same a k)) [
    | inl t ↦ rw t (All-erase P m k h)
    | inr t ↦ rw t (pa, All-erase P m k h)
  ]

  -- What is found is in the map.
  pub All-find_in {μ} :
      (P : K × V → Type μ) (m : List (K × V)) (k : K) (v : V)
      → All P m
      → find_in m k ≡ some v
      → P (k, v)
  All-find_in P ((a, w) ∷ m) k v (pa, h) found = elim (Bool-cases (e.same a k)) [
    | inl t ↦
        let key : a ≡ k = (e.same_iff a k).0 t in
        let held : w ≡ v = ground arith in rw (← key, ← held) pa
    | inr t ↦ All-find_in P m k v h (ground arith)
  ]
  All-find_in P [] k v h found = cc

  -- No key stands twice.
  abbrev pub Keyed : List (K × V) → Type 0
  Keyed = Ordered (λ a b. e.same a.0 b.0 ≡ false)

  apart-assign :
      (x : K) (m : List (K × V)) (k : K) (v : V)
      → e.same x k ≡ false
      → All (λ b. e.same x b.0 ≡ false) m
      → All (λ b. e.same x b.0 ≡ false) (assign m k v)
  apart-assign x m k v = All-assign (λ b. e.same x b.0 ≡ false) m k v

  pub Keyed-assign : (m : List (K × V)) (k : K) (v : V) → Keyed m → Keyed (assign m k v)
  Keyed-assign [] k v h = (tt, tt)
  Keyed-assign ((a, w) ∷ m) k v (apart, h) = elim (Bool-cases (e.same a k)) [
    | inl t ↦ rw t (All-imp _ _ (λ b. same_trans a k b.0 t) m apart, h)
    | inr t ↦ rw t (apart-assign a m k v t apart, Keyed-assign m k v h)
  ]

  pub Keyed-try_emplace : (m : List (K × V)) (k : K) (v : V) → Keyed m → Keyed (try_emplace m k v)
  Keyed-try_emplace [] k v h = (tt, tt)
  Keyed-try_emplace ((a, w) ∷ m) k v (apart, h) = elim (Bool-cases (e.same a k)) [
    | inl t ↦ rw t (apart, h)
    | inr t ↦
        rw t (All-try_emplace (λ b. e.same a b.0 ≡ false) m k v t apart, Keyed-try_emplace m k v h)
  ]

  All-select {μ} :
      (P : K × V → Type μ) (p : K × V → Bool) (m : List (K × V)) → All P m → All P (select p m)
  All-select P p [] h = h
  All-select P p (x ∷ m) (px, h) = elim (Bool-cases (p x)) [
    | inl t ↦ rw t (px, All-select P p m h)
    | inr t ↦ rw t (All-select P p m h)
  ]

  pub Keyed-select : (p : K × V → Bool) (m : List (K × V)) → Keyed m → Keyed (select p m)
  Keyed-select p [] h = h
  Keyed-select p (x ∷ m) (apart, h) = elim (Bool-cases (p x)) [
    | inl t ↦ rw t (All-select _ p m apart, Keyed-select p m h)
    | inr t ↦ rw t (Keyed-select p m h)
  ]

  find_in-apart :
      (m : List (K × V)) (k : K) → All (λ b. e.same k b.0 ≡ false) m → find_in m k ≡ none
  find_in-apart [] k _ = refl
  find_in-apart ((a, w) ∷ m) k (h, hs) =
      ground (arith, find_in-apart m k hs, e.same_iff a k, e.same_iff k a)

  -- erase_if keeps or drops what is found at a key.
  pub find_in-select :
      (p : K × V → Bool) (m : List (K × V)) (k : K)
      → Keyed m
      → find_in (select p m) k
        ≡ (elim (find_in m k) [ none ↦ none | some v ↦ if p (k, v) then some v else none ])
  find_in-select p [] k _ = refl
  find_in-select p ((a, w) ∷ m) k (apart, h) = elim (Bool-cases (e.same a k)) [
    | inl t ↦
        let key : a ≡ k = (e.same_iff a k).0 t in
        let gone : find_in (select p m) k ≡ none =
          find_in-apart (select p m) k
            (All-select _ p m (All-imp _ _ (λ b. same_trans a k b.0 t) m apart)) in
        let kept : p (k, w) ≡ p (a, w) = ap (λ x. p (x, w)) (sym key) in
        elim (Bool-cases (p (a, w))) [
          | inl q ↦ rw (t, kept, q, t) refl
          | inr q ↦ rw (t, kept, q, gone) refl
        ]
    | inr t ↦ elim (Bool-cases (p (a, w))) [
      | inl q ↦ rw (q, t) (find_in-select p m k h)
      | inr q ↦ rw (q, t) (find_in-select p m k h)
    ]
  ]

  pub length-assign :
      (m : List (K × V)) (k : K) (v w : V) → find_in m k ≡ some w → length (assign m k v) ≡ length m
  length-assign [] k v w h = ground arith
  length-assign ((a, u) ∷ m) k v w h = ground (arith, length-assign m k v w)

  pub length-try_emplace :
      (m : List (K × V)) (k : K) (v : V) → length (try_emplace m k v) ≤ length m + 1
  length-try_emplace [] k v = ground arith
  length-try_emplace ((a, u) ∷ m) k v = ground (arith, length-try_emplace m k v)

  pub length-select : (p : K × V → Bool) (m : List (K × V)) → length (select p m) ≤ length m
  length-select p [] = ground arith
  length-select p (x ∷ m) = ground (arith, length-select p m)
