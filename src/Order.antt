-- ===== src/Order.antt =====
-- Strict weak orders as Boolean tests, the lexicographic product that std::tie compares by, and
-- std::stable_sort.
use mathlib.Core.List.Perm
use karu.Base.{
  ◌≡◌, refl, Bool, true, false, List, [], ◌∷◌, Perm, Bytes, ltb, text_less, arith, if◌then◌else◌,
  Bool-cases, inl, inr, All, All-imp, Ordered,
}

pub record IsStrictWeak {ℓ} {A : Type ℓ} (less : A → A → Bool) : Type ℓ where
  pub asym : (a b : A) → less a b ≡ true → less b a ≡ false
  pub neg_trans : (a b c : A) → less a b ≡ false → less b c ≡ false → less a c ≡ false

-- The comparison of pairs: the first components decide, the second break ties.
abbrev pub lex {ℓ} : {A : Type ℓ} → (A → A → Bool) → (A → A → Bool) → A → A → Bool
lex first second a b = if first a b then true else if first b a then false else second a b

lex-asym {ℓ} :
    {A : Type ℓ} (f s : A → A → Bool)
    → IsStrictWeak f
    → IsStrictWeak s
    → (a b : A) → lex f s a b ≡ true
    → lex f s b a ≡ false
lex-asym f s p q a b h = ground (arith, p.asym a b, p.asym b a, q.asym a b)

lex-neg_trans {ℓ} :
    {A : Type ℓ} (f s : A → A → Bool)
    → IsStrictWeak f
    → IsStrictWeak s
    → (a b c : A) → lex f s a b ≡ false
    → lex f s b c ≡ false
    → lex f s a c ≡ false
lex-neg_trans f s p q a b c h k = ground (
  arith,
  p.asym a b,
  p.asym b a,
  p.asym b c,
  p.asym c b,
  p.asym a c,
  p.neg_trans a b c,
  p.neg_trans b a c,
  p.neg_trans a c b,
  p.neg_trans c b a,
  p.neg_trans c a b,
  p.neg_trans b c a,
  q.neg_trans a b c,
)

pub lex-IsStrictWeak {ℓ} :
    {A : Type ℓ} (f s : A → A → Bool) → IsStrictWeak f → IsStrictWeak s → IsStrictWeak (lex f s)
lex-IsStrictWeak f s p q = record { asym = lex-asym f s p q; neg_trans = lex-neg_trans f s p q }

pub by-IsStrictWeak {ℓ κ} :
    {A : Type ℓ} {B : Type κ} (key : A → B) (less : B → B → Bool)
    → IsStrictWeak less
    → IsStrictWeak (λ a b. less (key a) (key b))
by-IsStrictWeak key less p = record {
  asym = λ a b. p.asym (key a) (key b);
  neg_trans = λ a b c. p.neg_trans (key a) (key b) (key c);
}

pub ltb-IsStrictWeak : IsStrictWeak ltb
ltb-IsStrictWeak = record { asym = λ a b h. ground arith; neg_trans = λ a b c h k. ground arith }

text_less-asym : (a b : Bytes) → text_less a b ≡ true → text_less b a ≡ false
text_less-asym [] [] h = refl
text_less-asym [] (y ∷ b) h = refl
text_less-asym (x ∷ a) [] h = ground arith
text_less-asym (x ∷ a) (y ∷ b) h = ground (arith, text_less-asym a b)

text_less-neg_trans :
    (a b c : Bytes) → text_less a b ≡ false → text_less b c ≡ false → text_less a c ≡ false
text_less-neg_trans a b [] h k = refl
text_less-neg_trans a [] (z ∷ c) h k = ground arith
text_less-neg_trans [] (y ∷ b) (z ∷ c) h k = ground arith
text_less-neg_trans (x ∷ a) (y ∷ b) (z ∷ c) h k = ground (arith, text_less-neg_trans a b c)

pub text_less-IsStrictWeak : IsStrictWeak text_less
text_less-IsStrictWeak = record { asym = text_less-asym; neg_trans = text_less-neg_trans }

module _ {ℓ} {A : Type ℓ} (less : A → A → Bool) where
  -- An element goes before the first one that is not less than it.
  insert_stable : A → List A → List A
  insert_stable x [] = x ∷ []
  insert_stable x (y ∷ ys) = if less y x then y ∷ insert_stable x ys else x ∷ y ∷ ys

  unfoldable pub stable_sort : List A → List A
  unfolding insert_stable
  stable_sort [] = []
  stable_sort (x ∷ xs) = insert_stable x (stable_sort xs)

module _ {ℓ} {A : Type ℓ} (less : A → A → Bool) where
  insert_stable-perm : (x : A) (ys : List A) → Perm (insert_stable less x ys) (x ∷ ys)
  unfolding insert_stable
  insert_stable-perm x [] = Perm.rfl
  insert_stable-perm x (y ∷ ys) = elim (Bool-cases (less y x)) [
    | inl e ↦ rw e (Perm.trans (Perm.cons y (insert_stable-perm x ys)) (Perm.swap x y ys))
    | inr e ↦ rw e Perm.rfl
  ]

  pub stable_sort-perm : (xs : List A) → Perm (stable_sort less xs) xs
  unfolding stable_sort
  stable_sort-perm [] = Perm.rfl
  stable_sort-perm (x ∷ xs) =
      Perm.trans (insert_stable-perm x (stable_sort less xs)) (Perm.cons x (stable_sort-perm xs))

  -- `b` may stand behind `a`.
  abbrev pub NotLess : A → A → Type 0
  NotLess a b = less b a ≡ false

  All-insert_stable {κ} :
      (P : A → Type κ) (x : A) (ys : List A) → P x → All P ys → All P (insert_stable less x ys)
  unfolding insert_stable
  All-insert_stable P x [] px _ = (px, tt)
  All-insert_stable P x (y ∷ ys) px (py, hs) = elim (Bool-cases (less y x)) [
    | inl e ↦ rw e (py, All-insert_stable P x ys px hs)
    | inr e ↦ rw e (px, (py, hs))
  ]

  pub All-stable_sort {κ} : (P : A → Type κ) (xs : List A) → All P xs → All P (stable_sort less xs)
  unfolding stable_sort
  All-stable_sort P [] _ = tt
  All-stable_sort P (x ∷ xs) (px, hs) =
      All-insert_stable P x (stable_sort less xs) px (All-stable_sort P xs hs)

module _ {ℓ} {A : Type ℓ} (less : A → A → Bool) (order : IsStrictWeak less) where
  insert_stable-Ordered :
      (x : A) (ys : List A)
      → Ordered (NotLess less) ys
      → Ordered (NotLess less) (insert_stable less x ys)
  unfolding insert_stable
  insert_stable-Ordered x [] _ = (tt, tt)
  insert_stable-Ordered x (y ∷ ys) (below, rest) = elim (Bool-cases (less y x)) [
    | inl e ↦ rw e (
      All-insert_stable less (NotLess less y) x ys (order.asym y x e) below,
      insert_stable-Ordered x ys rest,
    )
    | inr e ↦
        let behind =
          All-imp (NotLess less y) (NotLess less x) (λ z h. order.neg_trans z y x h e) ys below in
        rw e ((e, behind), (below, rest))
  ]

  pub stable_sort-Ordered : (xs : List A) → Ordered (NotLess less) (stable_sort less xs)
  unfolding stable_sort
  stable_sort-Ordered [] = tt
  stable_sort-Ordered (x ∷ xs) =
      insert_stable-Ordered x (stable_sort less xs) (stable_sort-Ordered xs)
