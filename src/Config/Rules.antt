-- ===== src/Config/Rules.antt =====
-- The rule of a path that ConfigSnapshot finds in src/config.cpp: the one with the longest prefix.
use karu.Base.{
  ◌≤◌, ◌≡◌, refl, sym, ap, ◌∙◌, ◌⊎◌, inl, inr, true, false, ◌&&◌, Option, none, some, List, [], ◌∷◌,
  ◌++◌, Bytes, text_eq, text_eq_refl, subst, starts_with-drop, take-append, length, take, drop, All,
  Ordered, text_key, Bool-cases, Option-cases, &&-true, arith,
}
use karu.Config.Names.{path_prefix_matches}
use karu.Config.Builder.{PathOptions}
use karu.Config.Snapshot.{better, applies, best_rule}

-- The rule stands in the list.
abbrev pub Among : PathOptions → List PathOptions → Type 0
Among rule [] = ⊥
Among rule (x ∷ xs) = (x ≡ rule) ⊎ Among rule xs

-- No rule of the path that holds the name has a longer prefix.
abbrev pub Longest : Bytes → Bytes → PathOptions → List PathOptions → Type 0
Longest path name rule =
    All (λ other. applies path name other ≡ true → length other.prefix ≤ length rule.prefix)

abbrev pub Unruled : Bytes → Bytes → List PathOptions → Type 0
Unruled path name = All (λ rule. applies path name rule ≡ false)

-- Every rule has a prefix of its own.
abbrev pub Distinct : List PathOptions → Type 0
Distinct = Ordered (λ a b. text_eq a.prefix b.prefix ≡ false)

-- What the loop is at: the best rule so far.
pub record Best (path name : Bytes) (rules : List PathOptions) (seen best : Option PathOptions)
    : Type 0 where
  pub absent : best ≡ none → (seen ≡ none) × Unruled path name rules
  pub present :
      (rule : PathOptions)
      → best ≡ some rule
      → ((seen ≡ some rule) ⊎ (Among rule rules × (applies path name rule ≡ true)))
        × Longest path name rule rules
        × ((old : PathOptions) → seen ≡ some old → length old.prefix ≤ length rule.prefix)

module _ (path name : Bytes) (x : PathOptions) (rules : List PathOptions) where
  Best-keep :
      (seen best : Option PathOptions)
      → (applies path name x && better seen x) ≡ false
      → Best path name rules seen best
      → Best path name (x ∷ rules) seen best
  Best-keep seen best t h = record {
    absent = λ e. let (n, u) = h.absent e in (n, (ground arith, u));
    present = λ rule e.
        let (from, longest, old) = h.present rule e in
        (
          elim from [ inl same ↦ inl same | inr (among, holds) ↦ inr (inr among, holds) ],
          (
            λ holds. elim (Option-cases seen) [
              | inl n ↦ ground arith
              | inr (b, n) ↦ ground (arith, old b n)
            ],
            longest,
          ),
          old,
        );
  }

  Best-take :
      (seen best : Option PathOptions)
      → (applies path name x && better seen x) ≡ true
      → Best path name rules (some x) best
      → Best path name (x ∷ rules) seen best
  Best-take seen best t h =
      let taken : (rule : PathOptions)
          → some x ≡ some rule
          → (seen ≡ some rule)
            ⊎ (((x ≡ rule) ⊎ Among rule rules) × (applies path name rule ≡ true)) =
        λ rule same. let e : x ≡ rule = cc in inr (inl e, rw (← e) (&&-true _ _ t).0) in
      record {
        absent = λ e. cc (h.absent e).0;
        present = λ rule e.
            let (from, longest, old) = h.present rule e in
            (
              elim from [
                | inl same ↦ taken rule same
                | inr (among, holds) ↦ inr (inr among, holds)
              ],
              (λ holds. old x refl, longest),
              λ b n. ground (arith, old x refl),
            );
      }

pub best_rule-Best :
    (path name : Bytes) (rules : List PathOptions) (seen : Option PathOptions)
    → Best path name rules seen (best_rule path name rules seen)
best_rule-Best path name [] seen = record {
  absent = λ e. (e, tt);
  present = λ rule e. (inl e, tt, λ old o. ground arith);
}
best_rule-Best path name (x ∷ rules) seen =
    elim (Bool-cases (applies path name x && better seen x)) [
      | inl t ↦
          rw t (Best-take path name x rules seen _ t (best_rule-Best path name rules (some x)))
      | inr t ↦ rw t (Best-keep path name x rules seen _ t (best_rule-Best path name rules seen))
    ]

-- The rules of a path that are equally long are one rule.
pub same_prefix :
    (path p q : Bytes)
    → path_prefix_matches path p ≡ true
    → path_prefix_matches path q ≡ true
    → length p ≡ length q
    → p ≡ q
unfolding path_prefix_matches
same_prefix path p q hp hq e =
    let sp : path ≡ p ++ drop (length p) path = starts_with-drop path p (ground arith) in
    let sq : path ≡ q ++ drop (length q) path = starts_with-drop path q (ground arith) in
    sym (take-append p (drop (length p) path))
    ∙ ap (take (length p)) (sym sp)
    ∙ ap (λ n. take n path) e
    ∙ ap (take (length q)) sq
    ∙ take-append q (drop (length q) path)

pub All-Among :
    (P : PathOptions → Type 0) (rules : List PathOptions) (a : PathOptions)
    → All P rules
    → Among a rules
    → P a
All-Among P [] a _ i = elim i [ ]
All-Among P (x ∷ rules) a (px, h) (inl e) = subst P e px
All-Among P (x ∷ rules) a (px, h) (inr i) = All-Among P rules a h i

pub same_rule :
    (rules : List PathOptions) (a b : PathOptions)
    → Distinct rules
    → Among a rules
    → Among b rules
    → a.prefix ≡ b.prefix
    → a ≡ b
same_rule [] a b _ ia ib e = elim ia [ ]
same_rule (x ∷ rules) a b (hx, h) (inl xa) (inl xb) e = sym xa ∙ xb
same_rule (x ∷ rules) a b (hx, h) (inl xa) (inr ib) e =
    let other = All-Among _ rules b hx ib in ground (arith, text_eq_refl b.prefix)
same_rule (x ∷ rules) a b (hx, h) (inr ia) (inl xb) e =
    let other = All-Among _ rules a hx ia in ground (arith, text_eq_refl b.prefix)
same_rule (x ∷ rules) a b (hx, h) (inr ia) (inr ib) e = same_rule rules a b h ia ib e

pub best_rule-Unruled :
    (path name : Bytes) (rules : List PathOptions)
    → Unruled path name rules
    → best_rule path name rules none ≡ none
best_rule-Unruled path name [] _ = refl
best_rule-Unruled path name (x ∷ rules) (hx, h) = rw hx (best_rule-Unruled path name rules h)

-- The longest rule is found, since no other one is as long.
pub best_rule-Longest :
    (path name : Bytes) (rules : List PathOptions) (rule : PathOptions)
    → Distinct rules
    → Among rule rules
    → applies path name rule ≡ true
    → Longest path name rule rules
    → best_rule path name rules none ≡ some rule
best_rule-Longest path name rules rule d among holds longest =
    let best = best_rule-Best path name rules none in
    elim (Option-cases (best_rule path name rules none)) [
      | inl e ↦ let none_applies = All-Among _ rules rule (best.absent e).1 among in ground arith
      | inr (other, e) ↦
          let (from, longest', _) = best.present other e in
          elim from [
            | inl absent ↦ cc absent
            | inr (among', holds') ↦
                let short : length rule.prefix ≤ length other.prefix =
                  All-Among _ rules rule longest' among holds in
                let long : length other.prefix ≤ length rule.prefix =
                  All-Among _ rules other longest among' holds' in
                let prefixes : other.prefix ≡ rule.prefix =
                  same_prefix path other.prefix rule.prefix (&&-true _ _ holds').0
                    (&&-true _ _ holds).0 (omega arith) in
                e ∙ ap some (same_rule rules other rule d among' among prefixes)
          ]
    ]
