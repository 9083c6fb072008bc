-- ===== src/Base/Text.antt =====
-- std::string and std::string_view as lists of bytes, and the members of them that the code calls.
use Prim.Native.Nat.{ℕ, suc, ◌+◌}
use Prim.Native.Char.{code}
use Prim.Native.String.{String}
use mathlib.Core.Path.{◌≡◌, refl}
use mathlib.Core.Logic.{◌↔◌}
use mathlib.Core.Bool.{Bool, true, false, ◌&&◌, ◌||◌}
use mathlib.Core.Option.{Option, none, some}
use mathlib.Core.List.{List, [], ◌∷◌, ◌++◌}
use native.Mathlib.Omega.{arith}
use package.karu.Base.Tests.{◌==◌, ltb, if◌then◌else◌}
use package.karu.Base.Lists.{length, drop, All}

abbrev pub Bytes : Type 0
Bytes = List ℕ

-- The bytes of an ASCII literal.
abbrev pub codes : String → Bytes
codes String.[] = []
codes (String.◌∷◌ c s) = code c ∷ codes s

-- operator== on texts.
abbrev pub text_eq : Bytes → Bytes → Bool
text_eq [] [] = true
text_eq [] (y ∷ ys) = false
text_eq (x ∷ xs) [] = false
text_eq (x ∷ xs) (y ∷ ys) = x == y && text_eq xs ys

-- operator< on texts: the lexicographic order of their bytes.
abbrev pub text_less : Bytes → Bytes → Bool
text_less xs [] = false
text_less [] (y ∷ ys) = true
text_less (x ∷ xs) (y ∷ ys) =
    let rest = text_less xs ys in if ltb x y then true else if ltb y x then false else rest

abbrev pub is_empty : Bytes → Bool
is_empty [] = true
is_empty (x ∷ xs) = false

abbrev pub starts_with : Bytes → Bytes → Bool
starts_with xs [] = true
starts_with [] (p ∷ ps) = false
starts_with (x ∷ xs) (p ∷ ps) = x == p && starts_with xs ps

-- find(c), with `none` for npos.
abbrev pub find : Bytes → ℕ → Option ℕ
find [] c = none
find (x ∷ xs) c =
    let later : Option ℕ = elim (find xs c) [ none ↦ none | some i ↦ some (suc i) ] in
    if x == c then some 0 else later

-- rfind(c), with `none` for npos.
abbrev pub find_last : Bytes → ℕ → Option ℕ
find_last [] c = none
find_last (x ∷ xs) c = elim (find_last xs c) [
  | none ↦ if x == c then some 0 else none
  | some i ↦ some (suc i)
]

abbrev pub contains : Bytes → ℕ → Bool
contains [] c = false
contains (x ∷ xs) c = x == c || contains xs c

-- find_first_of(set), with `none` for npos.
abbrev pub find_any : Bytes → Bytes → Option ℕ
find_any [] set = none
find_any (x ∷ xs) set =
    let later : Option ℕ = elim (find_any xs set) [ none ↦ none | some i ↦ some (suc i) ] in
    if contains set x then some 0 else later

-- find(text), with `none` for npos.
abbrev pub find_text : Bytes → Bytes → Option ℕ
find_text [] text = if is_empty text then some 0 else none
find_text (x ∷ xs) text =
    let later : Option ℕ = elim (find_text xs text) [ none ↦ none | some i ↦ some (suc i) ] in
    if starts_with (x ∷ xs) text then some 0 else later

-- A search from position `pos` on.
abbrev pub find_from : (Bytes → Option ℕ) → ℕ → Bytes → Option ℕ
find_from search_for pos xs = elim (search_for (drop pos xs)) [
  | none ↦ none
  | some i ↦ some (pos + i)
]

pub text_eq_sound : (xs ys : Bytes) → text_eq xs ys ≡ true → xs ≡ ys
text_eq_sound [] [] h = refl
text_eq_sound [] (y ∷ ys) h = ground arith
text_eq_sound (x ∷ xs) [] h = ground arith
text_eq_sound (x ∷ xs) (y ∷ ys) h = ground (arith, text_eq_sound xs ys)

pub text_eq_refl : (xs : Bytes) → text_eq xs xs ≡ true
text_eq_refl [] = refl
text_eq_refl (x ∷ xs) = ground (arith, text_eq_refl xs)

pub text_eq_iff : (xs ys : Bytes) → (text_eq xs ys ≡ true) ↔ (xs ≡ ys)
text_eq_iff xs ys = (text_eq_sound xs ys, λ e. rw e (text_eq_refl ys))

-- What stands behind a prefix.
pub starts_with-drop : (xs ps : Bytes) → starts_with xs ps ≡ true → xs ≡ ps ++ drop (length ps) xs
starts_with-drop xs [] h = refl
starts_with-drop [] (p ∷ ps) h = ground arith
starts_with-drop (x ∷ xs) (p ∷ ps) h = ground (arith, starts_with-drop xs ps)

pub starts_with-append : (ps xs : Bytes) → starts_with (ps ++ xs) ps ≡ true
starts_with-append [] xs = refl
starts_with-append (p ∷ ps) xs = ground (arith, starts_with-append ps xs)

-- The first place of a character that a text before it does not have.
pub find-skip :
    (c : ℕ) (xs ys : Bytes)
    → All (λ x. (x == c) ≡ false) xs
    → find (xs ++ (c ∷ ys)) c ≡ some (length xs)
find-skip c [] ys h = ground arith
find-skip c (x ∷ xs) ys (e, es) = ground (arith, find-skip c xs ys es)

-- What stands behind a character that stands behind a text.
pub drop-behind : (c : ℕ) (xs ys : Bytes) → drop (length xs + 1) (xs ++ (c ∷ ys)) ≡ ys
drop-behind c [] ys = refl
drop-behind c (x ∷ xs) ys = ground (arith, drop-behind c xs ys)
