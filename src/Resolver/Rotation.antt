-- ===== src/Resolver/Rotation.antt =====
-- The addresses that a transfer is given are all of the host, once around from the next one.
use karu.Base.{
  ℕ, zero, suc, ◌+◌, ◌-◌, ◌%◌, ◌<◌, ◌≡◌, refl, sym, ap, ◌∙◌, inl, inr, false, ltb, ltb→lt, ltb→le,
  List, [], ◌∷◌, ◌++◌, Bytes, codes, length, length-append, length-drop, length-take, take, drop,
  ◌==◌, if◌then◌else◌, Bool-cases, arith,
}
use mathlib.Core.Path.{ap₂}
use native.Mathlib.Nat.{mod-lt, mod-eq_of_lt, mod-eq-sub-mod}
use karu.Resolver.Entries.{address_at, write_addresses, addition}

-- The elements from a place on, and then the ones before it.
abbrev pub rotate : ℕ → List Bytes → List Bytes
rotate n addresses = drop n addresses ++ take n addresses

abbrev after_commas : List Bytes → Bytes
after_commas [] = []
after_commas (address ∷ addresses) = codes "," ++ (address ++ after_commas addresses)

abbrev pub join : List Bytes → Bytes
join [] = []
join (address ∷ addresses) = address ++ after_commas addresses

next_plus : (n i : ℕ) → n + 1 + i ≡ n + suc i
next_plus n i = omega arith

one_plus : (i : ℕ) → 1 + i ≡ suc i
one_plus i = omega arith

suc_plus : (n i : ℕ) → suc (n + i) ≡ suc n + i
suc_plus n i = omega arith

write_addresses-after_commas :
    (address : ℕ → Bytes) (rest : List Bytes) (index : ℕ)
    → 0 < index
    → ((i : ℕ) → i < length rest → address (index + i) ≡ address_at rest i)
    → write_addresses address (length rest) index ≡ after_commas rest
write_addresses-after_commas address [] index pos h = refl
write_addresses-after_commas address (x ∷ rest) index pos h =
    let not_first : (index == 0) ≡ false = ground arith in
    let here : index ≡ index + 0 = omega arith in
    rw not_first (
      ap (λ text. codes "," ++ text)
        (ap₂ (λ a b. a ++ b) (ap address here ∙ h 0 (omega arith))
          (write_addresses-after_commas address rest (index + 1) (omega arith)
            (λ i k. ap address (next_plus index i) ∙ h (suc i) (omega arith)))))

write_addresses-join :
    (address : ℕ → Bytes) (addresses : List Bytes)
    → ((i : ℕ) → i < length addresses → address i ≡ address_at addresses i)
    → write_addresses address (length addresses) 0 ≡ join addresses
write_addresses-join address [] h = refl
write_addresses-join address (x ∷ rest) h =
    ap₂ (λ a b. a ++ b) (h 0 (omega arith))
      (write_addresses-after_commas address rest 1 (omega arith)
        (λ i k. ap address (one_plus i) ∙ h (suc i) (omega arith)))

address_at-append :
    (xs ys : List Bytes) (i : ℕ)
    → address_at (xs ++ ys) i
      ≡ (if ltb i (length xs) then address_at xs i else address_at ys (i - length xs))
address_at-append [] ys i = let same : i - 0 ≡ i = omega arith in ground (arith, same)
address_at-append (x ∷ xs) ys zero = ground arith
address_at-append (x ∷ xs) ys (suc i) =
    let less : suc i - suc (length xs) ≡ i - length xs = omega arith in
    ground (arith, address_at-append xs ys i, less)

address_at-drop :
    (n : ℕ) (xs : List Bytes) (i : ℕ) → address_at (drop n xs) i ≡ address_at xs (n + i)
address_at-drop zero xs i = ap (address_at xs) (omega arith)
address_at-drop (suc n) [] i = refl
address_at-drop (suc n) (x ∷ xs) i =
    address_at-drop n xs i ∙ ap (address_at (x ∷ xs)) (suc_plus n i)

address_at-take :
    (n : ℕ) (xs : List Bytes) (i : ℕ) → i < n → address_at (take n xs) i ≡ address_at xs i
address_at-take zero xs i h = ground arith
address_at-take (suc n) [] i h = refl
address_at-take (suc n) (x ∷ xs) zero h = refl
address_at-take (suc n) (x ∷ xs) (suc i) h = address_at-take n xs i (omega arith)

-- The remainder turns around once at most.
around :
    (first i count : ℕ)
    → first < count
    → i < count
    → (first + i) % count ≡ (if ltb i (count - first) then first + i else i - (count - first))
around first i count h k = elim (Bool-cases (ltb i (count - first))) [
  | inl t ↦ let small = ltb→lt i (count - first) t in rw t (mod-eq_of_lt (omega arith))
  | inr t ↦
      let large = ltb→le i (count - first) t in
      let back : (first + i) - count ≡ i - (count - first) = omega arith in
      rw t (mod-eq-sub-mod (omega arith) ∙ ap (λ n. n % count) back ∙ mod-eq_of_lt (omega arith))
]

address_at-rotate :
    (first : ℕ) (addresses : List Bytes) (i : ℕ)
    → first < length addresses
    → i < length addresses
    → address_at addresses ((first + i) % length addresses) ≡ address_at (rotate first addresses) i
address_at-rotate first addresses i h k =
    let left = length-drop first addresses in
    elim (Bool-cases (ltb i (length addresses - first))) [
      | inl t ↦
          let place : (first + i) % length addresses ≡ first + i =
            around first i (length addresses) h k ∙ rw t refl in
          ap (address_at addresses) place
          ∙ sym (
              address_at-append (drop first addresses) (take first addresses) i
              ∙ rw (left, t) (address_at-drop first addresses i))
      | inr t ↦
          let large = ltb→le i (length addresses - first) t in
          let place : (first + i) % length addresses ≡ i - (length addresses - first) =
            around first i (length addresses) h k ∙ rw t refl in
          ap (address_at addresses) place
          ∙ sym (
              address_at-append (drop first addresses) (take first addresses) i
              ∙ rw (left, t) (address_at-take first addresses _ (omega arith)))
    ]

length-rotate :
    (first : ℕ) (addresses : List Bytes) → length (rotate first addresses) ≡ length addresses
length-rotate first addresses =
    length-append (drop first addresses) (take first addresses)
    ∙ ap₂ (λ a b. a + b) (length-drop first addresses) (length-take first addresses)
    ∙ omega arith

-- The entry of a host that has addresses lists every one of them once, from the next one on and then
-- from the start, between commas.
pub addition-rotate :
    (host port : Bytes) (addresses : List Bytes) (next : ℕ)
    → 0 < length addresses
    → addition host port addresses next
      ≡ codes "+"
        ++ (host
            ++ (codes ":"
                ++ (port ++ (codes ":" ++ join (rotate (next % length addresses) addresses)))))
unfolding addition
addition-rotate host port addresses next h =
    let first = next % length addresses in
    let inside = mod-lt next h in
    let whole = length-rotate first addresses in
    let list : write_addresses (λ index. address_at addresses ((first + index) % length addresses))
          (length addresses) 0
        ≡ join (rotate first addresses) =
      ap
        (λ n.
          write_addresses (λ index. address_at addresses ((first + index) % length addresses)) n 0)
        (sym whole)
      ∙ write_addresses-join _ (rotate first addresses)
          (λ i k. address_at-rotate first addresses i inside (omega arith)) in
    ap (λ text. codes "+" ++ (host ++ (codes ":" ++ (port ++ (codes ":" ++ text))))) list
