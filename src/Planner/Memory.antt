-- ===== src/Planner/Memory.antt =====
-- `allocate_part` over the parts of a transfer.
use karu.Base.{
  ℕ, ◌≤◌, ◌≡◌, ◌≢◌, refl, true, Option, none, some, List, [], ◌∷◌, map, length, All, All₂, arith,
  u64_max, Option-cases, inl, inr,
}
use karu.Transfer.{Part, Transfer}
use karu.Planner.Transfers.{allocate_part, allocate_parts}
use karu.Planner.Slices.{part_slice}

-- The same part with a buffer: the caller's, or one that the library owns.
pub record Backs (p q : Part) : Type 0 where
  pub relative_offset : q.relative_offset ≡ p.relative_offset
  pub length : q.length ≡ p.length
  pub tag : q.tag ≡ p.tag
  pub address : ℕ
  pub backed : q.buffer ≡ some address
  pub kept : p.buffer ≢ none → q ≡ p

module _ (malloc : ℕ → ℕ → Option ℕ) where
  allocate_part-Backs :
      (calls : ℕ) (p q : Part) (calls' : ℕ)
      → allocate_part malloc calls p ≡ some (q, calls')
      → Backs p q
  unfolding allocate_part
  allocate_part-Backs calls p q calls' h = elim (Option-cases p.buffer) [
    | inr (a, e) ↦
        let same : q ≡ p = ground arith in
        rw same (record {
          relative_offset = refl;
          length = refl;
          tag = refl;
          address = a;
          backed = e;
          kept = λ _. refl;
        })
    | inl e ↦ elim (Option-cases (malloc calls p.length)) [
      | inl m ↦ absurd (ground arith)
      | inr (a, m) ↦
          let owned : q ≡ record p { buffer = some a; owned = true } = ground arith in
          rw owned (record {
            relative_offset = refl;
            length = refl;
            tag = refl;
            address = a;
            backed = refl;
            kept = λ n. absurd (n e);
          })
    ]
  ]

  pub allocate_parts-Backs :
      (calls : ℕ) (ps qs : List Part) (calls' : ℕ)
      → allocate_parts malloc calls ps ≡ some (qs, calls')
      → All₂ Backs ps qs
  unfolding allocate_parts
  allocate_parts-Backs calls [] [] calls' h = tt
  allocate_parts-Backs calls [] (q ∷ qs) calls' h = cc
  allocate_parts-Backs calls (p ∷ ps) [] calls' h = absurd (ground arith)
  allocate_parts-Backs calls (p ∷ ps) (q ∷ qs) calls' h =
      elim (Option-cases (allocate_part malloc calls p)) [
        | inl e ↦ absurd (ground arith)
        | inr ((q', n), e) ↦ elim (Option-cases (allocate_parts malloc n ps)) [
          | inl f ↦ absurd (ground arith)
          | inr ((qs', m), f) ↦ (
            allocate_part-Backs calls p q n (ground arith),
            allocate_parts-Backs n ps qs m (ground arith),
          )
        ]
      ]

  -- An allocator that never fails.
  abbrev pub NeverFails : Type 0
  NeverFails = (calls size : ℕ) → (address : ℕ) × (malloc calls size ≡ some address)

module _ (malloc : ℕ → ℕ → Option ℕ) (never : NeverFails malloc) where
  allocate_part-total :
      (calls : ℕ) (p : Part)
      → p.length ≤ u64_max
      → (r : Part × ℕ) × (allocate_part malloc calls p ≡ some r)
  unfolding allocate_part
  allocate_part-total calls p h = elim (Option-cases (allocate_part malloc calls p)) [
    | inl e ↦ absurd (ground (arith, (never calls p.length).1))
    | inr r ↦ r
  ]

  pub allocate_parts-total :
      (calls : ℕ) (ps : List Part)
      → All (λ p. p.length ≤ u64_max) ps
      → (r : List Part × ℕ) × (allocate_parts malloc calls ps ≡ some r)
  unfolding allocate_parts
  allocate_parts-total calls [] _ = (([], calls), refl)
  allocate_parts-total calls (p ∷ ps) (h, hs) =
      let (r, e) = allocate_part-total calls p h in
      let (q, f) = allocate_parts-total r.1 ps hs in ((r.0 ∷ q.0, q.1), ground arith)

pub Backs-slices :
    (t : Transfer) (ps qs : List Part)
    → All₂ Backs ps qs
    → map (part_slice t) qs ≡ map (part_slice t) ps
Backs-slices t [] [] _ = refl
Backs-slices t [] (q ∷ qs) h = absurd h
Backs-slices t (p ∷ ps) [] h = absurd h
Backs-slices t (p ∷ ps) (q ∷ qs) (b, bs) = ground (arith, Backs-slices t ps qs bs)

pub Backs-length : (ps qs : List Part) → All₂ Backs ps qs → length qs ≡ length ps
Backs-length [] [] _ = refl
Backs-length [] (q ∷ qs) h = absurd h
Backs-length (p ∷ ps) [] h = absurd h
Backs-length (p ∷ ps) (q ∷ qs) (b, bs) = omega (arith, Backs-length ps qs bs)
