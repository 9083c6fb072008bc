-- ===== src/Scatter/Chunk.antt =====
-- One chunk: which bytes of memory it changes, and to what.
use karu.Base.{
  ℕ, ◌+◌, ◌-◌, ◌≤◌, ◌<◌, ◌≡◌, ◌⊎◌, inl, inr, refl, sym, subst, ◌∙◌, max, min, ◌&&◌, List, [], ◌∷◌,
  leb, ltb, add64, if◌then◌else◌, All, All-imp, All-zip, Ordered, arith, Bool-cases, u64_max,
}
use karu.Transfer.{Part}
use karu.Scatter.{Heap, address_of, scatter_part, scatter}

-- An address outside the buffer of a part.
abbrev pub Outside : ℕ → Part → Type 0
Outside x p = (x < address_of p.buffer) ⊎ (address_of p.buffer + p.length ≤ x)

-- Two buffers that share no byte.
abbrev pub Apart : Part → Part → Type 0
Apart p q =
    (address_of p.buffer + p.length ≤ address_of q.buffer)
    ⊎ (address_of q.buffer + q.length ≤ address_of p.buffer)

abbrev pub Fits : Part → Type 0
Fits p = p.relative_offset + p.length ≤ u64_max

-- The bytes of a part in the chunk come from the chunk, and the others are as they were.
abbrev pub Updated : ℕ → ℕ → (ℕ → ℕ) → Heap → Heap → Part → Type 0
Updated chunk_begin chunk_end source before after p =
    (i : ℕ)
    → i < p.length
    → after (address_of p.buffer + i) ≡ (
        if leb chunk_begin (p.relative_offset + i) && ltb (p.relative_offset + i) chunk_end
        then source (p.relative_offset + i - chunk_begin)
        else before (address_of p.buffer + i))

module _ (chunk_begin chunk_end : ℕ) (source : ℕ → ℕ) where
  scatter_part_frame :
      (p : Part) (heap : Heap) (x : ℕ)
      → Fits p
      → Outside x p
      → scatter_part p chunk_begin chunk_end source heap x ≡ heap x
  unfolding scatter_part
  scatter_part_frame p heap x f o =
      elim (Bool-cases (
        leb (min chunk_end (add64 p.relative_offset p.length))
          (max chunk_begin p.relative_offset))) [ inl e ↦ rw e refl | inr e ↦ rw e (ground arith) ]

  scatter_part-Updated :
      (p : Part) (heap : Heap)
      → Fits p
      → Updated chunk_begin chunk_end source heap
          (scatter_part p chunk_begin chunk_end source heap)
          p
  unfolding scatter_part
  scatter_part-Updated p heap f i h =
      elim (Bool-cases (
        leb (min chunk_end (add64 p.relative_offset p.length))
          (max chunk_begin p.relative_offset))) [
            | inl e ↦ rw e (ground arith)
            | inr e ↦ rw e (ground arith)
          ]

  pub scatter_frame :
      (ps : List Part) (heap : Heap) (x : ℕ)
      → All Fits ps
      → All (Outside x) ps
      → scatter ps chunk_begin chunk_end source heap x ≡ heap x
  unfolding scatter
  scatter_frame [] heap x _ _ = refl
  scatter_frame (p ∷ ps) heap x (f, fs) (o, os) =
      elim (Bool-cases (leb chunk_end p.relative_offset)) [
        | inl e ↦ rw e refl
        | inr e ↦ rw e (
            scatter_frame ps (scatter_part p chunk_begin chunk_end source heap) x fs os
            ∙ scatter_part_frame p heap x f o)
      ]

  untouched :
      (ps : List Part) (heap : Heap)
      → All (λ q. chunk_end ≤ q.relative_offset) ps
      → All (Updated chunk_begin chunk_end source heap heap) ps
  untouched ps heap =
      All-imp (λ q. chunk_end ≤ q.relative_offset) (Updated chunk_begin chunk_end source heap heap)
        (λ q le i h. ground arith) ps

  -- What is true of the parts behind `p` once its bytes are copied holds of the memory before.
  behind-Updated :
      (p : Part) (heap after : Heap) (q : Part)
      → Fits p
      → Apart p q
      → Updated chunk_begin chunk_end source
          (scatter_part p chunk_begin chunk_end source heap)
          after
          q
      → Updated chunk_begin chunk_end source heap after q
  behind-Updated p heap after q f k u i h =
      rw (← scatter_part_frame p heap (address_of q.buffer + i) f (omega arith)) (u i h)

  -- Every part is updated, where the parts are in order and their buffers are apart.
  pub scatter-Updated :
      (ps : List Part) (heap : Heap)
      → All Fits ps
      → Ordered (λ p q. p.relative_offset ≤ q.relative_offset) ps
      → Ordered Apart ps
      → All
          (Updated chunk_begin chunk_end source heap (scatter ps chunk_begin chunk_end source heap))
          ps
  unfolding scatter
  scatter-Updated [] heap _ _ _ = tt
  scatter-Updated (p ∷ ps) heap (f, fs) (o, os) (a, apart) =
      let out = scatter (p ∷ ps) chunk_begin chunk_end source heap in
      let copied = scatter_part p chunk_begin chunk_end source heap in
      elim (Bool-cases (leb chunk_end p.relative_offset)) [
        | inl e ↦
            let stopped : out ≡ heap = rw e refl in
            subst (λ after. All (Updated chunk_begin chunk_end source heap after) (p ∷ ps))
              (sym stopped)
              (
                λ i h. ground arith,
                untouched ps heap (
                    All-imp (λ q. p.relative_offset ≤ q.relative_offset)
                      (λ q. chunk_end ≤ q.relative_offset) (λ q le. ground arith) ps o),
              )
        | inr e ↦
            let went : out ≡ scatter ps chunk_begin chunk_end source copied = rw e refl in
            subst (λ after. All (Updated chunk_begin chunk_end source heap after) (p ∷ ps))
              (sym went)
              (
                λ i h.
                    scatter_frame ps copied (address_of p.buffer + i) fs (beside i h)
                    ∙ scatter_part-Updated p heap f i h,
                All-imp
                    (λ q.
                      Apart p q
                      × Updated chunk_begin chunk_end source copied
                          (scatter ps chunk_begin chunk_end source copied) q)
                    (Updated chunk_begin chunk_end source heap
                      (scatter ps chunk_begin chunk_end source copied))
                    (λ q both.
                      behind-Updated p heap (scatter ps chunk_begin chunk_end source copied) q f
                        both.0 both.1)
                    ps
                    (All-zip (Apart p)
                      (Updated chunk_begin chunk_end source copied
                        (scatter ps chunk_begin chunk_end source copied))
                      ps a (scatter-Updated ps copied fs os apart)),
              )
      ]
    where
      beside : (i : ℕ) → i < p.length → All (Outside (address_of p.buffer + i)) ps
      beside i h = All-imp (Apart p) (Outside (address_of p.buffer + i)) (λ q k. omega arith) ps a
