-- ===== src/Batch/Copies.antt =====
-- What `deliver` of runtime/engine.cpp writes: the bytes that a read into scratch space got.
use karu.Base.{
  ℕ, ◌+◌, ◌≤◌, ◌<◌, ◌≡◌, refl, ◌∙◌, true, ◌&&◌, some, List, [], ◌∷◌, ltb, u64_max, All, All-imp,
  Ordered, arith, Bool-cases, inl, inr,
}
use karu.Transfer.{ok, Part}
use karu.Scatter.{Heap, address_of}
use karu.Scatter.Chunk.{Outside, Apart}
use karu.Batch.{Batch, push}
use karu.Batch.Deliver.{
  Ended, is_ok, completion_of, completion_of-got, copy_out, deliver_parts, deliver,
}

-- The end of a part does not overflow.
abbrev pub Ends : Part → Type 0
Ends p = p.relative_offset + p.length ≤ u64_max

-- The bytes of a part that came are in its buffer.
abbrev pub Copied : Ended → (ℕ → ℕ) → Heap → Part → Type 0
Copied e bytes heap p =
    (i : ℕ)
    → i < (completion_of e p).got
    → heap (address_of p.buffer + i) ≡ bytes (p.relative_offset + i)

module _ (e : Ended) (bytes : ℕ → ℕ) (read : e.scratch ≡ some bytes) (fine : e.status ≡ ok)
    (received_fits : e.received ≤ u64_max) where
  copy_out_frame :
      (p : Part) (heap : Heap) (x : ℕ) → Ends p → Outside x p → copy_out e p heap x ≡ heap x
  unfolding copy_out
  copy_out_frame p heap x f o =
      let (got, _) = completion_of-got e p fine f received_fits in
      elim (Bool-cases (is_ok e.status && ltb 0 (completion_of e p).got)) [
        | inl t ↦ rw (read, t, copy_out) (ground (arith, got))
        | inr t ↦ rw (read, t, copy_out) refl
      ]

  copy_out-Copied : (p : Part) (heap : Heap) → Ends p → Copied e bytes (copy_out e p heap) p
  unfolding copy_out
  copy_out-Copied p heap f i h =
      let some_came : (is_ok e.status && ltb 0 (completion_of e p).got) ≡ true =
        rw fine (ground arith) in
      rw (read, some_came, copy_out) (ground arith)

  deliver_parts_frame :
      (ps : List Part) (b : Batch) (heap : Heap) (x : ℕ)
      → All Ends ps
      → All (Outside x) ps
      → (deliver_parts e ps (b, heap)).1 x ≡ heap x
  unfolding deliver_parts
  deliver_parts_frame [] b heap x _ _ = refl
  deliver_parts_frame (p ∷ ps) b heap x (f, fs) (o, os) =
      deliver_parts_frame ps (push (completion_of e p) b) (copy_out e p heap) x fs os
      ∙ copy_out_frame p heap x f o

  deliver_parts-Copied :
      (ps : List Part) (b : Batch) (heap : Heap)
      → All Ends ps
      → Ordered Apart ps
      → All (Copied e bytes (deliver_parts e ps (b, heap)).1) ps
  unfolding deliver_parts
  deliver_parts-Copied [] b heap _ _ = tt
  deliver_parts-Copied (p ∷ ps) b heap (f, fs) (a, apart) =
      let b' = push (completion_of e p) b in
      let heap' = copy_out e p heap in
      let (got, _) = completion_of-got e p fine f received_fits in
      (
        λ i h.
            deliver_parts_frame ps b' heap' (address_of p.buffer + i) fs (
              All-imp (Apart p) (Outside (address_of p.buffer + i)) (λ q k. ground (arith, got)) ps
                a)
            ∙ copy_out-Copied p heap f i h,
        deliver_parts-Copied ps b' heap' fs apart,
      )

  -- When a transfer that was read into scratch space ends well, and no end of a part overflows and no
  -- two buffers overlap, every part has in its buffer the bytes of the scratch space that it got.
  pub deliver-Copied :
      (b : Batch) (heap : Heap)
      → All Ends e.transfer.parts
      → Ordered Apart e.transfer.parts
      → All (Copied e bytes (deliver e (b, heap)).1) e.transfer.parts
  unfolding deliver
  deliver-Copied b heap fs apart = deliver_parts-Copied e.transfer.parts b heap fs apart
