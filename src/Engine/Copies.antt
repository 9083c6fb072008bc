-- ===== src/Engine/Copies.antt =====
-- What `deliver` of src/runtime/engine.cpp leaves in the buffers behind a local read.
use karu.Base.{
  ℕ, ◌+◌, ◌≤◌, ◌<◌, ◌≡◌, refl, sym, ◌∙◌, ap, subst, false, none, some, List, [], ◌∷◌, u64_max,
  arith, All, All-imp, Ordered, All-zip,
}
use karu.Transfer.{Transfer, Part, ok}
use karu.Scatter.{Heap, address_of}
use karu.Scatter.Chunk.{Apart}
use karu.Planner.Bounds.{IsLaidOut, Inside}
use karu.Batch.{Batch, push}
use karu.Batch.Deliver.{Ended, completion_of, completion_of-got, deliver, deliver_parts, copy_out}
use karu.Batch.Copies.{Ends, Copied, deliver-Copied}
use karu.Engine.Files.{front_buffer}

-- Every part that is reported has in its buffer the bytes of the file that it got.
abbrev pub Delivered : (ℕ → ℕ) → Transfer → Ended → Heap → Type 0
Delivered content t e heap =
    All
      (λ (p : Part).
        (i : ℕ)
        → i < (completion_of e p).got
        → heap (address_of p.buffer + i) ≡ content (t.offset + (p.relative_offset + i)))
      t.parts

deliver_parts-direct :
    (e : Ended) (parts : List Part) (b : Batch) (heap : Heap)
    → e.scratch ≡ none
    → (deliver_parts e parts (b, heap)).1 ≡ heap
unfolding deliver_parts copy_out
deliver_parts-direct e [] b heap direct = refl
deliver_parts-direct e (p ∷ parts) b heap direct =
    let one : copy_out e p heap ≡ heap = ground arith in
    deliver_parts-direct e parts (push (completion_of e p) b) (copy_out e p heap) direct ∙ one

module _ (t : Transfer) (content : ℕ → ℕ) (laid_out : IsLaidOut t)
    (apart : Ordered Apart t.parts) where
  -- A part has no more bytes than were received behind its place.
  got_arrived :
      (e : Ended) (p : Part)
      → e.status ≡ ok
      → e.received ≤ u64_max
      → Inside t.length p
      → (i : ℕ) → i < (completion_of e p).got
      → p.relative_offset + i < e.received
  got_arrived e p fine fits inside i h =
      omega (arith, (completion_of-got e p fine (omega (arith, laid_out.length_fits)) fits).0)

  pub scratch-Delivered :
      (e : Ended) (sink : ℕ) (heap : Heap) (b : Batch)
      → e.transfer ≡ t
      → e.scratch ≡ some (λ i. heap (sink + i))
      → e.status ≡ ok
      → e.received ≤ u64_max
      → ((i : ℕ) → i < e.received → heap (sink + i) ≡ content (t.offset + i))
      → Delivered content t e (deliver e (b, heap)).1
  scratch-Delivered e sink heap b same space fine fits held =
      let bytes = λ (i : ℕ). heap (sink + i) in
      let after = (deliver e (b, heap)).1 in
      let no_overflow : All Ends t.parts =
        All-imp (λ (p : Part). Inside t.length p) Ends
          (λ p inside. omega (arith, laid_out.length_fits)) t.parts laid_out.inside in
      let copied : All (Copied e bytes after) t.parts =
        subst (λ (u : Transfer). All (Copied e bytes after) u.parts) same
          (deliver-Copied e bytes space fine fits b heap
            (subst (λ (u : Transfer). All Ends u.parts) (sym same) no_overflow)
            (subst (λ (u : Transfer). Ordered Apart u.parts) (sym same) apart)) in
      All-imp (λ (p : Part). Inside t.length p × Copied e bytes after p)
        (λ p.
          (i : ℕ)
          → i < (completion_of e p).got
          → after (address_of p.buffer + i) ≡ content (t.offset + (p.relative_offset + i)))
        (λ p (inside, c) i h.
          c i h ∙ held (p.relative_offset + i) (got_arrived e p fine fits inside i h))
        t.parts
        (All-zip (λ (p : Part). Inside t.length p) (Copied e bytes after) t.parts laid_out.inside
          copied)

  pub direct-Delivered :
      (e : Ended) (heap : Heap) (b : Batch)
      → e.transfer ≡ t
      → e.scratch ≡ none
      → t.scattered ≡ false
      → e.status ≡ ok
      → e.received ≤ u64_max
      → ((i : ℕ) → i < e.received → heap (front_buffer t.parts + i) ≡ content (t.offset + i))
      → Delivered content t e (deliver e (b, heap)).1
  unfolding deliver
  direct-Delivered e heap b same space direct fine fits held =
      let (p, only, zero_is, whole) = laid_out.direct direct in
      let after : (deliver e (b, heap)).1 ≡ heap =
        deliver_parts-direct e e.transfer.parts b heap space in
      let inside : Inside t.length p = (omega (arith, laid_out.not_empty), omega arith) in
      let place : front_buffer t.parts ≡ address_of p.buffer = ap front_buffer only in
      let read : (i : ℕ)
          → i < (completion_of e p).got
          → heap (address_of p.buffer + i) ≡ content (t.offset + (p.relative_offset + i)) =
        λ i h.
          subst (λ a. heap (a + i) ≡ content (t.offset + i)) place
            (held i (omega (arith, got_arrived e p fine fits inside i h)))
          ∙ ap content (omega arith) in
      subst (λ (h : Heap). Delivered content t e h) (sym after)
        (subst
          (λ parts.
            All
              (λ (q : Part).
                (i : ℕ)
                → i < (completion_of e q).got
                → heap (address_of q.buffer + i) ≡ content (t.offset + (q.relative_offset + i)))
              parts)
          (sym only) (read, tt))
