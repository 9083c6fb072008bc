-- ===== src/Scatter/Delivery.antt =====
-- From a request to its buffer: the planner and the scatter together.
use karu.Base.{
  ℕ, zero, suc, ◌+◌, ◌<◌, ◌≡◌, ap, subst, ◌∙◌, false, Option, some, List, [], ◌∷◌, get_elem?, All,
  All-imp, Ordered, arith,
}
use karu.Transfer.{ClientOptions, Request, Part, Transfer}
use karu.Planner.Transfers.{plan_transfers}
use karu.Planner.Validate.{IsRequest}
use karu.Planner.Slices.{part_slice}
use karu.Planner.Bounds.{IsLaidOut, plan_transfers-IsLaidOut}
use karu.Scatter.{Heap, address_of}
use karu.Scatter.Chunk.{Apart}
use karu.Scatter.Stream.{Full, stream, sum, empty_sink, stream_fills}

-- The buffer of a part holds the bytes of the object that the part stands for.
abbrev pub Delivered : (ℕ → ℕ) → Heap → Transfer → Part → Type 0
Delivered object heap t p =
    (i : ℕ) → i < p.length → heap (address_of p.buffer + i) ≡ object ((part_slice t p).offset + i)

All-get_elem? {ℓ κ} :
    {A : Type ℓ} (P : A → Type κ) (xs : List A) (n : ℕ) {x : A}
    → All P xs
    → get_elem? xs n ≡ some x
    → P x
All-get_elem? P [] n h e = cc
All-get_elem? P (y ∷ ys) zero {x} (h, _) e = let same : y ≡ x = cc in subst P same h
All-get_elem? P (y ∷ ys) (suc n) (_, h) e = All-get_elem? P ys n h e

-- When the bytes of a planned transfer have arrived, in chunks of any sizes, each of its parts has
-- exactly the bytes of the object that it stands for, if no two of its buffers overlap and the sink
-- of a transfer that is not scattered is the buffer of its part.
pub plan_transfers-Delivered :
    (malloc : ℕ → ℕ → Option ℕ) (options : ClientOptions) (rs : List Request) (n : ℕ) (t : Transfer)
    (object : ℕ → ℕ) (sink : ℕ) (heap : Heap) (sizes : List ℕ)
    → All IsRequest rs
    → get_elem? (plan_transfers malloc rs options).0.transfers n ≡ some t
    → Ordered Apart t.parts
    → (t.scattered ≡ false → All (λ p. sink ≡ address_of p.buffer) t.parts)
    → sum sizes ≡ t.length
    → let out = stream t (λ k. object (t.offset + k)) sizes (empty_sink sink heap) in
      All (Delivered object out.heap t) t.parts
plan_transfers-Delivered malloc options rs n t object sink heap sizes ws e apart direct whole =
    let laid_out = All-get_elem? IsLaidOut _ n (plan_transfers-IsLaidOut malloc options rs ws) e in
    let body = λ (k : ℕ). object (t.offset + k) in
    let out = stream t body sizes (empty_sink sink heap) in
    All-imp (Full body out.heap) (Delivered object out.heap t)
      (λ p full i h. full i h ∙ ap object (omega arith)) t.parts
      (stream_fills t body sink heap sizes
        (record { laid_out = laid_out; apart = apart; direct_sink = direct }) whole)
