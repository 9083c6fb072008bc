-- ===== src/Scatter/Stream.antt =====
-- The body of a transfer in chunks of any sizes, and what the buffers hold at its end.
use karu.Base.{
  ℕ, suc, ◌+◌, ◌-◌, ◌≤◌, ◌<◌, ◌≡◌, inl, inr, refl, sym, subst, ap, ◌∙◌, false, List, [], ◌∷◌, ◌++◌,
  append_assoc, drop, ltb, add64, All, All-imp, All-append, All-append_inv, All-zip, All-drop,
  Ordered, Ordered-append_right, Ordered-append_cross, drop-suc, arith, Bool-cases,
}
use karu.Transfer.{Part, Transfer}
use karu.Planner.Bounds.{IsLaidOut, Inside}
use karu.Scatter.{Heap, Sink, memcpy, address_of, advance, scatter, store_payload}
use karu.Scatter.Chunk.{Outside, Apart, Fits, Updated, scatter_frame, scatter-Updated}

-- The bytes of a part that have arrived are in its buffer.
abbrev pub Filled : (ℕ → ℕ) → ℕ → Heap → Part → Type 0
Filled body received heap p =
    (i : ℕ)
    → i < p.length
    → p.relative_offset + i < received
    → heap (address_of p.buffer + i) ≡ body (p.relative_offset + i)

-- The whole part has arrived.
abbrev pub Passed : ℕ → Part → Type 0
Passed received p = p.relative_offset + p.length ≤ received

-- A transfer whose buffers do not overlap, and its sink.
pub record IsReady (t : Transfer) (sink : ℕ) : Type 0 where
  pub laid_out : IsLaidOut t
  pub apart : Ordered Apart t.parts
  pub direct_sink : t.scattered ≡ false → All (λ p. sink ≡ address_of p.buffer) t.parts

-- All that has arrived is in the buffers, and the cursor has passed only parts that are complete.
pub record IsFilling (t : Transfer) (body : ℕ → ℕ) (s : Sink) : Type 0 where
  pub in_range : s.received ≤ t.length
  pub filled : All (Filled body s.received s.heap) t.parts
  pub done : List Part
  pub split : t.parts ≡ done ++ drop s.scatter_cursor t.parts
  pub passed : All (Passed s.received) done

advance_lem :
    (rest parts : List Part) (chunk_begin cursor : ℕ)
    → All Fits rest
    → drop cursor parts ≡ rest
    → (mid : List Part) × (rest ≡ mid ++ drop (advance rest chunk_begin cursor) parts)
      × All (Passed chunk_begin) mid
unfolding advance
advance_lem [] parts chunk_begin cursor _ e = ([], sym e, tt)
advance_lem (p ∷ rest) parts chunk_begin cursor (f, fs) e =
    elim (Bool-cases (ltb chunk_begin (add64 p.relative_offset p.length))) [
      | inl stays ↦ ([], rw stays (sym e), tt)
      | inr passes ↦
          let (mid, split, complete) =
            advance_lem rest parts chunk_begin (suc cursor) fs (drop-suc cursor parts e) in
          (p ∷ mid, rw passes (ap (◌∷◌ p) split), (ground arith, complete))
    ]

Updated-Filled :
    (body source : ℕ → ℕ) (received size : ℕ) (before after : Heap) (p : Part)
    → ((k : ℕ) → k < size → source k ≡ body (received + k))
    → Filled body received before p
    → Updated received (received + size) source before after p
    → Filled body (received + size) after p
Updated-Filled body source received size before after p same f u i h k =
    ground (arith, u i h, f i h, same (p.relative_offset + i - received))

Passed-Filled :
    (body : ℕ → ℕ) (received later : ℕ) (before after : Heap) (p : Part)
    → Passed received p
    → Filled body received before p
    → ((i : ℕ) → i < p.length → after (address_of p.buffer + i) ≡ before (address_of p.buffer + i))
    → Filled body later after p
Passed-Filled body received later before after p done f same i h k = same i h ∙ f i h (omega arith)

module _ (t : Transfer) (body : ℕ → ℕ) {sink : ℕ} (ready : IsReady t sink) where
  fit : All Fits t.parts
  fit =
      All-imp (Inside t.length) Fits (λ p i. omega (arith, ready.laid_out.length_fits)) t.parts
        ready.laid_out.inside

  -- The loop over the parts, once the cursor has passed the complete ones.
  scatter-Filled :
      (done live : List Part) (heap : Heap) (received size : ℕ) (source : ℕ → ℕ)
      → t.parts ≡ done ++ live
      → All (Passed received) done
      → All (Filled body received heap) (done ++ live)
      → ((k : ℕ) → k < size → source k ≡ body (received + k))
      → All
          (Filled body (received + size) (scatter live received (received + size) source heap))
          (done ++ live)
  scatter-Filled done live heap received size source split passed filled same =
      let (was, now) = All-append_inv (Filled body received heap) done live filled in
      let (_, fits) = All-append_inv Fits done live (rw split at fit) in
      let after = scatter live received (received + size) source heap in
      let order = Ordered-append_right _ done live (rw split at ready.laid_out.in_order) in
      let apart = rw split at ready.apart in
      let new =
        scatter-Updated received (received + size) source live heap fits order
          (Ordered-append_right Apart done live apart) in
      let others = Ordered-append_cross Apart done live apart in
      All-append (Filled body (received + size) after) done live
        (All-imp (λ p. (Passed received p × Filled body received heap p) × All (Apart p) live)
          (Filled body (received + size) after)
          (λ p k. Passed-Filled body received (received + size) heap after p k.0.0 k.0.1 (λ i h.
            scatter_frame received (received + size) source live heap (address_of p.buffer + i) fits
              (All-imp (Apart p) (Outside (address_of p.buffer + i)) (λ q a. omega arith) live
                k.1)))
          done
          (All-zip _ _ done (All-zip (Passed received) (Filled body received heap) done passed was)
            others))
        (All-imp
          (λ p.
            Filled body received heap p × Updated received (received + size) source heap after p)
          (Filled body (received + size) after)
          (λ p k. Updated-Filled body source received size heap after p same k.0 k.1) live
          (All-zip (Filled body received heap)
            (Updated received (received + size) source heap after) live now new))

  -- A transfer that is not scattered is copied straight to its part.
  direct-Filled :
      (heap : Heap) (received size : ℕ) (source : ℕ → ℕ)
      → t.scattered ≡ false
      → All (Filled body received heap) t.parts
      → ((k : ℕ) → k < size → source k ≡ body (received + k))
      → All (Filled body (received + size) (memcpy heap (sink + received) source size)) t.parts
  direct-Filled heap received size source direct filled same =
      let (p, one, start, whole) = ready.laid_out.direct direct in
      let at_part = (rw one at (ready.direct_sink direct)).0 in
      let was = (rw one at filled).0 in
      rw one ((λ i h k. ground (arith, was i h, same (i - received))), tt)

  -- A chunk of the body keeps the buffers filled, and counts.
  pub store_payload-IsFilling :
      (s : Sink) (source : ℕ → ℕ) (size : ℕ)
      → s.sink ≡ sink
      → IsFilling t body s
      → s.received + size ≤ t.length
      → ((k : ℕ) → k < size → source k ≡ body (s.received + k))
      → let s' = store_payload t s source size in
        IsFilling t body s' × (s'.received ≡ s.received + size) × (s'.sink ≡ sink)
  unfolding store_payload
  store_payload-IsFilling s source size e f h same =
      let wrap : add64 s.received size ≡ s.received + size =
        omega (arith, ready.laid_out.length_fits) in
      let later = λ (ps : List Part) (k : All (Passed s.received) ps).
        All-imp (Passed s.received) (Passed (s.received + size)) (λ p a. omega arith) ps k in
      let (mid, rest, complete) =
        advance_lem (drop s.scatter_cursor t.parts) t.parts s.received s.scatter_cursor
          (All-drop Fits s.scatter_cursor t.parts fit) refl in
      let live =
        drop (advance (drop s.scatter_cursor t.parts) s.received s.scatter_cursor) t.parts in
      let split = f.split ∙ ap (◌++◌ f.done) rest ∙ sym (append_assoc f.done mid live) in
      let passed = All-append (Passed s.received) f.done mid f.passed complete in
      let after = scatter live s.received (s.received + size) source s.heap in
      let filled =
        scatter-Filled (f.done ++ mid) live s.heap s.received size source split passed
          (subst (All (Filled body s.received s.heap)) split f.filled) same in
      elim (Bool-cases t.scattered) [
        | inl scattered ↦
            rw (scattered, wrap)
              (
                record {
                  in_range = h;
                  filled = subst (All (Filled body (s.received + size) after)) (sym split) filled;
                  done = f.done ++ mid;
                  split = split;
                  passed = later (f.done ++ mid) passed;
                },
                refl,
                e,
              )
        | inr direct ↦
            rw (direct, wrap)
              (
                record {
                  in_range = h;
                  filled = rw e (direct-Filled s.heap s.received size source direct f.filled same);
                  done = f.done;
                  split = f.split;
                  passed = later f.done f.passed;
                },
                refl,
                e,
              )
      ]

-- The body in chunks of the given sizes.
unfoldable pub stream : Transfer → (ℕ → ℕ) → List ℕ → Sink → Sink
stream t body [] s = s
stream t body (size ∷ sizes) s =
    stream t body sizes (store_payload t s (λ k. body (s.received + k)) size)

abbrev pub sum : List ℕ → ℕ
sum [] = 0
sum (n ∷ ns) = n + sum ns

stream-IsFilling :
    (t : Transfer) (body : ℕ → ℕ) {sink : ℕ}
    → IsReady t sink
    → (sizes : List ℕ) (s : Sink) → s.sink ≡ sink
    → IsFilling t body s
    → s.received + sum sizes ≤ t.length
    → let s' = stream t body sizes s in IsFilling t body s' × (s'.received ≡ s.received + sum sizes)
unfolding stream
stream-IsFilling t body ready [] s e f h = (f, omega arith)
stream-IsFilling t body ready (size ∷ sizes) s e f h =
    let (g, count, same) =
      store_payload-IsFilling t body ready s (λ k. body (s.received + k)) size e f (omega arith)
        (λ k _. refl) in
    let (last, total) = stream-IsFilling t body ready sizes _ same g (omega arith) in
    (last, omega arith)

-- The start of an attempt: nothing has arrived.
abbrev pub empty_sink : ℕ → Heap → Sink
empty_sink sink heap = record { sink = sink; received = 0; scatter_cursor = 0; heap = heap }

-- The buffer of a part holds all of its bytes.
abbrev pub Full : (ℕ → ℕ) → Heap → Part → Type 0
Full body heap p =
    (i : ℕ) → i < p.length → heap (address_of p.buffer + i) ≡ body (p.relative_offset + i)

-- For a transfer that is laid out, whose buffers do not overlap and whose sink is the buffer of its part
-- where it is not scattered: whatever the sizes of the chunks, when the whole body has arrived each part's
-- buffer holds the part's bytes of it.
pub stream_fills :
    (t : Transfer) (body : ℕ → ℕ) (sink : ℕ) (heap : Heap) (sizes : List ℕ)
    → IsReady t sink
    → sum sizes ≡ t.length
    → All (Full body (stream t body sizes (empty_sink sink heap)).heap) t.parts
stream_fills t body sink heap sizes ready whole =
    let start : IsFilling t body (empty_sink sink heap) = record {
      in_range = omega arith;
      filled =
          All-imp (λ p. Inside t.length p) (Filled body 0 heap) (λ p _ i _ k. absurd (omega arith))
            t.parts ready.laid_out.inside;
      done = [];
      split = refl;
      passed = tt;
    } in
    let (f, total) =
      stream-IsFilling t body ready sizes (empty_sink sink heap) refl start (omega arith) in
    let out = stream t body sizes (empty_sink sink heap) in
    All-imp (λ p. Filled body out.received out.heap p × Inside t.length p) (Full body out.heap)
      (λ p k i h. k.0 i h (omega arith)) t.parts
      (All-zip (Filled body out.received out.heap) (Inside t.length) t.parts f.filled
        ready.laid_out.inside)
