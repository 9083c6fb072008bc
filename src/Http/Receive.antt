-- ===== src/Http/Receive.antt =====
-- From the first byte of a response to the buffers: `write_callback` over a body that arrives in chunks
-- of any sizes.
use karu.Base.{
  ℕ, ◌+◌, ◌-◌, ◌<◌, ◌≤◌, ◌≡◌, ◌⊎◌, refl, sym, ◌∙◌, ap, subst, Bool, true, false, Option, List, [],
  ◌∷◌, min, ◌==◌, if◌then◌else◌, value, unexpected, Bool-cases, Expected-cases, inl, inr, arith,
  All, All-imp, All-zip,
}
use karu.Transfer.{Transfer}
use karu.Scatter.{Sink}
use karu.Scatter.Stream.{IsReady, IsFilling, Filled}
use karu.Http.{Response}
use karu.Http.Write.{write_callback, check_status}
use karu.Http.Body.{IsReading, lead}
use karu.Http.Accept.{
  IsFresh, body_base, write_callback-IsReading, restart-IsFilling, check_status-refused,
  check_status-kept, check_status-satisfied, accepts_part, accepts_whole,
}
use karu.Planner.Bounds.{Inside}
use karu.Scatter.Stream.{sum, Full}

-- The callbacks for a body from its position `pos` on, in chunks of the given sizes, until one of them
-- aborts, and whether none did.
unfoldable pub receive : ℕ → Option ℕ → (ℕ → ℕ) → List ℕ → ℕ → Response → Response × Bool
receive status body_length body [] pos r = (r, true)
receive status body_length body (size ∷ sizes) pos r =
    let (r', accepted) = write_callback status body_length (λ i. body (pos + i)) size r in
    let later = receive status body_length body sizes (pos + size) r' in
    if accepted == size then later else (r', false)

module _ (t : Transfer) (object body : ℕ → ℕ) (sink status : ℕ) (body_length : Option ℕ) where
  -- What holds after the callbacks, with the body's positions up to `pos` if none aborted.
  pub record IsReceived (base pos : ℕ) (out : Response × Bool) : Type 0 where
    pub filling : IsFilling t (λ k. object (t.offset + k)) out.0.sink
    pub full : out.0.satisfied ≡ true → out.0.sink.received ≡ t.length
    pub kept : out.0.resumed ≤ out.0.sink.received
    pub received_is :
        out.1 ≡ true
        → out.0.sink.received ≡ min t.length (out.0.resumed + (pos - lead t base out.0.resumed))

  receive-IsReceived :
      (base pos : ℕ) (sizes : List ℕ) (r : Response)
      → IsReady t sink
      → ((k : ℕ) → body k ≡ object (base + k))
      → IsReading t object base sink pos r
      → IsReceived base (pos + sum sizes) (receive status body_length body sizes pos r)
  unfolding receive
  receive-IsReceived base pos [] r ready serves k = record {
    filling = k.filling;
    full = k.full;
    kept = omega (arith, k.received_is, k.resumed_fits);
    received_is = λ _. ground (arith, k.received_is);
  }
  receive-IsReceived base pos (size ∷ sizes) r ready serves k =
      let next = write_callback status body_length (λ i. body (pos + i)) size r in
      let read : IsReading t object base sink (pos + size) next.0 =
        subst
          (λ t.
            IsReady t sink
            → IsReading t object base sink pos r
            → IsReading t object base sink (pos + size) next.0)
          k.transfer_is
          (λ ready k.
            write_callback-IsReading status body_length object base sink pos size
              (λ i. body (pos + i)) r ready (λ i _. serves (pos + i)) k)
          ready k in
      let later = receive-IsReceived base (pos + size) sizes next.0 ready serves read in
      elim (Bool-cases (next.1 == size)) [
        | inl e ↦
            let out : receive status body_length body sizes (pos + size) next.0
                ≡ receive status body_length body (size ∷ sizes) pos r =
              rw (e, receive) refl in
            subst (IsReceived base (pos + (size + sum sizes))) out (
              subst
                (λ n. IsReceived base n (receive status body_length body sizes (pos + size) next.0))
                (omega arith) later)
        | inr e ↦
            let out : (next.0, false) ≡ receive status body_length body (size ∷ sizes) pos r =
              rw (e, receive) refl in
            subst (IsReceived base (pos + (size + sum sizes))) out (record {
              filling = read.filling;
              full = read.full;
              kept = omega (arith, read.received_is, read.resumed_fits);
              received_is = λ h. ground arith;
            })
      ]

  refused-IsReceived :
      (base pos : ℕ) (r c : Response)
      → IsFresh t object sink r
      → check_status status body_length r ≡ unexpected c
      → IsReceived base pos (c, false)
  refused-IsReceived base pos r c k h =
      let body = λ (k : ℕ). object (t.offset + k) in
      let (sink_is, open_is) = check_status-refused status body_length r c h in
      record {
        filling = elim sink_is [
          | inl e ↦ subst (IsFilling t body) (sym e) k.filling
          | inr e ↦
              subst (IsFilling t body) (sym e)
                (restart-IsFilling t body r.sink k.filling k.at_first_part)
        ];
        full = λ e. ground (arith, k.unsatisfied);
        kept = check_status-kept status body_length r c h (omega (arith, k.kept));
        received_is = λ e. ground arith;
      }

  accepts :
      (r c : Response)
      → IsReady t sink
      → (status ≡ 200) ⊎ (status ≡ 206)
      → IsFresh t object sink r
      → check_status status body_length r ≡ value c
      → IsReading t object (body_base status r) sink 0 c
  accepts r c ready (inl s) k h =
      subst
        (λ n. check_status n body_length r ≡ value c → IsReading t object (body_base n r) sink 0 c)
        (sym s) (accepts_whole t object sink body_length r c ready k) h
  accepts r c ready (inr s) k h =
      subst
        (λ n. check_status n body_length r ≡ value c → IsReading t object (body_base n r) sink 0 c)
        (sym s) (accepts_part t object sink body_length r c ready k) h

  -- All the bytes of the parts, once the whole range is there.
  filled-Full :
      (s : Sink)
      → IsReady t sink
      → IsFilling t (λ k. object (t.offset + k)) s
      → s.received ≡ t.length
      → All (Full (λ k. object (t.offset + k)) s.heap) t.parts
  filled-Full s ready f e =
      let bytes = λ (k : ℕ). object (t.offset + k) in
      All-imp (λ p. Filled bytes s.received s.heap p × Inside t.length p) (Full bytes s.heap)
        (λ p k i h. k.0 i h (omega arith)) t.parts
        (All-zip (Filled bytes s.received s.heap) (Inside t.length) t.parts f.filled
          ready.laid_out.inside)

  -- The rest of `receive` after its first call.
  continue : ℕ → List ℕ → Response × ℕ → Response × Bool
  continue size sizes (r, accepted) =
      let later = receive status body_length body sizes (0 + size) r in
      if accepted == size then later else (r, false)

  pub start-IsReceived :
      (size : ℕ) (sizes : List ℕ) (r : Response)
      → IsReady t sink
      → (status ≡ 200) ⊎ (status ≡ 206)
      → IsFresh t object sink r
      → 0 < size
      → ((k : ℕ) → body k ≡ object (body_base status r + k))
      → IsReceived
          (body_base status r)
          (size + sum sizes)
          (receive status body_length body (size ∷ sizes) 0 r)
  unfolding receive write_callback continue
  start-IsReceived size sizes r ready range fresh nonempty serves =
      let all = receive status body_length body (size ∷ sizes) 0 r in
      elim (Expected-cases (check_status status body_length r)) [
        | inr (c, e) ↦
            let refused : write_callback status body_length (λ i. body (0 + i)) size r ≡ (c, 0) =
              ground (arith, fresh.unsatisfied, fresh.unchecked) in
            let stops : (0 == size) ≡ false = ground arith in
            let out : receive status body_length body (size ∷ sizes) 0 r ≡ (c, false) =
              rw (receive, refused, stops) refl in
            subst (IsReceived (body_base status r) (size + sum sizes)) (sym out)
              (refused-IsReceived (body_base status r) (size + sum sizes) r c fresh e)
        | inl (c, e) ↦
            let k = accepts r c ready range fresh e in
            let going : c.satisfied ≡ false =
              check_status-satisfied status body_length r c e ∙ fresh.unsatisfied in
            let same : write_callback status body_length (λ i. body (0 + i)) size c
                ≡ write_callback status body_length (λ i. body (0 + i)) size r =
              ground (arith, fresh.unsatisfied, fresh.unchecked, k.checked) in
            let out : receive status body_length body (size ∷ sizes) 0 c ≡ all =
              ap (continue size sizes) same in
            subst (IsReceived (body_base status r) (size + sum sizes)) out (
              subst
                (λ n.
                  IsReceived (body_base status r) n
                    (receive status body_length body (size ∷ sizes) 0 c))
                (omega arith)
                (receive-IsReceived (body_base status r) 0 (size ∷ sizes) c ready serves k))
      ]

-- The response is full (200) or a part (206), and its body is the object from the byte on at which
-- such a body begins; the transfer is laid out and its buffers do not overlap; what was kept of an
-- interrupted attempt is in them, and is not all. Then, whatever the sizes of the chunks, of which the
-- first is not empty: what has been received is in the buffers at its place, a satisfied transfer has
-- every byte of every part, and if no callback aborts, all that the body has of the range is received.
pub receive_fills :
    (t : Transfer) (object body : ℕ → ℕ) (sink status : ℕ) (body_length : Option ℕ) (size : ℕ)
    (sizes : List ℕ) (r : Response)
    → IsReady t sink
    → (status ≡ 200) ⊎ (status ≡ 206)
    → IsFresh t object sink r
    → 0 < size
    → ((k : ℕ) → body k ≡ object (body_base status r + k))
    → let out = receive status body_length body (size ∷ sizes) 0 r in
      let bytes = λ (k : ℕ). object (t.offset + k) in
      All (Filled bytes out.0.sink.received out.0.sink.heap) t.parts
      × ((out.0.satisfied ≡ true → All (Full bytes out.0.sink.heap) t.parts)
          × (out.1 ≡ true
              → out.0.sink.received
                ≡ min t.length (
                    out.0.resumed
                    + (size + sum sizes - lead t (body_base status r) out.0.resumed))))
receive_fills t object body sink status body_length size sizes r ready range fresh nonempty serves =
    let all = receive status body_length body (size ∷ sizes) 0 r in
    let k =
      start-IsReceived t object body sink status body_length size sizes r ready range fresh nonempty
        serves in
    (
      k.filling.filled,
      (
        λ done.
            filled-Full t object body sink status body_length all.0.sink ready k.filling
              (k.full done),
        k.received_is,
      ),
    )
