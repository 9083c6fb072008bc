-- ===== src/Http/Body.antt =====
-- What `write_callback` has written after any number of calls: exactly the bytes of the range, at
-- their places.
use karu.Base.{
  ℕ, ◌+◌, ◌-◌, ◌≤◌, ◌<◌, ◌≡◌, refl, sym, ◌∙◌, ap, subst, Bool, true, false, min, ltb, ◌==◌, sub64,
  Bool-cases, inl, inr, arith,
}
use karu.Transfer.{Transfer}
use karu.Scatter.{store_payload}
use karu.Scatter.Stream.{IsReady, IsFilling, store_payload-IsFilling}
use karu.Http.{Response, is_success}
use karu.Http.Write.{satisfy, store_body}

-- How many bytes of a body that begins at byte `base` of the object stand before the range.
abbrev pub lead : Transfer → ℕ → ℕ → ℕ
lead t base resumed = t.offset + resumed - base

-- A body that begins at byte `base` has been read up to its position `pos`: the part of the range
-- that it holds so far is in the buffers, and nothing is skipped that belongs to the range.
pub record IsReading (t : Transfer) (object : ℕ → ℕ) (base sink pos : ℕ) (r : Response)
    : Type 0 where
  pub transfer_is : r.transfer ≡ t
  pub checked : r.checked_status ≡ true
  pub succeeds : is_success r.http_status ≡ true
  pub sink_is : r.sink.sink ≡ sink
  pub filling : IsFilling t (λ k. object (t.offset + k)) r.sink
  pub resumed_fits : r.resumed ≤ t.length
  pub base_fits : base ≤ t.offset + r.resumed
  pub skip_is : r.satisfied ≡ false → r.skip ≡ lead t base r.resumed - pos
  pub received_is : r.sink.received ≡ min t.length (r.resumed + (pos - lead t base r.resumed))
  pub full : r.satisfied ≡ true → r.sink.received ≡ t.length

module _ (t : Transfer) (object : ℕ → ℕ) (base sink pos : ℕ) where
  satisfy-IsReading :
      (incoming : ℕ) (took_all : Bool) (r : Response)
      → r.satisfied ≡ false
      → IsReading t object base sink pos r
      → IsReading t object base sink pos (satisfy incoming took_all r).0
  unfolding satisfy
  satisfy-IsReading incoming took_all r going k =
      let done : Response = record r { satisfied = true } in
      let stop : (r.sink.received == r.transfer.length) ≡ true
          → (satisfy incoming took_all r).0 ≡ done =
        λ e. ground arith in
      elim (Bool-cases (r.sink.received == r.transfer.length)) [
        | inr e ↦ subst (IsReading t object base sink pos) (ground arith) k
        | inl e ↦ subst (IsReading t object base sink pos) (sym (stop e)) (record {
          transfer_is = k.transfer_is;
          checked = k.checked;
          succeeds = k.succeeds;
          sink_is = k.sink_is;
          filling = k.filling;
          resumed_fits = k.resumed_fits;
          base_fits = k.base_fits;
          skip_is = λ h. ground arith;
          received_is = k.received_is;
          full = λ h. ground (arith, ap (λ t. t.length) k.transfer_is);
        })
      ]

-- The bytes of a chunk that belong to the range are stored where they belong.
pub store_body-IsReading :
    (object : ℕ → ℕ) (base sink pos incoming : ℕ) (source : ℕ → ℕ) (r : Response)
    → IsReady r.transfer sink
    → r.satisfied ≡ false
    → ((i : ℕ) → i < incoming → source i ≡ object (base + (pos + i)))
    → IsReading r.transfer object base sink pos r
    → IsReading r.transfer object base sink (pos + incoming) (store_body source incoming r).0
unfolding store_body
store_body-IsReading object base sink pos incoming source r ready going serves k =
    let t = r.transfer in
    let dropped = min r.skip incoming in
    let remaining = incoming - dropped in
    let taken = min (sub64 t.length r.sink.received) remaining in
    let skipped : Response = record r { skip = r.skip - dropped } in
    let skip_is = k.skip_is going in
    let stored = store_payload t r.sink (λ i. source (dropped + i)) taken in
    let full : Response = record skipped { sink = stored } in
    let room : sub64 t.length r.sink.received ≡ t.length - r.sink.received =
      omega (arith, k.filling.in_range, ready.laid_out.length_fits) in
    elim (Bool-cases (remaining == 0)) [
      | inl e ↦
          let out : (store_body source incoming r).0 ≡ skipped = ground arith in
          subst (IsReading t object base sink (pos + incoming)) (sym out) (record {
            transfer_is = refl;
            checked = k.checked;
            succeeds = k.succeeds;
            sink_is = k.sink_is;
            filling = k.filling;
            resumed_fits = k.resumed_fits;
            base_fits = k.base_fits;
            skip_is = λ h. ground arith;
            received_is = ground arith;
            full = k.full;
          })
      | inr e ↦ elim (Bool-cases (ltb 0 taken)) [
        | inr n ↦
            let out : (store_body source incoming r).0
                ≡ (satisfy incoming (taken == remaining) skipped).0 =
              ground arith in
            subst (IsReading t object base sink (pos + incoming)) (sym out) (
              satisfy-IsReading t object base sink (pos + incoming) incoming (taken == remaining)
                skipped going
                (record {
                  transfer_is = refl;
                  checked = k.checked;
                  succeeds = k.succeeds;
                  sink_is = k.sink_is;
                  filling = k.filling;
                  resumed_fits = k.resumed_fits;
                  base_fits = k.base_fits;
                  skip_is = λ h. ground arith;
                  received_is = ground arith;
                  full = k.full;
                }))
        | inl n ↦
            let (filling, count, same) =
              store_payload-IsFilling t (λ k. object (t.offset + k)) ready r.sink
                (λ i. source (dropped + i)) taken k.sink_is k.filling (ground arith)
                (λ j h. serves (dropped + j) (omega arith) ∙ ap object (ground arith)) in
            let out : (store_body source incoming r).0
                ≡ (satisfy incoming (taken == remaining) full).0 =
              ground arith in
            subst (IsReading t object base sink (pos + incoming)) (sym out) (
              satisfy-IsReading t object base sink (pos + incoming) incoming (taken == remaining)
                full going
                (record {
                  transfer_is = refl;
                  checked = k.checked;
                  succeeds = k.succeeds;
                  sink_is = same;
                  filling = filling;
                  resumed_fits = k.resumed_fits;
                  base_fits = k.base_fits;
                  skip_is = λ h. ground arith;
                  received_is = ground arith;
                  full = λ h. ground arith;
                }))
      ]
    ]
