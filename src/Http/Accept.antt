-- ===== src/Http/Accept.antt =====
-- The first data of a response: what `check_status` accepts begins where it should, and what it
-- refuses leaves the buffers alone. Each further call of `write_callback` keeps what was read.
use karu.Base.{
  ℕ, ◌+◌, ◌<◌, ◌≤◌, ◌≡◌, ◌⊎◌, refl, sym, ap, subst, true, false, Option, [], drop, ◌==◌,
  if◌then◌else◌, add64, value, unexpected, Bool-cases, inl, inr, arith, All-imp,
}
use karu.Transfer.{Transfer, Part}
use karu.Scatter.{Sink}
use karu.Scatter.Stream.{IsReady, IsFilling, Filled}
use karu.Http.{Response, valid_content_range}
use karu.Http.Write.{
  store_body, write_checked, count_received, write_callback, check_status, restart, skip_prefix,
  plan_body,
}
use karu.Http.Body.{IsReading, store_body-IsReading}

-- A response before its body: what was kept of an interrupted one is in the buffers.
pub record IsFresh (t : Transfer) (object : ℕ → ℕ) (sink : ℕ) (r : Response) : Type 0 where
  pub transfer_is : r.transfer ≡ t
  pub unchecked : r.checked_status ≡ false
  pub unsatisfied : r.satisfied ≡ false
  pub kept : r.sink.received ≡ r.resumed
  pub at_first_part : r.sink.scatter_cursor ≡ 0
  pub no_skip : r.skip ≡ 0
  pub sink_is : r.sink.sink ≡ sink
  pub filling : IsFilling t (λ k. object (t.offset + k)) r.sink
  pub incomplete : r.resumed < t.length

-- The byte of the object at which a body begins: a full body has all of it, and a part says where.
abbrev pub body_base : ℕ → Response → ℕ
body_base status r = if status == 200 then 0 else r.content_range_start

pub write_checked-IsReading :
    (object : ℕ → ℕ) (base sink pos incoming : ℕ) (source : ℕ → ℕ) (r : Response)
    → IsReady r.transfer sink
    → r.satisfied ≡ false
    → ((i : ℕ) → i < incoming → source i ≡ object (base + (pos + i)))
    → IsReading r.transfer object base sink pos r
    → IsReading r.transfer object base sink (pos + incoming) (write_checked source incoming r).0
unfolding write_checked count_received
write_checked-IsReading object base sink pos incoming source r ready going serves k =
    let counted = count_received incoming r in
    let out : (write_checked source incoming r).0 ≡ (store_body source incoming counted).0 =
      ground (arith, k.succeeds) in
    let k' : IsReading r.transfer object base sink pos counted = record {
      transfer_is = refl;
      checked = k.checked;
      succeeds = k.succeeds;
      sink_is = k.sink_is;
      filling = k.filling;
      resumed_fits = k.resumed_fits;
      base_fits = k.base_fits;
      skip_is = k.skip_is;
      received_is = k.received_is;
      full = k.full;
    } in
    subst (IsReading r.transfer object base sink (pos + incoming)) (sym out)
      (store_body-IsReading object base sink pos incoming source counted ready going serves k')

-- A call on an accepted response keeps what was read.
pub write_callback-IsReading :
    (status : ℕ) (body_length : Option ℕ) (object : ℕ → ℕ) (base sink pos incoming : ℕ)
    (source : ℕ → ℕ) (r : Response)
    → IsReady r.transfer sink
    → ((i : ℕ) → i < incoming → source i ≡ object (base + (pos + i)))
    → IsReading r.transfer object base sink pos r
    → IsReading r.transfer object base sink
        (pos + incoming)
        (write_callback status body_length source incoming r).0
unfolding write_callback count_received
write_callback-IsReading status body_length object base sink pos incoming source r ready serves k =
    elim (Bool-cases r.satisfied) [
      | inl e ↦
          let out : (write_callback status body_length source incoming r).0
              ≡ count_received incoming r =
            ground arith in
          subst (IsReading r.transfer object base sink (pos + incoming)) (sym out) (record {
            transfer_is = refl;
            checked = k.checked;
            succeeds = k.succeeds;
            sink_is = k.sink_is;
            filling = k.filling;
            resumed_fits = k.resumed_fits;
            base_fits = k.base_fits;
            skip_is = λ h. ground arith;
            received_is = ground (arith, k.full e, k.received_is);
            full = k.full;
          })
      | inr e ↦
          let out : (write_callback status body_length source incoming r).0
              ≡ (write_checked source incoming r).0 =
            ground (arith, k.checked) in
          subst (IsReading r.transfer object base sink (pos + incoming)) (sym out)
            (write_checked-IsReading object base sink pos incoming source r ready e serves k)
    ]

-- A full body that does not serve a range of an interrupted read is read from its start.
pub restart-IsFilling :
    (t : Transfer) (body : ℕ → ℕ) (s : Sink)
    → IsFilling t body s
    → s.scatter_cursor ≡ 0
    → IsFilling t body (record s { received = 0 })
restart-IsFilling t body s f c = record {
  in_range = omega arith;
  filled =
      All-imp (λ (p : Part). Filled body s.received s.heap p) (Filled body 0 s.heap)
        (λ p _ i _ h. absurd (omega arith)) t.parts f.filled;
  done = [];
  split = ap (λ n. drop n t.parts) (sym c);
  passed = tt;
}

-- A response that is refused leaves the buffers alone.
pub check_status-refused :
    (status : ℕ) (body_length : Option ℕ) (r c : Response)
    → check_status status body_length r ≡ unexpected c
    → ((c.sink ≡ r.sink) ⊎ (c.sink ≡ record r.sink { received = 0 })) × (c.satisfied ≡ r.satisfied)
unfolding check_status restart skip_prefix plan_body
check_status-refused status body_length r c h = (ground arith, ground arith)

pub check_status-kept :
    (status : ℕ) (body_length : Option ℕ) (r c : Response)
    → check_status status body_length r ≡ unexpected c
    → r.resumed ≤ r.sink.received
    → c.resumed ≤ c.sink.received
unfolding check_status restart skip_prefix plan_body
check_status-kept status body_length r c h k = ground arith

-- A part that is accepted begins at the byte that was asked for.
pub accepts_part :
    (t : Transfer) (object : ℕ → ℕ) (sink : ℕ) (body_length : Option ℕ) (r c : Response)
    → IsReady t sink
    → IsFresh t object sink r
    → check_status 206 body_length r ≡ value c
    → IsReading t object (body_base 206 r) sink 0 c
unfolding check_status restart skip_prefix plan_body valid_content_range
accepts_part t object sink body_length r c ready k h =
    let seen : Response = record r { checked_status = true; http_status = 206 } in
    let begins : r.content_range_start ≡ add64 r.transfer.offset r.resumed = ground arith in
    let same = ap (λ t. t.offset) k.transfer_is in
    let first : r.content_range_start ≡ t.offset + r.resumed =
      omega (arith, begins, same, k.incomplete, ready.laid_out.fits) in
    let out : plan_body body_length seen ≡ c = ground arith in
    subst (IsReading t object r.content_range_start sink 0) out (record {
      transfer_is = k.transfer_is;
      checked = refl;
      succeeds = refl;
      sink_is = k.sink_is;
      filling = k.filling;
      resumed_fits = omega (arith, k.incomplete);
      base_fits = omega (arith, first);
      skip_is = λ _. omega (arith, k.no_skip, first);
      received_is = omega (arith, k.kept, first, k.incomplete);
      full = λ e. ground (arith, k.unsatisfied);
    })

-- A full body is read from its start, and what stands before the range is skipped.
pub accepts_whole :
    (t : Transfer) (object : ℕ → ℕ) (sink : ℕ) (body_length : Option ℕ) (r c : Response)
    → IsReady t sink
    → IsFresh t object sink r
    → check_status 200 body_length r ≡ value c
    → IsReading t object 0 sink 0 c
unfolding check_status restart skip_prefix plan_body
accepts_whole t object sink body_length r c ready k h =
    let seen : Response = record r {
      checked_status = true;
      http_status = 200;
      resumed = 0;
      skip = add64 r.transfer.offset 0;
      sink = record r.sink { received = 0 };
    } in
    let same = ap (λ t. t.offset) k.transfer_is in
    let out : plan_body body_length seen ≡ c = ground (arith, k.kept, k.no_skip) in
    subst (IsReading t object 0 sink 0) out (record {
      transfer_is = k.transfer_is;
      checked = refl;
      succeeds = refl;
      sink_is = k.sink_is;
      filling = restart-IsFilling t (λ i. object (t.offset + i)) r.sink k.filling k.at_first_part;
      resumed_fits = omega arith;
      base_fits = omega arith;
      skip_is = λ _. omega (arith, same, ready.laid_out.fits, ready.laid_out.not_empty);
      received_is = omega arith;
      full = λ e. ground (arith, k.unsatisfied);
    })

pub check_status-satisfied :
    (status : ℕ) (body_length : Option ℕ) (r c : Response)
    → check_status status body_length r ≡ value c
    → c.satisfied ≡ r.satisfied
unfolding check_status restart skip_prefix plan_body
check_status-satisfied status body_length r c h = ground arith
