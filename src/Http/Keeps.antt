-- ===== src/Http/Keeps.antt =====
-- What the callbacks for a body leave alone, and that the body of an error leaves the buffers alone.
use karu.Base.{
  ℕ, ◌+◌, ◌-◌, min, sub64, ltb, leb, ◌&&◌, if◌then◌else◌, ◌≤◌, ◌≡◌, ◌⊎◌, refl, ◌∙◌, true, false,
  Bool, Option, List, [], ◌∷◌, ◌==◌, value, unexpected, Bool-cases, Expected-cases, subst, sym, inl,
  inr, arith,
}
use karu.Scatter.{Sink, store_payload}
use karu.Http.{Response, is_success}
use karu.Http.Write.{
  write_callback, write_checked, check_status, restart, skip_prefix, plan_body, store_body, satisfy,
  count_received, keep_error,
}
use karu.Http.Receive.{receive}

-- The transfer and the versions, and what is kept of an interrupted attempt unless it restarts.
pub record Keeps (r r' : Response) : Type 0 where
  pub transfer_is : r'.transfer ≡ r.transfer
  pub pin_is : r'.resume_etag ≡ r.resume_etag
  pub tag_is : r'.response_etag ≡ r.response_etag
  pub sink_is : r'.sink.sink ≡ r.sink.sink
  pub resumed_is : (r'.resumed ≡ r.resumed) ⊎ (r'.resumed ≡ 0)

Keeps-trans : {r s t : Response} → Keeps r s → Keeps s t → Keeps r t
Keeps-trans h k = ground (arith, h.resumed_is, k.resumed_is)

pub check_status-Keeps :
    (status : ℕ) (body_length : Option ℕ) (r c : Response)
    → (check_status status body_length r ≡ value c)
      ⊎ (check_status status body_length r ≡ unexpected c)
    → Keeps r c
unfolding check_status restart skip_prefix plan_body
check_status-Keeps status body_length r c (inl h) = ground arith
check_status-Keeps status body_length r c (inr h) = ground arith

store_payload-sink :
    (r : Response) (source : ℕ → ℕ) (size : ℕ)
    → (store_payload r.transfer r.sink source size).sink ≡ r.sink.sink
unfolding store_payload
store_payload-sink r source size = ground arith

count_received-Keeps : (incoming : ℕ) (r : Response) → Keeps r (count_received incoming r)
unfolding count_received
count_received-Keeps incoming r = ground arith

keep_error-Keeps :
    (source : ℕ → ℕ) (incoming : ℕ) (r : Response) → Keeps r (keep_error source incoming r).0
unfolding keep_error
keep_error-Keeps source incoming r = ground arith

satisfy-Keeps :
    (incoming : ℕ) (took_all : Bool) (r : Response) → Keeps r (satisfy incoming took_all r).0
unfolding satisfy
satisfy-Keeps incoming took_all r = ground arith

if-Keeps :
    (r : Response) (b : Bool) (x y : Response)
    → Keeps r x
    → Keeps r y
    → Keeps r (if b then x else y)
if-Keeps r true x y hx hy = hx
if-Keeps r false x y hx hy = hy

choose-Keeps :
    (r : Response) (b : Bool) (x y : Response × ℕ)
    → Keeps r x.0
    → Keeps r y.0
    → Keeps r (if b then x else y).0
choose-Keeps r true x y hx hy = hx
choose-Keeps r false x y hx hy = hy

-- A step of the body, from a response with another count of bytes to skip and another sink.
sink-Keeps :
    (r : Response) (skip : ℕ) (s : Sink)
    → s.sink ≡ r.sink.sink
    → Keeps r (record r { skip = skip; sink = s })
sink-Keeps r skip s h = ground arith

store_body-Keeps :
    (source : ℕ → ℕ) (incoming : ℕ) (r : Response) → Keeps r (store_body source incoming r).0
unfolding store_body
store_body-Keeps source incoming r =
    let dropped = min r.skip incoming in
    let remaining = incoming - dropped in
    let taken = min (sub64 r.transfer.length r.sink.received) remaining in
    let payload = λ (i : ℕ). source (dropped + i) in
    let skipped : Response = record r { skip = r.skip - dropped } in
    let stored : Response = record skipped {
      sink = store_payload r.transfer r.sink payload taken;
    } in
    let kept : Keeps r skipped = sink-Keeps r (r.skip - dropped) r.sink refl in
    let next = if ltb 0 taken then stored else skipped in
    choose-Keeps r (remaining == 0) (skipped, incoming) (satisfy incoming (taken == remaining) next)
      kept
      (Keeps-trans
        (if-Keeps r (ltb 0 taken) stored skipped
          (sink-Keeps r (r.skip - dropped) (store_payload r.transfer r.sink payload taken)
            (store_payload-sink r payload taken))
          kept)
        (satisfy-Keeps incoming (taken == remaining) next))

write_checked-Keeps :
    (source : ℕ → ℕ) (incoming : ℕ) (r : Response) → Keeps r (write_checked source incoming r).0
unfolding write_checked
write_checked-Keeps source incoming r =
    let counted = if is_success r.http_status then count_received incoming r else r in
    let one : Keeps r counted =
      if-Keeps r (is_success r.http_status) (count_received incoming r) r
        (count_received-Keeps incoming r) (ground arith) in
    choose-Keeps r (leb 300 r.http_status && ltb r.http_status 400 && r.follow_redirects)
      (counted, incoming)
      (if leb 300 r.http_status
        then keep_error source incoming counted
        else store_body source incoming counted)
      one
      (choose-Keeps r (leb 300 r.http_status) (keep_error source incoming counted)
        (store_body source incoming counted)
        (Keeps-trans one (keep_error-Keeps source incoming counted))
        (Keeps-trans one (store_body-Keeps source incoming counted)))

write_callback-Keeps :
    (status : ℕ) (body_length : Option ℕ) (source : ℕ → ℕ) (incoming : ℕ) (r : Response)
    → Keeps r (write_callback status body_length source incoming r).0
unfolding write_callback count_received
write_callback-Keeps status body_length source incoming r = elim (Bool-cases r.satisfied) [
  | inl e ↦ ground arith
  | inr e ↦ elim (Bool-cases r.checked_status) [
    | inl f ↦ ground (arith, write_checked-Keeps source incoming r)
    | inr f ↦ elim (Expected-cases (check_status status body_length r)) [
      | inl (c, h) ↦
          let out : (write_callback status body_length source incoming r).0
              ≡ (write_checked source incoming c).0 =
            ground arith in
          subst (Keeps r) (sym out) (
            Keeps-trans (check_status-Keeps status body_length r c (inl h))
              (write_checked-Keeps source incoming c))
      | inr (c, h) ↦
          let out : (write_callback status body_length source incoming r).0 ≡ c = ground arith in
          subst (Keeps r) (sym out) (check_status-Keeps status body_length r c (inr h))
    ]
  ]
]

pub receive-Keeps :
    (status : ℕ) (body_length : Option ℕ) (body : ℕ → ℕ) (sizes : List ℕ) (pos : ℕ) (r : Response)
    → Keeps r (receive status body_length body sizes pos r).0
unfolding receive
receive-Keeps status body_length body [] pos r = ground arith
receive-Keeps status body_length body (size ∷ sizes) pos r =
    let next = write_callback status body_length (λ i. body (pos + i)) size r in
    let one = write_callback-Keeps status body_length (λ i. body (pos + i)) size r in
    let all = Keeps-trans one (receive-Keeps status body_length body sizes (pos + size) next.0) in
    elim (Bool-cases (next.1 == size)) [ inl e ↦ rw (e) all | inr e ↦ rw (e) one ]

-- The response is an error, as far as its status has been looked at.
record IsFailing (r : Response) : Type 0 where
  unsatisfied : r.satisfied ≡ false
  failed : r.checked_status ≡ true → 300 ≤ r.http_status

module _ (status : ℕ) (failed : 300 ≤ status) (body_length : Option ℕ) where
  write_callback-IsFailing :
      (source : ℕ → ℕ) (incoming : ℕ) (r : Response)
      → IsFailing r
      → let r' = (write_callback status body_length source incoming r).0 in
        IsFailing r' × (r'.sink ≡ r.sink) × (r'.resumed ≡ r.resumed)
  unfolding write_callback write_checked check_status restart skip_prefix plan_body count_received
      keep_error
  write_callback-IsFailing source incoming r k = (ground arith, ground arith, ground arith)

  receive-IsFailing :
      (body : ℕ → ℕ) (sizes : List ℕ) (pos : ℕ) (r : Response)
      → IsFailing r
      → let r' = (receive status body_length body sizes pos r).0 in
        IsFailing r' × (r'.sink ≡ r.sink) × (r'.resumed ≡ r.resumed)
  unfolding receive
  receive-IsFailing body [] pos r k = (k, refl, refl)
  receive-IsFailing body (size ∷ sizes) pos r k =
      let next = write_callback status body_length (λ i. body (pos + i)) size r in
      let (k', s, n) = write_callback-IsFailing (λ i. body (pos + i)) size r k in
      let (k'', s', n') = receive-IsFailing body sizes (pos + size) next.0 k' in
      elim (Bool-cases (next.1 == size)) [
        | inl e ↦ rw (e) (k'', s' ∙ s, n' ∙ n)
        | inr e ↦ rw (e) (k', s, n)
      ]

  -- An error leaves the buffers alone.
  pub receive-failed :
      (body : ℕ → ℕ) (sizes : List ℕ) (r : Response)
      → r.satisfied ≡ false
      → r.checked_status ≡ false
      → let r' = (receive status body_length body sizes 0 r).0 in
        (r'.sink ≡ r.sink) × (r'.resumed ≡ r.resumed) × (r'.satisfied ≡ false)
  receive-failed body sizes r going fresh =
      let (k, s, n) =
        receive-IsFailing body sizes 0 r
          (record { unsatisfied = going; failed = λ e. ground arith }) in
      (s, n, k.unsatisfied)
