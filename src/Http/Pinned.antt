-- ===== src/Http/Pinned.antt =====
-- Attempts of a transfer that are interrupted anywhere never mix two versions of an object.
use karu.Base.{
  ℕ, ◌+◌, ◌<◌, ◌≤◌, ◌≡◌, ◌⊎◌, refl, sym, ap, ◌∙◌, subst, true, false, Option, List, [], ◌∷◌, Bytes,
  is_empty, text_eq_sound, ◌==◌, value, unexpected, Bool-cases, Expected-cases, inl, inr, arith,
  All,
}
use karu.Transfer.{Transfer}
use karu.Scatter.{Heap}
use karu.Scatter.Stream.{IsReady, Filled}
use karu.Http.{Response, version_pin, contradicts_pin, is_success}
use karu.Http.Write.{check_status, restart, skip_prefix, plan_body, write_callback}
use karu.Http.Accept.{IsFresh}
use karu.Http.Receive.{receive, start-IsReceived}
use karu.Http.Prepared.{Strong, IsKept, IsOpen}
use karu.Http.Keeps.{Keeps, check_status-Keeps, receive-Keeps, receive-failed}
use karu.Http.Attempts.{Attempt, Serves}
use karu.Http.Planned.{IsAttempted, zero_or_more, nothing-Filled, Filled-less, fresh-IsKept}

Keeps-version_pin : {h r : Response} → Keeps h r → version_pin r ≡ version_pin h
unfolding version_pin
Keeps-version_pin s = ground arith

pub error_or_success :
    (status : ℕ)
    → (status ≡ 200) ⊎ ((status ≡ 206) ⊎ (300 ≤ status))
    → (300 ≤ status) ⊎ (((status ≡ 200) ⊎ (status ≡ 206)) × (is_success status ≡ true))
error_or_success status h = ground arith

check_status-heap :
    (status : ℕ) (body_length : Option ℕ) (h c : Response)
    → check_status status body_length h ≡ unexpected c
    → c.sink.heap ≡ h.sink.heap
unfolding check_status restart skip_prefix plan_body
check_status-heap status body_length h c e = ground arith

check_status-nothing :
    (status : ℕ) (body_length : Option ℕ) (h c : Response)
    → check_status status body_length h ≡ unexpected c
    → h.sink.received ≤ h.resumed
    → c.sink.received ≤ c.resumed
unfolding check_status restart skip_prefix plan_body
check_status-nothing status body_length h c e less = ground arith

pub refused_out :
    (status : ℕ) (body_length : Option ℕ) (body : ℕ → ℕ) (h c : Response) (size : ℕ)
    (sizes : List ℕ)
    → IsOpen h
    → 0 < size
    → check_status status body_length h ≡ unexpected c
    → (receive status body_length body (size ∷ sizes) 0 h).0 ≡ c
unfolding receive write_callback
refused_out status body_length body h c size sizes open_is more refused =
    let out : write_callback status body_length (λ i. body (0 + i)) size h ≡ (c, 0) =
      ground (arith, open_is.unsatisfied, open_is.unchecked) in
    let stops : (0 == size) ≡ false = ground arith in rw (receive, out, stops) refl

module _ (t : Transfer) (content : Bytes → ℕ → ℕ) (sink : ℕ) where
  abbrev Holds : Bytes → ℕ → Heap → Type 0
  Holds etag received heap = All (Filled (λ k. content etag (t.offset + k)) received heap) t.parts

  Keeps-IsKept :
      (h r : Response)
      → IsKept t content sink h
      → Keeps h r
      → (r.resumed ≡ h.resumed → Holds (version_pin h) h.resumed r.sink.heap)
      → IsKept t content sink r
  unfolding version_pin
  Keeps-IsKept h r k s holds = elim s.resumed_is [
    | inr zero_is ↦
        fresh-IsKept t content sink r (ground (arith, k.transfer_is)) (ground (arith, k.sink_is))
          (omega (arith, k.incomplete)) (λ e. ground (arith, k.strong_pin)) zero_is
    | inl same_is ↦
        let pin : version_pin r ≡ version_pin h = ground arith in
        record {
          transfer_is = ground (arith, k.transfer_is);
          sink_is = ground (arith, k.sink_is);
          incomplete = omega (arith, k.incomplete, same_is);
          pinned = λ more. subst Strong (sym pin) (k.pinned (omega arith));
          strong_pin = λ e. ground (arith, k.strong_pin);
          filled =
              subst (λ n. Holds (version_pin r) n r.sink.heap) (sym same_is)
                (subst (λ e. Holds e h.resumed r.sink.heap) (sym pin) (holds same_is));
        }
  ]

  -- Nothing new is in the buffers.
  pub kept-IsAttempted :
      (h r : Response)
      → IsKept t content sink h
      → IsOpen h
      → Keeps h r
      → r.sink.heap ≡ h.sink.heap
      → r.sink.received ≤ r.resumed
      → IsAttempted t content sink r
  kept-IsAttempted h r k open_is s heap_is none_new = record {
    kept =
        Keeps-IsKept h r k s (λ _. subst (Holds (version_pin h) h.resumed) (sym heap_is) k.filled);
    tag_strong = λ e. ground (arith, open_is.strong);
    by_pin = λ more. absurd (omega arith);
    by_tag = λ more. absurd (omega arith);
  }

  -- A body that is taken is of the version that was asked for, if it was asked for by one strong ETag.
  agrees :
      (a : Attempt) (h : Response)
      → Serves content a h
      → contradicts_pin h ≡ false
      → Strong (version_pin h)
      → (k : ℕ) → a.object k ≡ content (version_pin h) k
  unfolding contradicts_pin
  agrees a h serves fits strong k = elim (Bool-cases (is_empty h.response_etag)) [
    | inl e ↦ serves.obeys e strong k
    | inr e ↦
        let same : h.response_etag ≡ version_pin h =
          text_eq_sound h.response_etag (version_pin h) (ground arith) in
        subst (λ tag. a.object k ≡ content tag k) same (serves.tagged e k)
  ]

  pub takes :
      (status : ℕ) (body_length : Option ℕ) (h c : Response)
      → check_status status body_length h ≡ value c
      → is_success status ≡ true
      → contradicts_pin h ≡ false
  unfolding check_status contradicts_pin version_pin
  takes status body_length h c e success = ground arith

  -- What is kept is in the buffers of the object that the attempt reads.
  pub reads :
      (a : Attempt) (h : Response)
      → IsKept t content sink h
      → IsOpen h
      → Serves content a h
      → contradicts_pin h ≡ false
      → IsFresh t a.object sink h
  reads a h k open_is serves fits = record {
    transfer_is = k.transfer_is;
    unchecked = open_is.unchecked;
    unsatisfied = open_is.unsatisfied;
    kept = open_is.kept;
    at_first_part = open_is.at_first_part;
    no_skip = open_is.no_skip;
    sink_is = k.sink_is;
    filling = record {
      in_range = omega (arith, open_is.kept, k.incomplete);
      filled = elim (zero_or_more h.resumed) [
        | inl zero_is ↦
            subst (λ n. All (Filled (λ k. a.object (t.offset + k)) n h.sink.heap) t.parts)
              (sym (open_is.kept ∙ zero_is))
              (nothing-Filled (λ k. a.object (t.offset + k)) h.sink.heap t.parts)
        | inr more ↦
            Filled-less t (content (version_pin h)) a.object h.sink.received h.resumed h.sink.heap
              (omega (arith, open_is.kept)) (λ k'. sym (agrees a h serves fits (k.pinned more) k'))
              k.filled
      ];
      done = [];
      split = rw (open_is.at_first_part) refl;
      passed = tt;
    };
    incomplete = k.incomplete;
  }

  -- The body of a success that is taken.
  taken-IsAttempted :
      (a : Attempt) (h c : Response) (size : ℕ) (sizes : List ℕ)
      → IsReady t sink
      → IsKept t content sink h
      → IsOpen h
      → (a.status ≡ 200) ⊎ (a.status ≡ 206)
      → 0 < size
      → Serves content a h
      → check_status a.status a.body_length h ≡ value c
      → IsAttempted t content sink (receive a.status a.body_length a.body (size ∷ sizes) 0 h).0
  taken-IsAttempted a h c size sizes ready k open_is range more serves checked =
      let r = (receive a.status a.body_length a.body (size ∷ sizes) 0 h).0 in
      let fits = takes a.status a.body_length h c checked (ground arith) in
      let s = receive-Keeps a.status a.body_length a.body (size ∷ sizes) 0 h in
      let got =
        start-IsReceived t a.object a.body sink a.status a.body_length size sizes h ready range
          (reads a h k open_is serves fits) more serves.body_is in
      let pin = Keeps-version_pin s in
      let same_object = λ (e : Strong (version_pin h)) (k' : ℕ). agrees a h serves fits e k' in
      record {
        kept = Keeps-IsKept h r k s (λ same_is. elim (zero_or_more h.resumed) [
          | inl zero_is ↦
              subst (λ n. Holds (version_pin h) n r.sink.heap) (sym zero_is)
                (nothing-Filled (λ x. content (version_pin h) (t.offset + x)) r.sink.heap t.parts)
          | inr some_kept ↦
              Filled-less t a.object (content (version_pin h)) h.resumed r.sink.received r.sink.heap
                (omega (arith, got.kept, same_is)) (same_object (k.pinned some_kept))
                got.filling.filled
        ]);
        tag_strong = λ e. ground (arith, open_is.strong);
        by_pin = λ _ strong.
            Filled-less t a.object (content (version_pin r)) r.sink.received r.sink.received
              r.sink.heap (omega arith)
              (subst (λ e. (k' : ℕ) → a.object k' ≡ content e k') (sym pin)
                (same_object (subst Strong pin strong)))
              got.filling.filled;
        by_tag = λ _ _ named_is.
            Filled-less t a.object (content r.response_etag) r.sink.received r.sink.received
              r.sink.heap (omega arith)
              (subst (λ e. (k' : ℕ) → a.object k' ≡ content e k') (sym s.tag_is)
                (serves.tagged (ground arith)))
              got.filling.filled;
      }

  refused-IsAttempted :
      (status : ℕ) (body_length : Option ℕ) (h c : Response)
      → IsKept t content sink h
      → IsOpen h
      → check_status status body_length h ≡ unexpected c
      → IsAttempted t content sink c
  refused-IsAttempted status body_length h c k open_is refused =
      kept-IsAttempted h c k open_is (check_status-Keeps status body_length h c (inr refused))
        (check_status-heap status body_length h c refused)
        (check_status-nothing status body_length h c refused (omega (arith, open_is.kept)))

  -- After any headers and any body the buffers still hold what is kept.
  pub body-IsAttempted :
      (a : Attempt) (h : Response) (sizes : List ℕ)
      → IsReady t sink
      → IsKept t content sink h
      → IsOpen h
      → (a.status ≡ 200) ⊎ ((a.status ≡ 206) ⊎ (300 ≤ a.status))
      → All (λ n. 0 < n) sizes
      → (is_success a.status ≡ true → Serves content a h)
      → IsAttempted t content sink (receive a.status a.body_length a.body sizes 0 h).0
  unfolding receive
  body-IsAttempted a h [] ready k open_is status_is more serves =
      kept-IsAttempted h h k open_is (ground arith) refl (omega (arith, open_is.kept))
  body-IsAttempted a h (size ∷ sizes) ready k open_is status_is more serves =
      elim (error_or_success a.status status_is) [
        | inl failed ↦
            let (sink_is, resumed_is, _) =
              receive-failed a.status failed a.body_length a.body (size ∷ sizes) h
                open_is.unsatisfied open_is.unchecked in
            kept-IsAttempted h (receive a.status a.body_length a.body (size ∷ sizes) 0 h).0 k
              open_is (receive-Keeps a.status a.body_length a.body (size ∷ sizes) 0 h)
              (ap (λ s. s.heap) sink_is)
              (omega (arith, ap (λ s. s.received) sink_is, resumed_is, open_is.kept))
        | inr (range, success) ↦ elim (Expected-cases (check_status a.status a.body_length h)) [
          | inl (c, checked) ↦
              taken-IsAttempted a h c size sizes ready k open_is range more.0 (serves success)
                checked
          | inr (c, refused) ↦
              subst (IsAttempted t content sink)
                (sym
                  (refused_out a.status a.body_length a.body h c size sizes open_is more.0 refused))
                (refused-IsAttempted a.status a.body_length h c k open_is refused)
        ]
      ]
