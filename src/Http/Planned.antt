-- ===== src/Http/Planned.antt =====
-- What plan_resume keeps for the next attempt is in the buffers, of the version that it then asks for.
use karu.Base.{
  ℕ, zero, suc, ◌+◌, ◌<◌, ◌≤◌, ◌≡◌, ◌⊎◌, refl, sym, ◌∙◌, subst, true, false, List, [], ◌∷◌, not,
  ◌&&◌, ◌||◌, leb, Bytes, is_empty, ◌==◌, Bool-cases, inl, inr, arith, All, All-imp,
}
use karu.Transfer.{Transfer, Part}
use karu.Scatter.{Heap}
use karu.Scatter.Stream.{Filled}
use karu.Http.{Response, version_pin, is_strong_etag}
use karu.Http.Resume.{plan_resume}
use karu.Http.Prepared.{Strong, IsKept}

-- What plan_resume decides, with the tests that it has made.
data Planned (r : Response) : Response → Type 0 where
  over : Planned r (record r { resumed = 0; resume_etag = [] })
  same : Planned r r
  dropped : Planned r (record r { resumed = 0 })
  named :
      r.resumed < r.sink.received
      → r.sink.received < r.transfer.length
      → (is_empty r.transfer.if_match ≡ true) × (is_empty r.resume_etag ≡ true)
      → is_empty r.response_etag ≡ false
      → Planned r (record r { resume_etag = r.response_etag; resumed = r.sink.received })
  further :
      r.resumed < r.sink.received
      → r.sink.received < r.transfer.length
      → (is_empty r.transfer.if_match ≡ false → Strong r.transfer.if_match)
      → (is_empty r.transfer.if_match && is_empty r.resume_etag) ≡ false
      → Planned r (record r { resumed = r.sink.received })

plan_resume-Planned : (r : Response) → Planned r (plan_resume r)
unfolding plan_resume
plan_resume-Planned r =
    let pin = r.transfer.if_match in
    elim (Bool-cases (not (is_empty pin) && not (is_strong_etag pin))) [
      | inl a ↦ rw (a) over
      | inr a ↦ elim (Bool-cases (r.version_changed || (r.http_status == 412 && is_empty pin))) [
        | inl b ↦ rw (a, b) over
        | inr b ↦
            elim (Bool-cases (
              not (r.http_status == 200 || r.http_status == 206)
              || leb r.sink.received r.resumed
              || leb r.transfer.length r.sink.received)) [
                | inl c ↦ rw (a, b, c) same
                | inr c ↦ elim (Bool-cases (is_empty pin && is_empty r.resume_etag)) [
                  | inr d ↦
                      rw (a, b, c, d)
                        (further (ground arith) (ground arith) (λ e. ground arith) (d))
                  | inl d ↦ elim (Bool-cases (is_empty r.response_etag)) [
                    | inl e ↦ rw (a, b, c, d, e) dropped
                    | inr e ↦
                        rw (a, b, c, d, e)
                          (named (ground arith) (ground arith) (ground arith, ground arith) (e))
                  ]
                ]
              ]
      ]
    ]

pub zero_or_more : (n : ℕ) → (n ≡ 0) ⊎ (0 < n)
zero_or_more zero = inl refl
zero_or_more (suc n) = inr (omega arith)

pub nothing-Filled :
    (body : ℕ → ℕ) (heap : Heap) (parts : List Part) → All (Filled body 0 heap) parts
nothing-Filled body heap [] = tt
nothing-Filled body heap (p ∷ parts) =
    (λ i _ h. absurd (omega arith), nothing-Filled body heap parts)

-- What is filled from one object is filled from one with the same bytes, up to an earlier byte too.
pub Filled-less :
    (t : Transfer) (f g : ℕ → ℕ) (n m : ℕ) (heap : Heap)
    → n ≤ m
    → ((k : ℕ) → f k ≡ g k)
    → All (Filled (λ k. f (t.offset + k)) m heap) t.parts
    → All (Filled (λ k. g (t.offset + k)) n heap) t.parts
Filled-less t f g n m heap less equal filled =
    All-imp (λ (p : Part). Filled (λ k. f (t.offset + k)) m heap p)
      (Filled (λ k. g (t.offset + k)) n heap)
      (λ p fill i inside arrived.
        fill i inside (omega arith) ∙ equal (t.offset + (p.relative_offset + i)))
      t.parts filled

module _ (t : Transfer) (content : Bytes → ℕ → ℕ) (sink : ℕ) where
  abbrev Holds : Bytes → ℕ → Heap → Type 0
  Holds etag received heap = All (Filled (λ k. content etag (t.offset + k)) received heap) t.parts

  -- After a body: what is new in the buffers is of the version that was asked for, or of the one that
  -- the response names.
  pub record IsAttempted (r : Response) : Type 0 where
    pub kept : IsKept t content sink r
    pub tag_strong : is_empty r.response_etag ≡ false → Strong r.response_etag
    pub by_pin :
        r.resumed < r.sink.received
        → Strong (version_pin r)
        → Holds (version_pin r) r.sink.received r.sink.heap
    pub by_tag :
        r.resumed < r.sink.received
        → is_empty (version_pin r) ≡ true
        → is_empty r.response_etag ≡ false
        → Holds r.response_etag r.sink.received r.sink.heap

  pub fresh-IsKept :
      (r : Response)
      → r.transfer ≡ t
      → r.sink.sink ≡ sink
      → 0 < t.length
      → (is_empty r.resume_etag ≡ false → Strong r.resume_etag)
      → r.resumed ≡ 0
      → IsKept t content sink r
  fresh-IsKept r u s n strong zero_is = record {
    transfer_is = u;
    sink_is = s;
    incomplete = omega arith;
    pinned = λ h. absurd (omega arith);
    strong_pin = strong;
    filled =
        subst (λ n. Holds (version_pin r) n r.sink.heap) (sym zero_is)
          (nothing-Filled (λ k. content (version_pin r) (t.offset + k)) r.sink.heap t.parts);
  }

  version_pin-named :
      (r : Response)
      → (is_empty r.transfer.if_match ≡ true) × (is_empty r.resume_etag ≡ true)
      → (version_pin (record r { resume_etag = r.response_etag; resumed = r.sink.received })
          ≡ r.response_etag)
        × (is_empty (version_pin r) ≡ true)
  unfolding version_pin
  version_pin-named r h = (ground arith, ground arith)

  version_pin-further :
      (r : Response)
      → (is_empty r.transfer.if_match ≡ false → Strong r.transfer.if_match)
      → (is_empty r.transfer.if_match && is_empty r.resume_etag) ≡ false
      → (is_empty r.resume_etag ≡ false → Strong r.resume_etag)
      → (version_pin (record r { resumed = r.sink.received }) ≡ version_pin r)
        × Strong (version_pin r)
  unfolding version_pin
  version_pin-further r strong pin strong_pin = (refl, ground arith)

  Planned-IsKept : {r r' : Response} → Planned r r' → IsAttempted r → IsKept t content sink r'
  Planned-IsKept {r} over k =
      fresh-IsKept (record r { resumed = 0; resume_etag = [] }) k.kept.transfer_is k.kept.sink_is
        (omega (arith, k.kept.incomplete)) (λ h. ground arith) refl
  Planned-IsKept same k = k.kept
  Planned-IsKept {r} dropped k =
      fresh-IsKept (record r { resumed = 0 }) k.kept.transfer_is k.kept.sink_is
        (omega (arith, k.kept.incomplete)) k.kept.strong_pin refl
  Planned-IsKept {r} (named more less no_pin tag) k =
      let (pin, none_is) = version_pin-named r no_pin in
      record {
        transfer_is = k.kept.transfer_is;
        sink_is = k.kept.sink_is;
        incomplete = ground (arith, k.kept.transfer_is);
        pinned = λ _. subst Strong (sym pin) (k.tag_strong tag);
        strong_pin = k.tag_strong;
        filled =
            subst (λ e. Holds e r.sink.received r.sink.heap) (sym pin) (k.by_tag more none_is tag);
      }
  Planned-IsKept {r} (further more less strong pin) k =
      let (pin_is, strong) = version_pin-further r strong pin k.kept.strong_pin in
      record {
        transfer_is = k.kept.transfer_is;
        sink_is = k.kept.sink_is;
        incomplete = ground (arith, k.kept.transfer_is);
        pinned = λ _. subst Strong (sym pin_is) strong;
        strong_pin = k.kept.strong_pin;
        filled =
            subst (λ e. Holds e r.sink.received r.sink.heap) (sym pin_is) (k.by_pin more strong);
      }

  pub plan_resume-IsKept : (r : Response) → IsAttempted r → IsKept t content sink (plan_resume r)
  plan_resume-IsKept r k = Planned-IsKept (plan_resume-Planned r) k
