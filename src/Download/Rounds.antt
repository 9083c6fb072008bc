-- ===== src/Download/Rounds.antt =====
-- The rounds of the loop of `download` in src/download.cpp: each keeps what is covered.
use karu.Base.{
  ℕ, zero, suc, ◌+◌, ◌<◌, ◌≡◌, refl, ◌∙◌, inl, inr, Bool, true, false, not, ◌||◌, Option, none,
  some, List, [], ◌∷◌, ◌++◌, ltb, ◌==◌, After, on_value, on_error, After->>=, ltb→lt, ltb→le,
  length, get_elem?, Bool-cases, Option-cases, arith,
}
use karu.Transfer.{Status}
use karu.Download.{
  Slot, DownloadSettings, DownloadSummary, Running, Visit, Answer, timed_out, failed, completed,
  status_ok, add_stats, refill, store, visit_slot, visit_index,
}
use karu.Download.Run.{visit_each, round, run}
use karu.Download.Cover.{Covered, next_chunk-IsNext, more-Covered, last-Covered}

module _ (settings : DownloadSettings) (pos : 0 < settings.chunk_size) (whole : ℕ) where
  refill-Covered :
      (index : ℕ) (slot : Slot) (submitted : Status) (d : Running) (summary : DownloadSummary)
      → Covered settings whole d
      → get_elem? d.slots index ≡ some slot
      → slot.busy ≡ true
      → summary.size ≡ d.summary.size
      → After (Covered settings whole) (
          refill settings index slot submitted
            (record d { written = d.written ++ slot.part ∷ []; summary = summary }))
  unfolding refill
  refill-Covered index slot submitted d summary h found busy size =
      elim (Bool-cases (ltb d.next_chunk d.chunks)) [
        | inl t ↦ elim (Bool-cases (status_ok submitted)) [
          | inl o ↦
              let next =
                next_chunk-IsNext settings
                  (record d { written = d.written ++ slot.part ∷ []; summary = summary }) pos
                  (rw size h.fits) (rw size h.probe_fits)
                  (rw size (let c = h.chunks_are in ground arith)) in
              rw (refill, t, o)
                (on_value _ (
                  more-Covered settings pos whole index slot d summary _ h found busy size _
                    (ltb→lt _ _ t)
                    (record {
                      offset_is = next.offset_is;
                      inside = rw (← size) next.inside;
                      length_is = next.length_is ∙ rw size refl;
                    })))
          | inr o ↦ rw (refill, t, o) (on_error submitted)
        ]
        | inr t ↦
            rw (refill, t)
              (on_value _ (
                last-Covered settings pos whole index slot d summary _ h found busy size
                  (ltb→le _ _ t)))
      ]

  store-Covered :
      (index : ℕ) (slot : Slot) (got : ℕ) (v : Visit) (d : Running)
      → Covered settings whole d
      → get_elem? d.slots index ≡ some slot
      → slot.busy ≡ true
      → After (Covered settings whole) (store settings index slot got v d)
  unfolding store add_stats
  store-Covered index slot got v d h found busy = elim (Bool-cases v.write_fails) [
    | inl a ↦ rw (store, a) (on_error _)
    | inr a ↦ elim (Bool-cases v.cancelled) [
      | inl b ↦ rw (store, a, b) (on_error _)
      | inr b ↦ elim (Bool-cases (not (status_ok v.stats_status))) [
        | inl c ↦ rw (store, a, b, c) (on_error _)
        | inr c ↦ rw (store, a, b, c) (refill-Covered index slot v.submitted d _ h found busy refl)
      ]
    ]
  ]

  -- What a visit keeps, whether or not it completed a chunk.
  abbrev Kept : Running × Bool → Type 0
  Kept r = Covered settings whole r.0

  visit_slot-Covered :
      (index : ℕ) (slot : Slot) (v : Visit) (d : Running)
      → Covered settings whole d
      → get_elem? d.slots index ≡ some slot
      → slot.busy ≡ true
      → After Kept (visit_slot settings index slot v d)
  unfolding visit_slot
  visit_slot-Covered index slot v d h found busy = answered v.answer refl
    where
      answered : (a : Answer) → v.answer ≡ a → After Kept (visit_slot settings index slot v d)
      answered timed_out e = rw (visit_slot, e) (on_value _ h)
      answered (failed status) e = rw (visit_slot, e) (on_error status)
      answered (completed status own_tag got) e = elim (Bool-cases (not (status_ok status))) [
        | inl a ↦ rw (visit_slot, e, a) (on_error _)
        | inr a ↦ elim (Bool-cases (not own_tag || not (got == slot.part.length))) [
          | inl b ↦ rw (visit_slot, e, a, b) (on_error _)
          | inr b ↦
              rw (visit_slot, e, a, b)
                (After->>= _ (store-Covered index slot got v d h found busy)
                  (λ stored k. on_value _ k))
        ]
      ]

  visit_index-Covered :
      (index : ℕ) (v : Visit) (d : Running)
      → Covered settings whole d
      → After Kept (visit_index settings index v d)
  unfolding visit_index
  visit_index-Covered index v d h = elim (Option-cases (get_elem? d.slots index)) [
    | inl n ↦ rw (visit_index, n) (on_value _ h)
    | inr (slot, n) ↦ elim (Bool-cases slot.busy) [
      | inl b ↦ rw (visit_index, n, b) (visit_slot-Covered index slot v d h n b)
      | inr b ↦ rw (visit_index, n, b) (on_value _ h)
    ]
  ]

  visit_each-Covered :
      (visits : ℕ → Visit) (left step : ℕ) (completed_one : Bool) (d : Running)
      → Covered settings whole d
      → After Kept (visit_each settings visits left step completed_one d)
  unfolding visit_each
  visit_each-Covered visits zero step completed_one d h = on_value _ h
  visit_each-Covered visits (suc left) step completed_one d h =
      After->>= _ (visit_index-Covered _ (visits step) d h)
        (λ r k. visit_each-Covered visits left (step + 1) (completed_one || r.1) r.0 k)

  Covered-cursor :
      (d : Running) (cursor : ℕ)
      → Covered settings whole d
      → Covered settings whole (record d { wait_cursor = cursor })
  Covered-cursor d cursor h = record {
    of_size = h.of_size;
    fits = h.fits;
    probe_fits = h.probe_fits;
    chunks_are = h.chunks_are;
    next_le = h.next_le;
    each = h.each;
    active_is = h.active_is;
    idle = h.idle;
  }

  round-Covered :
      (visits : ℕ → Visit) (d : Running)
      → Covered settings whole d
      → After (Covered settings whole) (round settings visits d)
  unfolding round
  round-Covered visits d h =
      After->>= _ (visit_each-Covered visits (length d.slots) 0 false d h) (λ r k.
        on_value _
          (elim (Bool-cases r.1) [ inl t ↦ rw t k | inr t ↦ rw t (Covered-cursor r.0 _ k) ]))

  -- A loop that is over has everything written.
  abbrev pub Over : Option Running → Type 0
  Over none = Unit
  Over (some d) = Covered settings whole d × (d.active ≡ 0)

  pub run-Over :
      (rounds : List (ℕ → Visit)) (d : Running)
      → Covered settings whole d
      → After Over (run settings rounds d)
  unfolding run
  run-Over [] d h = elim (Bool-cases (d.active == 0)) [
    | inl t ↦ rw t (on_value (some d) (h, ground arith))
    | inr t ↦ rw t (on_value none tt)
  ]
  run-Over (visits ∷ rounds) d h = elim (Bool-cases (d.active == 0)) [
    | inl t ↦ rw t (on_value (some d) (h, ground arith))
    | inr t ↦ rw t (After->>= _ (round-Covered visits d h) (λ next k. run-Over rounds next k))
  ]
