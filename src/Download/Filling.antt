-- ===== src/Download/Filling.antt =====
-- The slots of src/download.cpp before its loop: the first chunks, as far as they are submitted.
use karu.Base.{
  ℕ, zero, suc, ◌+◌, ◌-◌, ◌*◌, ◌≤◌, ◌<◌, ◌≡◌, refl, inl, inr, min, true, [], ◌∷◌, ◌++◌, ltb, ◌==◌,
  if◌then◌else◌, u64_max, After, on_value, on_error, length-append, length, total, total-append,
  Bool-cases, arith,
}
use karu.Transfer.{Status}
use karu.Download.{Slot, DownloadSettings, DownloadSummary, Running, status_ok, chunk_part}
use karu.Download.Run.{submit_each, probed, probe_length_of, chunks_of}
use karu.Download.Cover.{covers, in_slot, busy_count, to_come, Covered, next_chunk-IsNext, taken}

module _ (settings : DownloadSettings) (pos : 0 < settings.chunk_size) (whole : ℕ) where
  -- The slots before the loop: all that there are have a chunk.
  pub record Filling (left : ℕ) (d : Running) : Type 0 where
    pub of_size : d.summary.size ≡ whole
    pub fits : d.summary.size ≤ u64_max
    pub probe_fits : d.probe_length ≤ d.summary.size
    pub chunks_are : d.chunks ≡ chunks_of settings (d.summary.size - d.probe_length)
    pub each :
        (x : ℕ)
        → total (covers x) d.written + total (in_slot x) d.slots + to_come settings d x
          ≡ (if ltb x d.summary.size then 1 else 0)
    pub left_is : d.next_chunk + left ≡ min settings.parallelism d.chunks
    pub full : length d.slots ≡ total busy_count d.slots
    pub as_many : length d.slots ≡ d.next_chunk

  pub submit_each-Filling :
      (submitted : ℕ → Status) (left : ℕ) (d : Running)
      → Filling left d
      → After (Filling 0) (submit_each settings submitted left d)
  unfolding submit_each
  submit_each-Filling submitted zero d h = on_value _ h
  submit_each-Filling submitted (suc left) d h =
      elim (Bool-cases (status_ok (submitted d.next_chunk))) [
        | inr t ↦ rw t (on_error _)
        | inl t ↦
            let part = chunk_part settings d d.next_chunk in
            let new : Slot = record { part = part; busy = true } in
            let next : Running = record d {
              slots = d.slots ++ new ∷ [];
              next_chunk = d.next_chunk + 1;
            } in
            let n =
              next_chunk-IsNext settings d pos h.fits h.probe_fits
                (let c = h.chunks_are in let l = h.left_is in ground arith) in
            rw t (
              submit_each-Filling submitted left next (record {
                of_size = h.of_size;
                fits = h.fits;
                probe_fits = h.probe_fits;
                chunks_are = h.chunks_are;
                each = λ x.
                    let moved = taken settings d next part x n refl refl refl in
                    let before = h.each x in
                    rw (total-append (in_slot x) d.slots (new ∷ [])) (omega arith);
                left_is = let l = h.left_is in omega arith;
                full =
                    rw
                      (total-append busy_count d.slots (new ∷ []), length-append d.slots (new ∷ []))
                      (let f = h.full in omega arith);
                as_many = rw (length-append d.slots (new ∷ [])) (let c = h.as_many in omega arith);
              }))
      ]

  pub started-Covered :
      (d : Running)
      → 0 < settings.parallelism
      → Filling 0 d
      → Covered settings whole (record d { active = length d.slots })
  started-Covered d par h = record {
    of_size = h.of_size;
    fits = h.fits;
    probe_fits = h.probe_fits;
    chunks_are = h.chunks_are;
    next_le = let l = h.left_is in omega arith;
    each = h.each;
    active_is = h.full;
    idle = elim (Bool-cases (d.chunks == d.next_chunk)) [
      | inl t ↦ inl (ground arith)
      | inr t ↦ inr (h.full, let c = h.as_many in let l = h.left_is in ground arith)
    ];
  }

  pub probed-Filling :
      (summary : DownloadSummary)
      → summary.size ≡ whole
      → whole ≤ u64_max
      → Filling
          (min settings.parallelism (probed settings summary).chunks)
          (probed settings summary)
  probed-Filling summary size fits =
      let within : probe_length_of settings summary.size ≤ summary.size = omega arith in
      let none_taken : 0 * settings.chunk_size ≡ 0 = omega arith in
      elim (Bool-cases (probe_length_of settings summary.size == 0)) [
        | inl t ↦ rw t (record {
          of_size = size;
          fits = rw size fits;
          probe_fits = within;
          chunks_are = refl;
          each = λ x. rw none_taken (ground arith);
          left_is = omega arith;
          full = refl;
          as_many = refl;
        })
        | inr t ↦ rw t (record {
          of_size = size;
          fits = rw size fits;
          probe_fits = within;
          chunks_are = refl;
          each = λ x. rw none_taken (ground arith);
          left_is = omega arith;
          full = refl;
          as_many = refl;
        })
      ]
