-- ===== src/Download/Cover.antt =====
-- Which bytes of an object are in the file, in a slot, or in a chunk to come.
use karu.Base.{
  ℕ, zero, suc, ◌+◌, ◌-◌, ◌*◌, ◌/◌, ◌≤◌, ◌<◌, ◌≡◌, refl, ap, ◌⊎◌, inl, inr, min, true, false, ◌&&◌,
  some, List, [], ◌∷◌, ◌++◌, ltb, leb, ◌==◌, if◌then◌else◌, add64, mul64, u64_max, length,
  get_elem?, total, total-append, Bool-cases, arith,
}
use native.Mathlib.Nat.{le-div_iff_mul-le, div-lt_iff_lt-mul}
use karu.Download.{
  DownloadPart, Slot, DownloadSettings, DownloadSummary, Running, chunk_part, set_slot,
}
use karu.Download.Run.{chunks_of}

-- 1 where the byte is in the part.
abbrev pub covers : ℕ → DownloadPart → ℕ
covers x part = if leb part.offset x && ltb x (part.offset + part.length) then 1 else 0

abbrev pub in_slot : ℕ → Slot → ℕ
in_slot x slot = if slot.busy then covers x slot.part else 0

abbrev pub busy_count : Slot → ℕ
busy_count slot = if slot.busy then 1 else 0

-- 1 where the byte is in a chunk that no slot has had.
abbrev pub to_come : DownloadSettings → Running → ℕ → ℕ
to_come settings d x =
    if leb (d.probe_length + d.next_chunk * settings.chunk_size) x && ltb x d.summary.size
    then 1
    else 0

-- What the loop keeps.
pub record Covered (settings : DownloadSettings) (whole : ℕ) (d : Running) : Type 0 where
  pub of_size : d.summary.size ≡ whole
  pub fits : d.summary.size ≤ u64_max
  pub probe_fits : d.probe_length ≤ d.summary.size
  pub chunks_are : d.chunks ≡ chunks_of settings (d.summary.size - d.probe_length)
  pub next_le : d.next_chunk ≤ d.chunks
  pub each :
      (x : ℕ)
      → total (covers x) d.written + total (in_slot x) d.slots + to_come settings d x
        ≡ (if ltb x d.summary.size then 1 else 0)
  pub active_is : d.active ≡ total busy_count d.slots
  pub idle :
      (d.chunks ≡ d.next_chunk)
      ⊎ ((length d.slots ≡ total busy_count d.slots) × (0 < length d.slots))

total-set_slot :
    (f : Slot → ℕ) (i : ℕ) (slot old : Slot) (slots : List Slot)
    → get_elem? slots i ≡ some old
    → total f (set_slot i slot slots) + f old ≡ total f slots + f slot
total-set_slot f i slot old [] h = ground arith
total-set_slot f zero slot old (x ∷ slots) h = let e : x ≡ old = cc in rw e (omega arith)
total-set_slot f (suc i) slot old (x ∷ slots) h = ground (arith, total-set_slot f i slot old slots)

length-set_slot :
    (i : ℕ) (slot : Slot) (slots : List Slot) → length (set_slot i slot slots) ≡ length slots
length-set_slot i slot [] = refl
length-set_slot zero slot (x ∷ slots) = refl
length-set_slot (suc i) slot (x ∷ slots) = ground (arith, length-set_slot i slot slots)

-- A chunk that is left begins in the object, and its end is the start of the next one or of what is
-- behind the object.
chunk-inside :
    (chunk size n : ℕ)
    → 0 < chunk
    → n < (if size == 0 then 0 else 1 + (size - 1) / chunk)
    → n * chunk < size
chunk-inside chunk size n pos h = elim (Bool-cases (size == 0)) [
  | inl t ↦ ground arith
  | inr t ↦
      let small : n ≤ (size - 1) / chunk = ground arith in
      let le = (le-div_iff_mul-le {k = chunk} {x = n} {y = size - 1} pos).0 small in ground arith
]

pub chunks-end :
    (chunk size : ℕ) → 0 < chunk → size ≤ (if size == 0 then 0 else 1 + (size - 1) / chunk) * chunk
chunks-end chunk size pos = elim (Bool-cases (size == 0)) [
  | inl t ↦ ground arith
  | inr t ↦
      let more =
        (div-lt_iff_lt-mul {k = chunk} {x = size - 1} {y = 1 + (size - 1) / chunk} pos).0
          (omega arith) in
      rw t (ground arith)
]

-- The part of the next chunk, with its words in range.
pub record IsNext (settings : DownloadSettings) (d : Running) (part : DownloadPart) : Type 0 where
  pub offset_is : part.offset ≡ d.probe_length + d.next_chunk * settings.chunk_size
  pub inside : part.offset < d.summary.size
  pub length_is : part.length ≡ min settings.chunk_size (d.summary.size - part.offset)

pub next_chunk-IsNext :
    (settings : DownloadSettings) (d : Running)
    → 0 < settings.chunk_size
    → d.summary.size ≤ u64_max
    → d.probe_length ≤ d.summary.size
    → d.next_chunk < chunks_of settings (d.summary.size - d.probe_length)
    → IsNext settings d (chunk_part settings d d.next_chunk)
unfolding chunk_part
next_chunk-IsNext settings d pos fits probe h =
    let inside =
      chunk-inside settings.chunk_size (d.summary.size - d.probe_length) d.next_chunk pos h in
    let product : mul64 d.next_chunk settings.chunk_size ≡ d.next_chunk * settings.chunk_size =
      omega arith in
    let offset : add64 d.probe_length (mul64 d.next_chunk settings.chunk_size)
        ≡ d.probe_length + d.next_chunk * settings.chunk_size =
      rw product (omega arith) in
    record {
      offset_is = offset;
      inside = rw offset (omega arith);
      length_is = rw offset (ap (min settings.chunk_size) (omega arith));
    }

suc-times : (n k : ℕ) → (n + 1) * k ≡ n * k + k
suc-times n k = grind arith

-- Taking a chunk moves its bytes from those to come to those of its part.
pub taken :
    (settings : DownloadSettings) (d d' : Running) (part : DownloadPart) (x : ℕ)
    → IsNext settings d part
    → d'.probe_length ≡ d.probe_length
    → d'.summary.size ≡ d.summary.size
    → d'.next_chunk ≡ d.next_chunk + 1
    → covers x part + to_come settings d' x ≡ to_come settings d x
taken settings d d' part x n p e k =
    let off = n.offset_is in
    let ins = n.inside in
    let len = n.length_is in
    let step = suc-times d.next_chunk settings.chunk_size in rw (p, e, k, step) (ground arith)

-- A chunk that is written frees its slot for the next one.
module _ (settings : DownloadSettings) (pos : 0 < settings.chunk_size) (whole : ℕ) (index : ℕ)
    (slot : Slot) (d : Running) (summary : DownloadSummary) (cursor : ℕ)
    (h : Covered settings whole d) (found : get_elem? d.slots index ≡ some slot)
    (busy : slot.busy ≡ true) (size : summary.size ≡ d.summary.size) where
  held : (x : ℕ) → in_slot x slot ≡ covers x slot.part
  held x = rw busy refl

  counted : busy_count slot ≡ 1
  counted = rw busy refl

  pub more-Covered :
      (part : DownloadPart)
      → d.next_chunk < d.chunks
      → IsNext settings d part
      → Covered settings whole (record d {
        written = d.written ++ slot.part ∷ [];
        summary = summary;
        slots = set_slot index (record { part = part; busy = true }) d.slots;
        next_chunk = d.next_chunk + 1;
        wait_cursor = cursor;
      })
  more-Covered part t n =
      let new : Slot = record { part = part; busy = true } in
      let counts = total-set_slot busy_count index new slot d.slots found in
      let long = length-set_slot index new d.slots in
      record {
        of_size = rw size h.of_size;
        fits = rw size h.fits;
        probe_fits = rw size h.probe_fits;
        chunks_are = rw size h.chunks_are;
        next_le = omega arith;
        each = λ x.
            let slots = total-set_slot (in_slot x) index new slot d.slots found in
            let moved =
              taken settings d (record d { next_chunk = d.next_chunk + 1 }) part x n refl refl
                refl in
            let before = h.each x in
            rw (size, total-append (covers x) d.written (slot.part ∷ []))
              (let own = held x in omega arith);
        active_is = (let one = counted in let is = h.active_is in omega arith);
        idle = elim h.idle [
          | inl e ↦ ground arith
          | inr (all, some_slot) ↦ inr (let one = counted in omega arith, omega arith)
        ];
      }

  pub last-Covered :
      d.chunks ≤ d.next_chunk
      → Covered settings whole (record d {
        written = d.written ++ slot.part ∷ [];
        summary = summary;
        slots = set_slot index (record slot { busy = false }) d.slots;
        active = d.active - 1;
        wait_cursor = cursor;
      })
  last-Covered t =
      let new : Slot = record slot { busy = false } in
      let counts = total-set_slot busy_count index new slot d.slots found in
      record {
        of_size = rw size h.of_size;
        fits = rw size h.fits;
        probe_fits = rw size h.probe_fits;
        chunks_are = rw size h.chunks_are;
        next_le = h.next_le;
        each = λ x.
            let slots = total-set_slot (in_slot x) index new slot d.slots found in
            let before = h.each x in
            rw (size, total-append (covers x) d.written (slot.part ∷ []))
              (let own = held x in omega arith);
        active_is = (let one = counted in let is = h.active_is in omega arith);
        idle = inl (let le = h.next_le in omega arith);
      }
