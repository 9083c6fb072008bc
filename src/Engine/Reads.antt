-- ===== src/Engine/Reads.antt =====
-- A loop of reads from a file ends, with the bytes of the file up to its end or up to the length.
use karu.Base.{
  ℕ, zero, suc, ◌+◌, ◌-◌, ◌^◌, ◌≤◌, ◌<◌, ◌≡◌, ◌≢◌, ◌⊎◌, refl, ◌∙◌, ap, subst, Bool, true, min,
  Bytes, ltb, ltb→le, ltb→lt, add64, Bool-cases, inl, inr, arith,
}
use karu.Scatter.{Heap}
use karu.Engine.Files.{
  off_max, Pread, interrupted, failed, got, ReadAt, hung, refused, bytes_read, Stop, filled, ended,
  cancelled, endless, error, Reading, read_again, read_at, store_read, read_loop, read_all,
}

-- What is relied on of pread on a file of `size` bytes: it stores no more than it is asked for and than
-- the file has, stores nothing only at the end of the file, and of `patience` calls that follow one
-- another it interrupts not all.
pub record IsPread (pread : ℕ → ℕ → ℕ → Pread) (size patience : ℕ) : Type 0 where
  pub in_count : (k n o m : ℕ) → pread k n o ≡ got m → m ≤ n
  pub in_file : (k n o m : ℕ) → pread k n o ≡ got m → m ≤ size - o
  pub at_end : (k n o : ℕ) → pread k n o ≡ got 0 → (n ≡ 0) ⊎ (size ≤ o)
  pub calm : (k : ℕ) → (j : ℕ) × (j < patience) × ((n o : ℕ) → pread (k + j) n o ≢ interrupted)

-- What such a read returns.
abbrev IsRead : ℕ → ℕ → ℕ → ReadAt → Type 0
IsRead size n o hung = ⊥
IsRead size n o (refused e) = Unit
IsRead size n o (bytes_read m) = (m ≤ n) × (m ≤ size - o) × ((m ≡ 0) → (n ≡ 0) ⊎ (size ≤ o))

IsRead-count :
    (size o n m : ℕ) → n ≤ m → 0 < n → (a : ReadAt) → IsRead size n o a → IsRead size m o a
IsRead-count size o n m less some_bytes hung h = h
IsRead-count size o n m less some_bytes (refused e) h = tt
IsRead-count size o n m less some_bytes (bytes_read k) (c, f, z) = (
  omega arith,
  f,
  λ e. elim (z e) [ inl none_asked ↦ absurd (omega arith) | inr over ↦ inr over ],
)

Pread-cases :
    (a : Pread) → (a ≡ interrupted) ⊎ (((e : Bytes) × (a ≡ failed e)) ⊎ ((m : ℕ) × (a ≡ got m)))
Pread-cases interrupted = inl refl
Pread-cases (failed e) = inr (inl (e, refl))
Pread-cases (got m) = inr (inr (m, refl))

zero_or_suc : (n : ℕ) → (n ≡ 0) ⊎ ((m : ℕ) × (n ≡ suc m))
zero_or_suc zero = inl refl
zero_or_suc (suc n) = inr (n, refl)

module _ (pread : ℕ → ℕ → ℕ → Pread) (content : ℕ → ℕ) (size patience : ℕ)
    (p : IsPread pread size patience) where
  read_again-IsRead :
      (fuel j k n o : ℕ)
      → j < fuel
      → pread (k + j) n o ≢ interrupted
      → IsRead size n o (read_again pread content patience fuel k n o).0
  unfolding read_again
  read_again-IsRead zero j k n o h calm = absurd (omega arith)
  read_again-IsRead (suc fuel) j k n o h calm = elim (Pread-cases (pread k n o)) [
    | inl e ↦ elim (zero_or_suc j) [
      | inl z ↦ absurd (calm (subst (λ x. pread x n o ≡ interrupted) (omega arith) e))
      | inr (i, z) ↦
          rw (e, IsRead)
            (read_again-IsRead fuel i (suc k) n o (omega arith)
              (subst (λ x. pread x n o ≢ interrupted) (omega arith) calm))
    ]
    | inr (inl (x, e)) ↦ rw (e, IsRead) tt
    | inr (inr (m, e)) ↦
        rw (e, IsRead)
          (p.in_count k n o m e, p.in_file k n o m e, λ z. p.at_end k n o (e ∙ ap got z))
  ]

  read_at-IsRead : (k n o : ℕ) → 0 < n → IsRead size n o (read_at pread content patience k n o).0
  unfolding read_at
  read_at-IsRead k n o some_bytes =
      let (j, h, calm) = p.calm k in
      let again = read_again-IsRead patience j k (min n off_max) o h (calm (min n off_max) o) in
      elim (Bool-cases (ltb off_max o)) [
        | inl e ↦ rw (e, IsRead) tt
        | inr e ↦
            rw (e, IsRead)
              (IsRead-count size o (min n off_max) n (omega arith) (omega arith)
                (read_again pread content patience patience k (min n off_max) o).0 again)
      ]

  -- What a loop has read: the first bytes behind `first`, at `dest`, and nothing else of the memory.
  module _ (first length dest : ℕ) (start : Heap) where
    pub record IsHeld (s : Reading) : Type 0 where
      pub in_length : s.done ≤ length
      pub held : (i : ℕ) → i < s.done → s.heap (dest + i) ≡ content (first + i)
      pub in_object : s.done ≤ size - first
      pub untouched : (x : ℕ) → (x < dest) ⊎ (dest + s.done ≤ x) → s.heap x ≡ start x

    -- A loop that is not stopped has all that the file has of its range.
    abbrev pub IsStopped : (ℕ → Bool) → Reading → Stop → Type 0
    IsStopped is_cancelled s filled = s.done ≡ length
    IsStopped is_cancelled s ended = (s.done < length) × (size ≤ first + s.done)
    IsStopped is_cancelled s cancelled = is_cancelled s.calls ≡ true
    IsStopped is_cancelled s endless = ⊥
    IsStopped is_cancelled s (error e) = Unit

    store_read-IsHeld :
        (n calls : ℕ) (s : Reading)
        → s.done + n ≤ length
        → n ≤ size - (first + s.done)
        → 0 < n
        → first + length ≤ 2 ^ 64
        → IsHeld s
        → IsHeld (store_read pread content patience first dest n calls s)
    unfolding store_read
    store_read-IsHeld n calls s fits in_file some_bytes range k = record {
      in_length = fits;
      held = λ i h. elim (Bool-cases (ltb i s.done)) [
        | inl e ↦ ground (arith, k.held i)
        | inr e ↦
            let place : add64 first s.done + (dest + i - (dest + s.done)) ≡ first + i =
              omega (arith, ltb→le i s.done e) in
            ground (arith, ap content place)
      ];
      in_object = omega (arith, k.in_object);
      untouched = λ x h. ground (arith, k.untouched x);
    }

    store_read-done :
        (n calls : ℕ) (s : Reading)
        → (store_read pread content patience first dest n calls s).done ≡ s.done + n
    unfolding store_read
    store_read-done n calls s = refl

    abbrev pub IsEnd : (ℕ → Bool) → Reading × Stop → Type 0
    IsEnd is_cancelled (s, stop) = IsHeld s × IsStopped is_cancelled s stop

    calls-IsHeld : (calls : ℕ) (s : Reading) → IsHeld s → IsHeld (record s { calls = calls })
    calls-IsHeld calls s k = record {
      in_length = k.in_length;
      held = k.held;
      in_object = k.in_object;
      untouched = k.untouched;
    }

    read_loop-IsEnd :
        (fuel : ℕ) (is_cancelled : ℕ → Bool) (s : Reading)
        → length - s.done < fuel
        → first + length ≤ 2 ^ 64
        → IsHeld s
        → IsEnd is_cancelled
            (read_loop pread content patience fuel is_cancelled first length dest s)
    unfolding read_loop
    read_loop-IsEnd zero is_cancelled s f range k = absurd (omega arith)
    read_loop-IsEnd (suc fuel) is_cancelled s f range k = elim (Bool-cases (ltb s.done length)) [
      | inr e ↦ rw (e, IsEnd, read_loop) (k, omega (arith, k.in_length, ltb→le s.done length e))
      | inl e ↦ elim (Bool-cases (is_cancelled s.calls)) [
        | inl c ↦ rw (e, c, IsEnd, read_loop) (k, c)
        | inr c ↦
            let less = ltb→lt s.done length e in
            let o = add64 first s.done in
            rw (e, c, IsEnd, read_loop)
              (answered
                (λ calls n h.
                  read_loop-IsEnd fuel is_cancelled
                    (store_read pread content patience first dest (suc n) calls s)
                    (omega (arith, store_read-done (suc n) calls s)) range h)
                less (read_at pread content patience s.calls (length - s.done) o)
                (read_at-IsRead s.calls (length - s.done) o (omega arith)))
      ]
    ]
      where
        answered :
            ((calls n : ℕ)
              → IsHeld (store_read pread content patience first dest (suc n) calls s)
              → IsEnd is_cancelled (
                  read_loop pread content patience fuel is_cancelled first length dest
                    (store_read pread content patience first dest (suc n) calls s)))
            → s.done < length
            → (a : ReadAt × ℕ) → IsRead size (length - s.done) (add64 first s.done) a.0
            → IsEnd is_cancelled (elim a.0 [
              | hung ↦ (record s { calls = a.1 }, endless)
              | refused e ↦ (record s { calls = a.1 }, error e)
              | bytes_read zero ↦ (record s { calls = a.1 }, ended)
              | bytes_read (suc n) ↦
                  read_loop pread content patience fuel is_cancelled first length dest
                    (store_read pread content patience first dest (suc n) a.1 s)
            ])
        answered again less (hung, calls) h = absurd h
        answered again less (refused e, calls) h = (calls-IsHeld calls s k, tt)
        answered again less (bytes_read zero, calls) (_, _, z) = (
          calls-IsHeld calls s k,
          (
            less,
            elim (z refl) [
              | inl none_asked ↦ absurd (omega arith)
              | inr over ↦ omega (arith, k.in_object)
            ],
          ),
        )
        answered again less (bytes_read (suc n), calls) (c, f, _) =
            again calls n
              (store_read-IsHeld (suc n) calls s (omega arith) (omega arith) (omega arith) range k)

    pub read_all-IsEnd :
        (is_cancelled : ℕ → Bool) (calls : ℕ)
        → first + length ≤ 2 ^ 64
        → IsEnd is_cancelled
            (read_all pread content patience is_cancelled first length dest calls start)
    unfolding read_all
    read_all-IsEnd is_cancelled calls range =
        read_loop-IsEnd (suc length) is_cancelled (record { done = 0; calls = calls; heap = start })
          (omega arith) range
          (record {
            in_length = omega arith;
            held = λ i h. absurd (omega arith);
            in_object = omega arith;
            untouched = λ x h. refl;
          })
