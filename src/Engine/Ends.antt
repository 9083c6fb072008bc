-- ===== src/Engine/Ends.antt =====
-- `read_file_ends` of runtime/engine.cpp: the first and the last bytes of a local object.
use karu.Base.{
  ℕ, ◌+◌, ◌-◌, ◌^◌, ◌≤◌, ◌<◌, ◌≡◌, ◌⊎◌, ◌∙◌, ap, true, false, none, some, min, u64_max, add64,
  sub64, value, Bool-cases, inl, inr, arith,
}
use karu.Uri.{Resolved}
use karu.Scatter.{Heap}
use karu.Batch.Deliver.{is_ok}
use karu.Engine.Files.{
  Pread, Stop, filled, ended, cancelled, endless, error, Reading, read_all, file_status, read_file,
  visible_size,
}
use karu.Engine.Local.{read_file_ends}
use karu.Engine.Reads.{IsPread, IsEnd, read_all-IsEnd}

-- `n` bytes at an address are those of the file from `first` on.
abbrev pub Has : (ℕ → ℕ) → Heap → ℕ → ℕ → ℕ → Type 0
Has content heap first n dest = (i : ℕ) → i < n → heap (dest + i) ≡ content (first + i)

module _ (pread : ℕ → ℕ → ℕ → Pread) (content : ℕ → ℕ) (size patience : ℕ)
    (p : IsPread pread size patience) where
  -- A read that is ok has all of its bytes, and has changed no other byte.
  pub record IsWhole (first length dest : ℕ) (start : Heap) (s : Reading) : Type 0 where
    pub has : Has content s.heap first length dest
    pub untouched : (x : ℕ) → (x < dest) ⊎ (dest + length ≤ x) → s.heap x ≡ start x

  file_status-ok :
      (resolved : Resolved) (first length dest : ℕ) (start : Heap) (out : Reading × Stop)
      → IsEnd pread content size patience p first length dest start (λ calls. false) out
      → is_ok (file_status resolved first length out).0 ≡ true
      → IsWhole first length dest start out.0
  unfolding file_status
  file_status-ok resolved first length dest start (s, filled) (k, e) fine = record {
    has = λ i h. k.held i (omega arith);
    untouched = λ x h. k.untouched x (ground arith);
  }
  file_status-ok resolved first length dest start (s, ended) (k, e) fine = ground arith
  file_status-ok resolved first length dest start (s, cancelled) (k, e) fine = ground arith
  file_status-ok resolved first length dest start (s, endless) (k, e) fine = ground arith
  file_status-ok resolved first length dest start (s, error x) (k, e) fine = ground arith

  read_file-ok :
      (resolved : Resolved) (first length dest calls : ℕ) (start : Heap)
      → first + length ≤ 2 ^ 64
      → let (s, out) = read_file pread content patience resolved first length dest calls start in
        is_ok out.0 ≡ true → IsWhole first length dest start s
  unfolding read_file
  read_file-ok resolved first length dest calls start range fine =
      file_status-ok resolved first length dest start
        (read_all pread content patience (λ calls. false) first length dest calls start)
        (read_all-IsEnd pread content size patience p first length dest start (λ calls. false) calls
          range)
        fine

  -- A read of both ends of a file whose size the system has told, into spans that do not overlap, whose
  -- window does not overflow, and that gives a size: it is the visible one, and the spans hold the first
  -- and the last of the visible bytes, as many as fit.
  pub read_file_ends-Has :
      (resolved : Resolved) (total head head_size tail tail_size n : ℕ) (heap : Heap)
      → resolved.window_offset + visible_size resolved total ≤ u64_max
      → (head + min head_size (visible_size resolved total) ≤ tail)
        ⊎ (tail + min tail_size (visible_size resolved total) ≤ head)
      → (read_file_ends pread content patience
          (value total)
          none
          resolved
          head
          head_size
          tail
          tail_size
          heap).size
        ≡ some n
      → let visible = visible_size resolved total in
        let after =
          (read_file_ends pread content patience
            (value total)
            none
            resolved
            head
            head_size
            tail
            tail_size
            heap).heap in
        (n ≡ visible)
        × Has content after resolved.window_offset (min head_size visible) head
        × Has content after
            (resolved.window_offset + visible - min tail_size visible)
            (min tail_size visible)
            tail
  unfolding read_file_ends
  read_file_ends-Has resolved total head head_size tail tail_size n heap range apart sized =
      let visible = visible_size resolved total in
      let length = min head_size visible in
      let tail_length = min tail_size visible in
      let begin = sub64 (add64 resolved.window_offset visible) tail_length in
      let place : begin ≡ resolved.window_offset + visible - tail_length = omega arith in
      let one =
        read_file pread content patience resolved resolved.window_offset length head 0 heap in
      let two =
        read_file pread content patience resolved begin tail_length tail one.0.calls one.0.heap in
      let r =
        read_file_ends pread content patience (value total) none resolved head head_size tail
          tail_size heap in
      elim (Bool-cases (is_ok one.1.0)) [
        | inr e ↦ let unsized : r.size ≡ none = ground arith in ground arith
        | inl e ↦
            let first =
              read_file-ok resolved resolved.window_offset length head 0 heap (omega arith) e in
            elim (Bool-cases (is_ok two.1.0)) [
              | inr f ↦ let unsized : r.size ≡ none = ground arith in ground arith
              | inl f ↦
                  let last =
                    read_file-ok resolved begin tail_length tail one.0.calls one.0.heap
                      (omega arith) f in
                  let sized_is : r.size ≡ some visible = ground arith in
                  let out : r.heap ≡ two.0.heap = ground arith in
                  (
                    ground arith,
                    λ i h.
                        ap (λ (m : Heap). m (head + i)) out
                        ∙ last.untouched (head + i) (outside i h)
                        ∙ first.has i h,
                    λ i h.
                        ap (λ (m : Heap). m (tail + i)) out
                        ∙ last.has i h
                        ∙ ap (λ b. content (b + i)) place,
                  )
            ]
      ]
    where
      outside :
          (i : ℕ)
          → i < min head_size (visible_size resolved total)
          → (head + i < tail) ⊎ (tail + min tail_size (visible_size resolved total) ≤ head + i)
      outside i h = ground arith
