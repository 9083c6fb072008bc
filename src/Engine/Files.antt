-- ===== src/Engine/Files.antt =====
-- Local reads: `File::read_at` of platform.cpp where it calls pread, and `visible_size`, `read_file`,
-- `read_file_ends` and one round of `file_loop` of runtime/engine.cpp with `ensure_sink` of
-- runtime/transport.cpp.
use karu.Base.{
  ℕ, zero, suc, ◌+◌, ◌-◌, ◌^◌, Bool, true, false, not, Option, none, some, List, [], ◌∷◌, ◌++◌,
  Bytes, codes, min, ltb, ◌==◌, if◌then◌else◌, add64, sub64,
}
use karu.Decimal.{to_string}
use karu.Uri.{Resolved, same_backend, file, to_end}
use karu.Transfer.{Status, ok, err_io, err_range, Transfer, Part}
use karu.Scatter.{Heap, memcpy, address_of}
use karu.Batch.Deliver.{shown_uri}

abbrev pub off_max : ℕ
off_max = 2 ^ 63 - 1

-- What a call of pread returns: EINTR, another error, or how many bytes it has stored.
pub data Pread : Type 0 where
  interrupted : Pread
  failed : Bytes → Pread
  got : ℕ → Pread

-- What read_at returns; `hung` is a call that is interrupted more often than the fuel allows.
pub data ReadAt : Type 0 where
  hung : ReadAt
  refused : Bytes → ReadAt
  bytes_read : ℕ → ReadAt

-- How a loop of reads ends.
pub data Stop : Type 0 where
  filled ended cancelled endless : Stop
  error : Bytes → Stop

abbrev pub error_text : Stop → Bytes
error_text (error e) = e
error_text _ = []

-- The bytes read, the number of calls of pread, and the memory.
pub record Reading : Type 0 where
  pub done : ℕ
  pub calls : ℕ
  pub heap : Heap

-- The status, and the message of an error.
unfoldable pub file_status : Resolved → ℕ → ℕ → Reading × Stop → Status × Bytes
file_status resolved first length (s, filled) = (ok, [])
file_status resolved first length (s, ended) = (
  err_range,
  shown_uri resolved
      ++ codes ": object ended at byte "
      ++ to_string (add64 first s.done)
      ++ codes " while reading ["
      ++ to_string first
      ++ codes ", +"
      ++ to_string length
      ++ codes ")",
)
file_status resolved first length (s, stop) =
    (err_io, resolved.target ++ codes ": " ++ error_text stop)

-- `pread` is given the number of the call, the count and the offset, and stores bytes of the file from the
-- offset on.
module _ (pread : ℕ → ℕ → ℕ → Pread) (content : ℕ → ℕ) (patience : ℕ) where
  unfoldable pub read_again : ℕ → ℕ → ℕ → ℕ → ReadAt × ℕ
  read_again zero calls n offset = (hung, calls)
  read_again (suc fuel) calls n offset = elim (pread calls n offset) [
    | interrupted ↦ read_again fuel (suc calls) n offset
    | failed e ↦ (refused e, suc calls)
    | got m ↦ (bytes_read m, suc calls)
  ]

  unfoldable pub read_at : ℕ → ℕ → ℕ → ReadAt × ℕ
  unfolding read_again
  read_at calls n offset =
      if ltb off_max offset
      then (refused (codes "Value too large for defined data type"), calls)
      else read_again patience calls (min n off_max) offset

  unfoldable pub store_read : ℕ → ℕ → ℕ → ℕ → Reading → Reading
  store_read first dest n calls s = record {
    done = s.done + n;
    calls = calls;
    heap = memcpy s.heap (dest + s.done) (λ i. content (add64 first s.done + i)) n;
  }

  -- The loop of `read_file` and of `file_loop`, which also ends when the batch is cancelled, as
  -- `is_cancelled` says at a number of calls.
  unfoldable pub read_loop : ℕ → (ℕ → Bool) → ℕ → ℕ → ℕ → Reading → Reading × Stop
  unfolding read_at store_read
  read_loop zero is_cancelled first length dest s = (s, endless)
  read_loop (suc fuel) is_cancelled first length dest s = elim (ltb s.done length) [
    | false ↦ (s, filled)
    | true ↦ elim (is_cancelled s.calls) [
      | true ↦ (s, cancelled)
      | false ↦
          let (answer, calls) = read_at s.calls (length - s.done) (add64 first s.done) in
          elim answer [
            | hung ↦ (record s { calls = calls }, endless)
            | refused e ↦ (record s { calls = calls }, error e)
            | bytes_read zero ↦ (record s { calls = calls }, ended)
            | bytes_read (suc n) ↦
                read_loop fuel is_cancelled first length dest
                  (store_read first dest (suc n) calls s)
          ]
    ]
  ]

  -- A loop has a round for each byte at most, and one more.
  unfoldable pub read_all : (ℕ → Bool) → ℕ → ℕ → ℕ → ℕ → Heap → Reading × Stop
  unfolding read_loop
  read_all is_cancelled first length dest calls heap =
      read_loop (suc length) is_cancelled first length dest
        (record { done = 0; calls = calls; heap = heap })

  unfoldable pub read_file : Resolved → ℕ → ℕ → ℕ → ℕ → Heap → Reading × (Status × Bytes)
  unfolding read_all file_status
  read_file resolved first length dest calls heap =
      let result = read_all (λ calls. false) first length dest calls heap in
      (result.0, file_status resolved first length result)

unfoldable pub visible_size : Resolved → ℕ → ℕ
visible_size resolved total =
    if not (resolved.window_length == to_end)
    then resolved.window_length
    else if ltb resolved.window_offset total
    then sub64 total resolved.window_offset
    else 0

-- What a transfer reads into, or no memory for it: the buffer of its only part, scratch space for a
-- scattered one from a file, or nothing yet. `allocate` gives the address of so many bytes.
pub data Destination : Type 0 where
  no_memory nowhere : Destination
  buffer scratch : ℕ → Destination

abbrev pub front_buffer : List Part → ℕ
front_buffer [] = 0
front_buffer (p ∷ parts) = address_of p.buffer

unfoldable pub ensure_sink : (ℕ → Option ℕ) → Transfer → Destination
ensure_sink allocate t =
    if not t.scattered
    then buffer (front_buffer t.parts)
    else if not (same_backend t.locator.resolved.backend file)
    then nowhere
    else elim (allocate t.length) [ none ↦ no_memory | some address ↦ scratch address ]
