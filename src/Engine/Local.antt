-- ===== src/Engine/Local.antt =====
-- `read_file_ends` and a round of `file_loop` of runtime/engine.cpp.
use karu.Base.{
  ℕ, ◌+◌, Bool, true, false, Option, none, some, Bytes, [], codes, ◌++◌, min, add64, sub64,
  if◌then◌else◌, Expected, value, unexpected,
}
use karu.Uri.{Resolved}
use karu.Transfer.{Status, ok, err_io, err_nomem, Transfer}
use karu.Scatter.{Heap}
use karu.Batch.Deliver.{Ended, is_ok}
use karu.Engine.Files.{
  Pread, Reading, Stop, error, read_all, read_file, visible_size, no_memory, nowhere, buffer,
  scratch, ensure_sink,
}

-- The size of the first and the last bytes that are visible, and the visible size of the object, where the
-- status is ok.
pub record Ends : Type 0 where
  pub status : Status
  pub detail : Bytes
  pub size : Option ℕ
  pub heap : Heap

-- What a round of `file_loop` leaves: the memory, what is added to the counter of received bytes, and the
-- end of the transfer, or `none` where it is discarded since its batch is cancelled.
pub record LocalRead : Type 0 where
  pub heap : Heap
  pub received_bytes : ℕ
  pub ends : Option Ended

abbrev pub unread : Heap → Option Ended → LocalRead
unread heap ends = record { heap = heap; received_bytes = 0; ends = ends }

-- How a read ends that no cancellation discards.
unfoldable pub end_read : Transfer → Option (ℕ → ℕ) → Reading × Stop → Ended
end_read t space (s, stop) = record {
  transfer = t;
  received = s.done;
  scratch = space;
  status = elim stop [ error e ↦ err_io | _ ↦ ok ];
  detail = elim stop [ error e ↦ t.locator.resolved.target ++ codes ": " ++ e | _ ↦ [] ];
}

abbrev pub ends_unread : Transfer → Status → Bytes → Ended
ends_unread t status detail = record {
  transfer = t;
  received = 0;
  scratch = none;
  status = status;
  detail = t.locator.resolved.target ++ codes ": " ++ detail;
}

module _ (pread : ℕ → ℕ → ℕ → Pread) (content : ℕ → ℕ) (patience : ℕ) where
  -- `head` and `tail` are the addresses of the spans, with their sizes; `file_size` and `open` are what
  -- the system says.
  unfoldable pub read_file_ends :
      Expected Bytes ℕ → Option Bytes → Resolved → ℕ → ℕ → ℕ → ℕ → Heap → Ends
  read_file_ends file_size open_error resolved head head_size tail tail_size heap = elim file_size [
    | unexpected e ↦ record {
      status = err_io;
      detail = resolved.target ++ codes ": " ++ e;
      size = none;
      heap = heap;
    }
    | value total ↦ elim open_error [
      | some e ↦ record {
        status = err_io;
        detail = resolved.target ++ codes ": " ++ e;
        size = none;
        heap = heap;
      }
      | none ↦
          let visible = visible_size resolved total in
          let tail_length = min tail_size visible in
          let (first, (status, detail)) =
            read_file pread content patience resolved resolved.window_offset (min head_size visible)
              head 0 heap in
          if is_ok status
          then (let (last, (status, detail)) =
                read_file pread content patience resolved
                  (sub64 (add64 resolved.window_offset visible) tail_length) tail_length tail
                  first.calls first.heap in
              record {
                status = status;
                detail = detail;
                size = if is_ok status then some visible else none;
                heap = last.heap;
              })
          else record { status = status; detail = detail; size = none; heap = first.heap }
    ]
  ]

  -- The read into an address, of which scratch space keeps the bytes.
  unfoldable pub read_into : (ℕ → Bool) → Bool → Transfer → ℕ → Bool → Heap → LocalRead
  unfolding end_read
  read_into is_cancelled left t sink in_scratch heap =
      let (s, stop) = read_all pread content patience is_cancelled t.offset t.length sink 0 heap in
      let space = if in_scratch then some (λ i. s.heap (sink + i)) else none in
      record {
        heap = s.heap;
        received_bytes = s.done;
        ends = if left then none else some (end_read t space (s, stop));
      }

  unfoldable pub open_and_read :
      Option Bytes → (ℕ → Bool) → Bool → Transfer → ℕ → Bool → Heap → LocalRead
  unfolding read_into
  open_and_read open_error is_cancelled left t sink in_scratch heap = elim open_error [
    | some e ↦ unread heap (some (ends_unread t err_io e))
    | none ↦ read_into is_cancelled left t sink in_scratch heap
  ]

  -- What `file_loop` does with a transfer that it has taken from its queue. `is_cancelled` is given the
  -- number of calls of pread; `before` and `left` say whether the batch is cancelled before the read and
  -- after it.
  unfoldable pub local_read :
      (ℕ → Option ℕ) → Option Bytes → Bool → (ℕ → Bool) → Bool → Transfer → Heap → LocalRead
  unfolding ensure_sink open_and_read
  local_read allocate open_error before is_cancelled left t heap =
      if before then unread heap none else elim (ensure_sink allocate t) [
        | no_memory ↦
            unread heap (some (ends_unread t err_nomem (codes "out of memory staging the read")))
        | nowhere ↦ open_and_read open_error is_cancelled left t 0 false heap
        | buffer sink ↦ open_and_read open_error is_cancelled left t sink false heap
        | scratch sink ↦ open_and_read open_error is_cancelled left t sink true heap
      ]
