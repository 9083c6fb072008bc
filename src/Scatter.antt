-- ===== src/Scatter.antt =====
-- `store_payload` of runtime/transport.cpp: the bytes of a transfer go to the buffers of its parts.
pub mod Chunk
pub mod Stream
pub mod Delivery
mod Tests
use karu.Base.{
  ℕ, suc, ◌+◌, ◌-◌, max, min, Bool, true, false, ◌&&◌, Option, none, some, List, [], ◌∷◌, drop, leb,
  ltb, if◌then◌else◌, add64,
}
use karu.Transfer.{Part, Transfer}

-- The bytes at each address.
abbrev pub Heap : Type 0
Heap = ℕ → ℕ

-- std::memcpy of `n` bytes; `source` gives the bytes behind the source pointer.
abbrev pub memcpy : Heap → ℕ → (ℕ → ℕ) → ℕ → Heap
memcpy heap to source n address =
    if leb to address && ltb address (to + n) then source (address - to) else heap address

-- The address of a pointer, with 0 for nullptr.
abbrev pub address_of : Option ℕ → ℕ
address_of none = 0
address_of (some a) = a

-- What a transfer changes as its body arrives. `sink` is the buffer of one that is not scattered.
pub record Sink : Type 0 where
  pub sink : ℕ
  pub received : ℕ
  pub scatter_cursor : ℕ
  pub heap : Heap

-- The parts from the cursor on are given; those that end before the chunk are passed.
unfoldable pub advance : List Part → ℕ → ℕ → ℕ
advance [] chunk_begin cursor = cursor
advance (part ∷ parts) chunk_begin cursor =
    let next = advance parts chunk_begin (suc cursor) in
    if ltb chunk_begin (add64 part.relative_offset part.length) then cursor else next

-- The bytes of the chunk that belong to a part.
unfoldable pub scatter_part : Part → ℕ → ℕ → (ℕ → ℕ) → Heap → Heap
scatter_part part chunk_begin chunk_end source heap =
    let part_begin = part.relative_offset in
    let begin = max chunk_begin part_begin in
    let end = min chunk_end (add64 part_begin part.length) in
    if leb end begin
    then heap
    else memcpy heap (address_of part.buffer + (begin - part_begin))
        (λ i. source (begin - chunk_begin + i)) (end - begin)

-- The loop over the parts that the chunk can touch.
unfoldable pub scatter : List Part → ℕ → ℕ → (ℕ → ℕ) → Heap → Heap
scatter [] chunk_begin chunk_end source heap = heap
scatter (part ∷ parts) chunk_begin chunk_end source heap =
    let rest =
      scatter parts chunk_begin chunk_end source
        (scatter_part part chunk_begin chunk_end source heap) in
    if leb chunk_end part.relative_offset then heap else rest

unfoldable pub store_payload : Transfer → Sink → (ℕ → ℕ) → ℕ → Sink
store_payload transfer s source size =
    let chunk_end = add64 s.received size in
    let cursor = advance (drop s.scatter_cursor transfer.parts) s.received s.scatter_cursor in
    if transfer.scattered
    then record s {
      received = chunk_end;
      scatter_cursor = cursor;
      heap = scatter (drop cursor transfer.parts) s.received chunk_end source s.heap;
    }
    else record s { received = chunk_end; heap = memcpy s.heap (s.sink + s.received) source size }
