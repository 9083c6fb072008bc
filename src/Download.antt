-- ===== src/Download.antt =====
-- src/download.cpp: an object downloaded into a file in chunks, of which several are read at a time.
-- What the engine, the file and the progress callback answer is given.
pub mod Run
pub mod Cover
pub mod Rounds
pub mod Filling
pub mod Published
mod Tests
use karu.Base.{
  ℕ, zero, suc, ◌+◌, ◌-◌, ◌*◌, ◌/◌, ◌%◌, min, Bool, true, false, not, ◌&&◌, ◌||◌, Option, none,
  some, List, [], ◌∷◌, ◌++◌, Bytes, ltb, ◌==◌, if◌then◌else◌, Expected, value, unexpected, ◌>>=◌,
  add64, sub64, mul64, u64_max, length, get_elem?,
}
use karu.Transfer.{Status, ok, err_io, err_cancelled}

abbrev pub probe_size : ℕ
probe_size = 1048576

unfoldable pub add_saturated : ℕ → ℕ → ℕ
add_saturated destination amount =
    if ltb (u64_max - destination) amount then u64_max else destination + amount

pub record DownloadPart : Type 0 where
  pub offset : ℕ
  pub length : ℕ

-- `busy` says that the slot has a batch.
pub record Slot : Type 0 where
  pub part : DownloadPart
  pub busy : Bool

pub record DownloadSettings : Type 0 where
  pub chunk_size : ℕ
  pub parallelism : ℕ

pub record DownloadSummary : Type 0 where
  pub size : ℕ
  pub downloaded : ℕ
  pub received_bytes : ℕ
  pub retries : ℕ
  pub throttled : ℕ
  pub new_connections : ℕ
  pub resumed : ℕ
  pub credential_refreshes : ℕ

-- The members of karu_batch_stats and transport::RangeStats that are added up.
pub record Stats : Type 0 where
  pub received_bytes : ℕ
  pub retries : ℕ
  pub throttled : ℕ
  pub new_connections : ℕ
  pub resumed : ℕ
  pub credential_refreshes : ℕ

unfoldable pub add_stats : DownloadSummary → Stats → DownloadSummary
unfolding add_saturated
add_stats summary stats = record summary {
  received_bytes = add_saturated summary.received_bytes stats.received_bytes;
  retries = add_saturated summary.retries stats.retries;
  throttled = add_saturated summary.throttled stats.throttled;
  new_connections = add_saturated summary.new_connections stats.new_connections;
  resumed = add_saturated summary.resumed stats.resumed;
  credential_refreshes = add_saturated summary.credential_refreshes stats.credential_refreshes;
}

-- The variables of the loop, with what was written to the file so far.
pub record Running : Type 0 where
  pub summary : DownloadSummary
  pub probe_length : ℕ
  pub chunks : ℕ
  pub next_chunk : ℕ
  pub slots : List Slot
  pub active : ℕ
  pub wait_cursor : ℕ
  pub written : List DownloadPart

abbrev pub status_ok : Status → Bool
status_ok ok = true
status_ok _ = false

-- The part of a chunk.
unfoldable pub chunk_part : DownloadSettings → Running → ℕ → DownloadPart
chunk_part settings d chunk =
    let offset = add64 d.probe_length (mul64 chunk settings.chunk_size) in
    record { offset = offset; length = min settings.chunk_size (sub64 d.summary.size offset) }

abbrev pub set_slot : ℕ → Slot → List Slot → List Slot
set_slot i slot [] = []
set_slot zero slot (old ∷ slots) = slot ∷ slots
set_slot (suc i) slot (old ∷ slots) = old ∷ set_slot i slot slots

-- What karu_batch_next gives: nothing yet, a failure, or a completion.
pub data Answer : Type 0 where
  timed_out : Answer
  failed : Status → Answer
  completed : (status : Status) (own_tag : Bool) (got : ℕ) → Answer

-- What the calls answer while a slot is visited.
pub record Visit : Type 0 where
  pub answer : Answer
  pub write_fails : Bool
  pub cancelled : Bool
  pub stats_status : Status
  pub stats : Stats
  pub submitted : Status

-- A slot whose chunk is in the file has the next chunk, or is done with.
unfoldable pub refill : DownloadSettings → ℕ → Slot → Status → Running → Expected Status Running
unfolding chunk_part
refill settings index slot submitted d =
    if ltb d.next_chunk d.chunks
    then (if status_ok submitted
        then value (record d {
          slots =
              set_slot index (record { part = chunk_part settings d d.next_chunk; busy = true })
                d.slots;
          next_chunk = d.next_chunk + 1;
          wait_cursor = (index + 1) % length d.slots;
        })
        else unexpected submitted)
    else value (record d {
      slots = set_slot index (record slot { busy = false }) d.slots;
      active = d.active - 1;
      wait_cursor = (index + 1) % length d.slots;
    })

-- A chunk that is complete is written.
unfoldable pub store : DownloadSettings → ℕ → Slot → ℕ → Visit → Running → Expected Status Running
unfolding refill add_stats add_saturated
store settings index slot got v d =
    let stored = record d {
      written = d.written ++ slot.part ∷ [];
      summary = record d.summary { downloaded = add_saturated d.summary.downloaded got };
    } in
    let counted = record stored { summary = add_stats stored.summary v.stats } in
    if v.write_fails
    then unexpected err_io
    else if v.cancelled
    then unexpected err_cancelled
    else if not (status_ok v.stats_status)
    then unexpected v.stats_status
    else refill settings index slot v.submitted counted

-- A visit of a slot that has a batch, and whether a chunk was completed.
unfoldable pub visit_slot :
    DownloadSettings → ℕ → Slot → Visit → Running → Expected Status (Running × Bool)
unfolding store
visit_slot settings index slot v d = elim v.answer [
  | timed_out ↦ value (d, false)
  | failed status ↦ unexpected status
  | completed status own_tag got ↦
      if not (status_ok status)
      then unexpected status
      else if not own_tag || not (got == slot.part.length)
      then unexpected err_io
      else store settings index slot got v d >>= λ stored. value (stored, true)
]

unfoldable pub visit_index :
    DownloadSettings → ℕ → Visit → Running → Expected Status (Running × Bool)
unfolding visit_slot
visit_index settings index v d = elim (get_elem? d.slots index) [
  | none ↦ value (d, false)
  | some slot ↦ if slot.busy then visit_slot settings index slot v d else value (d, false)
]
