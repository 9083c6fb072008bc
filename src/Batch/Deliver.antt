-- ===== src/Batch/Deliver.antt =====
-- `deliver` and `finish_transfer` of runtime/engine.cpp: one completion for each part of a transfer.
use karu.Base.{
  ℕ, suc, length, ◌∙◌, append-nil, append_assoc, ◌+◌, ◌-◌, ◌≤◌, ◌≡◌, ◌↔◌, refl, ap, Bool, true,
  false, ◌&&◌, Option, none, some, List, [], ◌∷◌, ◌++◌, Bytes, codes, ltb, if◌then◌else◌, add64,
  sub64, u64_max, map, min, arith,
}
use karu.Decimal.{to_string}
use karu.Uri.{Resolved, same_backend, http}
use karu.Text.{redact_url}
use karu.Transfer.{Status, ok, err_range, Completion, Transfer, Part}
use karu.Scatter.{Heap, memcpy, address_of}
use karu.Batch.{Batch, push, transfer_finished}

-- What a transfer has when it ends: the bytes that came, and the scratch space, if any.
pub record Ended : Type 0 where
  pub transfer : Transfer
  pub received : ℕ
  pub scratch : Option (ℕ → ℕ)
  pub status : Status
  pub detail : Bytes

abbrev pub is_ok : Status → Bool
is_ok ok = true
is_ok _ = false

pub shown_uri : Resolved → Bytes
shown_uri resolved =
    if same_backend resolved.backend http
    then redact_url resolved.canonical_uri
    else resolved.canonical_uri

ended_early : Ended → Part → Bytes
ended_early e part =
    shown_uri e.transfer.locator.resolved
    ++ codes ": object ended at byte "
    ++ to_string (add64 e.transfer.offset e.received)
    ++ codes " while reading ["
    ++ to_string (add64 e.transfer.offset part.relative_offset)
    ++ codes ", +"
    ++ to_string part.length
    ++ codes ")"

-- The part's completion, before its status is known to be short.
reported : Ended → Part → Completion
reported e part = record {
  tag = part.tag;
  status = e.status;
  got = 0;
  buffer = part.buffer;
  detail = e.detail;
}

unfoldable pub completion_of : Ended → Part → Completion
unfolding ended_early reported
completion_of e part =
    if is_ok e.status
    then (if ltb e.received (add64 part.relative_offset part.length)
        then record (reported e part) {
          status = err_range;
          got =
              if ltb part.relative_offset e.received
              then sub64 e.received part.relative_offset
              else 0;
          detail = ended_early e part;
        }
        else record (reported e part) { got = part.length })
    else reported e part

-- Scratch space is copied out for a part that has bytes.
unfoldable pub copy_out : Ended → Part → Heap → Heap
copy_out e part heap = elim e.scratch [
  | none ↦ heap
  | some bytes ↦
      if is_ok e.status && ltb 0 (completion_of e part).got
      then memcpy heap (address_of part.buffer) (λ i. bytes (part.relative_offset + i))
          (completion_of e part).got
      else heap
]

unfoldable pub deliver_parts : Ended → List Part → Batch × Heap → Batch × Heap
deliver_parts e [] s = s
deliver_parts e (part ∷ parts) (b, heap) =
    deliver_parts e parts (push (completion_of e part) b, copy_out e part heap)

unfoldable pub deliver : Ended → Batch × Heap → Batch × Heap
unfolding deliver_parts
deliver e s = deliver_parts e e.transfer.parts s

unfoldable pub count_finished : Batch → Batch
count_finished b = record b {
  counters = record b.counters { transfers_finished = add64 b.counters.transfers_finished 1 };
}

unfoldable pub finish_transfer : Ended → Batch × Heap → Batch × Heap
unfolding count_finished
finish_transfer e (b, heap) =
    let (delivered, heap') = deliver e (count_finished b, heap) in
    (transfer_finished delivered, heap')

-- A transfer of a cancelled batch is freed without completions.
unfoldable pub discard_transfer : Batch → Batch
discard_transfer b = transfer_finished b

-- The completions of a transfer, in the order in which they are pushed.
abbrev pub completions_of : Ended → List Completion
completions_of e = map (completion_of e) e.transfer.parts

unfoldable pub push_all : List Completion → Batch → Batch
push_all [] b = b
push_all (c ∷ cs) b = push_all cs (push c b)

deliver_parts-push_all :
    (e : Ended) (parts : List Part) (b : Batch) (heap : Heap)
    → (deliver_parts e parts (b, heap)).0 ≡ push_all (map (completion_of e) parts) b
unfolding deliver_parts push_all
deliver_parts-push_all e [] b heap = refl
deliver_parts-push_all e (part ∷ parts) b heap =
    deliver_parts-push_all e parts (push (completion_of e part) b) (copy_out e part heap)

pub completions_of-length :
    (e : Ended) (ps : List Part) → length (map (completion_of e) ps) ≡ length ps
completions_of-length e [] = refl
completions_of-length e (p ∷ ps) = ap suc (completions_of-length e ps)

push_all_lem :
    (cs : List Completion) (b : Batch)
    → push_all cs b
      ≡ record b { ready = b.ready ++ cs; pending_parts = b.pending_parts - length cs }
unfolding push_all push
push_all_lem [] b = ground (arith, append-nil b.ready)
push_all_lem (c ∷ cs) b =
    ground (arith, push_all_lem cs (push c b), append_assoc b.ready (c ∷ []) cs)

-- Finishing a transfer puts one completion for each of its parts, in order, behind those that are in the
-- queue, takes as many from the pending parts and one from the live transfers, where there are any, counts
-- one more finished transfer, with the wrap-around of 64 bits, and changes nothing else of the batch.
pub finish_transfer_lem :
    (e : Ended) (b : Batch) (heap : Heap)
    → (finish_transfer e (b, heap)).0 ≡ record b {
      ready = b.ready ++ map (completion_of e) e.transfer.parts;
      pending_parts = b.pending_parts - length e.transfer.parts;
      live_transfers = b.live_transfers - 1;
      counters = record b.counters { transfers_finished = add64 b.counters.transfers_finished 1 };
    }
unfolding finish_transfer deliver count_finished transfer_finished
finish_transfer_lem e b heap =
    ap transfer_finished (
      deliver_parts-push_all e e.transfer.parts (count_finished b) heap
      ∙ push_all_lem (completions_of e) (count_finished b))
    ∙ rw (completions_of-length e e.transfer.parts) refl

-- Of a transfer that ended well, a part whose end does not overflow has the bytes of it that came, and
-- its status is `ok` exactly where all of them did.
pub completion_of-got :
    (e : Ended) (part : Part)
    → e.status ≡ ok
    → part.relative_offset + part.length ≤ u64_max
    → e.received ≤ u64_max
    → ((completion_of e part).got ≡ min part.length (e.received - part.relative_offset))
      × (((completion_of e part).status ≡ ok) ↔ (part.relative_offset + part.length ≤ e.received))
unfolding completion_of
completion_of-got e part h fits r = (ground arith, (λ k. ground arith, λ k. ground arith))

-- A part keeps its tag and its buffer in its completion, whatever the end.
pub completion_of-tag : (e : Ended) (part : Part) → (completion_of e part).tag ≡ part.tag
unfolding completion_of
completion_of-tag e part = ground arith
