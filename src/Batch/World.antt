-- ===== src/Batch/World.antt =====
-- A batch, the workers that serve it and the consumer that reads it: `submit` of runtime/engine.cpp
-- makes the first state, and each step is one critical section of the batch. A batch keeps its engine
-- alive, so the workers stop, and the queues are emptied, only when no batch is left.
use karu.Base.{
  ℕ, ◌+◌, ◌≡◌, Bool, true, Option, some, List, [], ◌∷◌, ◌++◌, length, total, add64, if◌then◌else◌,
}
use karu.Transfer.{ClientOptions, Status, ok, Request, Part, Transfer, Completion}
use karu.Planner.Transfers.{TransferPlan, plan_transfers}
use karu.Batch.{Batch, empty_batch, push, transfer_finished, next}
use karu.Batch.Deliver.{Ended, is_ok, count_finished, discard_transfer, completions_of, push_all}

-- The bytes that the parts ask for.
unfoldable pub requested : List Transfer → ℕ → ℕ
requested [] n = n
requested (t ∷ ts) n = requested ts (add_lengths t.parts n)
  where
    add_lengths : List Part → ℕ → ℕ
    add_lengths [] n = n
    add_lengths (p ∷ ps) n = add_lengths ps (add64 n p.length)

-- The counts of a plan, before anything is delivered.
unfoldable pub counted : TransferPlan → Batch
unfolding requested
counted plan = record empty_batch {
  pending_parts = total (λ t. length t.parts) plan.transfers + length plan.immediate;
  live_transfers = length plan.transfers;
  counters = record {
    transfers = length plan.transfers;
    transfers_finished = 0;
    requested_bytes = requested plan.transfers 0;
  };
}

-- The batch, and its transfers: those that have not ended, the completions that are not pushed yet of
-- those that have, and those that `discard_transfer` has dropped.
pub record World : Type 0 where
  pub batch : Batch
  pub running : List Transfer
  pub delivering : List (List Completion)
  pub discarded : List Transfer
  pub reported : List Completion

abbrev pub none_requested : List Request → Bool
none_requested [] = true
none_requested (r ∷ rs) = Bool.false

unfoldable pub planned : TransferPlan → World
planned plan = record {
  batch = push_all plan.immediate (counted plan);
  running = plan.transfers;
  delivering = [];
  discarded = [];
  reported = [];
}

-- An empty list of requests and a plan that fails leave an empty batch.
unfoldable pub submit : (ℕ → ℕ → Option ℕ) → List Request → ClientOptions → World × Status
submit malloc requests options =
    let nothing : World = record {
      batch = empty_batch;
      running = [];
      delivering = [];
      discarded = [];
      reported = [];
    } in
    let (plan, status) = plan_transfers malloc requests options in
    if none_requested requests
    then (nothing, ok)
    else if is_ok status
    then (planned plan, ok)
    else (nothing, status)

-- A transfer ends; a completion of an ended one is pushed; an ended one is dropped; `next` takes a
-- completion; the batch is cancelled; `discard_transfer` drops a transfer of a cancelled batch, without
-- completions.
pub data Step : World → World → Type 0 where
  ends :
      (w : World) (e : Ended) (before after : List Transfer)
      → w.running ≡ before ++ e.transfer ∷ after
      → Step w (record w {
        batch = count_finished w.batch;
        running = before ++ after;
        delivering = completions_of e ∷ w.delivering;
      })
  pushes :
      (w : World) (c : Completion) (cs : List Completion) (before after : List (List Completion))
      → w.delivering ≡ before ++ (c ∷ cs) ∷ after
      → Step w (record w { batch = push c w.batch; delivering = before ++ cs ∷ after })
  drops :
      (w : World) (before after : List (List Completion))
      → w.delivering ≡ before ++ [] ∷ after
      → Step w (record w { batch = transfer_finished w.batch; delivering = before ++ after })
  takes :
      (w : World) (bounded : Bool) (c : Completion) (b : Batch)
      → next bounded w.batch ≡ some (ok, (some c, b))
      → Step w (record w { batch = b; reported = w.reported ++ c ∷ [] })
  cancels : (w : World) → Step w (record w { batch = record w.batch { cancelled = true } })
  discards :
      (w : World) (t : Transfer) (before after : List Transfer)
      → w.running ≡ before ++ t ∷ after
      → w.batch.cancelled ≡ true
      → Step w (record w {
        batch = discard_transfer w.batch;
        running = before ++ after;
        discarded = t ∷ w.discarded;
      })

pub data Reaches (start : World) : World → Type 0 where
  begins : Reaches start start
  goes : {v w : World} → Reaches start v → Step v w → Reaches start w
