-- ===== src/Batch/Tests.antt =====
-- A batch of two requests, from its submission to its end: one leaves the window of its object, and
-- the other's transfer ends early.
use karu.Base.{
  ℕ, ◌+◌, ◌*◌, ◌-◌, ◌≤◌, ◌≡◌, ◌↔◌, refl, min, true, false, Option, none, some, List, [], ◌∷◌, ◌++◌,
  map, add64, codes, arith, All,
}
use karu.Uri.{s3}
use karu.Order.{stable_sort}
use karu.Transfer.{ok, end, ClientOptions, Locator, Request, Part, Transfer, Completion}
use karu.Planner.Checks.{validate, check, screen, earlier}
use karu.Planner.Merge.{begin_transfer, merge, gather, close_transfer, shared}
use karu.Planner.Transfers.{TransferPlan, allocate_part, allocate_parts, plan_from, plan_transfers}
use karu.Planner.Validate.{IsRequest}
use karu.Batch.{Batch, empty_batch, push, transfer_finished, can_return, take_ready, next}
use karu.Batch.Deliver.{
  deliver, Ended, completion_of, count_finished, discard_transfer, completions_of, push_all,
  finish_transfer, finish_transfer_lem, completion_of-got,
}
use karu.Batch.Copies.{Copied, deliver-Copied}
use karu.Batch.World.{
  World, ends, pushes, drops, takes, cancels, discards, Reaches, begins, goes, requested, counted,
  planned, submit,
}
use karu.Batch.Accounts.{in_completions, IsCounted}
use karu.Batch.Drained.{planned_tags, planned-Reaches-IsCounted, next-returns}
use karu.Batch.Requests.{in_requests, submit-reports_each}

abbrev object : Locator
object = record {
  resolved = record {
    backend = s3;
    canonical_uri = codes "/vsis3/b/k";
    target = [];
    container = codes "b";
    key = codes "k";
    azure_dfs = false;
    window_offset = 100;
    window_length = 50;
  };
}

abbrev request : ℕ → ℕ → ℕ → Request
request offset size tag = record {
  locator = object;
  offset = offset;
  length = size;
  buffer = some (1000 * tag);
  tag = tag;
  if_match = [];
}

abbrev requests : List Request
requests = request 20 5 1 ∷ request 40 11 3 ∷ []

abbrev options : ClientOptions
options = record {
  coalesce_gap = 16;
  coalesce_limit = 64;
  coalesce_parts = 4;
  coalesce_amplification = 16;
  concurrency = 64;
  io_threads = 4;
  range_fallback_limit = 8388608;
  max_attempts = 8;
  request_timeout_seconds = 120;
  connect_timeout_seconds = 30;
  low_speed_time_seconds = 60;
  low_speed_limit = 1024;
}

abbrev no_memory : ℕ → ℕ → Option ℕ
no_memory calls size = none

submitted : World
unfolding submit planned counted push_all push requested plan_transfers plan_from stable_sort screen
    check validate earlier allocate_parts gather merge begin_transfer allocate_part close_transfer
    shared
submitted = (submit no_memory requests options).0

requests-IsRequest : All IsRequest requests
requests-IsRequest = omega arith

requests-ok : (submit no_memory requests options).1 ≡ ok
unfolding submitted
requests-ok = refl

abbrev wanted : Part
wanted = record { relative_offset = 0; length = 5; buffer = some 1000; tag = 1; owned = false }

abbrev read : Transfer
read = record {
  locator = object;
  offset = 120;
  length = 5;
  parts = wanted ∷ [];
  if_match = [];
  scattered = false;
}

-- Three of its five bytes came.
abbrev short : Ended
short = record { transfer = read; received = 3; scratch = none; status = ok; detail = [] }

short_got : (completion_of short wanted).got ≡ 3
unfolding completion_of
short_got = refl

before_read : World
unfolding submitted count_finished
before_read = record submitted {
  batch = count_finished submitted.batch;
  running = [];
  delivering = completions_of short ∷ [];
}

after_push : World
unfolding before_read push
after_push = record before_read {
  batch = push (completion_of short wanted) before_read.batch;
  delivering = [] ∷ [];
}

after_drop : World
unfolding after_push transfer_finished
after_drop = record after_push { batch = transfer_finished after_push.batch; delivering = [] }

after_drop-Reaches : Reaches (submit no_memory requests options).0 after_drop
unfolding after_drop
after_drop-Reaches =
    goes
      (goes (goes begins (ends submitted short [] [] refl))
        (pushes before_read (completion_of short wanted) [] [] [] refl))
      (drops after_push [] [] refl)

-- The consumer takes the completion of the refused request, and then the other.
refused : Completion
unfolding after_drop
refused = elim after_drop.batch.ready [ [] ↦ completion_of short wanted | c ∷ cs ↦ c ]

drained : Batch
unfolding after_drop
drained = record after_drop.batch { ready = [] }

half_drained : World
unfolding after_drop refused completion_of
half_drained = record after_drop {
  batch = record after_drop.batch { ready = completion_of short wanted ∷ [] };
  reported = refused ∷ [];
}

at_end : World
unfolding half_drained drained
at_end = record half_drained {
  batch = drained;
  reported = refused ∷ completion_of short wanted ∷ [];
}

at_end-Reaches : Reaches (submit no_memory requests options).0 at_end
unfolding at_end next can_return take_ready
at_end-Reaches =
    goes
      (goes after_drop-Reaches (
        takes after_drop false refused
          (record after_drop.batch { ready = completion_of short wanted ∷ [] }) refl))
      (takes half_drained true (completion_of short wanted) drained refl)

at_end-next : next false at_end.batch ≡ some (end, (none, at_end.batch))
unfolding at_end next can_return take_ready
at_end-next = refl

at_end-cancelled : at_end.batch.cancelled ≡ false
unfolding at_end
at_end-cancelled = refl

submit-reports_each_example : in_completions 3 at_end.reported ≡ in_requests 3 requests
submit-reports_each_example =
    submit-reports_each no_memory options requests at_end false at_end.batch 3 requests-IsRequest
      requests-ok at_end-Reaches at_end-next at_end-cancelled

abbrev plan : TransferPlan
plan = (plan_transfers no_memory requests options).0

-- The same batch is cancelled, its transfer is discarded, and the consumer takes the refused request.
cancelled : World
unfolding submitted
cancelled = record submitted { batch = record submitted.batch { cancelled = true } }

without_transfer : World
unfolding cancelled discard_transfer transfer_finished
without_transfer = record cancelled {
  batch = discard_transfer cancelled.batch;
  running = [];
  discarded = read ∷ [];
}

abandoned : World
unfolding without_transfer refused
abandoned = record without_transfer {
  batch = record without_transfer.batch { ready = [] };
  reported = refused ∷ [];
}

abandoned-Reaches : Reaches (planned plan) abandoned
unfolding abandoned next can_return take_ready
abandoned-Reaches =
    goes (goes (goes begins (cancels submitted)) (discards cancelled read [] [] refl refl))
      (takes without_transfer false refused (record without_transfer.batch { ready = [] }) refl)

planned-Reaches-IsCounted_example : IsCounted (planned_tags plan) abandoned
planned-Reaches-IsCounted_example = planned-Reaches-IsCounted plan abandoned abandoned-Reaches

abandoned-live : abandoned.batch.live_transfers ≡ 0
unfolding abandoned
abandoned-live = refl

-- Its part is still pending.
abandoned-pending : abandoned.batch.pending_parts ≡ 1
unfolding abandoned
abandoned-pending = refl

next-returns_example : next false abandoned.batch ≡ some (take_ready abandoned.batch [])
unfolding abandoned
next-returns_example = next-returns plan abandoned false abandoned-Reaches abandoned-live

completion_of-got_example :
    ((completion_of short wanted).got ≡ min 5 (3 - 0))
    × (((completion_of short wanted).status ≡ ok) ↔ (0 + 5 ≤ 3))
completion_of-got_example = completion_of-got short wanted refl (omega arith) (omega arith)

finish_transfer_lem_example : (finish_transfer short (empty_batch, λ x. 0)).0 ≡ record empty_batch {
  ready = [] ++ map (completion_of short) (wanted ∷ []);
  pending_parts = 0 - 1;
  live_transfers = 0 - 1;
  counters = record empty_batch.counters { transfers_finished = add64 0 1 };
}
finish_transfer_lem_example = finish_transfer_lem short empty_batch (λ x. 0)

-- Scratch space whose byte `k` is `k + 7`.
abbrev scratched : Ended
scratched = record short { scratch = some (λ k. k + 7) }

deliver-Copied_example :
    All (Copied scratched (λ k. k + 7) (deliver scratched (empty_batch, λ x. 0)).1) read.parts
deliver-Copied_example =
    deliver-Copied scratched (λ k. k + 7) refl refl (omega arith) empty_batch (λ x. 0)
      (omega arith, tt) (tt, tt)
