-- ===== src/Planner/Tests.antt =====
-- Plans of concrete batches, and the theorems at them.
use karu.Base.{
  ℕ, ◌+◌, ◌≡◌, ◌↔◌, refl, false, Option, none, some, List, [], ◌∷◌, map, length, codes, not, select,
  All, All₂, Perm, arith, value,
}
use karu.Uri.{Backend, s3}
use karu.Transfer.{ok, err_nomem, ClientOptions, Locator, Request, Transfer}
use karu.Order.{stable_sort}
use karu.Planner.Checks.{validate, check, screen, earlier}
use karu.Planner.Merge.{begin_transfer, merge, gather, close_transfer}
use karu.Planner.Transfers.{allocate_part, allocate_parts, plan_from, plan_transfers}
use karu.Planner.Validate.{IsRequest, IsReadable, validated_of, validate_iff}
use karu.Planner.Screen.{is_served, Refuses}
use karu.Planner.Serves.{all_slices, request_slice, plan_transfers-serves}
use karu.Planner.Bounds.{IsLaidOut, plan_transfers-IsLaidOut}
use karu.Planner.Limits.{Limited, plan_transfers-Limited}

abbrev object : Backend → ℕ → Locator
object backend window = record {
  resolved = record {
    backend = backend;
    canonical_uri = codes "/vsis3/b/k";
    target = [];
    container = codes "b";
    key = codes "k";
    azure_dfs = false;
    window_offset = 100;
    window_length = window;
  };
}

abbrev request : Backend → ℕ → ℕ → ℕ → Request
request backend offset size tag = record {
  locator = object backend 50;
  offset = offset;
  length = size;
  buffer = none;
  tag = tag;
  if_match = [];
}

abbrev options : ℕ → ClientOptions
options gap = record {
  coalesce_gap = gap;
  coalesce_limit = 64;
  coalesce_parts = 4;
  coalesce_amplification = 16;
  concurrency = 64;
  io_threads = 4;
  range_fallback_limit = 8388608;
  max_attempts = 8;
  request_timeout_seconds = 120;
  connect_timeout_seconds = 30;
  low_speed_time_seconds = 60;
  low_speed_limit = 1024;
}

abbrev no_memory : ℕ → ℕ → Option ℕ
no_memory calls size = none

abbrev endless : ℕ → ℕ → Option ℕ
endless calls size = some (1000 + calls)

abbrev exhausted : ℕ → ℕ → Option ℕ
exhausted calls size = none

-- The third leaves the window of 50 bytes; the others are near.
abbrev batch : List Request
batch = request s3 20 5 1 ∷ request s3 0 10 2 ∷ request s3 40 11 3 ∷ []

batch-IsRequest : All IsRequest batch
batch-IsRequest = omega arith

-- A definition to name for the whole plan: its line opens all that planning calls.
planned : ℕ → List Transfer
unfolding plan_transfers plan_from stable_sort screen check validate earlier allocate_parts gather
    merge begin_transfer allocate_part close_transfer
planned gap = (plan_transfers endless batch (options gap)).0.transfers

merged : map (λ t. length t.parts) (planned 16) ≡ 2 ∷ []
unfolding planned
merged = refl

apart : map (λ t. length t.parts) (planned 0) ≡ 1 ∷ 1 ∷ []
unfolding planned
apart = refl

-- The merged transfer reads [100, 125), from the first byte of the second request on.
merged_range : map {B = ℕ × ℕ} (λ t. (t.offset, t.length)) (planned 16) ≡ (100, 25) ∷ []
unfolding planned
merged_range = refl

out_of_memory : (plan_transfers exhausted batch (options 16)).1 ≡ err_nomem
unfolding planned
out_of_memory = refl

validate_iff_example : (validate (request s3 20 5 1) ≡ value (validated_of (request s3 20 5 1))) ↔ (
    IsReadable (request s3 20 5 1)
    × (validated_of (request s3 20 5 1) ≡ validated_of (request s3 20 5 1)))
validate_iff_example =
    validate_iff (request s3 20 5 1) (validated_of (request s3 20 5 1)) (omega arith)

batch-ok : (plan_transfers endless batch (options 16)).1 ≡ ok
unfolding planned
batch-ok = refl

plan_transfers-serves_example :
    Perm
      (all_slices (plan_transfers endless batch (options 16)).0.transfers)
      (map request_slice (select is_served batch))
    × All₂ Refuses
        (select (λ r. not (is_served r)) batch)
        (plan_transfers endless batch (options 16)).0.immediate
plan_transfers-serves_example =
    plan_transfers-serves endless (options 16) batch batch-IsRequest batch-ok

plan_transfers-IsLaidOut_example :
    All IsLaidOut (plan_transfers endless batch (options 16)).0.transfers
plan_transfers-IsLaidOut_example =
    plan_transfers-IsLaidOut endless (options 16) batch batch-IsRequest

plan_transfers-Limited_example :
    All
      (λ t. Limited (options 16) t.length t.parts)
      (plan_transfers endless batch (options 16)).0.transfers
plan_transfers-Limited_example =
    plan_transfers-Limited endless (options 16) batch (omega arith) batch-IsRequest
