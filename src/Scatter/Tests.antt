-- ===== src/Scatter/Tests.antt =====
-- A transfer with overlapping parts, streamed in chunks.
use karu.Base.{
  ℕ, ◌+◌, ◌*◌, ◌≡◌, refl, true, false, some, List, [], ◌∷◌, map, codes, get_elem?, All, arith,
}
use karu.Uri.{s3, to_end}
use karu.Order.{stable_sort}
use karu.Transfer.{ClientOptions, Locator, Request, Part, Transfer}
use karu.Planner.Checks.{validate, check, screen, earlier}
use karu.Planner.Merge.{begin_transfer, merge, gather, close_transfer, shared}
use karu.Planner.Transfers.{allocate_part, allocate_parts, plan_from, plan_transfers}
use karu.Scatter.{Heap, scatter_part, scatter, advance, store_payload}
use karu.Scatter.Stream.{IsReady, stream, empty_sink}
use karu.Scatter.Delivery.{Delivered, plan_transfers-Delivered}

abbrev locator : Locator
locator = record {
  resolved = record {
    backend = s3;
    canonical_uri = codes "/vsis3/b/k";
    target = [];
    container = codes "b";
    key = codes "k";
    azure_dfs = false;
    window_offset = 0;
    window_length = to_end;
  };
}

abbrev request : ℕ → ℕ → ℕ → Request
request offset size buffer = record {
  locator = locator;
  offset = offset;
  length = size;
  buffer = some buffer;
  tag = buffer;
  if_match = [];
}

abbrev batch : List Request
batch = request 50 4 100 ∷ request 52 4 200 ∷ []

abbrev options : ClientOptions
options = record {
  coalesce_gap = 8;
  coalesce_limit = 64;
  coalesce_parts = 4;
  coalesce_amplification = 16;
  concurrency = 64;
  io_threads = 4;
  range_fallback_limit = 8388608;
  max_attempts = 8;
  request_timeout_seconds = 120;
  connect_timeout_seconds = 30;
  low_speed_time_seconds = 60;
  low_speed_limit = 1024;
}

abbrev part : ℕ → ℕ → Part
part relative_offset buffer = record {
  relative_offset = relative_offset;
  length = 4;
  buffer = some buffer;
  tag = buffer;
  owned = false;
}

abbrev both : Transfer
both = record {
  locator = locator;
  offset = 50;
  length = 6;
  parts = part 0 100 ∷ part 2 200 ∷ [];
  if_match = [];
  scattered = true;
}

abbrev blank : Heap
blank address = 0

-- Byte `k` of the object is 10 * k.
abbrev object : ℕ → ℕ
object k = 10 * k

abbrev body : ℕ → ℕ
body k = object (50 + k)

planned_both :
    get_elem? (plan_transfers (λ _ size. some size) batch options).0.transfers 0 ≡ some both
unfolding plan_transfers plan_from stable_sort screen check validate earlier allocate_parts gather
    merge begin_transfer allocate_part close_transfer shared
planned_both = refl

-- Three chunks; the second part starts in the first of them.
buffers_hold :
    map
      (stream both body (3 ∷ 1 ∷ 2 ∷ []) (empty_sink 0 blank)).heap
      (100 ∷ 103 ∷ 200 ∷ 203 ∷ 204 ∷ [])
    ≡ 500 ∷ 530 ∷ 520 ∷ 550 ∷ 0 ∷ []
unfolding stream store_payload advance scatter scatter_part
buffers_hold = refl

both-IsReady : IsReady both 0
both-IsReady = record {
  laid_out = record {
    not_empty = omega arith;
    fits = omega arith;
    length_fits = omega arith;
    inside = omega arith;
    in_order = omega arith;
    direct = λ e. cc;
  };
  apart = omega arith;
  direct_sink = λ e. cc;
}

plan_transfers-Delivered_example :
    All
      (Delivered object (stream both body (3 ∷ 1 ∷ 2 ∷ []) (empty_sink 0 blank)).heap both)
      both.parts
plan_transfers-Delivered_example =
    plan_transfers-Delivered (λ _ size. some size) options batch 0 both object 0 blank
      (3 ∷ 1 ∷ 2 ∷ []) (omega arith) planned_both (omega arith) (λ e. cc) refl
