-- ===== src/Batch.antt =====
-- runtime/batch.cpp, and `submit`, `deliver` and `finish_transfer` of runtime/engine.cpp: the queue of
-- completions of a batch, and the counts that say when it is drained.
pub mod Deliver
pub mod World
pub mod Accounts
pub mod Drained
pub mod Requests
pub mod Copies
mod Tests
use karu.Base.{
  ℕ, zero, suc, ◌-◌, ◌≡◌, refl, arith, text_eq_sound, text_eq_refl, Bool-cases, inl, inr, Bool,
  true, false, not, ◌||◌, Option, none, some, List, [], ◌∷◌, ◌++◌, Bytes, text_eq, length, ◌==◌,
  if◌then◌else◌, add64,
}
use karu.Transfer.{Status, ok, end, timeout, Completion, Transfer, Part}

-- The counters that submission and delivery change.
pub record BatchCounters : Type 0 where
  pub transfers : ℕ
  pub transfers_finished : ℕ
  pub requested_bytes : ℕ

pub record Batch : Type 0 where
  pub ready : List Completion
  pub regions : List (Bytes × Bytes)
  pub pending_parts : ℕ
  pub live_transfers : ℕ
  pub cancelled : Bool
  pub counters : BatchCounters

abbrev pub empty_batch : Batch
empty_batch = record {
  ready = [];
  regions = [];
  pending_parts = 0;
  live_transfers = 0;
  cancelled = false;
  counters = record { transfers = 0; transfers_finished = 0; requested_bytes = 0 };
}

-- The guarded `--n`.
abbrev pub count_down : ℕ → ℕ
count_down n = n - 1

unfoldable pub push : Completion → Batch → Batch
push completion b = record b {
  ready = b.ready ++ completion ∷ [];
  pending_parts = count_down b.pending_parts;
}

unfoldable pub transfer_finished : Batch → Batch
transfer_finished b = record b { live_transfers = count_down b.live_transfers }

abbrev pub none_ready : List Completion → Bool
none_ready [] = true
none_ready (c ∷ cs) = false

unfoldable pub can_return : Batch → Bool
can_return b = not (none_ready b.ready) || b.pending_parts == 0 || b.cancelled

-- What `next` returns: a status, and a completion with `ok`.
abbrev pub Returned : Type 0
Returned = Status × (Option Completion × Batch)

unfoldable pub take_ready : Batch → List Completion → Returned
take_ready b [] = (end, (none, b))
take_ready b (completion ∷ ready) = (ok, (some completion, record b { ready = ready }))

-- `next` on the batch as it is when the wait is over: `bounded` says that the timeout is not negative
-- and has passed. `none` is a wait that goes on.
unfoldable pub next : Bool → Batch → Option Returned
next bounded b =
    if can_return b
    then some (take_ready b b.ready)
    else if bounded
    then some (timeout, (none, b))
    else none

-- An empty hint where the resource is not known.
unfoldable pub region_hint : Bytes → List (Bytes × Bytes) → Bytes
region_hint resource [] = []
region_hint resource ((name, region) ∷ regions) =
    let later = region_hint resource regions in if text_eq name resource then region else later

-- insert_or_assign
unfoldable pub insert_or_assign : Bytes → Bytes → List (Bytes × Bytes) → List (Bytes × Bytes)
insert_or_assign resource region [] = (resource, region) ∷ []
insert_or_assign resource region ((name, known) ∷ regions) =
    let later = insert_or_assign resource region regions in
    if text_eq name resource then (name, region) ∷ regions else (name, known) ∷ later

pub remember_region : Bytes → Bytes → Batch → Batch
remember_region resource region b = record b {
  regions = insert_or_assign resource region b.regions;
}

region_hint-insert_or_assign :
    (resource region : Bytes) (regions : List (Bytes × Bytes)) (other : Bytes)
    → region_hint other (insert_or_assign resource region regions)
      ≡ (if text_eq resource other then region else region_hint other regions)
unfolding region_hint insert_or_assign
region_hint-insert_or_assign resource region [] other = ground arith
region_hint-insert_or_assign resource region ((name, known) ∷ regions) other = ground (
  arith,
  region_hint-insert_or_assign resource region regions other,
  text_eq_sound name resource,
  text_eq_sound name other,
  text_eq_sound resource other,
  text_eq_refl resource,
)

-- A resource's region is the one that was remembered last; the others keep theirs.
pub region_hint-remember_region :
    (resource region other : Bytes) (b : Batch)
    → region_hint other (remember_region resource region b).regions
      ≡ (if text_eq resource other then region else region_hint other b.regions)
unfolding remember_region
region_hint-remember_region resource region other b =
    region_hint-insert_or_assign resource region b.regions other
