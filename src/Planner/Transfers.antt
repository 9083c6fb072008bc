-- ===== src/Planner/Transfers.antt =====
-- runtime/planner.cpp: the loop of `plan_transfers` that makes the transfers. std::malloc is the parameter
-- `malloc`, which is given the number of calls before it and the size.
use karu.Base.{
  ℕ, zero, suc, true, Option, none, some, List, [], ◌∷◌, length, ltb, if◌then◌else◌, u64_max,
}
use karu.Order.{stable_sort}
use karu.Transfer.{
  Status, ok, timeout, err_nomem, Locator, Request, Part, Transfer, Completion, ClientOptions,
}
use karu.Planner.Checks.{ValidatedRequest, screen, earlier}
use karu.Planner.Merge.{begin_transfer, gather, shared, close_transfer}

pub record TransferPlan : Type 0 where
  pub transfers : List Transfer
  pub immediate : List Completion

module _ (malloc : ℕ → ℕ → Option ℕ) where
  -- Parts with no buffer of the caller's get one; `none` is a failed allocation.
  unfoldable pub allocate_part : ℕ → Part → Option (Part × ℕ)
  allocate_part calls part = elim part.buffer [
    | some address ↦ some (part, calls)
    | none ↦ if ltb u64_max part.length then none else elim (malloc calls part.length) [
      | none ↦ none
      | some address ↦ some (record part { buffer = some address; owned = true }, suc calls)
    ]
  ]

  unfoldable pub allocate_parts : ℕ → List Part → Option (List Part × ℕ)
  allocate_parts calls [] = some ([], calls)
  allocate_parts calls (part ∷ parts) = elim (allocate_part calls part) [
    | none ↦ none
    | some (part', calls') ↦ elim (allocate_parts calls' parts) [
      | none ↦ none
      | some (parts', calls'') ↦ some (part' ∷ parts', calls'')
    ]
  ]

  -- The loop over the sorted requests. Each round takes at least one, so as much fuel as there are
  -- requests is enough; without it the status is `timeout`, which planning has no other use for. A failed
  -- allocation keeps the transfers before it.
  unfoldable pub plan_from :
      ClientOptions → ℕ → List ValidatedRequest → ℕ → Option Locator → Status × List Transfer
  plan_from options zero [] calls locator = (ok, [])
  plan_from options zero (head ∷ rest) calls locator = (timeout, [])
  plan_from options (suc fuel) [] calls locator = (ok, [])
  plan_from options (suc fuel) (head ∷ rest) calls locator =
      let here = shared locator head.request.locator in
      let (g, rest') = gather options head rest (begin_transfer here head) in
      elim (allocate_parts calls g.transfer.parts) [
        | none ↦ (err_nomem, [])
        | some (parts, calls') ↦
            let later = plan_from options fuel rest' calls' (some here) in
            (later.0, close_transfer g parts ∷ later.1)
      ]

  unfoldable pub plan_transfers : List Request → ClientOptions → TransferPlan × Status
  plan_transfers requests options =
      let (valid, immediate) = screen requests in
      let sorted = stable_sort earlier valid in
      let (status, transfers) = plan_from options (length sorted) sorted 0 none in
      (record { transfers = transfers; immediate = immediate }, status)
