-- ===== src/Planner/Success.antt =====
-- When planning fails, and what it does with coalescing switched off.
use karu.Base.{ℕ, ◌≡◌, Option, List, length, All, All₂, arith}
use karu.Transfer.{ClientOptions, Locator, Request, Part}
use karu.Planner.Checks.{ValidatedRequest}
use karu.Planner.Merge.{gather, begin_transfer, close_transfer}
use karu.Planner.Transfers.{plan_transfers}
use karu.Planner.Validate.{IsRequest}
use karu.Planner.Memory.{Backs, Backs-length}
use karu.Planner.Serves.{plan_from_rule, plan-IsQueue}

close-alone :
    (options : ClientOptions)
    → options.coalesce_gap ≡ 0
    → (head : ValidatedRequest) (rest : List ValidatedRequest) (l : Locator) (parts : List Part)
    → All₂ Backs (gather options head rest (begin_transfer l head)).0.transfer.parts parts
    → length parts ≡ 1
unfolding gather begin_transfer
close-alone options off head rest l parts backs = ground (arith, Backs-length _ parts backs)

-- With a gap of zero each request that is planned has a transfer of its own.
pub plan_transfers-alone :
    (malloc : ℕ → ℕ → Option ℕ) (options : ClientOptions) (rs : List Request)
    → options.coalesce_gap ≡ 0
    → All IsRequest rs
    → All (λ t. length t.parts ≡ 1) (plan_transfers malloc rs options).0.transfers
unfolding plan_transfers close_transfer
plan_transfers-alone malloc options rs off ws =
    plan_from_rule malloc options (λ t. length t.parts ≡ 1)
      (λ head rest l parts q b u backs. close-alone options off head rest l parts backs) _ _ 0 _
      (plan-IsQueue rs ws)
