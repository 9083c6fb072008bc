-- ===== src/Batch/Drained.antt =====
-- What the counts of a batch mean for its consumer: when `next` waits, and what it has reported when it
-- says that the batch is at its end.
use karu.Base.{
  ℕ, ◌+◌, ◌-◌, ◌≤◌, ◌≡◌, refl, ap, inl, inr, Bool, false, none, some, List, [], ◌∷◌, length, total,
  total-append, arith,
}
use karu.Transfer.{end, Part, Transfer, Completion}
use karu.Planner.Transfers.{TransferPlan}
use karu.Batch.{Batch, push, can_return, take_ready, next}
use karu.Batch.Deliver.{push_all}
use karu.Batch.World.{World, Reaches, begins, goes, counted, planned}
use karu.Batch.Accounts.{is_tag, in_parts, in_completions, in_transfers, IsCounted, Step-IsCounted}

-- How often a plan reports a tag.
abbrev pub planned_tags : TransferPlan → ℕ → ℕ
planned_tags plan x = in_transfers x plan.transfers + in_completions x plan.immediate

push_all-pending :
    (cs : List Completion) (b : Batch) → (push_all cs b).pending_parts ≡ b.pending_parts - length cs
unfolding push_all push
push_all-pending [] b = omega arith
push_all-pending (c ∷ cs) b = ground (arith, push_all-pending cs (push c b))

push_all-live :
    (cs : List Completion) (b : Batch) → (push_all cs b).live_transfers ≡ b.live_transfers
unfolding push_all push
push_all-live [] b = refl
push_all-live (c ∷ cs) b = push_all-live cs (push c b)

push_all-ready :
    (x : ℕ) (cs : List Completion) (b : Batch)
    → in_completions x (push_all cs b).ready ≡ in_completions x b.ready + in_completions x cs
unfolding push_all push
push_all-ready x [] b = omega arith
push_all-ready x (c ∷ cs) b =
    ground
      (arith, push_all-ready x cs (push c b), total-append (λ c. is_tag x c.tag) b.ready (c ∷ []))

planned-IsCounted : (plan : TransferPlan) → IsCounted (planned_tags plan) (planned plan)
unfolding planned counted
planned-IsCounted plan = record {
  pending = ground (arith, push_all-pending plan.immediate (counted plan));
  live = ground (arith, push_all-live plan.immediate (counted plan));
  kept = λ x. ground (arith, push_all-ready x plan.immediate (counted plan));
  lost = inr refl;
}

-- In every state that a submitted plan reaches, by steps that may cancel the batch and discard its
-- transfers: the pending parts are those that have no completion in the queue yet, those of discarded
-- transfers included; the live transfers are those that are neither finished nor discarded; every tag is,
-- as often as it was submitted, with a transfer, in the queue, reported or discarded; and only a
-- cancelled batch has discarded transfers.
pub planned-Reaches-IsCounted :
    (plan : TransferPlan) (w : World) → Reaches (planned plan) w → IsCounted (planned_tags plan) w
planned-Reaches-IsCounted plan _ begins = planned-IsCounted plan
planned-Reaches-IsCounted plan _ (goes {v} {w} before step) =
    Step-IsCounted (planned_tags plan) v w step (planned-Reaches-IsCounted plan v before)

in_completions≤length : (x : ℕ) (cs : List Completion) → in_completions x cs ≤ length cs
in_completions≤length x [] = omega arith
in_completions≤length x (c ∷ cs) = ground (arith, in_completions≤length x cs)

in_parts≤length : (x : ℕ) (ps : List Part) → in_parts x ps ≤ length ps
in_parts≤length x [] = omega arith
in_parts≤length x (p ∷ ps) = ground (arith, in_parts≤length x ps)

delivering≤total :
    (x : ℕ) (ds : List (List Completion)) → total (in_completions x) ds ≤ total length ds
delivering≤total x [] = omega arith
delivering≤total x (d ∷ ds) = ground (arith, delivering≤total x ds, in_completions≤length x d)

running≤total : (x : ℕ) (ts : List Transfer) → in_transfers x ts ≤ total (λ t. length t.parts) ts
running≤total x [] = omega arith
running≤total x (t ∷ ts) = ground (arith, running≤total x ts, in_parts≤length x t.parts)

-- `next` says `end` only of an empty queue, and without cancellation only when nothing is pending.
next-ends :
    (bounded : Bool) (b b' : Batch)
    → next bounded b ≡ some (end, (none, b'))
    → b.cancelled ≡ false
    → (b.ready ≡ []) × (b.pending_parts ≡ 0)
unfolding next can_return take_ready
next-ends bounded b b' h k = (ground arith, ground arith)

-- When `next` says that a batch is at its end, and it was not cancelled, every tag has been reported
-- exactly as often as it was submitted.
pub next-reports_each :
    (plan : TransferPlan) (w : World) (bounded : Bool) (b : Batch) (x : ℕ)
    → Reaches (planned plan) w
    → next bounded w.batch ≡ some (end, (none, b))
    → w.batch.cancelled ≡ false
    → in_completions x w.reported ≡ planned_tags plan x
next-reports_each plan w bounded b x reached h c =
    let k = planned-Reaches-IsCounted plan w reached in
    let (empty, drained) = next-ends bounded w.batch b h c in
    ground (
      arith,
      k.kept x,
      k.pending,
      running≤total x w.running,
      running≤total x w.discarded,
      delivering≤total x w.delivering,
      ap (in_completions x) empty,
    )

total-none : (xs : List Transfer) → length xs ≡ 0 → total (λ t. length t.parts) xs ≡ 0
total-none [] h = refl
total-none (x ∷ xs) h = ground arith

delivering-none : (ds : List (List Completion)) → length ds ≡ 0 → total length ds ≡ 0
delivering-none [] h = refl
delivering-none (d ∷ ds) h = ground arith

-- In every state that a submitted plan reaches, by steps that may cancel the batch and discard its
-- transfers, `next` does not wait once no transfer is live, with or without a timeout: it returns a
-- completion, or the end of the batch.
pub next-returns :
    (plan : TransferPlan) (w : World) (bounded : Bool)
    → Reaches (planned plan) w
    → w.batch.live_transfers ≡ 0
    → next bounded w.batch ≡ some (take_ready w.batch w.batch.ready)
unfolding next can_return
next-returns plan w bounded reached done =
    let k = planned-Reaches-IsCounted plan w reached in
    elim k.lost [
      | inl cancelled ↦ ground arith
      | inr none_lost ↦ ground (
        arith,
        k.live,
        k.pending,
        total-none w.running,
        delivering-none w.delivering,
        ap (total (λ t. length t.parts)) none_lost,
      )
    ]
