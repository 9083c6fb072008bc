-- ===== src/Batch/Requests.antt =====
-- From the requests of a batch to the completions that the consumer reads.
use mathlib.Core.List.Perm
use mathlib.Core.List.{foldr}
use native.Mathlib.Nat.{ℕ_set}
use karu.Base.{
  ℕ, ◌+◌, ◌≡◌, refl, sym, ◌∙◌, ap, subst, Bool, true, false, not, Option, none, some, List, [], ◌∷◌,
  map, total, total-append, arith, All, All₂, select, Perm, Bool-cases, inl, inr,
}
use karu.Transfer.{ClientOptions, Status, ok, end, Request, Part, Transfer, Completion}
use karu.Planner.Transfers.{TransferPlan, plan_transfers}
use karu.Planner.Validate.{IsRequest}
use karu.Planner.Slices.{Slice, slices, part_slice}
use karu.Planner.Screen.{Refuses, is_served}
use karu.Planner.Serves.{plan_transfers-serves, all_slices, request_slice}
use karu.Batch.{Batch, next}
use karu.Batch.Deliver.{is_ok, push_all}
use karu.Batch.World.{World, requested, counted, Reaches, planned, submit}
use karu.Batch.Accounts.{is_tag, in_parts, in_completions, in_transfers}
use karu.Batch.Drained.{planned_tags, next-reports_each}

abbrev in_slices : ℕ → List Slice → ℕ
in_slices x = total (λ s. is_tag x s.tag)

-- How often a tag is the tag of a request.
abbrev pub in_requests : ℕ → List Request → ℕ
in_requests x = total (λ r. is_tag x r.tag)

total-foldr {ℓ} : {A : Type ℓ} (f : A → ℕ) (xs : List A) → total f xs ≡ foldr (λ x n. f x + n) 0 xs
total-foldr f [] = refl
total-foldr f (x ∷ xs) = ap (λ n. f x + n) (total-foldr f xs)

-- A sum does not depend on the order.
total-Perm {ℓ} : {A : Type ℓ} (f : A → ℕ) {xs ys : List A} → Perm xs ys → total f xs ≡ total f ys
total-Perm f {xs} {ys} p =
    total-foldr f xs
    ∙ Perm.foldr-eq ℕ_set (λ x n. f x + n) (λ a b n. omega arith) p 0
    ∙ sym (total-foldr f ys)

slices-tags :
    (x : ℕ) (t : Transfer) (ps : List Part) → in_slices x (map (part_slice t) ps) ≡ in_parts x ps
slices-tags x t [] = refl
slices-tags x t (p ∷ ps) = ap (λ n. is_tag x p.tag + n) (slices-tags x t ps)

all_slices-tags : (x : ℕ) (ts : List Transfer) → in_slices x (all_slices ts) ≡ in_transfers x ts
all_slices-tags x [] = refl
all_slices-tags x (t ∷ ts) = ground (
  arith,
  all_slices-tags x ts,
  slices-tags x t t.parts,
  total-append (λ s. is_tag x s.tag) (slices t) (all_slices ts),
)

request_slices-tags :
    (x : ℕ) (rs : List Request) → in_slices x (map request_slice rs) ≡ in_requests x rs
request_slices-tags x [] = refl
request_slices-tags x (r ∷ rs) = ap (λ n. is_tag x r.tag + n) (request_slices-tags x rs)

refused-tags :
    (x : ℕ) (rs : List Request) (cs : List Completion)
    → All₂ Refuses rs cs
    → in_completions x cs ≡ in_requests x rs
refused-tags x [] [] _ = refl
refused-tags x [] (c ∷ cs) h = absurd h
refused-tags x (r ∷ rs) [] h = absurd h
refused-tags x (r ∷ rs) (c ∷ cs) (h, hs) = ground (arith, refused-tags x rs cs hs, h.tag)

select-tags :
    (x : ℕ) (p : Request → Bool) (rs : List Request)
    → in_requests x (select p rs) + in_requests x (select (λ r. not (p r)) rs) ≡ in_requests x rs
select-tags x p [] = refl
select-tags x p (r ∷ rs) = ground (arith, select-tags x p rs)

-- A plan has a part or a completion for each request.
plan_transfers-tags :
    (malloc : ℕ → ℕ → Option ℕ) (options : ClientOptions) (rs : List Request) (x : ℕ)
    → All IsRequest rs
    → (plan_transfers malloc rs options).1 ≡ ok
    → planned_tags (plan_transfers malloc rs options).0 x ≡ in_requests x rs
plan_transfers-tags malloc options rs x ws s =
    let plan = (plan_transfers malloc rs options).0 in
    let (reads, refused) = plan_transfers-serves malloc options rs ws s in
    ground (
      arith,
      all_slices-tags x plan.transfers,
      total-Perm (λ s. is_tag x s.tag) reads,
      request_slices-tags x (select is_served rs),
      refused-tags x (select (λ r. not (is_served r)) rs) plan.immediate refused,
      select-tags x is_served rs,
    )

is_ok_sound : (s : Status) → is_ok s ≡ true → s ≡ ok
is_ok_sound s h = ground arith

-- A submission that succeeds starts the delivery of a plan for its requests.
submit-planned :
    (malloc : ℕ → ℕ → Option ℕ) (options : ClientOptions) (rs : List Request)
    → All IsRequest rs
    → (submit malloc rs options).1 ≡ ok
    → (plan : TransferPlan) × ((submit malloc rs options).0 ≡ planned plan)
      × ((x : ℕ) → planned_tags plan x ≡ in_requests x rs)
unfolding submit planned counted push_all requested
submit-planned malloc options [] ws s = (record { transfers = []; immediate = [] }, refl, λ x. refl)
submit-planned malloc options (r ∷ rs) ws s =
    let out = plan_transfers malloc (r ∷ rs) options in
    elim (Bool-cases (is_ok out.1)) [
      | inl e ↦
          (let fine : out.1 ≡ ok = is_ok_sound out.1 e in
            (out.0, ground arith, λ x. plan_transfers-tags malloc options (r ∷ rs) x ws fine))
      | inr e ↦ ground arith
    ]

-- When a batch of requests whose words are in range was submitted, was not cancelled and is at its end, whatever the order in
-- which its transfers ended and its completions were pushed and taken, every tag has been reported
-- exactly as often as there are requests with it.
pub submit-reports_each :
    (malloc : ℕ → ℕ → Option ℕ) (options : ClientOptions) (rs : List Request) (w : World)
    (bounded : Bool) (b : Batch) (x : ℕ)
    → All IsRequest rs
    → (submit malloc rs options).1 ≡ ok
    → Reaches (submit malloc rs options).0 w
    → next bounded w.batch ≡ some (end, (none, b))
    → w.batch.cancelled ≡ false
    → in_completions x w.reported ≡ in_requests x rs
submit-reports_each malloc options rs w bounded b x ws s reached h c =
    let (plan, starts, tags) = submit-planned malloc options rs ws s in
    next-reports_each plan w bounded b x (subst (λ v. Reaches v w) starts reached) h c ∙ tags x
