-- ===== src/Planner/Serves.antt =====
-- What a plan reads: for each request that is served exactly its bytes, once, in sorted order.
use mathlib.Core.List.Perm
use karu.Base.{
  ℕ, zero, suc, ◌+◌, ◌≤◌, ◌≡◌, refl, ap, ◌∙◌, Option, none, some, List, [], ◌∷◌, ◌++◌, map, length,
  All, Ordered, Perm, select, arith, text_eq_sound, Option-cases, Bool-cases, All₂, not, inl, inr,
}
use karu.Order.{NotLess, stable_sort, stable_sort-perm, stable_sort-Ordered, All-stable_sort}
use karu.Uri.{same_backend}
use karu.Transfer.{ok, err_nomem, ClientOptions, Locator, Request, Part, Transfer}
use karu.Planner.Checks.{ValidatedRequest, earlier, screen}
use karu.Planner.Merge.{Growing, gather, begin_transfer, shared, close_transfer}
use karu.Planner.Transfers.{allocate_parts, plan_from, plan_transfers}
use karu.Planner.Validate.{IsRequest, IsValidated, validated_of, validated_of-IsValidated}
use karu.Planner.Screen.{is_served, is_readable_sound, Refuses, screen_lem}
use karu.Planner.Slices.{
  Slice, slice_of, part_slice, slices, slice_less, same_backend_sound, earlier-IsStrictWeak,
}
use karu.Planner.Grow.{Follows, gather_rule, slices-gather}
use karu.Planner.Memory.{Backs, allocate_parts-Backs, Backs-slices}

abbrev pub all_slices : List Transfer → List Slice
all_slices [] = []
all_slices (t ∷ ts) = slices t ++ all_slices ts

-- What the loop is given: validated requests in the planner's order.
abbrev pub IsQueue : List ValidatedRequest → Type 0
IsQueue vs = Ordered (λ v w. NotLess slice_less (slice_of v) (slice_of w)) vs × All IsValidated vs

pub All-Follows :
    (head : ValidatedRequest) (rest : List ValidatedRequest)
    → All (λ w. NotLess slice_less (slice_of head) (slice_of w)) rest
    → All IsValidated rest
    → All (Follows head) rest
All-Follows head [] _ _ = tt
All-Follows head (c ∷ rest) (o, os) (v, vs) = ((o, omega arith), All-Follows head rest os vs)

-- The shared locator is of the head's object.
pub shared-object :
    (l : Option Locator) (head : Locator)
    → ((shared l head).resolved.backend ≡ head.resolved.backend)
      × ((shared l head).resolved.canonical_uri ≡ head.resolved.canonical_uri)
unfolding shared
shared-object none head = (refl, refl)
shared-object (some l) head = ground (
  arith,
  same_backend_sound l.resolved.backend head.resolved.backend,
  text_eq_sound l.resolved.canonical_uri head.resolved.canonical_uri,
)

pub gather-rest :
    (options : ClientOptions) (head : ValidatedRequest) (rest : List ValidatedRequest) (g : Growing)
    → IsQueue rest
    → let left = (gather options head rest g).1 in IsQueue left × (length left ≤ length rest)
gather-rest options head rest g q =
    gather_rule options head (λ _ left. IsQueue left × (length left ≤ length rest))
      (λ g c left g' h m. ((h.0.0.1, h.0.1.1), omega arith)) rest g (q, omega arith)

module _ (malloc : ℕ → ℕ → Option ℕ) (options : ClientOptions) where
  -- A round of the loop that gets its buffers.
  pub plan_from_step :
      (fuel : ℕ) (head : ValidatedRequest) (rest : List ValidatedRequest) (calls : ℕ)
      (l : Option Locator) {parts : List Part} {n : ℕ}
      → let here = shared l head.request.locator in
        let out = gather options head rest (begin_transfer here head) in
        let later = plan_from malloc options fuel out.1 n (some here) in
        allocate_parts malloc calls out.0.transfer.parts ≡ some (parts, n)
        → plan_from malloc options (suc fuel) (head ∷ rest) calls l
          ≡ (later.0, close_transfer out.0 parts ∷ later.1)
  unfolding plan_from
  plan_from_step fuel head rest calls l e = rw (e, plan_from)

  pub plan_from_stop :
      (fuel : ℕ) (head : ValidatedRequest) (rest : List ValidatedRequest) (calls : ℕ)
      (l : Option Locator)
      → allocate_parts malloc calls
          (gather options head rest
            (begin_transfer (shared l head.request.locator) head)).0.transfer.parts
        ≡ none
      → plan_from malloc options (suc fuel) (head ∷ rest) calls l ≡ (err_nomem, [])
  unfolding plan_from
  plan_from_stop fuel head rest calls l e = rw (e, plan_from)

  -- Without a failed allocation the transfers read the requests one after the other.
  plan_from_slices :
      (fuel : ℕ) (vs : List ValidatedRequest) (calls : ℕ) (l : Option Locator)
      → length vs ≤ fuel
      → IsQueue vs
      → (plan_from malloc options fuel vs calls l).0 ≡ ok
      → all_slices (plan_from malloc options fuel vs calls l).1 ≡ map slice_of vs
  unfolding close_transfer
  plan_from_slices zero [] calls l h q s = unfold plan_from in refl
  plan_from_slices zero (v ∷ vs) calls l h q s = absurd (omega arith)
  plan_from_slices (suc fuel) [] calls l h q s = unfold plan_from in refl
  plan_from_slices (suc fuel) (head ∷ rest) calls l h ((o, os), (v, vs)) s =
      let here = shared l head.request.locator in
      let out = gather options head rest (begin_transfer here head) in
      let (q, shorter) = gather-rest options head rest (begin_transfer here head) (os, vs) in
      let (same_backend, same_uri) = shared-object l head.request.locator in
      let taken =
        slices-gather options here head rest same_backend same_uri (All-Follows head rest o vs) in
      elim (Option-cases (allocate_parts malloc calls out.0.transfer.parts)) [
        | inl e ↦ absurd (cc (plan_from_stop fuel head rest calls l e))
        | inr ((parts, n), e) ↦
            let step = plan_from_step fuel head rest calls l e in
            let later = plan_from_slices fuel out.1 n (some here) (omega arith) q (rw step at s) in
            let backed =
              Backs-slices out.0.transfer _ parts (allocate_parts-Backs malloc calls _ parts n e) in
            rw step (ap (◌++◌ (map (part_slice out.0.transfer) parts)) later ∙ rw backed taken)
      ]

  -- What holds of each closed group holds of each transfer, also where an allocation fails later.
  pub plan_from_rule {ℓ} :
      (T : Transfer → Type ℓ)
      → ((head : ValidatedRequest) (rest : List ValidatedRequest) (l : Locator) (parts : List Part)
          → IsQueue (head ∷ rest)
          → (l.resolved.backend ≡ head.request.locator.resolved.backend)
          → (l.resolved.canonical_uri ≡ head.request.locator.resolved.canonical_uri)
          → let g = (gather options head rest (begin_transfer l head)).0 in
            All₂ Backs g.transfer.parts parts → T (close_transfer g parts))
      → (fuel : ℕ) (vs : List ValidatedRequest) (calls : ℕ) (l : Option Locator) → IsQueue vs
      → All T (plan_from malloc options fuel vs calls l).1
  plan_from_rule T each zero [] calls l q = unfold plan_from in tt
  plan_from_rule T each zero (head ∷ rest) calls l q = unfold plan_from in tt
  plan_from_rule T each (suc fuel) [] calls l q = unfold plan_from in tt
  plan_from_rule T each (suc fuel) (head ∷ rest) calls l q =
      let here = shared l head.request.locator in
      let out = gather options head rest (begin_transfer here head) in
      let (left, _) = gather-rest options head rest (begin_transfer here head) (q.0.1, q.1.1) in
      let (same_backend, same_uri) = shared-object l head.request.locator in
      elim (Option-cases (allocate_parts malloc calls out.0.transfer.parts)) [
        | inl e ↦ rw (plan_from_stop fuel head rest calls l e) tt
        | inr ((parts, n), e) ↦ rw (plan_from_step fuel head rest calls l e) (
          each head rest here parts q same_backend same_uri
              (allocate_parts-Backs malloc calls _ parts n e),
          plan_from_rule T each fuel out.1 n (some here) left,
        )
      ]

-- The bytes of the object that a request asks for.
abbrev pub request_slice : Request → Slice
request_slice r = record {
  backend = r.locator.resolved.backend;
  canonical_uri = r.locator.resolved.canonical_uri;
  if_match = r.if_match;
  offset = r.locator.resolved.window_offset + r.offset;
  length = r.length;
  tag = r.tag;
}

select-IsValidated :
    (rs : List Request)
    → All IsRequest rs
    → All IsValidated (map validated_of (select is_served rs))
select-IsValidated [] _ = tt
select-IsValidated (r ∷ rs) (w, ws) = elim (Bool-cases (is_served r)) [
  | inl e ↦
      let readable = is_readable_sound r (ground arith) in
      rw e (validated_of-IsValidated r w readable, select-IsValidated rs ws)
  | inr e ↦ rw e (select-IsValidated rs ws)
]

pub plan-IsQueue :
    (rs : List Request) → All IsRequest rs → IsQueue (stable_sort earlier (screen rs).0)
unfolding earlier
plan-IsQueue rs ws = (
  stable_sort-Ordered earlier earlier-IsStrictWeak (screen rs).0,
  All-stable_sort earlier IsValidated (screen rs).0
      (rw ((screen_lem rs ws).0) (select-IsValidated rs ws)),
)

slices-map : (rs : List Request) → map slice_of (map validated_of rs) ≡ map request_slice rs
slices-map [] = refl
slices-map (r ∷ rs) = ap (◌∷◌ (request_slice r)) (slices-map rs)

-- A plan without a failed allocation reads, for each request that is served, exactly its bytes of
-- its object under its precondition, once; the other requests have a completion each, in order.
pub plan_transfers-serves :
    (malloc : ℕ → ℕ → Option ℕ) (options : ClientOptions) (rs : List Request)
    → All IsRequest rs
    → let out = plan_transfers malloc rs options in
      out.1 ≡ ok
      → Perm (all_slices out.0.transfers) (map request_slice (select is_served rs))
        × All₂ Refuses (select (λ r. not (is_served r)) rs) out.0.immediate
unfolding plan_transfers
plan_transfers-serves malloc options rs ws s =
    let valid = (screen rs).0 in
    let sorted = stable_sort earlier valid in
    let reads =
      plan_from_slices malloc options (length sorted) sorted 0 none (omega arith)
        (plan-IsQueue rs ws) s in
    (
      rw (reads, ← slices-map (select is_served rs), ← (screen_lem rs ws).0)
          (Perm.map slice_of (stable_sort-perm earlier valid)),
      (screen_lem rs ws).1,
    )
