-- ===== src/Planner/Bounds.antt =====
-- Where the parts of a transfer lie in it.
use karu.Base.{
  ℕ, suc, ◌+◌, ◌-◌, ◌^◌, ◌≤◌, ◌<◌, ◌≡◌, refl, true, false, Option, List, [], ◌∷◌, map, All, All-imp,
  All-append, All₂, Ordered, Ordered-map, Ordered-map_inv, Ordered-append_left, Ordered-imp, arith,
  u64_max, max, add64, sub64,
}
use karu.Order.{NotLess}
use karu.Transfer.{ClientOptions, Locator, Request, Part, Transfer}
use karu.Planner.Checks.{ValidatedRequest, same_resource}
use karu.Planner.Merge.{Growing, gather, begin_transfer, absorb, close_transfer, is_scattered}
use karu.Planner.Transfers.{plan_transfers}
use karu.Planner.Validate.{IsRequest, IsValidated}
use karu.Planner.Slices.{slice_of, part_slice, slices, slice_less, offset_le, same_resource_sound}
use karu.Planner.Grow.{Merges, Follows, gather_rule, slices-gather}
use karu.Planner.Memory.{Backs, Backs-slices}
use karu.Planner.Serves.{IsQueue, All-Follows, plan_from_rule, plan-IsQueue}

-- A part lies in a transfer of `len` bytes.
abbrev pub Inside : ℕ → Part → Type 0
Inside len p = (0 < p.length) × (p.relative_offset + p.length ≤ len)

-- The transfer spans its parts so far, and its length is a uint64_t.
pub record Spans (head : ValidatedRequest) (g : Growing) (rest : List ValidatedRequest)
    : Type 0 where
  pub start : g.transfer.offset ≡ head.absolute_offset
  pub reaches : head.absolute_offset ≤ g.last_byte
  pub fits : g.last_byte ≤ u64_max
  pub no_wrap : g.last_byte - head.absolute_offset < u64_max
  pub inside : All (Inside (suc g.last_byte - head.absolute_offset)) g.transfer.parts
  pub valid : All IsValidated rest
  pub behind : All (Follows head) rest

-- The head is not behind a request that is merged with it.
pub head-le :
    (head c : ValidatedRequest)
    → Follows head c
    → same_resource head.request c.request ≡ true
    → head.absolute_offset ≤ c.absolute_offset
head-le head c (order, _) same =
    let (b, u, i) = same_resource_sound head.request c.request same in
    offset_le (slice_of head) (slice_of c) order b u i

Inside-mono : {m n : ℕ} (p : Part) → m ≤ n → Inside m p → Inside n p
Inside-mono p h k = omega arith

pub merge-Spans :
    (options : ClientOptions) (head : ValidatedRequest) (g : Growing) (c : ValidatedRequest)
    (rest : List ValidatedRequest) (g' : Growing)
    → Spans head g (c ∷ rest)
    → Merges options head g c g'
    → Spans head g' rest
unfolding absorb
merge-Spans options head g c rest g' s m =
    let order = head-le head c s.behind.0 m.same in
    let v = s.valid.0 in
    let last = max g.last_byte c.last_byte in
    let wider =
      All-imp (Inside (suc g.last_byte - head.absolute_offset))
        (Inside (suc last - head.absolute_offset)) (λ p. Inside-mono p (omega arith))
        g.transfer.parts s.inside in
    rw m.result (record {
      start = s.start;
      reaches = omega arith;
      fits = omega arith;
      no_wrap = ground arith;
      inside =
          All-append (Inside (suc last - head.absolute_offset)) g.transfer.parts _ wider
            ((omega arith, omega arith), tt);
      valid = s.valid.1;
      behind = s.behind.1;
    })

pub begin-Spans :
    (l : Locator) (head : ValidatedRequest) (rest : List ValidatedRequest)
    → IsQueue (head ∷ rest)
    → Spans head (begin_transfer l head) rest
unfolding begin_transfer
begin-Spans l head rest ((o, os), (v, vs)) = record {
  start = refl;
  reaches = omega arith;
  fits = omega arith;
  no_wrap = omega arith;
  inside = ((omega arith, omega arith), tt);
  valid = vs;
  behind = All-Follows head rest o vs;
}

-- A transfer that the scatter can fill: its bytes are in the range of a uint64_t, each part lies in
-- it, the parts are in the order of their offsets, and a transfer that is not scattered is its part.
pub record IsLaidOut (t : Transfer) : Type 0 where
  pub not_empty : 0 < t.length
  pub fits : t.offset + t.length ≤ 2 ^ 64
  pub length_fits : t.length ≤ u64_max
  pub inside : All (Inside t.length) t.parts
  pub in_order : Ordered (λ p q. p.relative_offset ≤ q.relative_offset) t.parts
  pub direct :
      t.scattered ≡ false
      → (p : Part) × (t.parts ≡ p ∷ []) × (p.relative_offset ≡ 0) × (p.length ≡ t.length)

Backs-Inside :
    (len : ℕ) (ps qs : List Part) → All₂ Backs ps qs → All (Inside len) ps → All (Inside len) qs
Backs-Inside len [] [] _ _ = tt
Backs-Inside len [] (q ∷ qs) h _ = absurd h
Backs-Inside len (p ∷ ps) [] h _ = absurd h
Backs-Inside len (p ∷ ps) (q ∷ qs) (b, bs) (i, is) = (omega arith, Backs-Inside len ps qs bs is)

is_scattered-false :
    (ps : List Part) (len : ℕ)
    → is_scattered ps len ≡ false
    → (p : Part) × (ps ≡ p ∷ []) × (p.relative_offset ≡ 0) × (p.length ≡ len)
unfolding is_scattered
is_scattered-false [] len h = cc
is_scattered-false (p ∷ []) len h = (p, refl, ground arith, ground arith)
is_scattered-false (p ∷ q ∷ ps) len h = cc

-- The parts of one transfer are in the order of their slices.
part_slices-Ordered :
    (t : Transfer) (ps : List Part)
    → Ordered (NotLess slice_less) (map (part_slice t) ps)
    → Ordered (λ p q. p.relative_offset ≤ q.relative_offset) ps
part_slices-Ordered t ps h =
    Ordered-imp (λ p q. NotLess slice_less (part_slice t p) (part_slice t q))
      (λ p q. p.relative_offset ≤ q.relative_offset)
      (λ p q n. omega (arith, offset_le (part_slice t p) (part_slice t q) n refl refl refl)) ps
      (Ordered-map_inv (part_slice t) (NotLess slice_less) ps h)

close-IsLaidOut :
    (options : ClientOptions) (head : ValidatedRequest) (rest : List ValidatedRequest) (l : Locator)
    (parts : List Part)
    → IsQueue (head ∷ rest)
    → (l.resolved.backend ≡ head.request.locator.resolved.backend)
    → (l.resolved.canonical_uri ≡ head.request.locator.resolved.canonical_uri)
    → let g = (gather options head rest (begin_transfer l head)).0 in
      All₂ Backs g.transfer.parts parts → IsLaidOut (close_transfer g parts)
unfolding close_transfer
close-IsLaidOut options head rest l parts q b u backs =
    let out = gather options head rest (begin_transfer l head) in
    let s =
      gather_rule options head (Spans head) (merge-Spans options head) rest (begin_transfer l head)
        (begin-Spans l head rest q) in
    let taken = slices-gather options l head rest b u (All-Follows head rest q.0.0 q.1.1) in
    let len : add64 (sub64 out.0.last_byte out.0.transfer.offset) 1
        ≡ suc out.0.last_byte - head.absolute_offset =
      omega arith in
    let sorted = Ordered-map slice_of (NotLess slice_less) (head ∷ rest) q.0 in
    record {
      not_empty = omega arith;
      fits = omega arith;
      length_fits = omega arith;
      inside = rw len (Backs-Inside _ out.0.transfer.parts parts backs s.inside);
      in_order = part_slices-Ordered out.0.transfer parts (
          rw (Backs-slices out.0.transfer _ parts backs) (
            Ordered-append_left (NotLess slice_less) (slices out.0.transfer) (map slice_of out.1)
              (rw taken sorted)));
      direct = is_scattered-false parts _;
    }

-- Every transfer of a plan is laid out, also of a plan that an allocation cut short.
pub plan_transfers-IsLaidOut :
    (malloc : ℕ → ℕ → Option ℕ) (options : ClientOptions) (rs : List Request)
    → All IsRequest rs
    → All IsLaidOut (plan_transfers malloc rs options).0.transfers
unfolding plan_transfers
plan_transfers-IsLaidOut malloc options rs ws =
    plan_from_rule malloc options IsLaidOut (close-IsLaidOut options) _ _ 0 _ (plan-IsQueue rs ws)
