-- ===== src/Planner/Limits.antt =====
-- The limits that the options set on a coalesced transfer.
use karu.Base.{
  ℕ, suc, ◌+◌, ◌-◌, ◌*◌, ◌/◌, ◌≤◌, ◌<◌, ◌≡◌, ◌⊎◌, inl, inr, refl, ◌++◌, false, Option, List, [],
  ◌∷◌, length, length-append, All, All₂, arith, u64_max, max, add64, sub64, mul64, ltb, ltb→lt,
  ltb→le, Bool-cases,
}
use native.Mathlib.Nat.{div-lt_iff_lt-mul, le-div_iff_mul-le}
use karu.Transfer.{ClientOptions, Locator, Request, Part}
use karu.Planner.Checks.{ValidatedRequest}
use karu.Planner.Merge.{
  Growing, gather, begin_transfer, absorb, close_transfer, merged_useful, part_at, over_limit,
  excessive_amplification,
}
use karu.Planner.Transfers.{plan_transfers}
use karu.Planner.Validate.{IsRequest}
use karu.Planner.Grow.{Merges, gather_rule}
use karu.Planner.Memory.{Backs, Backs-length}
use karu.Planner.Serves.{IsQueue, plan_from_rule, plan-IsQueue}
use karu.Planner.Bounds.{Spans, merge-Spans, begin-Spans}

-- The bytes that the parts ask for, overlaps counted twice.
abbrev pub useful : List Part → ℕ
useful [] = 0
useful (p ∷ ps) = p.length + useful ps

pub useful-append : (ps qs : List Part) → useful (ps ++ qs) ≡ useful ps + useful qs
useful-append [] qs = omega arith
useful-append (p ∷ ps) qs = omega (arith, useful-append ps qs)

-- A transfer for several requests stays in all three limits.
abbrev pub Limited : ClientOptions → ℕ → List Part → Type 0
Limited options len parts =
    (length parts ≡ 1)
    ⊎ ((length parts ≤ options.coalesce_parts)
        × (len ≤ options.coalesce_limit)
        × (len ≤ useful parts * options.coalesce_amplification))

mul-mono_left : (m n k : ℕ) → m ≤ n → m * k ≤ n * k
mul-mono_left m n k h = grind arith

-- The test divides, so that the product cannot wrap around.
excessive_amplification-false :
    (span bytes useful maximum : ℕ)
    → 0 < maximum
    → span ≤ u64_max
    → useful ≤ bytes
    → excessive_amplification span useful maximum ≡ false
    → span ≤ bytes * maximum
unfolding excessive_amplification
excessive_amplification-false span bytes useful maximum h fits le e =
    let wider = mul-mono_left useful bytes maximum le in
    elim (Bool-cases (ltb (u64_max / maximum) useful)) [
      | inl t ↦
          let large =
            (div-lt_iff_lt-mul {k = maximum} {x = u64_max} {y = useful} h).0 (ltb→lt _ _ t) in
          omega arith
      | inr t ↦
          let small =
            (le-div_iff_mul-le {k = maximum} {x = useful} {y = u64_max} h).0 (ltb→le _ _ t) in
          let exact : mul64 useful maximum ≡ useful * maximum = omega arith in
          let bounded = ltb→le (mul64 useful maximum) span (rw t at e) in omega arith
    ]

-- The options that the API accepts.
pub record IsOptions (options : ClientOptions) : Type 0 where
  pub some_part : 0 < options.coalesce_parts
  pub some_amplification : 0 < options.coalesce_amplification

record Counts (options : ClientOptions) (head : ValidatedRequest) (g : Growing)
    (rest : List ValidatedRequest) : Type 0 where
  spans : Spans head g rest
  useful_fits : g.useful_bytes ≤ u64_max
  useful_le : g.useful_bytes ≤ useful g.transfer.parts
  parts_le : length g.transfer.parts ≤ options.coalesce_parts
  limited : Limited options (suc g.last_byte - head.absolute_offset) g.transfer.parts

merged_useful-le :
    (g : Growing) (c : ValidatedRequest)
    → g.useful_bytes ≤ u64_max
    → c.request.length ≤ u64_max
    → (merged_useful g c ≤ u64_max) × (merged_useful g c ≤ g.useful_bytes + c.request.length)
unfolding merged_useful
merged_useful-le g c h k = ground arith

over_limit-false :
    (options : ClientOptions) (g : Growing) (span bytes useful : ℕ)
    → IsOptions options
    → span ≤ u64_max
    → useful ≤ bytes
    → length g.transfer.parts ≤ options.coalesce_parts
    → over_limit options g span useful ≡ false
    → (suc (length g.transfer.parts) ≤ options.coalesce_parts)
      × (span ≤ options.coalesce_limit)
      × (span ≤ bytes * options.coalesce_amplification)
unfolding over_limit
over_limit-false options g span bytes useful o fits le parts e = ground (
  arith,
  excessive_amplification-false span bytes useful options.coalesce_amplification
      o.some_amplification fits le,
)

merge-Counts :
    (options : ClientOptions) (head : ValidatedRequest)
    → IsOptions options
    → (g : Growing) (c : ValidatedRequest) (rest : List ValidatedRequest) (g' : Growing)
    → Counts options head g (c ∷ rest)
    → Merges options head g c g'
    → Counts options head g' rest
unfolding absorb
merge-Counts options head o g c rest g' n m =
    let (useful_fits, useful_le) = merged_useful-le g c n.useful_fits n.spans.valid.0.length_fits in
    let spans = rw m.result at (merge-Spans options head g c rest g' n.spans m) in
    let last = max g.last_byte c.last_byte in
    let span : add64 (sub64 last g.transfer.offset) 1 ≡ suc last - head.absolute_offset =
      omega (arith, spans.no_wrap, spans.reaches, spans.fits, spans.start) in
    let part = part_at (sub64 c.absolute_offset g.transfer.offset) c in
    let sum : useful (g.transfer.parts ++ part ∷ []) ≡ useful g.transfer.parts + c.request.length =
      omega (arith, useful-append g.transfer.parts (part ∷ [])) in
    let count = length-append g.transfer.parts (part ∷ []) in
    let (parts, limit, dense) =
      over_limit-false options g _ (useful g.transfer.parts + c.request.length) (merged_useful g c)
        o (omega arith) (omega arith) n.parts_le m.limits in
    rw m.result (record {
      spans = spans;
      useful_fits = useful_fits;
      useful_le = omega arith;
      parts_le = omega arith;
      limited = inr (omega arith, omega arith, rw (sum, ← span) dense);
    })

begin-Counts :
    (options : ClientOptions) (l : Locator) (head : ValidatedRequest) (rest : List ValidatedRequest)
    → IsOptions options
    → IsQueue (head ∷ rest)
    → Counts options head (begin_transfer l head) rest
unfolding begin_transfer
begin-Counts options l head rest o q = record {
  spans = begin-Spans l head rest q;
  useful_fits = q.1.0.length_fits;
  useful_le = omega arith;
  parts_le = o.some_part;
  limited = inl refl;
}

Backs-useful : (ps qs : List Part) → All₂ Backs ps qs → useful qs ≡ useful ps
Backs-useful [] [] _ = refl
Backs-useful [] (q ∷ qs) h = absurd h
Backs-useful (p ∷ ps) [] h = absurd h
Backs-useful (p ∷ ps) (q ∷ qs) (b, bs) = omega (arith, Backs-useful ps qs bs)

close-Limited :
    (options : ClientOptions)
    → IsOptions options
    → (head : ValidatedRequest) (rest : List ValidatedRequest) (l : Locator) (parts : List Part)
    → IsQueue (head ∷ rest)
    → (l.resolved.backend ≡ head.request.locator.resolved.backend)
    → (l.resolved.canonical_uri ≡ head.request.locator.resolved.canonical_uri)
    → let g = (gather options head rest (begin_transfer l head)).0 in
      All₂ Backs g.transfer.parts parts
      → Limited options (close_transfer g parts).length (close_transfer g parts).parts
unfolding close_transfer
close-Limited options o head rest l parts q b u backs =
    let out = gather options head rest (begin_transfer l head) in
    let n =
      gather_rule options head (Counts options head) (merge-Counts options head o) rest
        (begin_transfer l head) (begin-Counts options l head rest o q) in
    let len : add64 (sub64 out.0.last_byte out.0.transfer.offset) 1
        ≡ suc out.0.last_byte - head.absolute_offset =
      omega (arith, n.spans.start, n.spans.reaches, n.spans.fits, n.spans.no_wrap) in
    rw (len, Backs-length _ parts backs, Backs-useful _ parts backs) n.limited

-- A transfer for several requests has at most `coalesce_parts` of them, is at most `coalesce_limit`
-- long, and at most `coalesce_amplification` times as long as what its requests ask for together.
pub plan_transfers-Limited :
    (malloc : ℕ → ℕ → Option ℕ) (options : ClientOptions) (rs : List Request)
    → IsOptions options
    → All IsRequest rs
    → All (λ t. Limited options t.length t.parts) (plan_transfers malloc rs options).0.transfers
unfolding plan_transfers
plan_transfers-Limited malloc options rs o ws =
    plan_from_rule malloc options (λ t. Limited options t.length t.parts) (close-Limited options o)
      _ _ 0 _ (plan-IsQueue rs ws)
