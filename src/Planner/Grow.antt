-- ===== src/Planner/Grow.antt =====
-- The loop that grows a transfer: each round that goes on takes the next request as it stands.
use karu.Base.{
  ℕ, ◌≤◌, ◌≡◌, ap, ◌∙◌, true, false, some, List, [], ◌∷◌, ◌++◌, map, map-append, append_assoc, All,
  arith, u64_max, add64, sub64, ◌==◌, max, ltb, inl, inr, Option-cases, Bool-cases,
}
use karu.Order.{NotLess}
use karu.Transfer.{ClientOptions, Locator}
use karu.Planner.Checks.{ValidatedRequest, same_resource}
use karu.Planner.Merge.{
  Growing, part_at, gap_for, too_far, merged_useful, over_limit, absorb, merge, grow,
  begin_transfer, gather,
}
use karu.Planner.Slices.{
  Slice, slice_of, part_slice, slices, slice_less, offset_le, same_resource_sound,
}

-- A merge has passed every test.
pub record Merges (options : ClientOptions) (head : ValidatedRequest) (g : Growing)
    (c : ValidatedRequest) (g' : Growing) : Type 0 where
  pub same : same_resource head.request c.request ≡ true
  pub near : too_far (gap_for options head) g c ≡ false
  pub no_wrap : (sub64 (max g.last_byte c.last_byte) g.transfer.offset == u64_max) ≡ false
  pub limits :
      over_limit options g
        (add64 (sub64 (max g.last_byte c.last_byte) g.transfer.offset) 1)
        (merged_useful g c)
      ≡ false
  pub result : g' ≡ absorb g c (max g.last_byte c.last_byte) (merged_useful g c)

pub merge-Merges :
    (options : ClientOptions) (head : ValidatedRequest) (g : Growing) (c : ValidatedRequest)
    {g' : Growing}
    → merge options head g c ≡ some g'
    → Merges options head g c g'
unfolding merge
merge-Merges options head g c h = ground arith

-- A growing transfer starts at its head and is of the head's resource.
pub record HasHead (head : ValidatedRequest) (g : Growing) : Type 0 where
  pub offset : g.transfer.offset ≡ head.absolute_offset
  pub backend : g.transfer.locator.resolved.backend ≡ head.request.locator.resolved.backend
  pub canonical_uri :
      g.transfer.locator.resolved.canonical_uri ≡ head.request.locator.resolved.canonical_uri
  pub if_match : g.transfer.if_match ≡ head.request.if_match

absorb-HasHead :
    (head : ValidatedRequest) (g : Growing) (c : ValidatedRequest) (last useful : ℕ)
    → HasHead head g
    → HasHead head (absorb g c last useful)
unfolding absorb
absorb-HasHead head g c last useful h = ground arith

-- What `sub64` gives for the relative offset is exact, since the head is not behind.
slices-absorb :
    (head : ValidatedRequest) (g : Growing) (c : ValidatedRequest) (last useful : ℕ)
    → HasHead head g
    → same_resource head.request c.request ≡ true
    → NotLess slice_less (slice_of head) (slice_of c)
    → c.absolute_offset ≤ u64_max
    → slices (absorb g c last useful).transfer ≡ slices g.transfer ++ slice_of c ∷ []
unfolding absorb
slices-absorb head g c last useful k same order fits =
    map-append (part_slice g.transfer) g.transfer.parts _
    ∙ ap (λ s. slices g.transfer ++ s ∷ []) exact
  where
    exact :
        part_slice g.transfer (part_at (sub64 c.absolute_offset g.transfer.offset) c) ≡ slice_of c
    exact = ground (
      arith,
      same_resource_sound head.request c.request,
      offset_le (slice_of head) (slice_of c) order,
    )

-- The head is not behind any of the requests, and their offsets are uint64_t.
abbrev pub Follows : ValidatedRequest → ValidatedRequest → Type 0
Follows head c = NotLess slice_less (slice_of head) (slice_of c) × (c.absolute_offset ≤ u64_max)

-- The invariant rule of the loop, with coalescing on or off: `P` speaks of the transfer and of the
-- requests that are left.
module _ {ℓ} (options : ClientOptions) (head : ValidatedRequest)
    (P : Growing → List ValidatedRequest → Type ℓ)
    (keep : (g : Growing) (c : ValidatedRequest) (rest : List ValidatedRequest) (g' : Growing)
      → P g (c ∷ rest)
      → Merges options head g c g'
      → P g' rest) where
  grow_rule :
      (rest : List ValidatedRequest) (g : Growing)
      → P g rest
      → P (grow options head rest g).0 (grow options head rest g).1
  unfolding grow
  grow_rule [] g h = h
  grow_rule (c ∷ rest) g h = elim (Option-cases (merge options head g c)) [
    | inl e ↦ rw (e, grow) h
    | inr (g', e) ↦
        rw (e, grow) (grow_rule rest g' (keep g c rest g' h (merge-Merges options head g c e)))
  ]

  pub gather_rule :
      (rest : List ValidatedRequest) (g : Growing)
      → P g rest
      → P (gather options head rest g).0 (gather options head rest g).1
  unfolding gather
  gather_rule rest g h = elim (Bool-cases (ltb 0 options.coalesce_gap)) [
    | inl e ↦ rw e (grow_rule rest g h)
    | inr e ↦ rw e h
  ]

-- The requests that a transfer reads for, and the ones left.
record Splits (head : ValidatedRequest) (all : List Slice) (g : Growing)
    (rest : List ValidatedRequest) : Type 0 where
  has_head : HasHead head g
  follows : All (Follows head) rest
  exact : slices g.transfer ++ map slice_of rest ≡ all

merge-Splits :
    (options : ClientOptions) (head : ValidatedRequest) (all : List Slice) (g : Growing)
    (c : ValidatedRequest) (rest : List ValidatedRequest) (g' : Growing)
    → Splits head all g (c ∷ rest)
    → Merges options head g c g'
    → Splits head all g' rest
merge-Splits options head all g c rest g' s m = rw m.result (record {
  has_head = absorb-HasHead head g c _ _ s.has_head;
  follows = s.follows.1;
  exact =
      rw (slices-absorb head g c _ _ s.has_head m.same s.follows.0.0 s.follows.0.1, append_assoc)
        s.exact;
})

begin-Splits :
    (options : ClientOptions) (locator : Locator) (head : ValidatedRequest)
    (rest : List ValidatedRequest)
    → locator.resolved.backend ≡ head.request.locator.resolved.backend
    → locator.resolved.canonical_uri ≡ head.request.locator.resolved.canonical_uri
    → All (Follows head) rest
    → Splits head (slice_of head ∷ map slice_of rest) (begin_transfer locator head) rest
unfolding begin_transfer
begin-Splits options locator head rest e f h = record {
  has_head = ground arith;
  follows = h;
  exact = ground arith;
}

-- The loop takes requests from the front, in order, and reads for each exactly what it asks.
pub slices-gather :
    (options : ClientOptions) (locator : Locator) (head : ValidatedRequest)
    (rest : List ValidatedRequest)
    → locator.resolved.backend ≡ head.request.locator.resolved.backend
    → locator.resolved.canonical_uri ≡ head.request.locator.resolved.canonical_uri
    → All (Follows head) rest
    → let out = gather options head rest (begin_transfer locator head) in
      slices out.0.transfer ++ map slice_of out.1 ≡ slice_of head ∷ map slice_of rest
slices-gather options locator head rest e f h =
    (gather_rule options head (Splits head (slice_of head ∷ map slice_of rest))
      (merge-Splits options head _) rest (begin_transfer locator head)
      (begin-Splits options locator head rest e f h)).exact
