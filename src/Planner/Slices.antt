-- ===== src/Planner/Slices.antt =====
-- What a part of a transfer reads, and what a request asks for: bytes of an object under a
-- precondition, for a tag. The planner's order is an order of these.
use karu.Base.{
  ℕ, ◌+◌, ◌≤◌, ◌≡◌, refl, Bool, true, List, map, Bytes, text_eq_sound, text_less, ltb, arith,
}
use karu.Order.{
  lex, IsStrictWeak, lex-IsStrictWeak, by-IsStrictWeak, ltb-IsStrictWeak, text_less-IsStrictWeak,
  NotLess,
}
use karu.Uri.{Backend, rank, same_backend}
use karu.Transfer.{Request, Part, Transfer}
use karu.Planner.Checks.{ValidatedRequest, same_resource, earlier}

pub record Slice : Type 0 where
  pub backend : Backend
  pub canonical_uri : Bytes
  pub if_match : Bytes
  pub offset : ℕ
  pub length : ℕ
  pub tag : ℕ

abbrev pub slice_of : ValidatedRequest → Slice
slice_of v = record {
  backend = v.request.locator.resolved.backend;
  canonical_uri = v.request.locator.resolved.canonical_uri;
  if_match = v.request.if_match;
  offset = v.absolute_offset;
  length = v.request.length;
  tag = v.request.tag;
}

-- The bytes that a part of a transfer takes, as offsets in the object.
abbrev pub part_slice : Transfer → Part → Slice
part_slice t p = record {
  backend = t.locator.resolved.backend;
  canonical_uri = t.locator.resolved.canonical_uri;
  if_match = t.if_match;
  offset = t.offset + p.relative_offset;
  length = p.length;
  tag = p.tag;
}

abbrev pub slices : Transfer → List Slice
slices t = map (part_slice t) t.parts

rank_injective : (a b : Backend) → rank a ≡ rank b → a ≡ b
rank_injective a b h = ground arith

pub same_backend_sound : (a b : Backend) → same_backend a b ≡ true → a ≡ b
same_backend_sound a b h = ground (arith, rank_injective a b)

-- Requests of one resource have the same backend, canonical URI and precondition.
pub same_resource_sound :
    (a b : Request)
    → same_resource a b ≡ true
    → (a.locator.resolved.backend ≡ b.locator.resolved.backend)
      × (a.locator.resolved.canonical_uri ≡ b.locator.resolved.canonical_uri)
      × (a.if_match ≡ b.if_match)
unfolding same_resource
same_resource_sound a b h = ground (
  arith,
  same_backend_sound a.locator.resolved.backend b.locator.resolved.backend,
  text_eq_sound a.locator.resolved.canonical_uri b.locator.resolved.canonical_uri,
  text_eq_sound a.if_match b.if_match,
)

-- `earlier` on what it reads.
abbrev pub slice_less : Slice → Slice → Bool
slice_less =
    lex
      (lex (λ a b. ltb (rank a.backend) (rank b.backend))
        (lex (λ a b. text_less a.canonical_uri b.canonical_uri)
          (λ a b. text_less a.if_match b.if_match)))
      (λ a b. ltb a.offset b.offset)

pub slice_less-IsStrictWeak : IsStrictWeak slice_less
slice_less-IsStrictWeak =
    lex-IsStrictWeak _ _
      (lex-IsStrictWeak _ _ (by-IsStrictWeak (λ (a : Slice). rank a.backend) ltb ltb-IsStrictWeak) (
        lex-IsStrictWeak _ _
          (by-IsStrictWeak (λ (a : Slice). a.canonical_uri) text_less text_less-IsStrictWeak)
          (by-IsStrictWeak (λ (a : Slice). a.if_match) text_less text_less-IsStrictWeak)))
      (by-IsStrictWeak (λ (a : Slice). a.offset) ltb ltb-IsStrictWeak)

pub earlier-slice_less : earlier ≡ (λ v w. slice_less (slice_of v) (slice_of w))
unfolding earlier
earlier-slice_less = refl

pub earlier-IsStrictWeak : IsStrictWeak earlier
unfolding earlier
earlier-IsStrictWeak = by-IsStrictWeak slice_of slice_less slice_less-IsStrictWeak

-- Within one resource the order is that of the offsets.
pub offset_le :
    (a b : Slice)
    → NotLess slice_less a b
    → a.backend ≡ b.backend
    → a.canonical_uri ≡ b.canonical_uri
    → a.if_match ≡ b.if_match
    → a.offset ≤ b.offset
offset_le a b h e f g = ground (
  arith,
  text_less-IsStrictWeak.asym b.canonical_uri a.canonical_uri,
  text_less-IsStrictWeak.asym b.if_match a.if_match,
)
