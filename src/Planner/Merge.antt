-- ===== src/Planner/Merge.antt =====
-- runtime/planner.cpp: the loop that grows a transfer by the requests that follow its first one.
use karu.Base.{
  ℕ, ◌/◌, max, Bool, true, false, not, ◌&&◌, ◌||◌, Option, none, some, List, [], ◌∷◌, ◌++◌, text_eq,
  length, ltb, ◌==◌, if◌then◌else◌, u64_max, add64, sub64, mul64,
}
use karu.Uri.{file, same_backend}
use karu.Transfer.{Locator, Part, Transfer, ClientOptions}
use karu.Planner.Checks.{ValidatedRequest, same_resource}

unfoldable pub excessive_amplification : ℕ → ℕ → ℕ → Bool
excessive_amplification span useful maximum =
    if ltb (u64_max / maximum) useful then false else ltb (mul64 useful maximum) span

-- The variables of the loop that grows a transfer.
pub record Growing : Type 0 where
  pub transfer : Transfer
  pub last_byte : ℕ
  pub useful_bytes : ℕ

abbrev pub part_at : ℕ → ValidatedRequest → Part
part_at relative_offset v = record {
  relative_offset = relative_offset;
  length = v.request.length;
  buffer = v.request.buffer;
  tag = v.request.tag;
  owned = false;
}

-- A transfer with the head of a group as its only part.
unfoldable pub begin_transfer : Locator → ValidatedRequest → Growing
begin_transfer locator head = record {
  transfer = record {
    locator = locator;
    offset = head.absolute_offset;
    length = head.request.length;
    parts = part_at 0 head ∷ [];
    if_match = head.request.if_match;
    scattered = false;
  };
  last_byte = head.last_byte;
  useful_bytes = head.request.length;
}

-- A local file is not read through gaps.
unfoldable pub gap_for : ClientOptions → ValidatedRequest → ℕ
gap_for options head =
    if same_backend head.request.locator.resolved.backend file then 0 else options.coalesce_gap

unfoldable pub too_far : ℕ → Growing → ValidatedRequest → Bool
too_far gap g candidate =
    ltb g.last_byte candidate.absolute_offset
    && ltb gap (sub64 (sub64 candidate.absolute_offset g.last_byte) 1)

unfoldable pub merged_useful : Growing → ValidatedRequest → ℕ
merged_useful g candidate =
    if ltb (sub64 u64_max g.useful_bytes) candidate.request.length
    then u64_max
    else add64 g.useful_bytes candidate.request.length

-- The limits on a merged transfer of `merged_length` bytes.
unfoldable pub over_limit : ClientOptions → Growing → ℕ → ℕ → Bool
unfolding excessive_amplification
over_limit options g merged_length useful =
    (length g.transfer.parts == options.coalesce_parts)
    || ltb options.coalesce_limit merged_length
    || excessive_amplification merged_length useful options.coalesce_amplification

unfoldable pub absorb : Growing → ValidatedRequest → ℕ → ℕ → Growing
absorb g candidate merged_last useful = record {
  transfer = record t {
    parts = t.parts ++ part_at (sub64 candidate.absolute_offset t.offset) candidate ∷ [];
  };
  last_byte = merged_last;
  useful_bytes = useful;
}
  where
    t : Transfer
    t = g.transfer

-- One round of the loop; `none` leaves it.
unfoldable pub merge :
    ClientOptions → ValidatedRequest → Growing → ValidatedRequest → Option Growing
unfolding same_resource gap_for too_far merged_useful over_limit absorb
merge options head g candidate =
    let merged_last = max g.last_byte candidate.last_byte in
    let merged_length = add64 (sub64 merged_last g.transfer.offset) 1 in
    let useful = merged_useful g candidate in
    if not (same_resource head.request candidate.request)
    then none
    else if too_far (gap_for options head) g candidate
    then none
    else if sub64 merged_last g.transfer.offset == u64_max
    then none
    else if over_limit options g merged_length useful
    then none
    else some (absorb g candidate merged_last useful)

unfoldable pub grow :
    ClientOptions
    → ValidatedRequest
    → List ValidatedRequest
    → Growing
    → Growing × List ValidatedRequest
grow options head [] g = (g, [])
grow options head (candidate ∷ rest) g = elim (merge options head g candidate) [
  | none ↦ (g, candidate ∷ rest)
  | some merged ↦ grow options head rest merged
]

-- The loop runs only where coalescing is on.
unfoldable pub gather :
    ClientOptions
    → ValidatedRequest
    → List ValidatedRequest
    → Growing
    → Growing × List ValidatedRequest
unfolding grow
gather options head rest g =
    if ltb 0 options.coalesce_gap then grow options head rest g else (g, rest)

-- The locator that transfers of one object share.
unfoldable pub shared : Option Locator → Locator → Locator
shared none head = head
shared (some l) head =
    if same_backend l.resolved.backend head.resolved.backend
      && text_eq l.resolved.canonical_uri head.resolved.canonical_uri
    then l
    else head

-- A group is laid out when it takes no more requests.
unfoldable pub is_scattered : List Part → ℕ → Bool
is_scattered [] len = true
is_scattered (p ∷ []) len = not (p.relative_offset == 0) || not (p.length == len)
is_scattered (p ∷ q ∷ ps) len = true

unfoldable pub close_transfer : Growing → List Part → Transfer
unfolding is_scattered
close_transfer g parts = record g.transfer {
  length = len;
  parts = parts;
  scattered = is_scattered parts len;
}
  where
    len : ℕ
    len = add64 (sub64 g.last_byte g.transfer.offset) 1
