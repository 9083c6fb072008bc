-- ===== src/Planner/Screen.antt =====
-- The first loop of `plan_transfers`: which requests are planned, and what is reported of the others.
use karu.Base.{
  ◌+◌, ◌^◌, ◌≡◌, inl, inr, refl, Bool, true, not, ◌&&◌, ◌||◌, List, [], ◌∷◌, map, All, All₂, select,
  is_empty, leb, ◌==◌, if◌then◌else◌, value, unexpected, arith, Expected-cases,
}
use karu.Uri.{file, same_backend, to_end}
use karu.Transfer.{err_unsupported, err_range, Request, Completion}
use karu.Planner.Checks.{ValidatedRequest, check, screen}
use karu.Planner.Validate.{IsRequest, IsReadable, validated_of, validate_iff}

-- A precondition on a local file.
abbrev pub pins_file : Request → Bool
pins_file r = same_backend r.locator.resolved.backend file && not (is_empty r.if_match)

-- Whether the bytes of a request lie in its window and in the range of a uint64_t.
abbrev pub is_readable : Request → Bool
is_readable r =
    (r.locator.resolved.window_length == to_end
      || leb (r.offset + r.length) r.locator.resolved.window_length)
    && leb (r.locator.resolved.window_offset + r.offset + r.length) (2 ^ 64)

abbrev pub is_served : Request → Bool
is_served r = not (pins_file r) && is_readable r

pub is_readable_sound : (r : Request) → is_readable r ≡ true → IsReadable r
is_readable_sound r h = ground arith

is_readable_complete : (r : Request) → IsReadable r → is_readable r ≡ true
is_readable_complete r h = ground arith

-- What a completion says of a request that is not planned.
pub record Refuses (r : Request) (c : Completion) : Type 0 where
  pub tag : c.tag ≡ r.tag
  pub buffer : c.buffer ≡ r.buffer
  pub got : c.got ≡ 0
  pub status : c.status ≡ (if pins_file r then err_unsupported else err_range)

check-served : (r : Request) → IsRequest r → is_served r ≡ true → check r ≡ value (validated_of r)
unfolding check
check-served r w h = ground (
  arith,
  is_readable_sound r,
  λ (p : IsReadable r). (validate_iff r (validated_of r) w).1 (p, refl),
)

check-value :
    (r : Request) (v : ValidatedRequest) → IsRequest r → check r ≡ value v → is_served r ≡ true
unfolding check
check-value r v w h = ground (arith, (validate_iff r v w).0, is_readable_complete r)

check-unexpected : (r : Request) (c : Completion) → check r ≡ unexpected c → Refuses r c
unfolding check
check-unexpected r c h = ground arith

-- The planned requests, in order, and one completion for each other request, in order.
pub screen_lem :
    (rs : List Request)
    → All IsRequest rs
    → ((screen rs).0 ≡ map validated_of (select is_served rs))
      × All₂ Refuses (select (λ r. not (is_served r)) rs) (screen rs).1
unfolding screen
screen_lem [] _ = (refl, tt)
screen_lem (r ∷ rs) (w, ws) = elim (Expected-cases (check r)) [
  | inl (v, e) ↦ ground (arith, check-value r v w e, check-served r w, screen_lem rs ws)
  | inr (c, e) ↦ ground (arith, check-served r w, check-unexpected r c e, screen_lem rs ws)
]
