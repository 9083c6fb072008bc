-- ===== src/Planner/Validate.antt =====
-- Which requests the planner accepts, and what it knows of them then.
use karu.Base.{suc, ◌+◌, ◌-◌, ◌^◌, ◌≤◌, ◌<◌, ◌≡◌, ◌↔◌, ◌⊎◌, u64_max, value, arith}
use karu.Uri.{to_end}
use karu.Uri.Window.{IsWindow}
use karu.Transfer.{Request}
use karu.Planner.Checks.{ValidatedRequest, validate}

-- What the API has checked of a request: its words are in range, and it is not empty.
pub record IsRequest (r : Request) : Type 0 where
  pub window : IsWindow r.locator.resolved
  pub offset_fits : r.offset ≤ u64_max
  pub length_fits : r.length ≤ u64_max
  pub not_empty : 0 < r.length

-- The bytes of the request lie in the window, and their offsets in the object are uint64_t.
pub record IsReadable (r : Request) : Type 0 where
  pub in_window :
      (r.locator.resolved.window_length ≡ to_end)
      ⊎ (r.offset + r.length ≤ r.locator.resolved.window_length)
  pub no_overflow : r.locator.resolved.window_offset + r.offset + r.length ≤ 2 ^ 64

-- A validated request is the request with the first and the last byte that it reads.
pub record IsValidated (v : ValidatedRequest) : Type 0 where
  pub first : v.absolute_offset ≡ v.request.locator.resolved.window_offset + v.request.offset
  pub last : suc v.last_byte ≡ v.absolute_offset + v.request.length
  pub fits : v.last_byte ≤ u64_max
  pub not_empty : 0 < v.request.length
  pub length_fits : v.request.length ≤ u64_max

-- The request with its bytes, before any wrap.
abbrev pub validated_of : Request → ValidatedRequest
validated_of r = record {
  request = r;
  absolute_offset = r.locator.resolved.window_offset + r.offset;
  last_byte = r.locator.resolved.window_offset + r.offset + r.length - 1;
}

pub validated_of-IsValidated :
    (r : Request) → IsRequest r → IsReadable r → IsValidated (validated_of r)
validated_of-IsValidated r w p = ground arith

validate_sound :
    (r : Request) {v : ValidatedRequest}
    → IsRequest r
    → validate r ≡ value v
    → IsReadable r × (v ≡ validated_of r)
unfolding validate
validate_sound r w h = ground arith

validate_complete : (r : Request) → IsRequest r → IsReadable r → validate r ≡ value (validated_of r)
unfolding validate
validate_complete r w p = ground arith

-- A request is accepted exactly when its bytes lie in the window of its locator and no offset
-- overflows, and then with its first and last byte.
pub validate_iff :
    (r : Request) (v : ValidatedRequest)
    → IsRequest r
    → (validate r ≡ value v) ↔ (IsReadable r × (v ≡ validated_of r))
validate_iff r v w = (validate_sound r w, λ h. rw (h.1) (validate_complete r w h.0))
