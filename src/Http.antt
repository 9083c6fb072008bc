-- ===== src/Http.antt =====
-- runtime/transport.cpp and runtime/http_response.cpp: what a transfer knows of its response, and the
-- tests on the headers of the response that decide whether a body is taken.
pub mod Range
pub mod Headers
pub mod Resume
pub mod Prepared
pub mod Keeps
pub mod Attempts
pub mod Planned
pub mod Pinned
pub mod Resumed
pub mod Write
pub mod Body
pub mod Accept
pub mod Receive
pub mod Classify
pub mod Failures
pub mod Retries
pub mod Tests
pub mod ResumeTests
use karu.Base.{
  ℕ, ◌+◌, ◌-◌, Bool, true, false, not, ◌&&◌, ◌||◌, Option, none, [], ◌∷◌, map, Bytes, codes,
  text_eq, is_empty, length, take, drop, ltb, leb, ◌==◌, if◌then◌else◌, add64, sub64, u64_max,
  mul64, ◌/◌, some,
}
use karu.Transfer.{Transfer}
use karu.Scatter.{Sink}

pub record EncodingHeaders : Type 0 where
  pub content : Bytes
  pub stored : Bytes
  pub transformation_warning : Bool

-- The members of a Transfer that a response changes, with the ones that it reads. `body_length` is
-- `none` for -1, `error_body` is the used part of the buffer, and `received_bytes` the counter of the
-- batch.
pub record Response : Type 0 where
  pub transfer : Transfer
  pub sink : Sink
  pub resumed : ℕ
  pub resume_etag : Bytes
  pub response_etag : Bytes
  pub version_changed : Bool
  pub skip : ℕ
  pub body_length : Option ℕ
  pub consume : ℕ
  pub satisfied : Bool
  pub checked_status : Bool
  pub redirect_blocked : Bool
  pub http_status : ℕ
  pub follow_redirects : Bool
  pub same_origin_redirects_only : Bool
  pub request_url : Bytes
  pub response_region : Bytes
  pub retry_after : ℕ
  pub content_range_seen : Bool
  pub content_range_valid : Bool
  pub content_range_matches : Bool
  pub content_range_start : ℕ
  pub content_range_end : ℕ
  pub content_range_total : ℕ
  pub content_range_has_total : Bool
  pub range_fallback_limit : ℕ
  pub range_fallback_rejected : Bool
  pub encoding : EncodingHeaders
  pub error_body : Bytes
  pub error_body_received : ℕ
  pub received_bytes : ℕ

abbrev pub drain_limit : ℕ
drain_limit = 262144

abbrev pub error_body_capacity : ℕ
error_body_capacity = 4096

-- The size of a callback's data, or `none` where it overflows.
unfoldable pub callback_size : ℕ → ℕ → Option ℕ
callback_size size count =
    if not (size == 0) && ltb (u64_max / size) count then none else some (mul64 size count)

unfoldable pub ascii_lower : ℕ → ℕ
ascii_lower c = if leb b'A' c && leb c b'Z' then c + 32 else c

-- An absent coding is the identity.
unfoldable pub coding : Bytes → Bytes
coding value = if is_empty value then codes "identity" else value

unfoldable pub same_coding : Bytes → Bytes → Bool
same_coding left right = text_eq (map ascii_lower (coding left)) (map ascii_lower (coding right))

unfoldable pub transformed : EncodingHeaders → Bool
transformed encoding =
    encoding.transformation_warning
    || (not (is_empty encoding.stored) && not (same_coding encoding.content encoding.stored))

unfoldable pub front : Bytes → ℕ
front [] = 0
front (c ∷ value) = c

unfoldable pub all_opaque : Bytes → Bool
all_opaque [] = true
all_opaque (c ∷ value) = leb 33 c && not (c == b'"') && not (c == 127) && all_opaque value

unfoldable pub is_strong_etag : Bytes → Bool
is_strong_etag value =
    leb 2 (length value)
    && front value == b'"'
    && front (drop (length value - 1) value) == b'"'
    && all_opaque (drop 1 (take (length value - 1) value))

-- The version that the transfer must read: the caller's, or the one that was interrupted.
unfoldable pub version_pin : Response → Bytes
version_pin r = if is_empty r.transfer.if_match then r.resume_etag else r.transfer.if_match

unfoldable pub contradicts_pin : Response → Bool
contradicts_pin r =
    is_strong_etag (version_pin r)
    && not (is_empty r.response_etag)
    && not (text_eq r.response_etag (version_pin r))

unfoldable pub valid_content_range : Response → Bool
valid_content_range r =
    r.content_range_seen
    && r.content_range_valid
    && r.content_range_start == add64 r.transfer.offset r.resumed
    && not (ltb requested_end r.content_range_end)
    && (r.content_range_end == requested_end
        || (r.content_range_has_total && add64 r.content_range_end 1 == r.content_range_total))
  where
    requested_end : ℕ
    requested_end = sub64 (add64 r.transfer.offset r.transfer.length) 1

abbrev pub is_success : ℕ → Bool
is_success status = leb 200 status && ltb status 300
