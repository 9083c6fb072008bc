-- ===== src/Planner/Checks.antt =====
-- runtime/planner.cpp: what is tested of each request, and the order of those that are accepted.
use karu.Base.{
  ℕ, Bool, not, ◌&&◌, ◌||◌, List, [], ◌∷◌, ◌++◌, Bytes, codes, text_eq, text_less, is_empty, ltb,
  ◌==◌, if◌then◌else◌, u64_max, add64, sub64, Expected, value, unexpected,
}
use karu.Order.{lex}
use karu.Decimal.{to_string}
use karu.Text.{redact_url}
use karu.Uri.{file, http, rank, same_backend, Resolved, to_end}
use karu.Transfer.{Status, err_unsupported, err_range, Request, Completion}

pub record ValidatedRequest : Type 0 where
  pub request : Request
  pub absolute_offset : ℕ
  pub last_byte : ℕ

unfoldable pub same_resource : Request → Request → Bool
same_resource left right =
    same_backend left.locator.resolved.backend right.locator.resolved.backend
    && text_eq left.locator.resolved.canonical_uri right.locator.resolved.canonical_uri
    && text_eq left.if_match right.if_match

abbrev pub backend_less : Request → Request → Bool
backend_less left right =
    ltb (rank left.locator.resolved.backend) (rank right.locator.resolved.backend)

abbrev pub uri_less : Request → Request → Bool
uri_less left right =
    text_less left.locator.resolved.canonical_uri right.locator.resolved.canonical_uri

abbrev pub if_match_less : Request → Request → Bool
if_match_less left right = text_less left.if_match right.if_match

-- std::tie compares the backends, then the canonical URIs, then the preconditions.
unfoldable pub resource_less : Request → Request → Bool
resource_less = lex backend_less (lex uri_less if_match_less)

unfoldable pub range_error : Request → Bytes → Bytes
range_error request reason =
    uri
    ++ codes ": range ["
    ++ to_string request.offset
    ++ codes ", +"
    ++ to_string request.length
    ++ codes ") "
    ++ reason
  where
    resolved : Resolved
    resolved = request.locator.resolved

    uri : Bytes
    uri =
        if same_backend resolved.backend http
        then redact_url resolved.canonical_uri
        else resolved.canonical_uri

-- `absolute` is the absolute offset, once it is known not to overflow.
validate_end : Request → ℕ → Expected Bytes ValidatedRequest
validate_end request absolute =
    if ltb (sub64 u64_max absolute) (sub64 request.length 1)
    then unexpected (range_error request (codes "overflows its end offset"))
    else value (record {
      request = request;
      absolute_offset = absolute;
      last_byte = sub64 (add64 absolute request.length) 1;
    })

leaves_window : Request → Bool
leaves_window request =
    not (request.locator.resolved.window_length == to_end)
    && (ltb request.locator.resolved.window_length request.offset
        || ltb (sub64 request.locator.resolved.window_length request.offset) request.length)

unfoldable pub validate : Request → Expected Bytes ValidatedRequest
unfolding validate_end leaves_window
validate request =
    if leaves_window request
    then unexpected (range_error request (codes "leaves the locator window"))
    else if ltb (sub64 u64_max request.locator.resolved.window_offset) request.offset
    then unexpected (range_error request (codes "overflows its absolute offset"))
    else validate_end request (add64 request.locator.resolved.window_offset request.offset)

unfoldable pub rejected : Request → Status → Bytes → Completion
rejected request status detail = record {
  tag = request.tag;
  status = status;
  got = 0;
  buffer = request.buffer;
  detail = detail;
}

-- What the first loop of `plan_transfers` does with a request.
unfoldable pub check : Request → Expected Completion ValidatedRequest
unfolding rejected
check request =
    if same_backend request.locator.resolved.backend file && not (is_empty request.if_match)
    then unexpected (rejected request err_unsupported unsupported)
    else elim (validate request) [
      | value checked ↦ value checked
      | unexpected detail ↦ unexpected (rejected request err_range detail)
    ]
  where
    unsupported : Bytes
    unsupported =
        request.locator.resolved.canonical_uri
        ++ codes ": ETag preconditions are not available for local files"

-- The accepted and the rejected requests, each in the order of submission.
unfoldable pub screen : List Request → List ValidatedRequest × List Completion
screen [] = ([], [])
screen (request ∷ requests) =
    let (valid, immediate) = screen requests in
    elim (check request) [
      | value checked ↦ (checked ∷ valid, immediate)
      | unexpected completion ↦ (valid, completion ∷ immediate)
    ]

-- The comparison that std::stable_sort is given.
unfoldable pub earlier : ValidatedRequest → ValidatedRequest → Bool
unfolding resource_less
earlier =
    lex (λ left right. resource_less left.request right.request)
      (λ left right. ltb left.absolute_offset right.absolute_offset)
