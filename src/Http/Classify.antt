-- ===== src/Http/Classify.antt =====
-- src/runtime/http_response.cpp: what the status, the code of libcurl and the body of an error say of a
-- transfer, and how long a retry waits.
use karu.Base.{
  ℕ, ◌+◌, ◌-◌, ◌*◌, ◌^◌, min, Bool, true, false, not, ◌&&◌, ◌||◌, Option, none, some, [], ◌∷◌, ◌++◌,
  Bytes, codes, is_empty, find_text, length, take, drop, ltb, leb, sub64, add64, ◌==◌,
  if◌then◌else◌,
}
use karu.Uri.{Backend, s3, gcs, azure, source}
use karu.Transfer.{Status, err_auth, err_not_found, err_precondition, err_range, err_http}
use karu.Config.Values.{ℤ, pos, negsuc, long, from_chars}
use karu.Http.{Response, EncodingHeaders, coding, same_coding, transformed}

abbrev pub error_summary_limit : ℕ
error_summary_limit = 200

abbrev pub maximum_retry_after_seconds : ℕ
maximum_retry_after_seconds = 60

-- One line of a body: runs of spaces and controls are one space.
unfoldable pub summarize_from : Bytes → Bool → Bytes → Bytes
summarize_from [] pending_space result = result
summarize_from (c ∷ body) pending_space result =
    let skipped = summarize_from body true result in
    let spaced = if pending_space && not (is_empty result) then result ++ codes " " else result in
    let longer = spaced ++ c ∷ [] in
    let more = summarize_from body false longer in
    if leb c 32 then skipped else if length longer == error_summary_limit then longer else more

unfoldable pub summarize : Bytes → Bytes
unfolding summarize_from
summarize body = summarize_from body false []

unfoldable pub status_for_http : ℕ → Status
status_for_http status =
    if status == 401 || status == 403
    then err_auth
    else if status == 404
    then err_not_found
    else if status == 412
    then err_precondition
    else if status == 416
    then err_range
    else err_http

-- CURLcode: the codes that the code names, and the others.
pub data CurlCode : Type 0 where
  curl_ok operation_timedout couldnt_connect couldnt_resolve_host got_nothing send_error : CurlCode
  recv_error partial_file ssl_connect_error http2_error http2_stream other_error : CurlCode

-- Whether a text was found.
abbrev has_place : Option ℕ → Bool
has_place none = false
has_place (some place) = true

-- A number that is the whole text.
abbrev pub whole_number : Option (ℤ × Bytes) → Option ℤ
whole_number none = none
whole_number (some (n, rest)) = if is_empty rest then some n else none

abbrev pub is_transient_code : CurlCode → Bool
is_transient_code curl_ok = false
is_transient_code other_error = false
is_transient_code _ = true

unfoldable pub transient : CurlCode → ℕ → Bool
transient code status =
    is_transient_code code
    || status == 408
    || status == 425
    || status == 429
    || (leb 500 status && ltb status 600)

unfoldable pub s3_region : Bytes → Bytes
s3_region body = elim (find_text body (codes "<Region>")) [
  | none ↦ []
  | some first ↦
      let rest = drop (first + 8) body in
      elim (find_text rest (codes "</Region>")) [ none ↦ [] | some end ↦ take end rest ]
]

abbrev uses_tokens : Backend → Bool
uses_tokens gcs = true
uses_tokens azure = true
uses_tokens source = true
uses_tokens _ = false

abbrev uses_s3_errors : Backend → Bool
uses_s3_errors s3 = true
uses_s3_errors source = true
uses_s3_errors _ = false

unfoldable pub credentials_expired : Backend → ℕ → Bytes → Bool
credentials_expired backend status body =
    if status == 401 && uses_tokens backend
    then true
    else if not (status == 403) || not (uses_s3_errors backend)
    then false
    else (has_place (find_text body (codes "<Code>ExpiredToken</Code>"))
        || has_place (find_text body (codes "<Code>InvalidToken</Code>"))
        || has_place (find_text body (codes "<Code>RequestExpired</Code>")))

abbrev int_max : ℕ
int_max = 2 ^ 31 - 1

-- The seconds that a Retry-After asks for, where `getdate` is curl_getdate, with `none` for -1.
unfoldable pub retry_after_seconds : (Bytes → Option ℕ) → Bytes → ℕ → ℕ
unfolding from_chars
retry_after_seconds getdate text now = elim (whole_number (from_chars long text)) [
  | some (pos seconds) ↦ min seconds int_max
  | some (negsuc n) ↦ 0
  | none ↦
      if leb 128 (length text)
      then 0
      else elim (getdate text) [ none ↦ 0 | some when ↦ min (when - now) int_max ]
]

-- The milliseconds before a retry, where `jitter n` is a random number up to `n`.
unfoldable pub retry_delay : ℕ → ℕ → (ℕ → ℕ) → ℕ
retry_delay attempt retry_after jitter =
    let requested = min retry_after maximum_retry_after_seconds in
    let base = 100 * 2 ^ min attempt 6 in
    if ltb 0 requested then requested * 1000 + jitter 1000 else base + jitter base

unfoldable pub retryable : CurlCode → Response → Bool
unfolding transient
retryable code r =
    if transient code r.http_status
    then true
    else if is_empty r.transfer.if_match
        && (r.version_changed || (r.http_status == 412 && not (is_empty r.resume_etag)))
    then true
    else r.http_status == 400 && has_place (find_text r.error_body (codes "RequestTimeout"))

abbrev pub unreachable : CurlCode → Bool
unreachable couldnt_resolve_host = true
unreachable couldnt_connect = true
unreachable _ = false

abbrev pub is_ok : CurlCode → Bool
is_ok curl_ok = true
is_ok _ = false

unfoldable pub transformation_detail : Bytes → EncodingHeaders → Bytes
transformation_detail url encoding =
    if not (is_empty encoding.stored) && is_empty encoding.content
    then url
      ++ codes ": the server decoded an object stored with Content-Encoding "
      ++ encoding.stored
      ++ codes " (GCS decompressive transcoding), so the body is not the stored bytes; "
      ++ codes "read it through gs:// or send 'Accept-Encoding: "
      ++ encoding.stored
      ++ codes "' with KARU_HTTP_HEADERS"
    else if not (is_empty encoding.stored) && not (same_coding encoding.content encoding.stored)
    then url
      ++ codes ": the server sent Content-Encoding "
      ++ encoding.content
      ++ codes " for an object stored as "
      ++ coding encoding.stored
      ++ codes ", so the body is not the stored bytes"
    else url
      ++ codes ": the response carries Warning 214 (transformation applied), so the "
      ++ codes "body is not the stored bytes"

unfoldable pub succeeded : Response → CurlCode → Bool
succeeded r code =
    if not (is_ok code || r.satisfied) || ltb r.http_status 200 || leb 300 r.http_status
    then false
    else if transformed r.encoding
    then false
    else if not (r.http_status == 206)
    then true
    else if not (r.content_range_matches)
    then false
    else sub64 r.sink.received r.resumed
      == add64 (sub64 r.content_range_end r.content_range_start) 1
