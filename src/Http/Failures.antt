-- ===== src/Http/Failures.antt =====
-- src/runtime/http_response.cpp: the status and the message of a transfer that failed.
use karu.Base.{
  ◌≡◌, Bool, true, false, inl, inr, ◌⊎◌, not, ◌&&◌, ◌||◌, [], ◌++◌, Bytes, codes, is_empty, ltb,
  leb, ◌==◌, add64, sub64, if◌then◌else◌, arith,
}
use karu.Decimal.{to_string}
use karu.Transfer.{Status, ok, err_precondition, err_http, err_network}
use karu.Http.{Response, transformed}
use karu.Http.Classify.{CurlCode, is_ok, summarize, status_for_http, transformation_detail}

abbrev pub is_ok_status : Status → Bool
is_ok_status ok = true
is_ok_status _ = false

pub record Failure : Type 0 where
  pub status : Status
  pub detail : Bytes

abbrev http_error : Bytes → Failure
http_error detail = record { status = err_http; detail = detail }

-- The message of a Content-Range that is not the range that was requested.
unfoldable pub range_failure : Bytes → Response → Failure
range_failure url r =
    let first = add64 r.transfer.offset r.resumed in
    let end = sub64 (add64 r.transfer.offset r.transfer.length) 1 in
    let requested =
      codes "requested [" ++ to_string first ++ codes ", " ++ to_string end ++ codes "]" in
    if not r.content_range_seen
    then http_error (url ++ codes ": missing Content-Range for " ++ requested)
    else if not r.content_range_valid
    then http_error (url ++ codes ": malformed Content-Range for " ++ requested)
    else http_error (
        url
        ++ codes ": Content-Range ["
        ++ to_string r.content_range_start
        ++ codes ", "
        ++ to_string r.content_range_end
        ++ codes "] does not satisfy "
        ++ requested)

-- The message of an error status, with the body in one line where there is one.
unfoldable pub status_failure : Bytes → Response → Failure
status_failure url r =
    let body = summarize r.error_body in
    let detail = url ++ codes ": HTTP " ++ to_string r.http_status in
    record {
      status = status_for_http r.http_status;
      detail = if is_empty body then detail else detail ++ codes ": " ++ body;
    }

-- The failures of a response that is neither blocked, nor transformed, nor of another version.
unfoldable pub later_failure : Bytes → Bytes → Response → CurlCode → Failure
later_failure url error r code =
    if r.range_fallback_rejected
    then http_error (
        url
        ++ codes ": server ignored Range; refusing to discard "
        ++ to_string r.transfer.offset
        ++ codes " bytes (limit "
        ++ to_string r.range_fallback_limit
        ++ codes ")")
    else if r.http_status == 206 && not r.content_range_matches
    then range_failure url r
    else if not (is_ok code) && leb 300 r.http_status && ltb r.http_status 400 && r.follow_redirects
    then record { status = err_network; detail = url ++ codes ": " ++ error }
    else if leb 300 r.http_status
    then status_failure url r
    else record { status = err_network; detail = url ++ codes ": " ++ error }

-- `url` is the redacted URL, and `error` what libcurl says of the code.
unfoldable pub failure : Bytes → Bytes → Response → CurlCode → Failure
failure url error r code =
    if r.redirect_blocked
    then http_error
        (url ++ codes ": cross-origin redirect blocked because KARU_HTTP_HEADERS is set")
    else if leb 200 r.http_status && ltb r.http_status 300 && transformed r.encoding
    then http_error (transformation_detail url r.encoding)
    else if r.version_changed && not (is_empty r.transfer.if_match)
    then record {
      status = err_precondition;
      detail =
          url
          ++ codes ": the server ignored If-Match and sent ETag "
          ++ r.response_etag
          ++ codes ", so the object no longer matches if_match";
    }
    else if r.version_changed
        || (r.http_status == 412 && is_empty r.transfer.if_match && not (is_empty r.resume_etag))
    then http_error
        (url ++ codes ": the object changed while an interrupted read was being resumed")
    else later_failure url error r code

-- Where the caller asked for no version, a new version of an object that was being resumed is an HTTP
-- error, whatever else the response has.
pub failure-changed :
    (url error : Bytes) (r : Response) (code : CurlCode)
    → r.transfer.if_match ≡ []
    → (r.version_changed ≡ true) ⊎ ((r.http_status ≡ 412) × (is_empty r.resume_etag ≡ false))
    → (failure url error r code).status ≡ err_http
unfolding failure
failure-changed url error r code any (inl changed) = ground arith
failure-changed url error r code any (inr (status, kept)) = ground arith

status_failure-ok :
    (url : Bytes) (r : Response) → is_ok_status (status_failure url r).status ≡ false
unfolding status_failure status_for_http
status_failure-ok url r = ground arith

range_failure-ok : (url : Bytes) (r : Response) → is_ok_status (range_failure url r).status ≡ false
unfolding range_failure
range_failure-ok url r = ground arith

later_failure-ok :
    (url error : Bytes) (r : Response) (code : CurlCode)
    → is_ok_status (later_failure url error r code).status ≡ false
unfolding later_failure
later_failure-ok url error r code = ground (arith, status_failure-ok url r, range_failure-ok url r)

-- A failure is never reported as a success.
pub failure-ok :
    (url error : Bytes) (r : Response) (code : CurlCode)
    → is_ok_status (failure url error r code).status ≡ false
unfolding failure
failure-ok url error r code = ground (arith, later_failure-ok url error r code)
