-- ===== src/Http/Resume.antt =====
-- runtime/transport.cpp: the state of a transfer before a response, and what a retry keeps of it.
use karu.Base.{false, not, ◌&&◌, ◌||◌, none, [], leb, ◌==◌, is_empty, if◌then◌else◌}
use karu.Http.{Response, is_strong_etag}

unfoldable pub reset_response : Response → Response
reset_response r = record r {
  sink = record r.sink { received = r.resumed; scatter_cursor = 0 };
  response_etag = [];
  version_changed = false;
  skip = 0;
  body_length = none;
  consume = 0;
  satisfied = false;
  checked_status = false;
  http_status = 0;
  redirect_blocked = false;
  content_range_seen = false;
  content_range_valid = false;
  content_range_matches = false;
  content_range_start = 0;
  content_range_end = 0;
  content_range_total = 0;
  content_range_has_total = false;
  range_fallback_rejected = false;
  encoding = record { content = []; stored = []; transformation_warning = false };
  response_region = [];
  retry_after = 0;
  error_body = [];
  error_body_received = 0;
}

abbrev start_over : Response → Response
start_over r = record r { resumed = 0; resume_etag = [] }

-- The retry begins behind what was received, or from the start where nothing says of which version
-- that is.
unfoldable pub plan_resume : Response → Response
plan_resume r =
    if not (is_empty r.transfer.if_match) && not (is_strong_etag r.transfer.if_match)
    then start_over r
    else if r.version_changed || (r.http_status == 412 && is_empty r.transfer.if_match)
    then start_over r
    else if not (r.http_status == 200 || r.http_status == 206)
        || leb r.sink.received r.resumed
        || leb r.transfer.length r.sink.received
    then r
    else if is_empty r.transfer.if_match && is_empty r.resume_etag
    then (if is_empty r.response_etag
        then record r { resumed = 0 }
        else record r { resume_etag = r.response_etag; resumed = r.sink.received })
    else record r { resumed = r.sink.received }
