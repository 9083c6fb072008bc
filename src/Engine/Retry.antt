-- ===== src/Engine/Retry.antt =====
-- `io_loop` of runtime/engine.cpp: what becomes of a transfer when libcurl is done with an attempt.
use karu.Base.{
  ℕ, ◌+◌, Bool, true, false, not, ◌&&◌, ◌||◌, [], ◌++◌, Bytes, codes, is_empty, text_eq, ltb, ◌==◌,
  if◌then◌else◌, add64,
}
use karu.Uri.{Backend, same_backend, s3}
use karu.Text.{redact_url}
use karu.Transfer.{Status, ok, timeout}
use karu.Http.{Response}
use karu.Http.Classify.{
  CurlCode, s3_region, credentials_expired, retry_delay, retryable, succeeded, unreachable,
}
use karu.Http.Failures.{Failure, failure}
use karu.Http.Resume.{plan_resume}
use karu.Http.Attempts.{known_status}

abbrev pub unreachable_limit : ℕ
unreachable_limit = 3

-- The counters of the batch that an attempt's end changes.
pub record AttemptCounters : Type 0 where
  pub new_connections : ℕ
  pub throttled : ℕ
  pub retries : ℕ
  pub resumed : ℕ
  pub credential_refreshes : ℕ

-- The members of a Transfer that say how it has been attempted.
pub record Running : Type 0 where
  pub response : Response
  pub region_hint : Bytes
  pub region_retried : Bool
  pub credentials_retried : Bool
  pub credentials_ready : Bool
  pub attempt : ℕ
  pub unreachable_attempts : ℕ
  pub counters : AttemptCounters

-- What is done with the transfer: `again` puts it in front of the loop's queue, with the region to
-- remember; `refresh` invalidates its credentials and queues it for new ones; `wait` retries it after so
-- many milliseconds.
pub data Next : Type 0 where
  finished : Status → Bytes → Next
  again : Bytes → Next
  refresh : Next
  wait : ℕ → Next

-- What libcurl, the clock and the random numbers say when an attempt ends: `can_wait` whether a delay is
-- over before the deadline, and `error` the text of the code.
pub record Message : Type 0 where
  pub code : CurlCode
  pub status : ℕ
  pub connects : ℕ
  pub expired : Bool
  pub can_wait : ℕ → Bool
  pub jitter : ℕ → ℕ
  pub error : Bytes

unfoldable pub timeout_detail : Response → Bytes → Bytes
timeout_detail r reason =
    redact_url
      (if is_empty r.request_url then r.transfer.locator.resolved.canonical_uri else r.request_url)
    ++ codes ": "
    ++ reason

unfoldable pub count_attempt : Message → Running → Running
unfolding known_status
count_attempt m t = record t {
  response = known_status m.status t.response;
  counters = record t.counters {
    new_connections =
        if ltb 0 m.connects
        then add64 t.counters.new_connections m.connects
        else t.counters.new_connections;
    throttled =
        if status == 429 || status == 503
        then add64 t.counters.throttled 1
        else t.counters.throttled;
  };
}
  where
    status : ℕ
    status = (known_status m.status t.response).http_status

abbrev pub backend_of : Running → Backend
backend_of t = t.response.transfer.locator.resolved.backend

-- The region of an S3 object is in a header or in the body of the error.
unfoldable pub find_region : Running → Running
find_region t =
    if is_empty t.response.response_region && same_backend (backend_of t) s3
    then record t {
      response = record t.response { response_region = s3_region t.response.error_body };
    }
    else t

unfoldable pub other_region : Running → Bool
other_region t =
    not t.region_retried
    && not (is_empty t.response.response_region)
    && not (text_eq t.response.response_region t.region_hint)
    && same_backend (backend_of t) s3

unfoldable pub count_unreachable : CurlCode → Running → Running
count_unreachable code t =
    if unreachable code then record t { unreachable_attempts = t.unreachable_attempts + 1 } else t

unfoldable pub has_attempt : ℕ → CurlCode → Running → Bool
has_attempt max_attempts code t =
    ltb (t.attempt + 1) max_attempts
    && ltb t.unreachable_attempts unreachable_limit
    && retryable code t.response

unfoldable pub next_attempt : Running → Running
next_attempt t = record t {
  attempt = t.attempt + 1;
  response = planned;
  counters = record t.counters {
    retries = add64 t.counters.retries 1;
    resumed =
        if ltb t.response.resumed planned.resumed
        then add64 t.counters.resumed 1
        else t.counters.resumed;
  };
}
  where
    planned : Response
    planned = plan_resume t.response

unfoldable pub wait_or_stop : Message → Running → Running × Next
wait_or_stop m t = if m.can_wait delay then (t, wait delay) else (
  t,
  finished timeout
      (timeout_detail t.response (codes "request timeout leaves no time for another attempt")),
)
  where
    delay : ℕ
    delay = retry_delay t.attempt t.response.retry_after m.jitter

-- An attempt that did not succeed, before the deadline, with its region found.
unfoldable pub retry_transfer : ℕ → Message → Running → Running × Next
retry_transfer max_attempts m t =
    if other_region t
    then (
      record t { region_hint = t.response.response_region; region_retried = true },
      again t.response.response_region,
    )
    else if not t.credentials_retried
        && credentials_expired (backend_of t) t.response.http_status t.response.error_body
    then (
      record t {
        credentials_retried = true;
        credentials_ready = false;
        counters = record t.counters {
          credential_refreshes = add64 t.counters.credential_refreshes 1;
        };
      },
      refresh,
    )
    else if has_attempt max_attempts m.code counted
    then wait_or_stop m (next_attempt counted)
    else (counted, finished failed.status failed.detail)
  where
    counted : Running
    counted = count_unreachable m.code t

    failed : Failure
    failed = failure (redact_url counted.response.request_url) m.error counted.response m.code

unfoldable pub end_attempt : ℕ → Message → Running → Running × Next
end_attempt max_attempts m t =
    if succeeded counted.response m.code
    then (counted, finished ok [])
    else if m.expired
    then (
      counted,
      finished timeout (timeout_detail counted.response (codes "request timeout exceeded")),
    )
    else retry_transfer max_attempts m (find_region counted)
  where
    counted : Running
    counted = count_attempt m t
