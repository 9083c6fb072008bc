-- ===== src/Http/Write.antt =====
-- `write_callback` of runtime/transport.cpp: the body of a response, as it arrives.
use karu.Base.{
  ℕ, zero, suc, ◌+◌, ◌-◌, Bool, true, not, ◌&&◌, Option, none, some, [], ◌∷◌, ◌++◌, Bytes, length,
  min, ltb, leb, ◌==◌, if◌then◌else◌, add64, sub64, u64_max, Expected, value, unexpected, ◌>>=◌,
}
use karu.Scatter.{store_payload}
use karu.Http.{
  Response, drain_limit, error_body_capacity, transformed, contradicts_pin, valid_content_range,
  is_success,
}

-- What the checks of a response do: go on, or return 0 with what they have changed.
abbrev pub Checked : Type 0
Checked = Expected Response Response

-- Restart from the full body where the range was ignored.
unfoldable pub restart : Response → Response
restart r =
    if r.http_status == 200 && ltb 0 r.resumed
    then record r { resumed = 0; sink = record r.sink { received = 0 } }
    else r

abbrev pub first_byte : Response → ℕ
first_byte r = add64 r.transfer.offset r.resumed

-- How many bytes of a full body stand before the range.
unfoldable pub skip_prefix : Response → Checked
skip_prefix r =
    if r.http_status == 200 && ltb 0 (first_byte r)
    then (if ltb r.range_fallback_limit (first_byte r)
        then unexpected (record r { range_fallback_rejected = true })
        else value (record r { skip = first_byte r }))
    else value r

unfoldable pub plan_body : Option ℕ → Response → Response
plan_body body_length r = record r {
  body_length = body_length;
  consume = if ltb (sub64 u64_max wanted) r.skip then u64_max else add64 r.skip wanted;
}
  where
    wanted : ℕ
    wanted = sub64 r.transfer.length r.resumed

-- The status is checked when the first data of a body arrives. What libcurl knows of the status and
-- of the length of the body is given.
unfoldable pub check_status : ℕ → Option ℕ → Response → Checked
check_status status body_length r =
    if is_success status && transformed r.encoding
    then unexpected seen
    else if is_success status && contradicts_pin seen
    then unexpected (record seen { version_changed = true })
    else if status == 206 && not (valid_content_range seen)
    then unexpected seen
    else skip_prefix (restart seen) >>= λ ready. value (plan_body body_length ready)
  where
    seen : Response
    seen = record r { checked_status = true; http_status = status }

unfoldable pub count_received : ℕ → Response → Response
count_received incoming r = record r { received_bytes = add64 r.received_bytes incoming }

pub bytes_of : (ℕ → ℕ) → ℕ → Bytes
bytes_of source zero = []
bytes_of source (suc n) = bytes_of source n ++ source n ∷ []

-- The start of the body of an error is kept; a long one is cut short.
unfoldable pub keep_error : (ℕ → ℕ) → ℕ → Response → Response × ℕ
keep_error source incoming r =
    if ltb (drain_limit - min drain_limit r.error_body_received) incoming
    then (captured, 0)
    else (record captured { error_body_received = add64 r.error_body_received incoming }, incoming)
  where
    captured : Response
    captured = record r {
      error_body =
          r.error_body
          ++ bytes_of source (min (sub64 error_body_capacity (length r.error_body)) incoming);
    }

-- What a satisfied transfer has yet to drain; a body of unknown length is endless.
unfoldable pub excess : Response → Bool → ℕ
excess r took_all = elim r.body_length [
  | some body ↦ if ltb r.consume body then sub64 body r.consume else 0
  | none ↦ if took_all && not (r.http_status == 200) then 0 else u64_max
]

unfoldable pub satisfy : ℕ → Bool → Response → Response × ℕ
satisfy incoming took_all r =
    if r.sink.received == r.transfer.length
    then (if ltb drain_limit (excess r took_all)
        then (record r { satisfied = true }, 0)
        else (record r { satisfied = true }, incoming))
    else (r, incoming)

unfoldable pub store_body : (ℕ → ℕ) → ℕ → Response → Response × ℕ
store_body source incoming r =
    if remaining == 0
    then (skipped, incoming)
    else satisfy incoming (taken == remaining) (
        if ltb 0 taken
        then record skipped {
          sink = store_payload r.transfer r.sink (λ i. source (dropped + i)) taken;
        }
        else skipped)
  where
    dropped : ℕ
    dropped = min r.skip incoming

    remaining : ℕ
    remaining = incoming - dropped

    taken : ℕ
    taken = min (sub64 r.transfer.length r.sink.received) remaining

    skipped : Response
    skipped = record r { skip = r.skip - dropped }

unfoldable pub write_checked : (ℕ → ℕ) → ℕ → Response → Response × ℕ
write_checked source incoming r =
    if leb 300 r.http_status && ltb r.http_status 400 && r.follow_redirects
    then (counted, incoming)
    else if leb 300 r.http_status
    then keep_error source incoming counted
    else store_body source incoming counted
  where
    counted : Response
    counted = if is_success r.http_status then count_received incoming r else r

-- The state after `incoming` bytes, which `source` gives, and what the callback returns: less than
-- `incoming` aborts the transfer.
unfoldable pub write_callback : ℕ → Option ℕ → (ℕ → ℕ) → ℕ → Response → Response × ℕ
write_callback status body_length source incoming r =
    if r.satisfied
    then (count_received incoming r, incoming)
    else elim (if r.checked_status then value r else check_status status body_length r) [
      | unexpected refused ↦ (refused, 0)
      | value checked ↦ write_checked source incoming checked
    ]
