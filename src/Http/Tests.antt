-- ===== src/Http/Tests.antt =====
-- A range of five bytes from the full body of an object, and from a part of it.
use karu.Base.{
  ℕ, zero, suc, ◌++◌, Bytes, length, ◌≤◌, ◌+◌, ◌-◌, ◌*◌, ◌≡◌, refl, min, Bool, true, false, none,
  some, [], ◌∷◌, codes, All, arith, inr,
}
use karu.Uri.{http}
use karu.Transfer.{Transfer, Part, err_not_found, err_network}
use karu.Scatter.{Heap, store_payload, advance}
use karu.Scatter.Stream.{IsReady, Filled, Full, sum}
use karu.Http.{
  Response, is_strong_etag, front, transformed, contradicts_pin, version_pin, valid_content_range,
}
use karu.Decimal.{from_chars_u64, to_string}
use karu.Config.Values.{from_chars}
use karu.Http.Range.{
  ContentRange, IsRange, parse_number, parse_total, parse_positions, parse_content_range,
  show_content_range, parse_content_range-show, parse_content_range-IsRange,
}
use karu.Http.Write.{
  write_callback, write_checked, check_status, restart, skip_prefix, plan_body, store_body, satisfy,
  excess, count_received,
}
use karu.Http.Body.{lead}
use karu.Http.Classify.{summarize_from, summarize, s3_region, retry_after_seconds, retry_delay}
use karu.Http.Classify.{curl_ok, recv_error, status_for_http}
use karu.Http.Failures.{failure, later_failure, status_failure}
use karu.Http.Retries.{retry_delay-bounds}
use karu.Http.Accept.{IsFresh, body_base}
use karu.Http.Receive.{receive, receive_fills}

abbrev pub part : Part
part = record { relative_offset = 0; length = 5; buffer = some 1000; tag = 1; owned = false }

abbrev pub read : Transfer
read = record {
  locator = record {
    resolved = record {
      backend = http;
      canonical_uri = codes "https://h/k";
      target = codes "https://h/k";
      container = [];
      key = [];
      azure_dfs = false;
      window_offset = 0;
      window_length = 100;
    };
  };
  offset = 10;
  length = 5;
  parts = part ∷ [];
  if_match = [];
  scattered = false;
}

abbrev empty_memory : Heap
empty_memory address = 0

-- The object's byte at each offset.
abbrev pub stored : ℕ → ℕ
stored k = 2 * k

abbrev pub fresh : Response
fresh = record {
  transfer = read;
  sink = record { sink = 1000; received = 0; scatter_cursor = 0; heap = empty_memory };
  resumed = 0;
  resume_etag = [];
  response_etag = [];
  version_changed = false;
  skip = 0;
  body_length = none;
  consume = 0;
  satisfied = false;
  checked_status = false;
  redirect_blocked = false;
  http_status = 0;
  follow_redirects = false;
  same_origin_redirects_only = false;
  request_url = codes "https://h/k";
  response_region = [];
  retry_after = 0;
  content_range_seen = true;
  content_range_valid = true;
  content_range_matches = true;
  content_range_start = 10;
  content_range_end = 14;
  content_range_total = 100;
  content_range_has_total = true;
  range_fallback_limit = 4096;
  range_fallback_rejected = false;
  encoding = record { content = []; stored = []; transformation_warning = false };
  error_body = [];
  error_body_received = 0;
  received_bytes = 0;
}

pub read-IsReady : IsReady read 1000
read-IsReady = record {
  laid_out = record {
    not_empty = omega arith;
    fits = omega arith;
    length_fits = omega arith;
    inside = ((omega arith, omega arith), tt);
    in_order = (tt, tt);
    direct = λ _. (part, refl, refl, refl);
  };
  apart = (tt, tt);
  direct_sink = λ _. (refl, tt);
}

fresh-IsFresh : IsFresh read stored 1000 fresh
fresh-IsFresh = record {
  transfer_is = refl;
  unchecked = refl;
  unsatisfied = refl;
  kept = refl;
  at_first_part = refl;
  no_skip = refl;
  sink_is = refl;
  filling = record {
    in_range = omega arith;
    filled = (λ i h k. absurd (omega arith), tt);
    done = [];
    split = refl;
    passed = tt;
  };
  incomplete = omega arith;
}

-- A full body of which the range is the bytes from 10 on, in two chunks.
whole_body : Response × Bool
unfolding receive write_callback write_checked check_status restart skip_prefix plan_body store_body
    satisfy excess count_received contradicts_pin version_pin valid_content_range is_strong_etag
    front transformed store_payload advance
whole_body = receive 200 (some 20) stored (7 ∷ 13 ∷ []) 0 fresh

whole_received : (whole_body.0.sink.received ≡ 5) × (whole_body.0.satisfied ≡ true)
unfolding whole_body
whole_received = (refl, refl)

whole_written : whole_body.0.sink.heap 1004 ≡ 28
unfolding whole_body
whole_written = refl

-- A part that begins at the wrong byte is refused.
refused :
    (receive 206 (some 5) stored (5 ∷ []) 0 (record fresh { content_range_start = 11 })).1 ≡ false
unfolding whole_body
refused = refl

abbrev arrived : Response × Bool
arrived = receive 206 (some 5) (λ k. stored (10 + k)) (2 ∷ 3 ∷ []) 0 fresh

receive_fills_example :
    All (Filled (λ k. stored (10 + k)) arrived.0.sink.received arrived.0.sink.heap) read.parts
    × ((arrived.0.satisfied ≡ true
          → All (Full (λ k. stored (10 + k)) arrived.0.sink.heap) read.parts)
        × (arrived.1 ≡ true
            → arrived.0.sink.received
              ≡ min 5 (
                  arrived.0.resumed
                  + (2 + sum (3 ∷ []) - lead read (body_base 206 fresh) arrived.0.resumed))))
receive_fills_example =
    receive_fills read stored (λ k. stored (10 + k)) 1000 206 (some 5) 2 (3 ∷ []) fresh read-IsReady
      (inr refl) fresh-IsFresh (omega arith) (λ k. refl)

abbrev some_range : ContentRange
some_range = record { first = 10; last = 14; total = some 100 }

some_range-IsRange : IsRange some_range
some_range-IsRange = record {
  ordered = omega arith;
  fits = omega arith;
  inside = λ n e. (ground arith, ground arith);
}

some_range-read : parse_content_range (codes "bytes 10-14/100") ≡ some some_range
unfolding parse_content_range parse_positions parse_number parse_total from_chars_u64
some_range-read = refl

star_read :
    parse_content_range (codes "bytes 10-14/*")
    ≡ some (record { first = 10; last = 14; total = none })
unfolding parse_content_range parse_positions parse_number parse_total from_chars_u64
star_read = refl

past_the_end : parse_content_range (codes "bytes 10-14/14") ≡ none
unfolding parse_content_range parse_positions parse_number parse_total from_chars_u64
past_the_end = refl

parse_content_range-show_example :
    parse_content_range (show_content_range some_range) ≡ some some_range
parse_content_range-show_example = parse_content_range-show some_range some_range-IsRange

parse_content_range-IsRange_example : IsRange some_range
parse_content_range-IsRange_example =
    parse_content_range-IsRange (codes "bytes 10-14/100") some_range some_range-read

abbrev letters : ℕ → Bytes
letters zero = []
letters (suc n) = b'a' ∷ letters n

one_line : summarize (codes "  no\n such  key ") ≡ codes "no such key"
unfolding summarize_from summarize
one_line = refl

-- A body of 200 letters and more is cut after the 200th.
cut : length (summarize (letters 300)) ≡ 200
unfolding summarize_from summarize
cut = refl

-- With a space in the 200th place the summary does not end.
not_cut : length (summarize (letters 199 ++ codes " " ++ letters 100)) ≡ 300
unfolding summarize_from summarize
not_cut = refl

region-read : s3_region (codes "<Error><Region>eu-west-1</Region></Error>") ≡ codes "eu-west-1"
unfolding s3_region
region-read = refl

retry_after-seconds : retry_after_seconds (λ date. none) (codes "120") 0 ≡ 120
unfolding retry_after_seconds from_chars from_chars_u64
retry_after-seconds = refl

retry_after-date :
    retry_after_seconds (λ date. some 1000) (codes "Thu, 01 Jan 1970 00:16:40 GMT") 990 ≡ 10
unfolding retry_after_seconds from_chars from_chars_u64
retry_after-date = refl

abbrev half_random : ℕ → ℕ
half_random n = min n 500

retry_delay-bounds_example :
    (100 ≤ retry_delay 3 7 half_random)
    × (1000 * min 7 60 ≤ retry_delay 3 7 half_random)
    × (retry_delay 3 7 half_random ≤ 61000)
retry_delay-bounds_example = retry_delay-bounds 3 7 half_random (λ n. omega arith)

missing-failure :
    failure
      (codes "u")
      []
      (record fresh { http_status = 404; error_body = codes "no\nkey" })
      curl_ok
    ≡ record { status = err_not_found; detail = codes "u: HTTP 404: no key" }
unfolding failure later_failure status_failure status_for_http summarize summarize_from to_string
    transformed
missing-failure = refl

refused-failure :
    failure (codes "u") (codes "reset") (record fresh { http_status = 0 }) recv_error
    ≡ record { status = err_network; detail = codes "u: reset" }
unfolding failure later_failure transformed
refused-failure = refl
