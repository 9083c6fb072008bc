-- ===== src/Http/ResumeTests.antt =====
-- A read of five bytes that is cut after two, and resumed.
use karu.Base.{
  ℕ, ◌+◌, ◌≡◌, refl, true, Option, none, some, [], ◌∷◌, Bytes, codes, inl, inr, All, arith,
}
use karu.Decimal.{from_chars_u64}
use karu.Config.Values.{from_chars}
use karu.Scatter.{store_payload, advance}
use karu.Scatter.Stream.{Full}
use karu.Http.{
  Response, is_strong_etag, front, transformed, contradicts_pin, version_pin, valid_content_range,
  ascii_lower, callback_size, same_coding, coding, all_opaque,
}
use karu.Http.Range.{parse_number, parse_total, parse_positions, parse_content_range}
use karu.Http.Write.{
  write_callback, write_checked, check_status, restart, skip_prefix, plan_body, store_body, satisfy,
  excess, count_received,
}
use karu.Http.Receive.{receive}
use karu.Http.Headers.{
  UrlApi, header_callback, header_field, leaves_origin, header_name_is, header_value,
  response_status, set_etag, set_content_range, record_encoding, trim_start, trim_end,
}
use karu.Http.Resume.{reset_response, plan_resume}
use karu.Http.Attempts.{
  Attempt, Answers, read_headers, headed, known_status, replan, attempt, attempts,
}
use karu.Http.Resumed.{IsNew, attempts_fill}
use karu.Http.Tests.{read, stored, fresh, read-IsReady}

abbrev pub urls : UrlApi Bytes
urls = record {
  parse = λ url. some url;
  follow = λ url location. some location;
  scheme = λ url. some (codes "https");
  host = λ url. some (codes "h");
  port = λ url. some (codes "443");
}

abbrev pub no_date : Bytes → Option ℕ
no_date text = none

abbrev cut : Attempt
cut = record {
  url = codes "https://h/k";
  now = 0;
  lines =
      codes "HTTP/1.1 206 Partial Content\r\n"
      ∷ codes "ETag: \"v1\"\r\n"
      ∷ codes "Content-Range: bytes 10-14/100\r\n"
      ∷ [];
  status = 206;
  body_length = some 5;
  object = stored;
  body = λ k. stored (10 + k);
  sizes = 2 ∷ [];
  planned = true;
}

abbrev rest : Attempt
rest = record cut {
  lines =
      codes "HTTP/1.1 206 Partial Content\r\n"
      ∷ codes "etag: \"v1\"\r\n"
      ∷ codes "content-range: bytes 12-14/100\r\n"
      ∷ [];
  body_length = some 3;
  body = λ k. stored (12 + k);
  sizes = 1 ∷ 2 ∷ [];
}

interrupted : Response
unfolding attempts attempt headed read_headers known_status replan header_callback header_field
    leaves_origin header_name_is header_value trim_start trim_end response_status set_etag
    set_content_range record_encoding parse_content_range parse_positions parse_number parse_total
    from_chars_u64 from_chars reset_response plan_resume receive write_callback write_checked
    check_status restart skip_prefix plan_body store_body satisfy excess count_received
    contradicts_pin version_pin valid_content_range is_strong_etag front all_opaque transformed
    same_coding coding store_payload advance ascii_lower callback_size
interrupted = attempts urls no_date 4096 (cut ∷ []) fresh

interrupted-resumed : (interrupted.resumed ≡ 2) × (interrupted.resume_etag ≡ codes "\"v1\"")
unfolding interrupted
interrupted-resumed = (refl, refl)

fresh-IsNew : IsNew read 1000 fresh
fresh-IsNew = record { transfer_is = refl; sink_is = refl; resumed_is = refl; no_pin = refl }

abbrev contents : Bytes → ℕ → ℕ
contents etag = stored

cut-Answers : Answers contents cut (headed urls no_date 4096 cut fresh).0
unfolding headed read_headers header_callback header_field leaves_origin header_name_is header_value
    trim_start trim_end response_status set_etag set_content_range record_encoding
    parse_content_range parse_positions parse_number parse_total from_chars_u64 from_chars
    reset_response valid_content_range is_strong_etag front all_opaque ascii_lower callback_size
cut-Answers = record {
  status_is = inr (inl refl);
  not_empty = (omega arith, tt);
  serves = λ _. record { body_is = λ k. refl; tagged = λ _ k. refl; obeys = λ _ _ k. refl };
}

rest-Answers :
    Answers contents rest
      (headed urls no_date 4096 rest (attempts urls no_date 4096 (cut ∷ []) fresh)).0
unfolding interrupted
rest-Answers = record {
  status_is = inr (inl refl);
  not_empty = (omega arith, (omega arith, tt));
  serves = λ _. record { body_is = λ k. refl; tagged = λ _ k. refl; obeys = λ _ _ k. refl };
}

resumed-satisfied :
    (attempt urls no_date 4096 rest (attempts urls no_date 4096 (cut ∷ []) fresh)).satisfied ≡ true
unfolding interrupted
resumed-satisfied = refl

attempts_fill_example :
    All
      (Full
        (λ k. stored (10 + k))
        (attempt urls no_date 4096 rest (attempts urls no_date 4096 (cut ∷ []) fresh)).sink.heap)
      read.parts
attempts_fill_example =
    attempts_fill read contents 1000 urls no_date 4096 (cut ∷ []) rest fresh read-IsReady
      fresh-IsNew (cut-Answers, tt) rest-Answers resumed-satisfied

-- The body of a 203 is taken as the range, wherever it begins: the object's byte 1 is stored in the place
-- of its byte 11.
other_success :
    ((receive 203 (some 100) stored (5 ∷ []) 0 fresh).0.sink.heap 1001 ≡ stored 1)
    × ((receive 203 (some 100) stored (5 ∷ []) 0 fresh).0.satisfied ≡ true)
unfolding receive write_callback write_checked check_status restart skip_prefix plan_body store_body
    satisfy excess count_received contradicts_pin version_pin is_strong_etag transformed
    store_payload
other_success = (refl, refl)
