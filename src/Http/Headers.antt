-- ===== src/Http/Headers.antt =====
-- `header_callback` of runtime/transport.cpp: the headers of a response, line by line.
use karu.Base.{
  ℕ, Bool, true, false, not, ◌&&◌, ◌||◌, Option, none, some, [], ◌∷◌, Bytes, codes, is_empty,
  starts_with, find, text_eq, take, drop, length, ltb, leb, ◌==◌, if◌then◌else◌,
}
use karu.Config.Values.{pos, long, from_chars}
use karu.Http.{
  Response, EncodingHeaders, ascii_lower, is_strong_etag, callback_size, valid_content_range,
}
use karu.Http.Range.{ContentRange, parse_content_range}
use karu.Http.Resume.{reset_response}
use karu.Http.Classify.{retry_after_seconds, whole_number}

unfoldable pub header_name_is : Bytes → Bytes → Bool
header_name_is line [] = true
header_name_is [] (n ∷ name) = false
header_name_is (c ∷ line) (n ∷ name) = ascii_lower c == ascii_lower n && header_name_is line name

unfoldable pub ascii_equal : Bytes → Bytes → Bool
ascii_equal [] [] = true
ascii_equal (a ∷ left) (b ∷ right) = ascii_lower a == ascii_lower b && ascii_equal left right
ascii_equal _ _ = false

abbrev is_blank : ℕ → Bool
is_blank c = c == 32 || c == 9

abbrev ends_line : ℕ → Bool
ends_line c = c == 13 || c == 10 || is_blank c

unfoldable pub trim_start : Bytes → Bytes
trim_start [] = []
trim_start (c ∷ value) = let rest = trim_start value in if is_blank c then rest else c ∷ value

unfoldable pub trim_end : Bytes → Bytes
trim_end [] = []
trim_end (c ∷ value) =
    let rest = trim_end value in if is_empty rest && ends_line c then [] else c ∷ rest

-- The value of a header whose name the line begins with.
unfoldable pub header_value : Bytes → Bytes → Bytes
unfolding trim_start trim_end
header_value line name = trim_end (trim_start (drop (length name) line))

unfoldable pub drop_spaces : Bytes → Bytes
drop_spaces [] = []
drop_spaces (c ∷ text) = let rest = drop_spaces text in if c == 32 then rest else c ∷ text

unfoldable pub until_space : Bytes → Bytes
until_space [] = []
until_space (c ∷ text) = if c == 32 then [] else c ∷ until_space text

-- The status of a status line, or 0. A negative number, which is no status, is 0 here too.
unfoldable pub response_status : Bytes → ℕ
unfolding drop_spaces until_space from_chars
response_status line = elim (find line 32) [
  | none ↦ 0
  | some first ↦
      elim (whole_number (from_chars long (until_space (drop_spaces (drop first line))))) [
        | some (pos status) ↦ status
        | _ ↦ 0
      ]
]

-- libcurl's URL parser: a handle for a URL, the handle with another URL, which may be relative, and
-- what stands in it.
pub record UrlApi (Url : Type 0) : Type 0 where
  pub parse : Bytes → Option Url
  pub follow : Url → Bytes → Option Url
  pub scheme : Url → Option Bytes
  pub host : Url → Option Bytes
  pub port : Url → Option Bytes

-- Scheme, host and port, where all three are there.
unfoldable pub origin : {Url : Type 0} → UrlApi Url → Url → Option (Bytes × Bytes × Bytes)
origin api url = elim (api.scheme url) [
  | none ↦ none
  | some scheme ↦ elim (api.host url) [
    | none ↦ none
    | some host ↦ elim (api.port url) [ none ↦ none | some port ↦ some (scheme, host, port) ]
  ]
]

abbrev same_origin : Bytes × Bytes × Bytes → Option (Bytes × Bytes × Bytes) → Bool
same_origin (scheme, host, port) none = false
same_origin (scheme, host, port) (some (scheme', host', port')) =
    ascii_equal scheme scheme' && ascii_equal host host' && text_eq port port'

unfoldable pub same_origin_redirect : {Url : Type 0} → UrlApi Url → Bytes → Bytes → Bool
unfolding origin ascii_equal
same_origin_redirect api original location = elim (api.parse original) [
  | none ↦ false
  | some url ↦ elim (origin api url) [
    | none ↦ false
    | some source ↦ elim (api.follow url location) [
      | none ↦ false
      | some target ↦ same_origin source (origin api target)
    ]
  ]
]

abbrev header_limit : ℕ
header_limit = 64

unfoldable pub record_encoding : EncodingHeaders → Bytes → EncodingHeaders
unfolding header_name_is header_value
record_encoding encoding line =
    if header_name_is line (codes "content-encoding:")
    then record encoding {
      content = take header_limit (header_value line (codes "content-encoding:"));
    }
    else if header_name_is line (codes "x-goog-stored-content-encoding:")
    then record encoding {
      stored = take header_limit (header_value line (codes "x-goog-stored-content-encoding:"));
    }
    else if header_name_is line (codes "warning:")
        && (text_eq (header_value line (codes "warning:")) (codes "214")
            || starts_with (header_value line (codes "warning:")) (codes "214 "))
    then record encoding { transformation_warning = true }
    else encoding

-- What a Content-Range says. What the code has written when it finds that one is malformed is left out.
unfoldable pub set_content_range : Option ContentRange → Response → Response
set_content_range none r = record r { content_range_seen = true; content_range_valid = false }
set_content_range (some range) r = record seen { content_range_matches = valid_content_range seen }
  where
    seen : Response
    seen = record r {
      content_range_seen = true;
      content_range_valid = true;
      content_range_start = range.first;
      content_range_end = range.last;
      content_range_total = elim range.total [ none ↦ r.content_range_total | some n ↦ n ];
      content_range_has_total = elim range.total [ none ↦ false | some n ↦ true ];
    }

unfoldable pub set_etag : Bytes → Response → Response
set_etag value r =
    if leb (length value) 255 && is_strong_etag value then record r { response_etag = value } else r

-- `getdate` is curl_getdate, and `now` the time.
module _ {Url : Type 0} (api : UrlApi Url) (getdate : Bytes → Option ℕ) (now : ℕ) where
  unfoldable pub leaves_origin : Bytes → Response → Bool
  leaves_origin line r =
      header_name_is line (codes "location:")
      && leb 300 r.http_status
      && ltb r.http_status 400
      && r.follow_redirects
      && r.same_origin_redirects_only
      && not (same_origin_redirect api r.request_url (header_value line (codes "location:")))

  -- A line that is neither a status line nor a redirect that is blocked.
  unfoldable pub header_field : Bytes → Response → Response
  header_field line r =
      if header_name_is line (codes "content-range:")
      then set_content_range (parse_content_range (header_value line (codes "content-range:"))) r
      else if header_name_is line (codes "x-amz-bucket-region:")
      then record r { response_region = header_value line (codes "x-amz-bucket-region:") }
      else if header_name_is line (codes "retry-after:")
      then record r {
        retry_after = retry_after_seconds getdate (header_value line (codes "retry-after:")) now;
      }
      else if header_name_is line (codes "etag:")
      then set_etag (header_value line (codes "etag:")) r
      else record r { encoding = record_encoding r.encoding line }

  -- The state after a line, which is `size` times `count` bytes long, and what the callback returns.
  unfoldable pub header_callback : ℕ → ℕ → Bytes → Response → Response × ℕ
  header_callback size count line r = elim (callback_size size count) [
    | none ↦ (r, 0)
    | some bytes ↦
        if starts_with line (codes "HTTP/")
        then (record (reset_response r) { http_status = response_status line }, bytes)
        else if leaves_origin line r
        then (record r { redirect_blocked = true }, 0)
        else (header_field line r, bytes)
  ]
