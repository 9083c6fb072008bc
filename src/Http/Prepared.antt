-- ===== src/Http/Prepared.antt =====
-- What a retry keeps is of the version that it asks for, and the headers of a response leave it alone.
use karu.Base.{
  ℕ, ◌+◌, ◌<◌, ◌≡◌, true, false, Option, none, some, Bytes, codes, is_empty, arith, All,
}
use karu.Transfer.{Transfer}
use karu.Scatter.Stream.{Filled}
use karu.Http.{Response, is_strong_etag, version_pin}
use karu.Http.Resume.{reset_response}
use karu.Http.Range.{ContentRange, parse_content_range}
use karu.Http.Headers.{
  header_value, UrlApi, header_callback, header_field, set_content_range, set_etag,
}

-- What a response leaves alone while its headers arrive.
pub record SameRead (r r' : Response) : Type 0 where
  pub transfer_is : r'.transfer ≡ r.transfer
  pub resumed_is : r'.resumed ≡ r.resumed
  pub pin_is : r'.resume_etag ≡ r.resume_etag
  pub sink_is : r'.sink.sink ≡ r.sink.sink
  pub heap_is : r'.sink.heap ≡ r.sink.heap

abbrev pub Strong : Bytes → Type 0
Strong etag = is_strong_etag etag ≡ true

-- The buffers hold what a transfer keeps, of the version that it asks for; `content` is what an object
-- holds whose version has an ETag.
pub record IsKept (t : Transfer) (content : Bytes → ℕ → ℕ) (sink : ℕ) (r : Response) : Type 0 where
  pub transfer_is : r.transfer ≡ t
  pub sink_is : r.sink.sink ≡ sink
  pub incomplete : r.resumed < t.length
  pub pinned : 0 < r.resumed → Strong (version_pin r)
  pub strong_pin : is_empty r.resume_etag ≡ false → Strong r.resume_etag
  pub filled :
      All (Filled (λ k. content (version_pin r) (t.offset + k)) r.resumed r.sink.heap) t.parts

pub SameRead-IsKept :
    (t : Transfer) (content : Bytes → ℕ → ℕ) (sink : ℕ) (r r' : Response)
    → SameRead r r'
    → IsKept t content sink r
    → IsKept t content sink r'
unfolding version_pin
SameRead-IsKept t content sink r r' s k =
    let pin : version_pin r' ≡ version_pin r = ground arith in
    record {
      transfer_is = ground arith;
      sink_is = ground arith;
      incomplete = ground arith;
      pinned = λ h. ground (arith, k.pinned);
      strong_pin = λ h. ground (arith, k.strong_pin);
      filled = rw (pin, s.resumed_is, s.heap_is) k.filled;
    }

-- A response before its body.
pub record IsOpen (r : Response) : Type 0 where
  pub unchecked : r.checked_status ≡ false
  pub unsatisfied : r.satisfied ≡ false
  pub kept : r.sink.received ≡ r.resumed
  pub at_first_part : r.sink.scatter_cursor ≡ 0
  pub no_skip : r.skip ≡ 0
  pub same_version : r.version_changed ≡ false
  pub strong : is_empty r.response_etag ≡ false → is_strong_etag r.response_etag ≡ true

pub reset_response-IsOpen : (r : Response) → IsOpen (reset_response r)
unfolding reset_response
reset_response-IsOpen r = ground arith

set_etag-IsOpen : (value : Bytes) (r : Response) → IsOpen r → IsOpen (set_etag value r)
unfolding set_etag
set_etag-IsOpen value r k = ground arith

set_content_range-IsOpen :
    (range : Option ContentRange) (r : Response) → IsOpen r → IsOpen (set_content_range range r)
unfolding set_content_range
set_content_range-IsOpen none r k = ground arith
set_content_range-IsOpen (some range) r k = ground arith

module _ {Url : Type 0} (api : UrlApi Url) (getdate : Bytes → Option ℕ) (now : ℕ) where
  header_field-IsOpen :
      (line : Bytes) (r : Response) → IsOpen r → IsOpen (header_field api getdate now line r)
  unfolding header_field
  header_field-IsOpen line r k = ground (
    arith,
    set_etag-IsOpen (header_value line (codes "etag:")) r k,
    set_content_range-IsOpen (parse_content_range (header_value line (codes "content-range:"))) r k,
  )

  -- The response is open for its body after a header, even where the header is refused.
  pub header_callback-IsOpen :
      (size count : ℕ) (line : Bytes) (r : Response)
      → IsOpen r
      → IsOpen (header_callback api getdate now size count line r).0
  unfolding header_callback
  header_callback-IsOpen size count line r k =
      ground (arith, reset_response-IsOpen r, header_field-IsOpen line r k)

  header_field-SameRead :
      (line : Bytes) (r : Response) → SameRead r (header_field api getdate now line r)
  unfolding header_field set_etag set_content_range
  header_field-SameRead line r = ground arith

  pub header_callback-SameRead :
      (size count : ℕ) (line : Bytes) (r : Response)
      → SameRead r (header_callback api getdate now size count line r).0
  unfolding header_callback reset_response
  header_callback-SameRead size count line r = ground (arith, header_field-SameRead line r)
