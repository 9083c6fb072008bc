-- ===== src/Decimal.antt =====
-- Decimal numbers as the standard library writes and reads them, which the code calls through
-- std::to_string (src/text.hpp) and std::from_chars, and `parse_u64` of src/uri.cpp.
pub mod Parse
pub mod RoundTrip
mod Tests
use karu.Base.{
  ℕ, zero, suc, ◌+◌, ◌-◌, ◌*◌, ◌/◌, ◌%◌, ◌≡◌, refl, Bool, ◌&&◌, Option, none, some, [], ◌∷◌, ◌++◌,
  Bytes, codes, ltb, leb, ◌==◌, is_empty, if◌then◌else◌, u64_max, Expected, value, unexpected,
}
use karu.Uri.{ResolveError, malformed_uri}

abbrev pub is_digit : ℕ → Bool
is_digit c = leb b'0' c && leb c b'9'

-- Each round puts one digit before the ones so far.
write_digits : ℕ → ℕ → Bytes → Bytes
write_digits zero n out = out
write_digits (suc fuel) n out =
    let rest = write_digits fuel (n / 10) ((b'0' + n % 10) ∷ out) in if n == 0 then out else rest

-- std::to_string of an unsigned number.
unfoldable pub to_string : ℕ → Bytes
unfolding write_digits
to_string n = if n == 0 then b'0' ∷ [] else write_digits n n []

-- The longest run of digits, its value before any wrap, and the text behind it.
scan_digits : Bytes → ℕ → ℕ × Bytes
scan_digits [] n = (n, [])
scan_digits (c ∷ s) n =
    let more = scan_digits s (n * 10 + (c - b'0')) in if is_digit c then more else (n, c ∷ s)

starts_with_digit : Bytes → Bool
starts_with_digit [] = Bool.false
starts_with_digit (c ∷ s) = is_digit c

-- std::from_chars for std::uint64_t: `none` is an error code, and the second part is what stands
-- behind `ptr`.
unfoldable pub from_chars_u64 : Bytes → Option (ℕ × Bytes)
unfolding scan_digits starts_with_digit
from_chars_u64 s =
    let (n, rest) = scan_digits s 0 in
    if starts_with_digit s then (if ltb u64_max n then none else some (n, rest)) else none

not_a_byte_count : Bytes → Bytes
not_a_byte_count text = codes "'" ++ text ++ codes "' is not a byte count"

-- `parse_u64` of uri.cpp.
unfoldable pub parse_u64 : Bytes → Expected ResolveError ℕ
unfolding from_chars_u64 not_a_byte_count
parse_u64 text =
    if is_empty text
    then unexpected (malformed_uri (codes "expected a number"))
    else elim (from_chars_u64 text) [
      | none ↦ unexpected (malformed_uri (not_a_byte_count text))
      | some (n, rest) ↦
          if is_empty rest then value n else unexpected (malformed_uri (not_a_byte_count text))
    ]
