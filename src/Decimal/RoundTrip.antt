-- ===== src/Decimal/RoundTrip.antt =====
-- `parse_u64` reads what `to_string` writes.
use karu.Base.{
  ℕ, zero, suc, ◌+◌, ◌/◌, ◌%◌, ◌≤◌, ◌<◌, ◌≡◌, ◌⊎◌, inl, inr, refl, true, false, [], ◌∷◌, Bytes,
  is_empty, ◌==◌, arith, All, Bool-cases, u64_max, value,
}
use karu.Decimal.{
  write_digits, to_string, scan_digits, starts_with_digit, from_chars_u64, parse_u64,
}
use karu.Decimal.Parse.{IsDigit, parse_u64_iff}

-- The last digit of `n` brings the value of the digits before it to `n`.
scan_digits_last :
    (n : ℕ) (out : Bytes) → scan_digits ((b'0' + n % 10) ∷ out) (n / 10) ≡ scan_digits out n
unfolding scan_digits
scan_digits_last n out = ground arith

scan_digits-write_digits :
    (fuel n : ℕ) (out : Bytes)
    → n ≤ fuel
    → scan_digits (write_digits fuel n out) 0 ≡ scan_digits out n
unfolding write_digits
scan_digits-write_digits zero n out h = ground arith
scan_digits-write_digits (suc fuel) n out h =
    ground (
      arith,
      scan_digits-write_digits fuel (n / 10) ((b'0' + n % 10) ∷ out),
      scan_digits_last n out,
    )

starts_with_digit-write_digits :
    (fuel n : ℕ) (out : Bytes)
    → n ≤ fuel
    → (0 < n) ⊎ (starts_with_digit out ≡ true)
    → starts_with_digit (write_digits fuel n out) ≡ true
unfolding write_digits starts_with_digit
starts_with_digit-write_digits zero n out h s = ground arith
starts_with_digit-write_digits (suc fuel) n out h s =
    ground (arith, starts_with_digit-write_digits fuel (n / 10) ((b'0' + n % 10) ∷ out))

is_empty-starts_with_digit : (s : Bytes) → starts_with_digit s ≡ true → is_empty s ≡ false
unfolding starts_with_digit
is_empty-starts_with_digit [] h = cc
is_empty-starts_with_digit (c ∷ s) h = refl

parse_u64-scanned :
    (s : Bytes) (n : ℕ)
    → starts_with_digit s ≡ true
    → scan_digits s 0 ≡ (n, [])
    → n ≤ u64_max
    → parse_u64 s ≡ value n
unfolding from_chars_u64 parse_u64
parse_u64-scanned s n h e fits = ground (arith, is_empty-starts_with_digit s h)

-- Every uint64_t is read back from its decimal text.
pub parse_u64-to_string : (n : ℕ) → n ≤ u64_max → parse_u64 (to_string n) ≡ value n
unfolding to_string scan_digits starts_with_digit
parse_u64-to_string n h = elim (Bool-cases (n == 0)) [
  | inl e ↦ rw e (parse_u64-scanned (b'0' ∷ []) n refl (ground arith) h)
  | inr e ↦ rw e (
      parse_u64-scanned (write_digits n n []) n
        (starts_with_digit-write_digits n n [] (omega arith) (ground arith))
        (scan_digits-write_digits n n [] (omega arith)) h)
]

-- A number is written in digits.
pub to_string-All : (n : ℕ) → n ≤ u64_max → All IsDigit (to_string n)
to_string-All n h = ((parse_u64_iff (to_string n) n).0 (parse_u64-to_string n h)).digits
