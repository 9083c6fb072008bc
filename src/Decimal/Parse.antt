-- ===== src/Decimal/Parse.antt =====
-- What `parse_u64` of uri.cpp accepts, and the number that it returns.
use mathlib.Core.List.{foldl}
use karu.Base.{
  ℕ, ◌+◌, ◌-◌, ◌*◌, ◌≤◌, ◌≡◌, ◌≢◌, ◌↔◌, refl, [], ◌∷◌, Bytes, All, arith, u64_max, value,
}
use karu.Decimal.{scan_digits, parse_u64}

abbrev pub IsDigit : ℕ → Type 0
IsDigit c = (b'0' ≤ c) × (c ≤ b'9')

-- The number that digits spell behind `n`, with no bound.
abbrev pub numeral : ℕ → Bytes → ℕ
numeral = foldl (λ n c. n * 10 + (c - b'0'))

-- A text that spells `n`, and `n` fits a uint64_t.
pub record Spells (s : Bytes) (n : ℕ) : Type 0 where
  pub some_digit : s ≢ []
  pub digits : All IsDigit s
  pub exact : n ≡ numeral 0 s
  pub fits : n ≤ u64_max

scan_digits_sound :
    (s : Bytes) (n m : ℕ) → scan_digits s n ≡ (m, []) → All IsDigit s × (m ≡ numeral n s)
unfolding scan_digits
scan_digits_sound [] n m h = ground arith
scan_digits_sound (c ∷ s) n m h = ground (arith, scan_digits_sound s (n * 10 + (c - b'0')) m)

scan_digits_complete : (s : Bytes) (n : ℕ) → All IsDigit s → scan_digits s n ≡ (numeral n s, [])
unfolding scan_digits
scan_digits_complete [] n _ = refl
scan_digits_complete (c ∷ s) n (hc, hs) =
    ground (arith, scan_digits_complete s (n * 10 + (c - b'0')) hs)

parse_u64_sound : (s : Bytes) (n : ℕ) → parse_u64 s ≡ value n → Spells s n
unfolding parse_u64
parse_u64_sound [] n h = cc
parse_u64_sound (c ∷ s) n h = ground (arith, scan_digits_sound (c ∷ s) 0 n)

parse_u64_complete : (s : Bytes) (n : ℕ) → Spells s n → parse_u64 s ≡ value n
unfolding parse_u64
parse_u64_complete [] n h = absurd (h.some_digit refl)
parse_u64_complete (c ∷ s) n h = ground (arith, scan_digits_complete (c ∷ s) 0 h.digits)

-- A text is read as `n` exactly when it is one or more digits that spell `n` and `n` is a uint64_t:
-- no sign, no space, no wrap-around.
pub parse_u64_iff : (s : Bytes) (n : ℕ) → (parse_u64 s ≡ value n) ↔ Spells s n
parse_u64_iff s n = (parse_u64_sound s n, parse_u64_complete s n)
