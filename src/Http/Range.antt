-- ===== src/Http/Range.antt =====
-- `parse_content_range` of runtime/transport.cpp: what a part of an object says that it is.
use karu.Base.{
  ℕ, ◌+◌, ◌-◌, ◌≤◌, ◌<◌, ◌≡◌, ◌≢◌, refl, sym, subst, false, not, ◌||◌, Option, none, some, [], ◌∷◌,
  ◌++◌, append_assoc, Bytes, codes, text_eq, is_empty, starts_with, find, take, drop, length,
  length-append, ltb, leb, ◌==◌, if◌then◌else◌, All, All-append, All-imp, arith, u64_max, value,
  find-skip, drop-behind, take-append, Option-cases, inl, inr,
}
use karu.Decimal.{to_string, from_chars_u64, parse_u64}
use karu.Decimal.Parse.{IsDigit, parse_u64_iff}
use karu.Decimal.RoundTrip.{parse_u64-to_string, to_string-All}

-- The positions of the first and the last byte, and the size of the object where it is known.
pub record ContentRange : Type 0 where
  pub first : ℕ
  pub last : ℕ
  pub total : Option ℕ

-- The `parse_u64` of transport.cpp.
unfoldable pub parse_number : Bytes → Option ℕ
parse_number text = elim (from_chars_u64 text) [
  | none ↦ none
  | some (n, rest) ↦ if is_empty rest then some n else none
]

-- What stands behind the slash: a star, or a size that the last byte lies in.
unfoldable pub parse_total : ℕ → ℕ → Bytes → Option ContentRange
parse_total first last text =
    if text_eq text (codes "*")
    then some (record { first = first; last = last; total = none })
    else elim (parse_number text) [
      | none ↦ none
      | some total ↦
          if total == 0 || leb total last
          then none
          else some (record { first = first; last = last; total = some total })
    ]

-- `dash` and `slash` are where the two stand.
unfoldable pub parse_positions : Bytes → ℕ → ℕ → Option ContentRange
parse_positions text dash slash = elim (parse_number (take dash text)) [
  | none ↦ none
  | some first ↦ elim (parse_number (take (slash - dash - 1) (drop (dash + 1) text))) [
    | none ↦ none
    | some last ↦ if ltb last first then none else parse_total first last (drop (slash + 1) text)
  ]
]

-- `none` is a malformed value; what the code has written then is not read.
unfoldable pub parse_content_range : Bytes → Option ContentRange
parse_content_range header =
    if not (starts_with header (codes "bytes "))
    then none
    else (let text = drop 6 header in
        elim (find text b'-') [
          | none ↦ none
          | some dash ↦ elim (find text b'/') [
            | none ↦ none
            | some slash ↦
                if dash == 0 || ltb slash dash then none else parse_positions text dash slash
          ]
        ])

-- A range of bytes, in an object of a known size.
pub record IsRange (r : ContentRange) : Type 0 where
  pub ordered : r.first ≤ r.last
  pub fits : r.last ≤ u64_max
  pub inside : (n : ℕ) → r.total ≡ some n → (r.last < n) × (n ≤ u64_max)

-- A size in decimal, or a star.
pub show_total : Option ℕ → Bytes
show_total none = codes "*"
show_total (some n) = to_string n

-- RFC 9110: the value of Content-Range.
pub show_content_range : ContentRange → Bytes
show_content_range r =
    codes "bytes "
    ++ ((to_string r.first ++ (b'-' ∷ to_string r.last)) ++ (b'/' ∷ show_total r.total))

parse_number-to_string : (n : ℕ) → n ≤ u64_max → parse_number (to_string n) ≡ some n
unfolding parse_number parse_u64
parse_number-to_string n h = ground (arith, parse_u64-to_string n h)

digits-no_star : (xs : Bytes) → All IsDigit xs → text_eq xs (codes "*") ≡ false
digits-no_star [] h = refl
digits-no_star (x ∷ xs) (h, hs) = ground arith

parse_total-show_total :
    (r : ContentRange) → IsRange r → parse_total r.first r.last (show_total r.total) ≡ some r
unfolding parse_total show_total
parse_total-show_total r k = elim (Option-cases r.total) [
  | inl e ↦ rw (e, show_total) (ground arith)
  | inr (n, e) ↦
      let (within, fits) = k.inside n e in
      rw (e, show_total)
        (ground (
          arith,
          parse_number-to_string n fits,
          digits-no_star (to_string n) (to_string-All n fits),
        ))
]

some_length : (xs : Bytes) → xs ≢ [] → (length xs == 0) ≡ false
some_length [] h = absurd (h refl)
some_length (x ∷ xs) h = ground arith

to_string-some : (n : ℕ) → n ≤ u64_max → (length (to_string n) == 0) ≡ false
to_string-some n h =
    some_length (to_string n)
      ((parse_u64_iff (to_string n) n).0 (parse_u64-to_string n h)).some_digit

-- Every range is read back from its value.
pub parse_content_range-show :
    (r : ContentRange) → IsRange r → parse_content_range (show_content_range r) ≡ some r
unfolding parse_content_range parse_positions show_content_range
parse_content_range-show r k =
    let first_fits : r.first ≤ u64_max = omega (arith, k.ordered, k.fits) in
    let first = to_string r.first in
    let last = to_string r.last in
    let total = show_total r.total in
    let first_digits = to_string-All r.first first_fits in
    let last_digits = to_string-All r.last k.fits in
    let text : Bytes = first ++ (b'-' ∷ (last ++ (b'/' ∷ total))) in
    let same : (first ++ (b'-' ∷ last)) ++ (b'/' ∷ total) ≡ text =
      append_assoc first (b'-' ∷ last) (b'/' ∷ total) in
    let no_dash =
      All-imp IsDigit (λ x. (x == b'-') ≡ false) (λ x h. ground arith) first first_digits in
    let no_slash : All (λ x. (x == b'/') ≡ false) (first ++ (b'-' ∷ last)) =
      All-append (λ x. (x == b'/') ≡ false) first (b'-' ∷ last)
        (All-imp IsDigit (λ x. (x == b'/') ≡ false) (λ x h. ground arith) first first_digits)
        (refl, All-imp IsDigit (λ x. (x == b'/') ≡ false) (λ x h. ground arith) last last_digits) in
    let shown : Bytes = (first ++ (b'-' ∷ last)) ++ (b'/' ∷ total) in
    let at_dash : find shown b'-' ≡ some (length first) =
      subst (λ x. find x b'-' ≡ some (length first)) (sym same)
        (find-skip b'-' first (last ++ (b'/' ∷ total)) no_dash) in
    let before_dash : take (length first) shown ≡ first =
      subst (λ x. take (length first) x ≡ first) (sym same)
        (take-append first (b'-' ∷ (last ++ (b'/' ∷ total)))) in
    let behind_dash : drop (length first + 1) shown ≡ last ++ (b'/' ∷ total) =
      subst (λ x. drop (length first + 1) x ≡ last ++ (b'/' ∷ total)) (sym same)
        (drop-behind b'-' first (last ++ (b'/' ∷ total))) in
    let slash = length (first ++ (b'-' ∷ last)) in
    let between : slash - length first - 1 ≡ length last =
      ground (arith, length-append first (b'-' ∷ last)) in
    let last_text : take (slash - length first - 1) (drop (length first + 1) shown) ≡ last =
      rw (behind_dash, between) (take-append last (b'/' ∷ total)) in
    ground (
      arith,
      at_dash,
      before_dash,
      last_text,
      find-skip b'/' (first ++ (b'-' ∷ last)) total no_slash,
      drop-behind b'/' (first ++ (b'-' ∷ last)) total,
      length-append first (b'-' ∷ last),
      to_string-some r.first first_fits,
      parse_number-to_string r.first first_fits,
      parse_number-to_string r.last k.fits,
      parse_total-show_total r k,
      k.ordered,
    )

parse_number-fits : (text : Bytes) (n : ℕ) → parse_number text ≡ some n → n ≤ u64_max
unfolding parse_number parse_u64 from_chars_u64
parse_number-fits [] n h = ground arith
parse_number-fits (c ∷ text) n h =
    let read : parse_u64 (c ∷ text) ≡ value n = ground arith in
    ((parse_u64_iff (c ∷ text) n).0 read).fits

parse_total-IsRange :
    (first last : ℕ) (text : Bytes) (r : ContentRange)
    → first ≤ last
    → last ≤ u64_max
    → parse_total first last text ≡ some r
    → IsRange r
unfolding parse_total
parse_total-IsRange first last text r o f h = record {
  ordered = ground arith;
  fits = ground arith;
  inside = λ n e. (ground arith, ground (arith, parse_number-fits text n));
}

-- Every range that is read is one: its bytes are in order, and in the object where its size is known.
pub parse_content_range-IsRange :
    (header : Bytes) (r : ContentRange) → parse_content_range header ≡ some r → IsRange r
unfolding parse_content_range parse_positions
parse_content_range-IsRange header r h =
    let text = drop 6 header in
    elim (Option-cases (find text b'-')) [
      | inl e ↦ absurd (ground arith)
      | inr (dash, e) ↦ elim (Option-cases (find text b'/')) [
        | inl f ↦ absurd (ground arith)
        | inr (slash, f) ↦ elim (Option-cases (parse_number (take dash text))) [
          | inl a ↦ absurd (ground arith)
          | inr (first, a) ↦
              elim (Option-cases (parse_number (take (slash - dash - 1) (drop (dash + 1) text)))) [
                | inl b ↦ absurd (ground arith)
                | inr (last, b) ↦
                    parse_total-IsRange first last (drop (slash + 1) text) r (ground arith)
                      (parse_number-fits (take (slash - dash - 1) (drop (dash + 1) text)) last b)
                      (ground arith)
              ]
        ]
      ]
    ]
