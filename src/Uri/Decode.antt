-- ===== src/Uri/Decode.antt =====
-- Percent encoding is undone by percent decoding, and leaves only characters that a path can hold.
use karu.Base.{
  ℕ, ◌+◌, ◌-◌, ◌*◌, ◌/◌, ◌%◌, ◌<◌, ◌≡◌, refl, ◌∙◌, ap, true, false, ◌||◌, [], ◌∷◌, Bytes, ltb, ◌==◌,
  if◌then◌else◌, All, arith, Bool-cases, inl, inr,
}
use karu.Uri.Encode.{is_safe, hex, encode_path}

-- The value of a hexadecimal digit.
unhex : ℕ → ℕ
unhex c = if ltb c b'A' then c - b'0' else c - b'A' + 10

-- Percent decoding of RFC 3986.
pub percent_decode : Bytes → Bytes
percent_decode [] = []
percent_decode (c ∷ []) = c ∷ []
percent_decode (c ∷ h ∷ []) = c ∷ h ∷ []
percent_decode (c ∷ h ∷ l ∷ rest) =
    let decoded = percent_decode rest in
    let plain = percent_decode (h ∷ l ∷ rest) in
    if c == b'%' then (unhex h * 16 + unhex l) ∷ decoded else c ∷ plain

unhex-hex : (n : ℕ) → n < 16 → unhex (hex n) ≡ n
unfolding unhex hex
unhex-hex n h = ground arith

percent_decode-plain :
    (c : ℕ) (rest : Bytes)
    → (c == b'%') ≡ false
    → percent_decode (c ∷ rest) ≡ c ∷ percent_decode rest
unfolding percent_decode
percent_decode-plain c [] h = refl
percent_decode-plain c (x ∷ []) h = refl
percent_decode-plain c (x ∷ y ∷ rest) h = ground arith

percent_decode-coded :
    (c : ℕ) (rest : Bytes)
    → c < 256
    → percent_decode (b'%' ∷ hex (c / 16) ∷ hex (c % 16) ∷ rest) ≡ c ∷ percent_decode rest
unfolding percent_decode
percent_decode-coded c rest h =
    rw (unhex-hex (c / 16) (omega arith), unhex-hex (c % 16) (omega arith))
      (ap (λ x. x ∷ percent_decode rest) (omega arith))

safe-plain : (c : ℕ) → is_safe c ≡ true → (c == b'%') ≡ false
unfolding is_safe
safe-plain c h = ground arith

hex-safe : (n : ℕ) → n < 16 → (is_safe (hex n) || hex n == b'%') ≡ true
unfolding is_safe hex
hex-safe n h = ground arith

-- Percent decoding gives back every path of bytes that was encoded.
pub percent_decode-encode_path :
    (path : Bytes) → All (λ c. c < 256) path → percent_decode (encode_path path) ≡ path
unfolding encode_path percent_decode
percent_decode-encode_path [] h = refl
percent_decode-encode_path (c ∷ path) (b, bs) =
    let rest = percent_decode-encode_path path bs in
    elim (Bool-cases (is_safe c)) [
      | inl e ↦
          rw (e, encode_path)
            (percent_decode-plain c (encode_path path) (safe-plain c e) ∙ ap (λ xs. c ∷ xs) rest)
      | inr e ↦
          rw (e, encode_path) (percent_decode-coded c (encode_path path) b ∙ ap (λ xs. c ∷ xs) rest)
    ]

-- An encoded path of bytes holds nothing but the characters that stand for themselves, and `%`.
pub encode_path-All :
    (path : Bytes)
    → All (λ c. c < 256) path
    → All (λ c. (is_safe c || c == b'%') ≡ true) (encode_path path)
unfolding encode_path is_safe
encode_path-All [] h = tt
encode_path-All (c ∷ path) (b, bs) =
    let rest = encode_path-All path bs in
    elim (Bool-cases (is_safe c)) [
      | inl e ↦ rw (e, encode_path) (ground arith, rest)
      | inr e ↦
          rw (e, encode_path)
            (refl, (hex-safe (c / 16) (omega arith), (hex-safe (c % 16) (omega arith), rest)))
    ]
