-- ===== src/Uri/Encode.antt =====
-- `encode_path` of uri.cpp: percent encoding of the bytes that a path cannot hold.
use karu.Base.{
  ℕ, ◌+◌, ◌-◌, ◌/◌, ◌%◌, Bool, ◌&&◌, ◌||◌, [], ◌∷◌, Bytes, leb, ltb, ◌==◌, if◌then◌else◌,
}

unfoldable pub is_safe : ℕ → Bool
is_safe c =
    (leb b'a' c && leb c b'z')
    || (leb b'A' c && leb c b'Z')
    || (leb b'0' c && leb c b'9')
    || c == b'-'
    || c == b'_'
    || c == b'.'
    || c == b'~'
    || c == b'/'

-- The character of HEX at an index.
unfoldable pub hex : ℕ → ℕ
hex n = if ltb n 10 then b'0' + n else b'A' + (n - 10)

unfoldable pub encode_path : Bytes → Bytes
encode_path [] = []
encode_path (c ∷ path) =
    let rest = encode_path path in
    if is_safe c then c ∷ rest else b'%' ∷ hex (c / 16) ∷ hex (c % 16) ∷ rest
