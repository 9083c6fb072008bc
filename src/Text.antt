-- ===== src/Text.antt =====
-- text.hpp: `concat` is `◌++◌` over texts and `to_string`; this is `redact_url`.
use karu.Base.{
  ℕ, ◌+◌, ◌++◌, ◌≡◌, refl, Bool, true, Option, none, some, Bytes, codes, find, find_any, find_text,
  find_from, take, drop, ltb, if◌then◌else◌,
}

-- Whether an index stands before another, where `none` is npos.
abbrev pub before : ℕ → Option ℕ → Bool
before i none = true
before i (some j) = ltb i j

-- The text of `user@` in the authority gives way to `<redacted>`.
redact_user : Bytes → Bytes
redact_user url = elim (find_text url (codes "://")) [
  | none ↦ url
  | some scheme ↦
      let authority = scheme + 3 in
      elim (find_from (λ s. find s b'@') authority url) [
        | none ↦ url
        | some at ↦
            if before at (find_from (λ s. find_any s (codes "/?#")) authority url)
            then take authority url ++ codes "<redacted>" ++ drop at url
            else url
      ]
]

-- What stands behind the first `?` or `#` gives way to `<redacted>`.
redact_query : Bytes → Bytes
redact_query url = elim (find url b'?') [
  | none ↦ elim (find url b'#') [
    | none ↦ url
    | some secret ↦ take secret url ++ codes "#<redacted>"
  ]
  | some query ↦
      if before query (find url b'#')
      then take query url ++ codes "?<redacted>"
      else elim (find url b'#') [
        | none ↦ url
        | some secret ↦ take secret url ++ codes "#<redacted>"
      ]
]

unfoldable pub redact_url : Bytes → Bytes
unfolding redact_user redact_query
redact_url url = redact_query (redact_user url)

redact_both :
    redact_url (codes "https://me:pw@host/p?sig=1#x") ≡ codes "https://<redacted>@host/p?<redacted>"
unfolding redact_url
redact_both = refl
