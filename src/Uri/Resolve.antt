-- ===== src/Uri/Resolve.antt =====
-- `resolve` of uri.cpp: fragments, aliases and nested /vsisubfile/ windows.
use karu.Base.{
  ℕ, zero, suc, ◌+◌, Bool, not, ◌&&◌, ◌||◌, Option, none, some, List, [], ◌∷◌, ◌++◌, Bytes, codes,
  text_eq, is_empty, starts_with, find, find_last, find_from, take, drop, length, ltb, ◌==◌,
  if◌then◌else◌, Expected, value, unexpected, ◌>>=◌, u64_max, sub64,
}
use karu.Uri.{Resolved, ResolveError, malformed_uri, unsupported, to_end}
use karu.Uri.Window.{apply_window}
use karu.Uri.Object.{object}
use karu.Decimal.{parse_u64}

-- The window that #bytes=FIRST-LAST names.
unfoldable pub bytes_window : ℕ → Bytes → Expected ResolveError (ℕ × ℕ)
bytes_window first last_text =
    if is_empty last_text
    then value (first, to_end)
    else (parse_u64 last_text >>= (λ last.
        if ltb last first
        then unexpected (malformed_uri (codes "#bytes= ends before it starts"))
        else if sub64 last first == u64_max
        then unexpected (malformed_uri (codes "#bytes= range is too large"))
        else value (first, sub64 last first + 1)))

-- The rest of the URI, and the window with it.
unfoldable pub take_bytes_fragment : Bytes → Expected ResolveError (Bytes × (ℕ × ℕ))
take_bytes_fragment uri = elim (find_last uri b'#') [
  | none ↦ value (uri, (0, to_end))
  | some hash ↦
      if not (starts_with (drop hash uri) (codes "#bytes="))
      then value (uri, (0, to_end))
      else (let fragment = drop 7 (drop hash uri) in
          elim (find fragment b'-') [
            | none ↦ unexpected (malformed_uri (codes "#bytes= wants FIRST-LAST"))
            | some dash ↦ parse_u64 (take dash fragment) >>= (λ first.
                bytes_window first (drop (dash + 1) fragment) >>= λ window.
                value (take hash uri, window))
          ])
]

unfoldable pub finish : ℕ × ℕ → Resolved → Expected ResolveError Resolved
finish (offset, len) resolved =
    if not (offset == 0) || not (len == to_end)
    then apply_window resolved offset len
    else value resolved

unfoldable pub terminal : Bytes → Expected ResolveError Resolved
terminal uri = take_bytes_fragment uri >>= λ taken. object taken.0 >>= finish taken.1

-- The length of a subfile: one that is absent or negative reaches to the end.
unfoldable pub subfile_length : Option ℕ → Bytes → Expected ResolveError ℕ
subfile_length none spec = value to_end
subfile_length (some underscore) spec =
    let length_text = drop (underscore + 1) spec in
    if starts_with length_text (codes "-")
    then elim (parse_u64 (drop 1 length_text)) [
      | value n ↦ value to_end
      | unexpected e ↦ unexpected (malformed_uri (codes "negative subfile length is malformed"))
    ]
    else parse_u64 length_text

abbrev pub offset_text : Option ℕ → Bytes → Bytes
offset_text none spec = spec
offset_text (some underscore) spec = take underscore spec

-- OFFSET[_LENGTH],<uri>: the inner URI and its window.
unfoldable pub subfile : Bytes → Expected ResolveError (Bytes × (ℕ × ℕ))
subfile rest = elim (find rest b',') [
  | none ↦ unexpected (malformed_uri (codes "/vsisubfile/ wants OFFSET[_LENGTH],<uri>"))
  | some comma ↦
      let spec = take comma rest in
      let inner = drop (comma + 1) rest in
      if is_empty inner
      then unexpected (malformed_uri (codes "/vsisubfile/ has no inner URI"))
      else (parse_u64 (offset_text (find spec b'_') spec) >>= (λ offset.
          subfile_length (find spec b'_') spec >>= λ len. value (inner, (offset, len))))
]

-- The prefixes and the schemes that they stand for.
abbrev pub aliases : List (Bytes × Bytes)
aliases =
    (codes "/vsicurl/", [])
    ∷ (codes "/vsis3/", codes "s3://")
    ∷ (codes "/vsigs/", codes "gs://")
    ∷ (codes "/vsiaz/", codes "az://")
    ∷ (codes "/vsiadls/", codes "abfs://")
    ∷ (codes "/vsihf/", codes "hf://")
    ∷ (codes "/vsisource/", codes "source://")
    ∷ []

-- The name of a handler that is not known.
pub handler : Bytes → Bytes
handler uri = elim (find_from (λ s. find s b'/') 4 uri) [
  | none ↦ uri
  | some end ↦ take (end + 1) uri
]

unfoldable pub plain : Bytes → Expected ResolveError Resolved
plain uri =
    if starts_with uri (codes "/vsi")
    then unexpected (record {
      code = unsupported;
      message =
          codes "unsupported virtual filesystem '"
          ++ handler uri
          ++ codes "'; Karu supports /vsisubfile/, /vsicurl/, /vsis3/, /vsigs/, "
          ++ codes "/vsiaz/, /vsiadls/, /vsihf/ and /vsisource/ "
          ++ codes "(no *_streaming aliases)";
    })
    else terminal uri

unfoldable pub is_http : Bytes → Bool
is_http rest = starts_with rest (codes "http://") || starts_with rest (codes "https://")

-- The loop over the aliases.
unfoldable pub resolve_alias : List (Bytes × Bytes) → Bytes → Expected ResolveError Resolved
resolve_alias [] uri = plain uri
resolve_alias ((prefix, scheme) ∷ others) uri =
    let rest = drop (length prefix) uri in
    let other = resolve_alias others uri in
    if not (starts_with uri prefix)
    then other
    else if is_empty rest
    then unexpected (malformed_uri (prefix ++ codes " has no target"))
    else if text_eq prefix (codes "/vsicurl/") && not (is_http rest)
    then unexpected (malformed_uri (codes "/vsicurl/ target must be an HTTP URL"))
    else terminal (scheme ++ rest)

-- `levels` is what `depth` leaves of MAX_SUBFILE_DEPTH.
unfoldable pub resolve_impl : ℕ → Bytes → Expected ResolveError Resolved
resolve_impl zero uri =
    if is_empty uri
    then unexpected (malformed_uri (codes "empty URI"))
    else if starts_with uri (codes "/vsisubfile/")
    then unexpected (malformed_uri (codes "/vsisubfile/ nesting exceeds 16 levels"))
    else resolve_alias aliases uri
resolve_impl (suc levels) uri =
    let nested = subfile (drop 12 uri) >>= (λ parsed.
      resolve_impl levels parsed.0 >>= λ child. apply_window child parsed.1.0 parsed.1.1) in
    if is_empty uri
    then unexpected (malformed_uri (codes "empty URI"))
    else if starts_with uri (codes "/vsisubfile/")
    then nested
    else resolve_alias aliases uri

abbrev pub max_subfile_depth : ℕ
max_subfile_depth = 16

unfoldable pub resolve : Bytes → Expected ResolveError Resolved
resolve uri = resolve_impl max_subfile_depth uri
