-- ===== src/Uri/Object.antt =====
-- `terminal` of uri.cpp behind the fragment: the object that a URI names, and its backend.
use karu.Base.{
  ℕ, ◌+◌, Bool, true, false, ◌||◌, none, some, [], ◌∷◌, ◌++◌, Bytes, codes, is_empty, starts_with,
  find, find_any, find_text, find_from, take, drop, length, leb, ◌==◌, if◌then◌else◌, Expected,
  value, unexpected, ◌>>=◌,
}
use karu.Uri.{
  Backend, file, http, s3, gcs, azure, hugging_face, source, Resolved, ResolveError, malformed_uri,
  to_end,
}
use karu.Uri.Encode.{encode_path}

-- A text that a `/` inside it splits in two.
unfoldable pub split_object : Bytes → Bytes → Expected ResolveError (Bytes × Bytes)
split_object text grammar =
    let refused =
      malformed_uri (codes "expected " ++ grammar ++ codes " in '" ++ text ++ codes "'") in
    elim (find text b'/') [
      | none ↦ unexpected refused
      | some slash ↦
          if slash == 0 || leb (length text) (slash + 1)
          then unexpected refused
          else value (take slash text, drop (slash + 1) text)
    ]

-- A resolved URI before its fields are set.
abbrev pub unresolved : Resolved
unresolved = record {
  backend = file;
  canonical_uri = [];
  target = [];
  container = [];
  key = [];
  azure_dfs = false;
  window_offset = 0;
  window_length = to_end;
}

abbrev pub in_container : Backend → Bytes → Bool → Bytes × Bytes → Resolved
in_container backend vsi dfs (container, key) = record unresolved {
  backend = backend;
  container = container;
  key = key;
  azure_dfs = dfs;
  canonical_uri = vsi ++ (container ++ (b'/' ∷ key));
}

unfoldable pub cloud : Backend → Bytes → Bytes → Bytes → Bool → Expected ResolveError Resolved
cloud backend rest grammar vsi dfs =
    split_object rest grammar >>= λ pieces. value (in_container backend vsi dfs pieces)

-- The key of a Source object must itself be `product/key`.
unfoldable pub source_object : Bytes → Expected ResolveError Resolved
source_object rest = split_object rest (codes "source://account/product/key") >>= (λ account.
    split_object account.1 (codes "source://account/product/key") >>= λ product.
    value (in_container source (codes "/vsisource/") false account))

-- The kind of a Hugging Face repository and what stands behind it.
unfoldable pub hf_kind : Bytes → Bytes × Bytes
hf_kind rest =
    if starts_with rest (codes "datasets/")
    then (codes "datasets/", drop 9 rest)
    else if starts_with rest (codes "spaces/")
    then (codes "spaces/", drop 7 rest)
    else ([], rest)

-- A repository's name and its revision.
unfoldable pub hf_revision : Bytes → Expected ResolveError (Bytes × Bytes)
hf_revision name = elim (find name b'@') [
  | none ↦ value (name, codes "main")
  | some at ↦
      if is_empty (take at name) || is_empty (drop (at + 1) name)
      then unexpected (malformed_uri (codes "hf:// has an empty repository or revision"))
      else value (take at name, drop (at + 1) name)
]

-- The path of a file on the hub.
unfoldable pub hf_target : Bytes → Expected ResolveError Bytes
hf_target text =
    let (kind, rest) = hf_kind text in
    split_object rest (codes "hf://owner/name/path") >>= (λ owner.
      split_object owner.1 (codes "hf://owner/name/path") >>= (λ repository.
        hf_revision repository.0 >>= (λ named. value (
          codes "/"
          ++ kind
          ++ owner.0
          ++ codes "/"
          ++ named.0
          ++ codes "/resolve/"
          ++ encode_path named.1
          ++ codes "/"
          ++ encode_path repository.1))))

unfoldable pub hf_object : Bytes → Expected ResolveError Resolved
hf_object rest = hf_target rest >>= (λ target. value (record unresolved {
  backend = hugging_face;
  canonical_uri = codes "/vsihf/" ++ rest;
  target = target;
}))

-- Where the authority begins; npos + 3 wraps around.
unfoldable pub authority_begin : Bytes → ℕ
authority_begin input = elim (find_text input (codes "://")) [ none ↦ 2 | some i ↦ i + 3 ]

unfoldable pub has_no_authority : Bytes → Bool
unfolding authority_begin
has_no_authority input =
    authority_begin input == length input
    || elim (find_from (λ s. find_any s (codes "/?#")) (authority_begin input) input) [
      | none ↦ false
      | some end ↦ end == authority_begin input
    ]

unfoldable pub http_object : Bytes → Expected ResolveError Resolved
http_object input =
    if has_no_authority input
    then unexpected (malformed_uri (codes "HTTP URL has no authority"))
    else value (record unresolved { backend = http; target = input; canonical_uri = input })

-- file:// and plain paths.
unfoldable pub file_object : Bytes → Expected ResolveError Resolved
file_object rest =
    if is_empty rest
    then unexpected (malformed_uri (codes "file:// has no path"))
    else value (record unresolved { target = rest; canonical_uri = codes "file://" ++ rest })

unfoldable pub path_object : Bytes → Expected ResolveError Resolved
path_object input = elim (find_text input (codes "://")) [
  | some i ↦ unexpected (malformed_uri (codes "unknown scheme in '" ++ input ++ codes "'"))
  | none ↦
      if is_empty input
      then unexpected (malformed_uri (codes "empty path"))
      else value (record unresolved { target = input; canonical_uri = input })
]

unfoldable pub object : Bytes → Expected ResolveError Resolved
object input =
    if starts_with input (codes "http://") || starts_with input (codes "https://")
    then http_object input
    else if starts_with input (codes "s3://")
    then cloud s3 (drop 5 input) (codes "s3://bucket/key") (codes "/vsis3/") false
    else if starts_with input (codes "gs://")
    then cloud gcs (drop 5 input) (codes "gs://bucket/key") (codes "/vsigs/") false
    else if starts_with input (codes "az://")
    then cloud azure (drop 5 input) (codes "az://container/blob") (codes "/vsiaz/") false
    else if starts_with input (codes "abfs://")
    then cloud azure (drop 7 input) (codes "abfs://container/blob") (codes "/vsiadls/") true
    else if starts_with input (codes "source://")
    then source_object (drop 9 input)
    else if starts_with input (codes "hf://")
    then hf_object (drop 5 input)
    else if starts_with input (codes "file://")
    then file_object (drop 7 input)
    else path_object input
