-- ===== src/Uri/Names.antt =====
-- The backend and the canonical URI of a resolved object determine the object.
use karu.Base.{
  ℕ, ◌+◌, ◌≡◌, refl, sym, ◌∙◌, ap, subst, Bool, true, false, ◌||◌, none, some, [], ◌∷◌, ◌++◌, Bytes,
  codes, starts_with, find, take, drop, drop-append, length, leb, ◌==◌, if◌then◌else◌, value,
  unexpected, >>=-eq-value, Option-cases, Bool-cases, Expected-cases, inl, inr, arith,
}
use mathlib.Core.Path.{ap₂}
use karu.Uri.{Backend, file, http, s3, gcs, azure, hugging_face, source, Resolved, to_end}
use karu.Uri.Object.{
  split_object, unresolved, in_container, cloud, source_object, hf_target, hf_object, http_object,
  file_object, path_object, object,
}

pub find-take : (xs : Bytes) (c i : ℕ) → find xs c ≡ some i → xs ≡ take i xs ++ c ∷ drop (i + 1) xs
find-take [] c i h = ground arith
find-take (x ∷ xs) c i h = elim (Option-cases (find xs c)) [
  | inl e ↦ ground (arith, find-take xs c)
  | inr (j, e) ↦ ground (arith, find-take xs c j e)
]

-- What a text with a container and a key names.
named_behind : Backend → Bytes → Bool → Bytes → Resolved
named_behind backend vsi dfs text = elim (find text b'/') [
  | none ↦ unresolved
  | some i ↦ in_container backend vsi dfs (take i text, drop (i + 1) text)
]

-- What a canonical URI names behind the prefix `vsi`.
pub named_in : Backend → Bytes → Bool → Bytes → Resolved
named_in backend vsi dfs canonical = named_behind backend vsi dfs (drop (length vsi) canonical)

-- The object that a backend and a canonical URI name.
pub object_of : Backend → Bytes → Resolved
object_of file canonical = record unresolved {
  target = if starts_with canonical (codes "file://") then drop 7 canonical else canonical;
  canonical_uri = canonical;
}
object_of http canonical = record unresolved {
  backend = http;
  target = canonical;
  canonical_uri = canonical;
}
object_of s3 canonical = named_in s3 (codes "/vsis3/") false canonical
object_of gcs canonical = named_in gcs (codes "/vsigs/") false canonical
object_of azure canonical =
    if starts_with canonical (codes "/vsiadls/")
    then named_in azure (codes "/vsiadls/") true canonical
    else named_in azure (codes "/vsiaz/") false canonical
object_of hugging_face canonical = elim (hf_target (drop 7 canonical)) [
  | value target ↦ record unresolved {
    backend = hugging_face;
    canonical_uri = canonical;
    target = target;
  }
  | unexpected e ↦ unresolved
]
object_of source canonical = named_in source (codes "/vsisource/") false canonical

split_object-value :
    (text grammar a b : Bytes)
    → split_object text grammar ≡ value (a, b)
    → (slash : ℕ) × (find text b'/' ≡ some slash)
      × (a ≡ take slash text)
      × (b ≡ drop (slash + 1) text)
unfolding split_object
split_object-value text grammar a b h = elim (Option-cases (find text b'/')) [
  | inl e ↦ ground arith
  | inr (j, e) ↦ elim (Bool-cases (j == 0 || leb (length text) (j + 1))) [
    | inl t ↦ ground arith
    | inr t ↦ (j, e, ground arith, ground arith)
  ]
]

-- An object in a container is the one that its canonical URI names.
named_in-append :
    (backend : Backend) (vsi text : Bytes) (dfs : Bool) (slash : ℕ)
    → find text b'/' ≡ some slash
    → named_in backend vsi dfs (vsi ++ text)
      ≡ in_container backend vsi dfs (take slash text, drop (slash + 1) text)
unfolding named_in named_behind
named_in-append backend vsi text dfs slash h =
    ap (named_behind backend vsi dfs) (drop-append vsi text) ∙ rw (h, named_behind) refl

-- What is known of an object whose container and key a text splits into.
record IsNamed (backend : Backend) (vsi text : Bytes) (dfs : Bool) (r : Resolved) : Type 0 where
  backend_is : r.backend ≡ backend
  canonical_is : r.canonical_uri ≡ vsi ++ text
  object_is : r ≡ named_in backend vsi dfs r.canonical_uri

in_container-IsNamed :
    (backend : Backend) (vsi text grammar : Bytes) (dfs : Bool) (pieces : Bytes × Bytes)
    (r : Resolved)
    → split_object text grammar ≡ value pieces
    → in_container backend vsi dfs pieces ≡ r
    → IsNamed backend vsi text dfs r
in_container-IsNamed backend vsi text grammar dfs (a, b) r split made =
    let (slash, found, ea, eb) = split_object-value text grammar a b split in
    let named = named_in-append backend vsi text dfs slash found in
    let made' : in_container backend vsi dfs (take slash text, drop (slash + 1) text) ≡ r =
      rw (← ea, ← eb) made in
    let canonical : r.canonical_uri ≡ vsi ++ text =
      sym (ap (λ s. s.canonical_uri) made')
      ∙ ap (λ t. vsi ++ t) (sym (find-take text b'/' slash found)) in
    record {
      backend_is = sym (ap (λ s. s.backend) made');
      canonical_is = canonical;
      object_is = sym made' ∙ sym named ∙ ap (named_in backend vsi dfs) (sym canonical);
    }

cloud-IsNamed :
    (backend : Backend) (text grammar vsi : Bytes) (dfs : Bool) (r : Resolved)
    → cloud backend text grammar vsi dfs ≡ value r
    → IsNamed backend vsi text dfs r
unfolding cloud
cloud-IsNamed backend text grammar vsi dfs r h =
    let (pieces, split, made) = >>=-eq-value (split_object text grammar) _ h in
    in_container-IsNamed backend vsi text grammar dfs pieces r split (cc)

source_object-IsNamed :
    (text : Bytes) (r : Resolved)
    → source_object text ≡ value r
    → IsNamed source (codes "/vsisource/") text false r
unfolding source_object
source_object-IsNamed text r h =
    let (account, split, rest) =
      >>=-eq-value (split_object text (codes "source://account/product/key")) _ h in
    let (product, split', made) =
      >>=-eq-value (split_object account.1 (codes "source://account/product/key")) _ rest in
    in_container-IsNamed source (codes "/vsisource/") text (codes "source://account/product/key")
      false account r split (cc)

-- An object is the one that its backend and its canonical URI name.
abbrev pub IsNamedBy : Resolved → Type 0
IsNamedBy r = r ≡ object_of r.backend r.canonical_uri

-- It is enough that the canonical URI names a container and a key in it.
in_container-IsNamedBy :
    (backend : Backend) (vsi text : Bytes) (dfs : Bool) (r : Resolved)
    → object_of backend (vsi ++ text) ≡ named_in backend vsi dfs (vsi ++ text)
    → IsNamed backend vsi text dfs r
    → IsNamedBy r
in_container-IsNamedBy backend vsi text dfs r e n =
    n.object_is
    ∙ ap (named_in backend vsi dfs) n.canonical_is
    ∙ sym e
    ∙ sym (ap₂ object_of n.backend_is n.canonical_is)

hf_object-IsNamedBy : (text : Bytes) (r : Resolved) → hf_object text ≡ value r → IsNamedBy r
unfolding object_of hf_object
hf_object-IsNamedBy text r h =
    let (target, found, made) = >>=-eq-value (hf_target text) _ h in
    let named = record unresolved {
      backend = hugging_face;
      canonical_uri = codes "/vsihf/" ++ text;
      target = target;
    } in
    let made' : named ≡ r = cc in subst IsNamedBy made' (rw (found, object_of) refl)

http_object-IsNamedBy : (text : Bytes) (r : Resolved) → http_object text ≡ value r → IsNamedBy r
unfolding object_of http_object
http_object-IsNamedBy text r h =
    let named = record unresolved { backend = http; target = text; canonical_uri = text } in
    let made : named ≡ r = ground arith in subst IsNamedBy made refl

file_object-IsNamedBy : (text : Bytes) (r : Resolved) → file_object text ≡ value r → IsNamedBy r
unfolding object_of file_object
file_object-IsNamedBy text r h =
    let named = record unresolved { target = text; canonical_uri = codes "file://" ++ text } in
    let made : named ≡ r = ground arith in subst IsNamedBy made refl

path_object-IsNamedBy :
    (text : Bytes) (r : Resolved)
    → starts_with text (codes "file://") ≡ false
    → path_object text ≡ value r
    → IsNamedBy r
unfolding object_of path_object
path_object-IsNamedBy text r n h =
    let named = record unresolved { target = text; canonical_uri = text } in
    let made : named ≡ r = ground arith in subst IsNamedBy made (rw (n, object_of) refl)

pub object-IsNamedBy : (uri : Bytes) (r : Resolved) → object uri ≡ value r → IsNamedBy r
unfolding object object_of
object-IsNamedBy uri r h =
    elim (Bool-cases (starts_with uri (codes "http://") || starts_with uri (codes "https://"))) [
      | inl e1 ↦ http_object-IsNamedBy uri r (ground arith)
      | inr e1 ↦ elim (Bool-cases (starts_with uri (codes "s3://"))) [
        | inl e2 ↦
            in_container-IsNamedBy s3 (codes "/vsis3/") (drop 5 uri) false r refl
              (cloud-IsNamed _ _ (codes "s3://bucket/key") _ _ r (ground arith))
        | inr e2 ↦ elim (Bool-cases (starts_with uri (codes "gs://"))) [
          | inl e3 ↦
              in_container-IsNamedBy gcs (codes "/vsigs/") (drop 5 uri) false r refl
                (cloud-IsNamed _ _ (codes "gs://bucket/key") _ _ r (ground arith))
          | inr e3 ↦ elim (Bool-cases (starts_with uri (codes "az://"))) [
            | inl e4 ↦
                in_container-IsNamedBy azure (codes "/vsiaz/") (drop 5 uri) false r refl
                  (cloud-IsNamed _ _ (codes "az://container/blob") _ _ r (ground arith))
            | inr e4 ↦ elim (Bool-cases (starts_with uri (codes "abfs://"))) [
              | inl e5 ↦
                  in_container-IsNamedBy azure (codes "/vsiadls/") (drop 7 uri) true r refl
                    (cloud-IsNamed _ _ (codes "abfs://container/blob") _ _ r (ground arith))
              | inr e5 ↦ elim (Bool-cases (starts_with uri (codes "source://"))) [
                | inl e6 ↦
                    in_container-IsNamedBy source (codes "/vsisource/") (drop 9 uri) false r refl
                      (source_object-IsNamed _ r (ground arith))
                | inr e6 ↦ elim (Bool-cases (starts_with uri (codes "hf://"))) [
                  | inl e7 ↦ hf_object-IsNamedBy (drop 5 uri) r (ground arith)
                  | inr e7 ↦ elim (Bool-cases (starts_with uri (codes "file://"))) [
                    | inl e8 ↦ file_object-IsNamedBy (drop 7 uri) r (ground arith)
                    | inr e8 ↦ path_object-IsNamedBy uri r e8 (ground arith)
                  ]
                ]
              ]
            ]
          ]
        ]
      ]
    ]

-- No canonical URI carries a window.
abbrev IsWhole : Resolved → Type 0
IsWhole r = (r.window_offset ≡ 0) × (r.window_length ≡ to_end)

named_in-IsWhole :
    (backend : Backend) (vsi : Bytes) (dfs : Bool) (canonical : Bytes)
    → IsWhole (named_in backend vsi dfs canonical)
unfolding named_in named_behind
named_in-IsWhole backend vsi dfs canonical =
    elim (Option-cases (find (drop (length vsi) canonical) b'/')) [
      | inl e ↦ rw (e, named_behind) (refl, refl)
      | inr (i, e) ↦ rw (e, named_behind) (refl, refl)
    ]

pub object_of-IsWhole :
    (backend : Backend) (canonical : Bytes) → IsWhole (object_of backend canonical)
unfolding object_of
object_of-IsWhole file canonical = (refl, refl)
object_of-IsWhole http canonical = (refl, refl)
object_of-IsWhole s3 canonical = named_in-IsWhole s3 (codes "/vsis3/") false canonical
object_of-IsWhole gcs canonical = named_in-IsWhole gcs (codes "/vsigs/") false canonical
object_of-IsWhole azure canonical = elim (Bool-cases (starts_with canonical (codes "/vsiadls/"))) [
  | inl e ↦ rw (e, object_of) (named_in-IsWhole azure (codes "/vsiadls/") true canonical)
  | inr e ↦ rw (e, object_of) (named_in-IsWhole azure (codes "/vsiaz/") false canonical)
]
object_of-IsWhole hugging_face canonical = elim (Expected-cases (hf_target (drop 7 canonical))) [
  | inl (t, e) ↦ rw (e, object_of) (refl, refl)
  | inr (t, e) ↦ rw (e, object_of) (refl, refl)
]
object_of-IsWhole source canonical = named_in-IsWhole source (codes "/vsisource/") false canonical
