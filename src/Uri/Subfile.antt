-- ===== src/Uri/Subfile.antt =====
-- Nested /vsisubfile/ URIs: each level is one window, and there are at most 16 of them.
use karu.Base.{
  ℕ, suc, ◌+◌, ◌-◌, ◌≤◌, ◌≡◌, ◌≢◌, refl, ◌∙◌, ap, false, List, [], ◌∷◌, ◌++◌, Bytes, codes,
  starts_with, length, ◌==◌, All, All-append, All-imp, Expected, value, unexpected, ◌>>=◌, arith,
  u64_max, take-append, drop-behind, find-skip,
}
use karu.Uri.{Resolved, ResolveError, malformed_uri}
use karu.Uri.Window.{apply_window}
use karu.Uri.Resolve.{subfile, subfile_length, resolve_impl, max_subfile_depth, resolve}
use karu.Decimal.{to_string}
use karu.Decimal.Parse.{IsDigit}
use karu.Decimal.RoundTrip.{parse_u64-to_string, to_string-All}

pub window_spec : ℕ × ℕ → Bytes
window_spec w = to_string w.0 ++ (b'_' ∷ to_string w.1)

-- The URI of a window of an inner URI.
pub subfile_uri : ℕ × ℕ → Bytes → Bytes
subfile_uri w inner = codes "/vsisubfile/" ++ (window_spec w ++ (b',' ∷ inner))

abbrev pub Fits : ℕ × ℕ → Type 0
Fits w = (w.0 ≤ u64_max) × (w.1 ≤ u64_max)

digits-unsigned : (xs : Bytes) → All IsDigit xs → starts_with xs (codes "-") ≡ false
digits-unsigned [] h = refl
digits-unsigned (x ∷ xs) (h, hs) = ground arith

-- A window's text is read back.
subfile-window :
    (w : ℕ × ℕ) (inner : Bytes)
    → Fits w
    → inner ≢ []
    → subfile (window_spec w ++ (b',' ∷ inner)) ≡ value (inner, w)
unfolding subfile subfile_length window_spec
subfile-window (o, n) inner (fo, fn) ne =
    let digits = to_string-All o fo in
    let digits' = to_string-All n fn in
    let spec : Bytes = window_spec (o, n) in
    let no_underscore =
      All-imp IsDigit (λ x. (x == b'_') ≡ false) (λ x h. ground arith) (to_string o) digits in
    let no_comma : All (λ x. (x == b',') ≡ false) spec =
      All-append (λ x. (x == b',') ≡ false) (to_string o) (b'_' ∷ to_string n)
        (All-imp IsDigit (λ x. (x == b',') ≡ false) (λ x h. ground arith) (to_string o) digits)
        (
          refl,
          All-imp IsDigit (λ x. (x == b',') ≡ false) (λ x h. ground arith) (to_string n) digits',
        ) in
    ground (
      arith,
      find-skip b',' spec inner no_comma,
      take-append spec (b',' ∷ inner),
      drop-behind b',' spec inner,
      find-skip b'_' (to_string o) (to_string n) no_underscore,
      take-append (to_string o) (b'_' ∷ to_string n),
      drop-behind b'_' (to_string o) (to_string n),
      parse_u64-to_string o fo,
      parse_u64-to_string n fn,
      digits-unsigned (to_string n) digits',
    )

-- A URI in as many nested windows as the list has, the outermost first.
pub nest : List (ℕ × ℕ) → Bytes → Bytes
nest [] inner = inner
nest (w ∷ ws) inner = subfile_uri w (nest ws inner)

-- The windows, from the innermost on, of what is resolved.
pub windows : List (ℕ × ℕ) → Expected ResolveError Resolved → Expected ResolveError Resolved
windows [] m = m
windows (w ∷ ws) m = windows ws m >>= λ child. apply_window child w.0 w.1

subfile_uri-some : (w : ℕ × ℕ) (inner : Bytes) → subfile_uri w inner ≢ []
unfolding subfile_uri
subfile_uri-some w inner = λ e. ground arith

no_level_left :
    (w : ℕ × ℕ) (inner : Bytes)
    → resolve_impl 0 (subfile_uri w inner)
      ≡ unexpected (malformed_uri (codes "/vsisubfile/ nesting exceeds 16 levels"))
unfolding resolve_impl subfile_uri
no_level_left w inner = refl

nest-some : (ws : List (ℕ × ℕ)) (inner : Bytes) → inner ≢ [] → nest ws inner ≢ []
unfolding nest subfile_uri
nest-some [] inner ne = ne
nest-some (w ∷ ws) inner ne = λ e. ground arith

-- One level of nesting is one window.
resolve_impl-subfile_uri :
    (levels : ℕ) (w : ℕ × ℕ) (inner : Bytes)
    → Fits w
    → inner ≢ []
    → resolve_impl (suc levels) (subfile_uri w inner)
      ≡ (resolve_impl levels inner >>= λ child. apply_window child w.0 w.1)
unfolding resolve_impl subfile_uri
resolve_impl-subfile_uri levels w inner f ne =
    ap
      (λ m. m >>= λ parsed.
        resolve_impl levels parsed.0 >>= λ child. apply_window child parsed.1.0 parsed.1.1)
      (subfile-window w inner f ne)

resolve_impl-nest :
    (levels : ℕ) (ws : List (ℕ × ℕ)) (inner : Bytes)
    → All Fits ws
    → inner ≢ []
    → resolve_impl (length ws + levels) (nest ws inner) ≡ windows ws (resolve_impl levels inner)
unfolding nest windows
resolve_impl-nest levels [] inner f ne = ap (λ n. resolve_impl n inner) (omega arith)
resolve_impl-nest levels (w ∷ ws) inner (f, fs) ne =
    ap (λ n. resolve_impl n (subfile_uri w (nest ws inner))) (omega arith)
    ∙ resolve_impl-subfile_uri (length ws + levels) w (nest ws inner) f (nest-some ws inner ne)
    ∙ ap (λ m. m >>= λ child. apply_window child w.0 w.1) (resolve_impl-nest levels ws inner fs ne)

windows-unexpected :
    (ws : List (ℕ × ℕ)) (e : ResolveError) → windows ws (unexpected e) ≡ unexpected e
unfolding windows
windows-unexpected [] e = refl
windows-unexpected (w ∷ ws) e =
    ap (λ m. m >>= λ child. apply_window child w.0 w.1) (windows-unexpected ws e)

-- Up to 16 nested windows of uint64_t words around a URI that is not empty are taken one in the other,
-- and what is inside them is resolved with the levels that are left.
pub resolve-nest :
    (ws : List (ℕ × ℕ)) (inner : Bytes)
    → length ws ≤ max_subfile_depth
    → All Fits ws
    → inner ≢ []
    → resolve (nest ws inner) ≡ windows ws (resolve_impl (max_subfile_depth - length ws) inner)
unfolding resolve
resolve-nest ws inner h f ne =
    let levels = max_subfile_depth - length ws in
    let split : max_subfile_depth ≡ length ws + levels = omega arith in
    ap (λ n. resolve_impl n (nest ws inner)) split ∙ resolve_impl-nest levels ws inner f ne

-- A window inside 16 nested windows of uint64_t words is refused, whatever is inside it.
pub resolve-nest_too_deep :
    (ws : List (ℕ × ℕ)) (w : ℕ × ℕ) (inner : Bytes)
    → length ws ≡ max_subfile_depth
    → All Fits ws
    → resolve (nest ws (subfile_uri w inner))
      ≡ unexpected (malformed_uri (codes "/vsisubfile/ nesting exceeds 16 levels"))
unfolding resolve
resolve-nest_too_deep ws w inner h f =
    ap (λ n. resolve_impl n (nest ws (subfile_uri w inner))) (omega arith)
    ∙ resolve_impl-nest 0 ws (subfile_uri w inner) f (subfile_uri-some w inner)
    ∙ ap (windows ws) (no_level_left w inner)
    ∙ windows-unexpected ws _
