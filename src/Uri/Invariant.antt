-- ===== src/Uri/Invariant.antt =====
-- What holds of every resolved URI, through fragments, aliases and nested windows.
use karu.Base.{
  ℕ, zero, suc, ◌+◌, ◌≤◌, ◌≡◌, sym, ◌∙◌, ap, subst, not, ◌||◌, Option, none, some, List, [], ◌∷◌,
  ◌++◌, Bytes, codes, starts_with, find, find_last, take, drop, length, ◌==◌, value, ◌>>=◌,
  >>=-eq-value, Option-cases, Bool-cases, Expected-cases, inl, inr, arith, u64_max,
}
use mathlib.Core.Path.{ap₂}
use karu.Uri.{Resolved, to_end}
use karu.Uri.Window.{apply_window, IsWindow, apply_window-IsWindow}
use karu.Uri.Object.{object}
use karu.Uri.Names.{object-IsNamedBy, object_of, object_of-IsWhole}
use karu.Uri.Resolve.{
  bytes_window, take_bytes_fragment, finish, terminal, subfile_length, offset_text, subfile, plain,
  resolve_alias, resolve_impl, aliases, resolve,
}
use karu.Decimal.{parse_u64}
use karu.Decimal.Parse.{parse_u64_iff}

-- Backend and canonical URI name the object; the window's words are in range.
pub record IsResolved (r : Resolved) : Type 0 where
  pub named :
      record r { window_offset = 0; window_length = to_end } ≡ object_of r.backend r.canonical_uri
  pub window : IsWindow r

Fits : ℕ × ℕ → Type 0
Fits w = (w.0 ≤ u64_max) × (w.1 ≤ u64_max)

parse_u64-fits : (text : Bytes) (n : ℕ) → parse_u64 text ≡ value n → n ≤ u64_max
parse_u64-fits text n h = ((parse_u64_iff text n).0 h).fits

object-IsResolved : (uri : Bytes) (r : Resolved) → object uri ≡ value r → IsResolved r
object-IsResolved uri r h =
    let named : r ≡ object_of r.backend r.canonical_uri = object-IsNamedBy uri r h in
    let (offset, len) = object_of-IsWhole r.backend r.canonical_uri in
    let at_start : r.window_offset ≡ 0 = ap (λ s. s.window_offset) named ∙ offset in
    let to_its_end : r.window_length ≡ to_end = ap (λ s. s.window_length) named ∙ len in
    record {
      named = ground arith;
      window = record { offset_fits = omega arith; length_fits = omega arith };
    }

apply_window-IsResolved :
    (r s : Resolved) (w : ℕ × ℕ)
    → Fits w
    → IsResolved r
    → apply_window r w.0 w.1 ≡ value s
    → IsResolved s
unfolding Fits
apply_window-IsResolved r s (offset, len) (fo, fl) k h =
    let (window, e) = apply_window-IsWindow r s offset len k.window fo fl h in
    record {
      window = window;
      named =
          subst
            (λ t.
              record t { window_offset = 0; window_length = to_end }
              ≡ object_of t.backend t.canonical_uri)
            (sym e) k.named;
    }

bytes_window-Fits :
    (first : ℕ) (text : Bytes) (w : ℕ × ℕ)
    → first ≤ u64_max
    → bytes_window first text ≡ value w
    → Fits w
unfolding bytes_window Fits
bytes_window-Fits first text w f h = ground (arith, parse_u64-fits text)

take_bytes_fragment-Fits :
    (uri : Bytes) (taken : Bytes × (ℕ × ℕ)) → take_bytes_fragment uri ≡ value taken → Fits taken.1
unfolding take_bytes_fragment Fits
take_bytes_fragment-Fits uri (taken, (offset, len)) h = elim (Option-cases (find_last uri b'#')) [
  | inl e ↦ ground arith
  | inr (hash, e) ↦
      (let fragment = drop 7 (drop hash uri) in
        elim (Option-cases (find fragment b'-')) [
          | inl f ↦ ground arith
          | inr (dash, f) ↦ elim (Expected-cases (parse_u64 (take dash fragment))) [
            | inr (_, p) ↦ ground arith
            | inl (first, p) ↦
                elim (Expected-cases (bytes_window first (drop (dash + 1) fragment))) [
                  | inr (_, b) ↦ ground arith
                  | inl (w, b) ↦ ground (
                    arith,
                    bytes_window-Fits first (drop (dash + 1) fragment) w
                        (parse_u64-fits (take dash fragment) first p) b,
                  )
                ]
          ]
        ])
]

finish-IsResolved :
    (w : ℕ × ℕ) (r s : Resolved) → Fits w → IsResolved r → finish w r ≡ value s → IsResolved s
unfolding finish
finish-IsResolved (offset, len) r s f k h =
    elim (Bool-cases (not (offset == 0) || not (len == to_end))) [
      | inl e ↦ apply_window-IsResolved r s (offset, len) f k (ground arith)
      | inr e ↦ subst IsResolved (ground arith) k
    ]

terminal-IsResolved : (uri : Bytes) (r : Resolved) → terminal uri ≡ value r → IsResolved r
unfolding terminal
terminal-IsResolved uri r h =
    let (taken, took, rest) = >>=-eq-value (take_bytes_fragment uri) _ h in
    let (s, made, ended) = >>=-eq-value (object taken.0) _ rest in
    finish-IsResolved taken.1 s r (take_bytes_fragment-Fits uri taken took)
      (object-IsResolved taken.0 s made) ended

resolve_alias-IsResolved :
    (table : List (Bytes × Bytes)) (uri : Bytes) (r : Resolved)
    → resolve_alias table uri ≡ value r
    → IsResolved r
unfolding resolve_alias plain
resolve_alias-IsResolved [] uri r h = terminal-IsResolved uri r (ground arith)
resolve_alias-IsResolved ((prefix, scheme) ∷ others) uri r h =
    elim (Bool-cases (starts_with uri prefix)) [
      | inl e ↦ terminal-IsResolved (scheme ++ drop (length prefix) uri) r (ground arith)
      | inr e ↦ resolve_alias-IsResolved others uri r (ground arith)
    ]

subfile_length-fits :
    (underscore : Option ℕ) (spec : Bytes) (n : ℕ)
    → subfile_length underscore spec ≡ value n
    → n ≤ u64_max
unfolding subfile_length
subfile_length-fits none spec n h = ground arith
subfile_length-fits (some underscore) spec n h =
    ground (arith, parse_u64-fits (drop (underscore + 1) spec) n)

subfile-Fits :
    (rest : Bytes) (parsed : Bytes × (ℕ × ℕ)) → subfile rest ≡ value parsed → Fits parsed.1
unfolding subfile Fits
subfile-Fits rest (inner, (offset, len)) h = elim (Option-cases (find rest b',')) [
  | inl e ↦ ground arith
  | inr (comma, e) ↦
      (let spec = take comma rest in
        let text = offset_text (find spec b'_') spec in
        ground (arith, parse_u64-fits text offset, subfile_length-fits (find spec b'_') spec len))
]

resolve_impl-IsResolved :
    (levels : ℕ) (uri : Bytes) (r : Resolved) → resolve_impl levels uri ≡ value r → IsResolved r
unfolding resolve_impl
resolve_impl-IsResolved zero uri r h = resolve_alias-IsResolved aliases uri r (ground arith)
resolve_impl-IsResolved (suc levels) uri r h =
    elim (Bool-cases (starts_with uri (codes "/vsisubfile/"))) [
      | inr e ↦ resolve_alias-IsResolved aliases uri r (ground arith)
      | inl e ↦
          (let (parsed, found, rest) =
              >>=-eq-value (subfile (drop 12 uri))
                (λ parsed. resolve_impl levels parsed.0 >>= λ child.
                  apply_window child parsed.1.0 parsed.1.1)
                (ground arith) in
            let (child, made, shown) = >>=-eq-value (resolve_impl levels parsed.0) _ rest in
            apply_window-IsResolved child r parsed.1 (subfile-Fits (drop 12 uri) parsed found)
              (resolve_impl-IsResolved levels parsed.0 child made) shown)
    ]

-- A resolved URI names the object that its backend and its canonical URI name, and its window fits.
pub resolve-IsResolved : (uri : Bytes) (r : Resolved) → resolve uri ≡ value r → IsResolved r
unfolding resolve
resolve-IsResolved uri r h = resolve_impl-IsResolved _ uri r h

-- Two URIs that resolve to one backend and one canonical URI name one object: nothing but the
-- window can differ.
pub resolve_same :
    (uri uri' : Bytes) (r s : Resolved)
    → resolve uri ≡ value r
    → resolve uri' ≡ value s
    → r.backend ≡ s.backend
    → r.canonical_uri ≡ s.canonical_uri
    → s ≡ record r { window_offset = s.window_offset; window_length = s.window_length }
resolve_same uri uri' r s h k b c =
    let r_named = (resolve-IsResolved uri r h).named in
    let s_named = (resolve-IsResolved uri' s k).named in
    let same : object_of r.backend r.canonical_uri ≡ object_of s.backend s.canonical_uri =
      ap₂ object_of b c in
    let whole = sym (r_named ∙ same ∙ sym s_named) in
    ap {A = Resolved} {B = Resolved}
      (λ t. record t { window_offset = s.window_offset; window_length = s.window_length }) whole

-- The window of a resolved URI has its words in range.
pub resolve-IsWindow : (uri : Bytes) (r : Resolved) → resolve uri ≡ value r → IsWindow r
resolve-IsWindow uri r h = (resolve-IsResolved uri r h).window
