-- ===== src/Uri/Tests.antt =====
-- Windows of a concrete object.
use karu.Base.{
  ℕ, ◌+◌, ◌-◌, ◌≤◌, ◌≡◌, ◌↔◌, ◌⊎◌, refl, false, List, [], ◌∷◌, length, Bytes, codes, Expected,
  value, unexpected, arith, u64_max,
}
use karu.Uri.{http, s3, hugging_face, Resolved, ResolveError, malformed_uri, to_end}
use karu.Uri.Window.{apply_window, Within, Shows, apply_window-Shows, apply_window-accepts}
use karu.Uri.Encode.{is_safe, hex, encode_path}
use karu.Decimal.{parse_u64}
use karu.Uri.Object.{object, cloud, split_object, hf_object, hf_target, hf_kind, hf_revision}
use karu.Uri.Decode.{percent_decode, percent_decode-encode_path}
use karu.Uri.Resolve.{
  resolve, resolve_impl, subfile, subfile_length, resolve_alias, plain, terminal,
  take_bytes_fragment, bytes_window, finish, max_subfile_depth,
}
use karu.Uri.Invariant.{resolve_same}
use karu.Uri.Subfile.{nest, windows, subfile_uri, resolve-nest, resolve-nest_too_deep}

abbrev whole : Resolved
whole = record {
  backend = http;
  canonical_uri = codes "https://h/k";
  target = codes "https://h/k";
  container = [];
  key = [];
  azure_dfs = false;
  window_offset = 0;
  window_length = to_end;
}

-- The window [10, 30), and in it [5, 25), which the parent cuts at 30.
abbrev outer : Resolved
outer = record whole { window_offset = 10; window_length = 20 }

abbrev inner : Resolved
inner = record whole { window_offset = 15; window_length = 15 }

nested : apply_window outer 5 20 ≡ value inner
unfolding apply_window
nested = refl

past_the_end :
    apply_window outer 21 1
    ≡ unexpected (malformed_uri (codes "window starts past the end of its parent"))
unfolding apply_window
past_the_end = refl

apply_window-Shows_example : Shows inner 3 18 ↔ (Within 20 3 × Shows outer (5 + 3) 18)
apply_window-Shows_example =
    apply_window-Shows outer inner 5 20 3 18 (omega arith) (omega arith) (omega arith) nested

apply_window-accepts_example : ((s : Resolved) × (apply_window outer 5 20 ≡ value s)) ↔ (
    (outer.window_offset + 5 ≤ u64_max)
    × ((outer.window_length ≡ to_end) ⊎ (5 ≤ outer.window_length)))
apply_window-accepts_example = apply_window-accepts outer 5 20 (omega arith) (omega arith)

computed : Bytes → Expected ResolveError Resolved
unfolding resolve resolve_impl subfile subfile_length resolve_alias plain terminal
    take_bytes_fragment bytes_window finish parse_u64 object cloud split_object hf_object hf_target
    hf_kind hf_revision encode_path is_safe hex apply_window
computed uri = resolve uri

run : (uri : Bytes) → resolve uri ≡ computed uri
unfolding computed
run uri = refl

-- One blob by its scheme, with a fragment, and by its alias in a subfile.
abbrev blob : Resolved
blob = record {
  backend = s3;
  canonical_uri = codes "/vsis3/b/k/x";
  target = [];
  container = codes "b";
  key = codes "k/x";
  azure_dfs = false;
  window_offset = 0;
  window_length = to_end;
}

by_fragment :
    resolve (codes "s3://b/k/x#bytes=5-9")
    ≡ value (record blob { window_offset = 5; window_length = 5 })
unfolding computed
by_fragment = run (codes "s3://b/k/x#bytes=5-9")

by_subfile :
    resolve (codes "/vsisubfile/7_2,/vsis3/b/k/x")
    ≡ value (record blob { window_offset = 7; window_length = 2 })
unfolding computed
by_subfile = run (codes "/vsisubfile/7_2,/vsis3/b/k/x")

on_hub :
    resolve (codes "hf://datasets/o/n@r 1/d.bin")
    ≡ value (record {
      backend = hugging_face;
      canonical_uri = codes "/vsihf/datasets/o/n@r 1/d.bin";
      target = codes "/datasets/o/n/resolve/r%201/d.bin";
      container = [];
      key = [];
      azure_dfs = false;
      window_offset = 0;
      window_length = to_end;
    })
unfolding computed
on_hub = run (codes "hf://datasets/o/n@r 1/d.bin")

backwards :
    resolve (codes "s3://b/k#bytes=9-5")
    ≡ unexpected (malformed_uri (codes "#bytes= ends before it starts"))
unfolding computed
backwards = run (codes "s3://b/k#bytes=9-5")

resolve_same_example :
    record blob { window_offset = 7; window_length = 2 }
    ≡ record (record blob { window_offset = 5; window_length = 5 }) {
      window_offset = 7;
      window_length = 2;
    }
resolve_same_example =
    resolve_same (codes "s3://b/k/x#bytes=5-9") (codes "/vsisubfile/7_2,/vsis3/b/k/x")
      (record blob { window_offset = 5; window_length = 5 })
      (record blob { window_offset = 7; window_length = 2 }) by_fragment by_subfile refl refl

abbrev two : List (ℕ × ℕ)
two = (3, 4) ∷ (5, 9) ∷ []

resolve-nest_example :
    resolve (nest two (codes "s3://b/k"))
    ≡ windows two (resolve_impl (max_subfile_depth - length two) (codes "s3://b/k"))
resolve-nest_example =
    resolve-nest two (codes "s3://b/k") (omega arith)
      ((omega arith, omega arith), ((omega arith, omega arith), tt)) (λ e. ground arith)

abbrev sixteen : List (ℕ × ℕ)
sixteen =
    (1, 9)
    ∷ (1, 9)
    ∷ (1, 9)
    ∷ (1, 9)
    ∷ (1, 9)
    ∷ (1, 9)
    ∷ (1, 9)
    ∷ (1, 9)
    ∷ (1, 9)
    ∷ (1, 9)
    ∷ (1, 9)
    ∷ (1, 9)
    ∷ (1, 9)
    ∷ (1, 9)
    ∷ (1, 9)
    ∷ (1, 9)
    ∷ []

resolve-nest_too_deep_example :
    resolve (nest sixteen (subfile_uri (2, 3) (codes "s3://b/k")))
    ≡ unexpected (malformed_uri (codes "/vsisubfile/ nesting exceeds 16 levels"))
resolve-nest_too_deep_example =
    resolve-nest_too_deep sixteen (2, 3) (codes "s3://b/k") refl (ground arith)

percent_decode-encode_path_example :
    percent_decode (encode_path (codes "a b/100%")) ≡ codes "a b/100%"
percent_decode-encode_path_example = percent_decode-encode_path (codes "a b/100%") (ground arith)
