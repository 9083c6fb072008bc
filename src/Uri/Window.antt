-- ===== src/Uri/Window.antt =====
-- `apply_window` of uri.cpp: a window inside the window that an object already has.
use karu.Base.{
  ℕ, ◌+◌, ◌≤◌, ◌<◌, ◌≡◌, ◌↔◌, ◌⊎◌, not, ◌&&◌, codes, ltb, ◌==◌, min, if◌then◌else◌, u64_max, add64,
  sub64, Expected, value, unexpected, arith,
}
use karu.Uri.{Resolved, ResolveError, malformed_uri, to_end}

-- The length of a window `length` at `offset` of `resolved`, clipped to the parent.
clipped : Resolved → ℕ → ℕ → ℕ
clipped resolved offset length =
    if resolved.window_length == to_end
    then length
    else min length (sub64 resolved.window_length offset)

unfoldable pub apply_window : Resolved → ℕ → ℕ → Expected ResolveError Resolved
unfolding clipped
apply_window resolved offset length =
    if ltb (sub64 u64_max offset) resolved.window_offset
    then unexpected (malformed_uri (codes "window offset overflows"))
    else if not (resolved.window_length == to_end) && ltb resolved.window_length offset
    then unexpected (malformed_uri (codes "window starts past the end of its parent"))
    else value (record resolved {
      window_offset = add64 resolved.window_offset offset;
      window_length = clipped resolved offset length;
    })

-- The words of a window are uint64_t.
pub record IsWindow (r : Resolved) : Type 0 where
  pub offset_fits : r.window_offset ≤ u64_max
  pub length_fits : r.window_length ≤ u64_max

-- A length admits a position: `to_end` admits all.
abbrev pub Within : ℕ → ℕ → Type 0
Within length p = (length ≡ to_end) ⊎ (p < length)

-- Position `p` of the window is byte `x` of the stored object.
abbrev pub Shows : Resolved → ℕ → ℕ → Type 0
Shows r p x = (x ≡ r.window_offset + p) × Within r.window_length p

-- A window shows exactly what the parent shows from `offset` on, up to `length` positions of it.
pub apply_window-Shows :
    (r s : Resolved) (offset length p x : ℕ)
    → IsWindow r
    → offset ≤ u64_max
    → length ≤ u64_max
    → apply_window r offset length ≡ value s
    → Shows s p x ↔ (Within length p × Shows r (offset + p) x)
unfolding apply_window
apply_window-Shows r s offset length p x w ho hl h = (λ v. ground arith, λ v. ground arith)

-- The window keeps its words in range, and the object and its names as they are.
pub apply_window-IsWindow :
    (r s : Resolved) (offset length : ℕ)
    → IsWindow r
    → offset ≤ u64_max
    → length ≤ u64_max
    → apply_window r offset length ≡ value s
    → IsWindow s
      × (s ≡ record r { window_offset = r.window_offset + offset; window_length = s.window_length })
unfolding apply_window
apply_window-IsWindow r s offset length w ho hl h = ground arith

-- A window is taken exactly when its start neither passes the end of the parent nor wraps around.
pub apply_window-accepts :
    (r : Resolved) (offset length : ℕ)
    → IsWindow r
    → offset ≤ u64_max
    → ((s : Resolved) × (apply_window r offset length ≡ value s)) ↔ (
        (r.window_offset + offset ≤ u64_max)
        × ((r.window_length ≡ to_end) ⊎ (offset ≤ r.window_length)))
unfolding apply_window
apply_window-accepts r offset length w ho =
    (λ v. let e = v.1 in ground arith, λ v. (accepted, ground arith))
  where
    accepted : Resolved
    accepted = record r {
      window_offset = add64 r.window_offset offset;
      window_length = clipped r offset length;
    }
