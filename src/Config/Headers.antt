-- ===== src/Config/Headers.antt =====
-- src/config.cpp: the headers of KARU_HTTP_HEADERS.
use karu.Base.{
  refl, ap, ℕ, zero, suc, ◌+◌, ◌≤◌, ◌<◌, ◌≡◌, Bool, true, false, ◌&&◌, ◌||◌, Option, none, some,
  List, [], ◌∷◌, Bytes, is_empty, contains, find, find_any, length, take, drop, leb, ◌==◌,
  if◌then◌else◌, Option-cases, Bool-cases, inl, inr, arith,
}
use karu.Config.Names.{lower_text}

pub record ConfiguredHeader : Type 0 where
  pub name : Bytes
  pub lowercase_name : Bytes
  pub value : Bytes
  pub malformed : Bool

-- std::isspace in the C locale.
abbrev pub is_space : ℕ → Bool
is_space c = c == 32 || leb 9 c && leb c 13

abbrev pub trim_front : Bytes → Bytes
trim_front [] = []
trim_front (c ∷ s) = let rest = trim_front s in if is_space c then rest else c ∷ s

abbrev pub trim_back : Bytes → Bytes
trim_back [] = []
trim_back (c ∷ s) = let rest = trim_back s in if is_empty rest && is_space c then [] else c ∷ rest

unfoldable pub trim_text : Bytes → Bytes
trim_text text = trim_back (trim_front text)

abbrev pub line_ends : Bytes
line_ends = 13 ∷ 10 ∷ []

-- What stands from the first character on that ends no line: find_first_not_of("\r\n").
abbrev pub behind_line_ends : Bytes → Bytes
behind_line_ends [] = []
behind_line_ends (c ∷ s) =
    let rest = behind_line_ends s in if contains line_ends c then rest else c ∷ s

abbrev pub malformed_header : ConfiguredHeader
malformed_header = record { name = []; lowercase_name = []; value = []; malformed = true }

-- The header in a line that is not empty, with `none` where it is malformed.
unfoldable pub parse_header : Bytes → Option ConfiguredHeader
unfolding lower_text trim_text
parse_header line = elim (find line b':') [
  | none ↦ none
  | some colon ↦
      let name = trim_text (take colon line) in
      if colon == 0
      then none
      else some (record {
        name = name;
        lowercase_name = lower_text name;
        value = trim_text (drop (colon + 1) line);
        malformed = false;
      })
]

-- The header of a line before the ones of the later lines.
unfoldable pub with_line : Bytes → List ConfiguredHeader → List ConfiguredHeader
unfolding parse_header trim_text
with_line line later =
    let trimmed = trim_text line in
    if is_empty trimmed
    then later
    else elim (parse_header trimmed) [ none ↦ malformed_header ∷ [] | some header ↦ header ∷ later ]

-- The text of an element on, where `text` is what stands from `start` on.
unfoldable pub parse_lines : ℕ → Bytes → List ConfiguredHeader
unfolding with_line
parse_lines zero text = []
parse_lines (suc fuel) text = elim (find_any text line_ends) [
  | none ↦ if is_empty text then [] else with_line text []
  | some end ↦ with_line (take end text) (parse_lines fuel (behind_line_ends (drop end text)))
]

unfoldable pub parse_configured_headers : Bytes → List ConfiguredHeader
unfolding parse_lines
parse_configured_headers text = parse_lines (length text + 1) text

behind_line_ends-le : (text : Bytes) → length (behind_line_ends text) ≤ length text
behind_line_ends-le [] = ground arith
behind_line_ends-le (c ∷ s) = ground (arith, behind_line_ends-le s)

-- A round of the loop takes the end of a line away.
behind_line-shorter :
    (text : Bytes) (end : ℕ)
    → find_any text line_ends ≡ some end
    → length (behind_line_ends (drop end text)) < length text
behind_line-shorter [] end h = ground arith
behind_line-shorter (c ∷ s) zero h = elim (Bool-cases (contains line_ends c)) [
  | inl t ↦ rw t (ground (arith, behind_line_ends-le s))
  | inr t ↦ elim (Option-cases (find_any s line_ends)) [
    | inl e ↦ ground arith
    | inr (i, e) ↦ ground arith
  ]
]
behind_line-shorter (c ∷ s) (suc end) h = elim (Bool-cases (contains line_ends c)) [
  | inl t ↦ ground arith
  | inr t ↦ elim (Option-cases (find_any s line_ends)) [
    | inl e ↦ ground arith
    | inr (i, e) ↦ ground (arith, behind_line-shorter s end)
  ]
]

-- Fuel that is more than the text has characters is enough.
parse_lines-enough :
    (fuel more : ℕ) (text : Bytes)
    → length text < fuel
    → length text < more
    → parse_lines fuel text ≡ parse_lines more text
unfolding parse_lines
parse_lines-enough zero more text h k = ground arith
parse_lines-enough (suc fuel) zero text h k = ground arith
parse_lines-enough (suc fuel) (suc more) text h k = elim (Option-cases (find_any text line_ends)) [
  | inl e ↦ rw (parse_lines, e) refl
  | inr (end, e) ↦
      let shorter = behind_line-shorter text end e in
      rw (parse_lines, e)
        (ap (with_line (take end text)) (
          parse_lines-enough fuel more (behind_line_ends (drop end text)) (omega arith)
            (omega arith)))
]
