-- ===== src/Config/Values.antt =====
-- src/config.cpp: the values that options may have.
use karu.Base.{
  ℕ, ◌+◌, ◌-◌, ◌^◌, Bool, true, false, ◌&&◌, ◌||◌, not, Option, none, some, List, [], ◌∷◌, ◌++◌,
  Bytes, codes, text_eq, is_empty, starts_with, drop, ltb, ◌==◌, if◌then◌else◌, Expected, value,
  unexpected, ◌>>=◌, find_in, text_key, u64_max,
}
use karu.Decimal.{to_string, from_chars_u64}
use karu.Config.Names.{uppercase}
use karu.Config.Builder.{OptionMap}

-- An integer type of C++: the largest value of it, and whether it has a sign.
pub record Integer : Type 0 where
  pub largest : ℕ
  pub signed : Bool

abbrev pub int : Integer
int = record { largest = 2 ^ 31 - 1; signed = true }

abbrev pub long : Integer
long = record { largest = 2 ^ 63 - 1; signed = true }

abbrev pub uint64 : Integer
uint64 = record { largest = u64_max; signed = false }

pub data ℤ : Type 0 where
  pos : ℕ → ℤ
  negsuc : ℕ → ℤ

abbrev pub negate : ℕ → ℤ
negate n = if n == 0 then pos 0 else negsuc (n - 1)

-- std::from_chars: `none` is an error code, and the second part is what stands behind `ptr`. A minus
-- sign is read for a type with a sign only, whose least value is one further from 0.
unfoldable pub from_chars : Integer → Bytes → Option (ℤ × Bytes)
unfolding from_chars_u64
from_chars type text =
    if type.signed && starts_with text (codes "-")
    then elim (from_chars_u64 (drop 1 text)) [
      | none ↦ none
      | some (n, rest) ↦ if ltb (type.largest + 1) n then none else some (negate n, rest)
    ]
    else elim (from_chars_u64 text) [
      | none ↦ none
      | some (n, rest) ↦ if ltb type.largest n then none else some (pos n, rest)
    ]

not_in : Bytes → ℕ → ℕ → Bytes
unfolding to_string
not_in name minimum maximum =
    name
    ++ (codes " must be an integer in ["
        ++ (to_string minimum ++ (codes ", " ++ (to_string maximum ++ codes "]"))))

-- No minimum in the code is below 0.
unfoldable pub parse_integer : Integer → Bytes → Bytes → ℕ → ℕ → Expected Bytes ℕ
unfolding from_chars not_in
parse_integer type name text minimum maximum = elim (from_chars type text) [
  | none ↦ unexpected (not_in name minimum maximum)
  | some (negsuc n, rest) ↦ unexpected (not_in name minimum maximum)
  | some (pos n, rest) ↦
      if not (is_empty rest) || ltb n minimum || ltb maximum n
      then unexpected (not_in name minimum maximum)
      else value n
]

unfoldable pub valid_boolean : Bytes → Bool
unfolding uppercase
valid_boolean text =
    let normalized = uppercase text in
    text_eq normalized (codes "YES")
    || text_eq normalized (codes "NO")
    || text_eq normalized (codes "TRUE")
    || text_eq normalized (codes "FALSE")
    || text_eq normalized (codes "ON")
    || text_eq normalized (codes "OFF")
    || text_eq normalized (codes "1")
    || text_eq normalized (codes "0")

unfoldable pub valid_http_version : Bytes → Bool
unfolding uppercase
valid_http_version text =
    let normalized = uppercase text in
    text_eq normalized (codes "AUTO")
    || text_eq normalized (codes "1.1")
    || text_eq normalized (codes "2")
    || text_eq normalized (codes "2TLS")
    || text_eq normalized (codes "2PRIOR_KNOWLEDGE")

abbrev pub boolean_options : List Bytes
boolean_options =
    codes "AWS_NO_SIGN_REQUEST"
    ∷ codes "AWS_HTTPS"
    ∷ codes "AWS_VIRTUAL_HOSTING"
    ∷ codes "AWS_EC2_METADATA_DISABLED"
    ∷ codes "GCS_NO_SIGN_REQUEST"
    ∷ codes "GCS_METADATA_DISABLED"
    ∷ codes "AZURE_NO_SIGN_REQUEST"
    ∷ codes "SOURCE_NO_SIGN_REQUEST"
    ∷ []

-- A value that is not set, or passes the test.
abbrev pub unset_or : (Bytes → Bool) → Option Bytes → Bool
unset_or valid none = true
unset_or valid (some text) = valid text

unfoldable pub validate_booleans : List Bytes → OptionMap → Expected Bytes (Unit {0})
validate_booleans [] values = value tt
validate_booleans (name ∷ names) values =
    let later = validate_booleans names values in
    if unset_or valid_boolean (find_in values name)
    then later
    else unexpected (name ++ codes " must be YES/NO, TRUE/FALSE, ON/OFF, or 1/0")

abbrev pub validate_timeout : Option Bytes → Expected Bytes (Unit {0})
validate_timeout none = value tt
validate_timeout (some text) =
    parse_integer long (codes "AWS_METADATA_SERVICE_TIMEOUT") text 1 60 >>= λ _. value tt

unfoldable pub validate_values : OptionMap → Expected Bytes (Unit {0})
unfolding uppercase validate_booleans
validate_values values = validate_booleans boolean_options values >>= λ _.
    validate_timeout (find_in values (codes "AWS_METADATA_SERVICE_TIMEOUT")) >>= λ _.
    if unset_or (λ text. text_eq (uppercase text) (codes "REQUESTER"))
      (find_in values (codes "AWS_REQUEST_PAYER"))
    then (if unset_or valid_http_version (find_in values (codes "KARU_HTTP_VERSION"))
        then value tt
        else unexpected (codes "KARU_HTTP_VERSION must be AUTO, 1.1, 2TLS, 2, or 2PRIOR_KNOWLEDGE"))
    else unexpected (codes "AWS_REQUEST_PAYER must be 'requester'")
