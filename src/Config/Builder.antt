-- ===== src/Config/Builder.antt =====
-- src/config.cpp: ConfigBuilder, whose operations change the options that a snapshot is made of.
use karu.Base.{
  ℕ, Bool, true, false, ◌||◌, not, Option, none, some, List, [], ◌∷◌, ◌++◌, Bytes, codes, text_eq,
  is_empty, starts_with, ltb, if◌then◌else◌, Expected, value, unexpected, assign, try_emplace,
  erase, text_key, number_key,
}
use karu.Config.Names.{
  canonical_option_name, canonical_vsi_path, known_option, for_each_environment,
}

abbrev pub OptionMap : Type 0
OptionMap = List (Bytes × Bytes)

pub record PathOptions : Type 0 where
  pub prefix : Bytes
  pub values : OptionMap

-- The addresses of the callback, of what it is called with and of what releases that.
pub record CredentialCallback : Type 0 where
  pub function : ℕ
  pub user_data : Option ℕ
  pub release : Option ℕ

pub record ConfigBuilder : Type 0 where
  pub environment : OptionMap
  pub explicit : OptionMap
  pub paths : List PathOptions
  pub providers : List (ℕ × CredentialCallback)
  pub home_directory : Bytes
  pub cache_directory : Bytes
  pub app_data_directory : Bytes
  pub system_ca_bundle : Bytes
  pub discover_default_credentials : Bool

-- The candidates on Linux.
abbrev candidates : List Bytes
candidates =
    codes "/etc/ssl/certs/ca-certificates.crt"
    ∷ codes "/etc/pki/tls/certs/ca-bundle.crt"
    ∷ codes "/etc/ssl/ca-bundle.pem"
    ∷ codes "/etc/pki/tls/cacert.pem"
    ∷ codes "/etc/pki/ca-trust/extracted/pem/tls-ca-bundle.pem"
    ∷ codes "/etc/ssl/cert.pem"
    ∷ []

-- The first of the candidates that is a file, where `is_regular_file` asks the file system.
first_file : (Bytes → Bool) → List Bytes → Bytes
first_file is_regular_file [] = []
first_file is_regular_file (path ∷ rest) =
    let later = first_file is_regular_file rest in if is_regular_file path then path else later

unfoldable pub system_ca_bundle : (Bytes → Bool) → Bytes
unfolding first_file
system_ca_bundle is_regular_file = first_file is_regular_file candidates

abbrev pub empty_builder : ConfigBuilder
empty_builder = record {
  environment = [];
  explicit = [];
  paths = [];
  providers = [];
  home_directory = [];
  cache_directory = [];
  app_data_directory = [];
  system_ca_bundle = [];
  discover_default_credentials = false;
}

-- A variable of the environment, with `none` where it is not set or empty.
abbrev pub set_and_not_empty : Option Bytes → Option Bytes
set_and_not_empty none = none
set_and_not_empty (some text) = if is_empty text then none else some text

abbrev value_or_empty : Option Bytes → Bytes
value_or_empty none = []
value_or_empty (some text) = text

-- What the environment adds for one name.
unfoldable pub read_variable : (Bytes → Option Bytes) → Bytes → OptionMap → OptionMap
unfolding canonical_option_name
read_variable getenv name environment = elim (set_and_not_empty (getenv name)) [
  | none ↦ environment
  | some text ↦ try_emplace environment (canonical_option_name name) text
]

-- The constructor with an environment, on a system that is not Windows.
unfoldable pub from_environment : (Bytes → Option Bytes) → (Bytes → Bool) → ConfigBuilder
unfolding for_each_environment read_variable
from_environment getenv is_regular_file = record empty_builder {
  environment = for_each_environment (read_variable getenv) [];
  home_directory = value_or_empty (getenv (codes "HOME"));
  cache_directory = value_or_empty (set_and_not_empty (getenv (codes "XDG_CACHE_HOME")));
  system_ca_bundle = system_ca_bundle is_regular_file;
  discover_default_credentials = true;
}

unfoldable pub make_builder : (Bytes → Option Bytes) → (Bytes → Bool) → Bool → ConfigBuilder
make_builder getenv is_regular_file include_environment =
    if include_environment then from_environment getenv is_regular_file else empty_builder

-- A null value removes an option.
abbrev pub put : OptionMap → Bytes → Option Bytes → OptionMap
put values name none = erase values name
put values name (some text) = assign values name text

abbrev unknown_option : Bytes → Bytes
unknown_option name = codes "unknown Karu option '" ++ name ++ codes "'"

unfoldable pub set : Bytes → Option Bytes → ConfigBuilder → Expected Bytes ConfigBuilder
set name text b =
    let canonical = canonical_option_name name in
    if is_empty name
    then unexpected (codes "option name is empty")
    else if known_option canonical
    then value (record b { explicit = put b.explicit canonical text })
    else unexpected (unknown_option name)

-- The rule of a prefix changed, or made at the end where there is none.
abbrev pub put_rule : List PathOptions → Bytes → Bytes → Option Bytes → List PathOptions
put_rule [] prefix name text = record { prefix = prefix; values = put [] name text } ∷ []
put_rule (rule ∷ rules) prefix name text =
    let later = put_rule rules prefix name text in
    if text_eq rule.prefix prefix
    then record rule { values = put rule.values name text } ∷ rules
    else rule ∷ later

unfoldable pub set_path :
    Bytes → Bytes → Option Bytes → ConfigBuilder → Expected Bytes ConfigBuilder
set_path prefix name text b =
    let canonical_prefix = canonical_vsi_path prefix in
    let canonical_name = canonical_option_name name in
    if is_empty prefix
    then unexpected (codes "path-specific option has an empty prefix")
    else if is_empty name
    then unexpected (codes "option name is empty")
    else if not (known_option canonical_name)
    then unexpected (unknown_option name)
    else if starts_with canonical_name (codes "KARU_")
    then unexpected (canonical_name ++ codes " is client-wide and cannot be path-specific")
    else value (record b { paths = put_rule b.paths canonical_prefix canonical_name text })

abbrev is_null : Option ℕ → Bool
is_null none = true
is_null (some address) = false

unfoldable pub set_provider :
    ℕ → Option ℕ → Option ℕ → Option ℕ → ConfigBuilder → Expected Bytes ConfigBuilder
set_provider kind provider user_data release b =
    if ltb kind 1 || ltb 4 kind
    then unexpected (codes "unknown credentials kind")
    else elim provider [
      | none ↦
          if not (is_null user_data) || not (is_null release)
          then unexpected
              (codes "clearing a credentials provider requires null user_data and release")
          else value (record b { providers = erase b.providers kind })
      | some function ↦ value (record b {
        providers =
            assign b.providers kind
              (record { function = function; user_data = user_data; release = release });
      })
    ]
