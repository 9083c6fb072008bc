-- ===== src/Config/Tests.antt =====
-- A program that sets two options of S3, one for the paths of a bucket, and a limit of the planner.
use karu.Base.{
  ◌≡◌, refl, ◌↔◌, ◌&&◌, Bool, true, false, Option, none, some, List, [], ◌∷◌, Bytes, codes, text_eq,
  starts_with, if◌then◌else◌, value, find_in, text_key,
}
use karu.Transfer.{ClientOptions}
use karu.Config.Names.{
  uppercase, lower_text, without_alias, canonical_option_name, canonical_vsi_path, known_option,
  for_each_environment, path_prefix_matches,
}
use karu.Config.Builder.{ConfigBuilder, PathOptions, set, set_path, make_builder, empty_builder}
use karu.Config.Snapshot.{option}
use karu.Config.Values.{from_chars, long, parse_integer, validate_booleans, validate_values}
use karu.Config.Headers.{trim_text, parse_header, with_line, parse_lines, parse_configured_headers}
use karu.Config.Freeze.{snapshot, validate_rules, global, client_options, freeze}
use karu.Config.Layers.{Supplied, option-Supplied_iff}
use karu.Config.Changes.{
  at_path, Change, change_path, apply, same_layer, layer_of, name_of, text_of, held, apply-held,
}
use karu.Config.Invariant.{made, then_set, option-client_wide}
use karu.Config.Spellings.{first_set, names, make_builder-first_set}
use karu.Config.Limits.{InRange, freeze-InRange}
use karu.Planner.Limits.{IsOptions}
use karu.Decimal.{from_chars_u64}

abbrev rules : List PathOptions
rules =
    record { prefix = codes "/vsis3/"; values = (codes "AWS_REGION", codes "us-east-1") ∷ [] }
    ∷ record { prefix = codes "/vsis3/data"; values = (codes "AWS_REGION", codes "eu-west-1") ∷ [] }
    ∷ []

abbrev builder : ConfigBuilder
builder = record empty_builder {
  explicit = (codes "KARU_MAX_ATTEMPTS", codes "3") ∷ [];
  paths = rules;
}

-- The rule of the bucket wins over that of all of S3, and not for a bucket whose name is longer.
data_region :
    option (codes "s3://data/key") (codes "aws_default_region") [] builder ≡ codes "eu-west-1"
unfolding option canonical_option_name without_alias uppercase canonical_vsi_path
    path_prefix_matches
data_region = refl

database_region :
    option (codes "s3://database/key") (codes "aws_region") [] builder ≡ codes "us-east-1"
unfolding option canonical_option_name without_alias uppercase canonical_vsi_path
    path_prefix_matches
database_region = refl

option-Supplied_iff_example :
    (option (codes "s3://data/key") (codes "aws_default_region") [] builder ≡ codes "eu-west-1")
    ↔ Supplied builder
        (canonical_vsi_path (codes "s3://data/key"))
        (canonical_option_name (codes "aws_default_region"))
        []
        (codes "eu-west-1")
option-Supplied_iff_example =
    option-Supplied_iff (codes "s3://data/key") (codes "aws_default_region") [] (codes "eu-west-1")
      builder ((refl, tt), (tt, tt))

abbrev payer : Change
payer = change_path (codes "s3://data") (codes "aws_request_payer") (some (codes "requester"))

abbrev with_payer : ConfigBuilder
with_payer = record builder {
  paths =
      record { prefix = codes "/vsis3/"; values = (codes "AWS_REGION", codes "us-east-1") ∷ [] }
      ∷ record {
        prefix = codes "/vsis3/data";
        values =
            (codes "AWS_REGION", codes "eu-west-1")
            ∷ (codes "AWS_REQUEST_PAYER", codes "requester")
            ∷ [];
      }
      ∷ [];
}

payer_set : apply payer builder ≡ value with_payer
unfolding set_path known_option for_each_environment canonical_option_name without_alias uppercase
    canonical_vsi_path
payer_set = refl

apply-held_example : held with_payer (at_path (codes "/vsis3/data")) (codes "AWS_REQUEST_PAYER") ≡ (
    if same_layer (layer_of payer) (at_path (codes "/vsis3/data"))
      && text_eq (name_of payer) (codes "AWS_REQUEST_PAYER")
    then text_of payer
    else held builder (at_path (codes "/vsis3/data")) (codes "AWS_REQUEST_PAYER"))
apply-held_example =
    apply-held payer builder with_payer (at_path (codes "/vsis3/data")) (codes "AWS_REQUEST_PAYER")
      payer_set

abbrev no_variable : Bytes → Option Bytes
no_variable name = none

abbrev no_file : Bytes → Bool
no_file path = false

abbrev three_attempts : ConfigBuilder
three_attempts = record empty_builder { explicit = (codes "KARU_MAX_ATTEMPTS", codes "3") ∷ [] }

attempts_set :
    set (codes "karu_max_retries") (some (codes "3")) (make_builder no_variable no_file false)
    ≡ value three_attempts
unfolding set make_builder known_option for_each_environment canonical_option_name without_alias
    uppercase
attempts_set = refl

canonical_attempts :
    starts_with (canonical_option_name (codes "karu_max_retries")) (codes "KARU_") ≡ true
unfolding canonical_option_name without_alias uppercase
canonical_attempts = refl

option-client_wide_example :
    option (codes "s3://data/key") (codes "karu_max_retries") (codes "8") three_attempts
    ≡ option [] (codes "karu_max_retries") (codes "8") three_attempts
option-client_wide_example =
    option-client_wide no_variable no_file three_attempts (codes "s3://data/key")
      (codes "karu_max_retries") (codes "8")
      (then_set (make_builder no_variable no_file false) three_attempts (codes "karu_max_retries")
        (some (codes "3")) (made false) attempts_set)
      canonical_attempts

-- An environment that has two spellings of the endpoint.
abbrev two_endpoints : Bytes → Option Bytes
two_endpoints name =
    if text_eq name (codes "AWS_ENDPOINT_URL")
    then some (codes "https://a")
    else if text_eq name (codes "AWS_ENDPOINT_URL_S3")
    then some (codes "https://b")
    else none

make_builder-first_set_example :
    find_in (make_builder two_endpoints no_file true).environment (codes "AWS_S3_ENDPOINT")
    ≡ first_set two_endpoints names (codes "AWS_S3_ENDPOINT")
make_builder-first_set_example =
    make_builder-first_set two_endpoints no_file (codes "AWS_S3_ENDPOINT")

specific_endpoint :
    first_set two_endpoints names (codes "AWS_S3_ENDPOINT") ≡ some (codes "https://b")
unfolding canonical_option_name without_alias uppercase
specific_endpoint = refl

abbrev client : ClientOptions
client = record {
  concurrency = 64;
  io_threads = 4;
  coalesce_gap = 1048576;
  coalesce_limit = 67108864;
  coalesce_parts = 1024;
  coalesce_amplification = 16;
  range_fallback_limit = 8388608;
  max_attempts = 3;
  request_timeout_seconds = 120;
  connect_timeout_seconds = 30;
  low_speed_time_seconds = 60;
  low_speed_limit = 1024;
}

frozen : freeze (codes "1.0") three_attempts ≡ value (snapshot (codes "1.0") three_attempts client)
unfolding freeze validate_values validate_booleans validate_rules client_options global
    parse_integer from_chars from_chars_u64 option canonical_option_name without_alias uppercase
    canonical_vsi_path path_prefix_matches
frozen = refl

freeze-InRange_example : InRange client × IsOptions client
freeze-InRange_example =
    freeze-InRange (codes "1.0") three_attempts (snapshot (codes "1.0") three_attempts client)
      frozen

-- The second header is malformed, so that the third is not read.
two_headers :
    parse_configured_headers (codes " X-A:  b c \n\nbroken\nX-D: e")
    ≡ record {
      name = codes "X-A";
      lowercase_name = codes "x-a";
      value = codes "b c";
      malformed = false;
    }
      ∷ record { name = []; lowercase_name = []; value = []; malformed = true }
      ∷ []
unfolding parse_configured_headers parse_lines with_line parse_header trim_text lower_text
two_headers = refl

minus_zero : parse_integer long [] (codes "-0") 0 86400 ≡ value 0
unfolding parse_integer from_chars from_chars_u64
minus_zero = refl
