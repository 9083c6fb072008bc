-- ===== src/Config/Freeze.antt =====
-- src/config.cpp: ConfigBuilder::freeze, which checks the options and makes the snapshot that a client
-- reads.
use karu.Base.{
  ℕ, Bool, true, false, ◌||◌, not, List, [], ◌∷◌, ◌++◌, Bytes, codes, text_eq, is_empty,
  if◌then◌else◌, Expected, value, unexpected, ◌>>=◌, u64_max,
}
use karu.Transfer.{ClientOptions}
use karu.Config.Names.{uppercase}
use karu.Config.Builder.{PathOptions, ConfigBuilder}
use karu.Config.Snapshot.{option, has_option}
use karu.Config.Values.{Integer, int, long, uint64, parse_integer, validate_values}
use karu.Config.Headers.{ConfiguredHeader, parse_configured_headers}

pub data HttpVersion : Type 0 where
  automatic http1_1 http2_tls http2_prior_knowledge : HttpVersion

pub record HttpRequestOptions : Type 0 where
  pub version : HttpVersion
  pub follow_redirects : Bool
  pub same_origin_redirects_only : Bool
  pub ca_bundle : Bytes
  pub system_ca_bundle : Bool
  pub ca_path : Bytes
  pub proxy : Bytes
  pub proxy_user_password : Bytes
  pub user_agent : Bytes

-- What freeze makes: `layers` are the members that it copies from the builder.
pub record ConfigSnapshot : Type 0 where
  pub layers : ConfigBuilder
  pub client : ClientOptions
  pub http : HttpRequestOptions
  pub configured_headers : List ConfiguredHeader
  pub has_configured_headers : Bool

abbrev pub http_version : Bytes → HttpVersion
http_version version =
    if text_eq version (codes "AUTO")
    then automatic
    else if text_eq version (codes "2") || text_eq version (codes "2TLS")
    then http2_tls
    else if text_eq version (codes "2PRIOR_KNOWLEDGE")
    then http2_prior_knowledge
    else http1_1

-- The options of HTTP, where `version` is KARU_VERSION_STRING, which the build sets.
unfoldable pub compute_http_options : Bytes → ConfigBuilder → HttpRequestOptions
unfolding option has_option uppercase
compute_http_options version s =
    let configured =
      has_option [] (codes "KARU_HTTP_CA_BUNDLE") s
      || has_option [] (codes "KARU_HTTP_CA_PATH") s in
    let bundle = option [] (codes "KARU_HTTP_CA_BUNDLE") [] s in
    record {
      version = http_version (uppercase (option [] (codes "KARU_HTTP_VERSION") (codes "1.1") s));
      follow_redirects = true;
      same_origin_redirects_only = false;
      ca_bundle = if configured then bundle else s.system_ca_bundle;
      system_ca_bundle = if configured then false else not (is_empty s.system_ca_bundle);
      ca_path = option [] (codes "KARU_HTTP_CA_PATH") [] s;
      proxy = option [] (codes "KARU_HTTP_PROXY") [] s;
      proxy_user_password = option [] (codes "KARU_HTTP_PROXY_CREDENTIALS") [] s;
      user_agent = option [] (codes "KARU_HTTP_USER_AGENT") (codes "karu/" ++ version) s;
    }

-- The error of a rule names its prefix.
abbrev pub at_prefix : Bytes → Expected Bytes (Unit {0}) → Expected Bytes (Unit {0})
at_prefix prefix (value v) = value v
at_prefix prefix (unexpected e) = unexpected (prefix ++ (codes ": " ++ e))

unfoldable pub validate_rules : List PathOptions → Expected Bytes (Unit {0})
validate_rules [] = value tt
validate_rules (rule ∷ rules) =
    at_prefix rule.prefix (validate_values rule.values) >>= λ _. validate_rules rules

-- The integer that a client-wide option has.
unfoldable pub global : Integer → Bytes → Bytes → ℕ → ℕ → ConfigBuilder → Expected Bytes ℕ
unfolding option parse_integer
global type name fallback minimum maximum s =
    parse_integer type name (option [] name fallback s) minimum maximum

unfoldable pub client_options : ConfigBuilder → Expected Bytes ClientOptions
unfolding global
client_options s = do
  concurrency ← global int (codes "KARU_CONCURRENCY") (codes "64") 1 4096 s
  io_threads ← global int (codes "KARU_IO_THREADS") (codes "4") 1 64 s
  gap ← global uint64 (codes "KARU_COALESCE_GAP") (codes "1048576") 0 u64_max s
  coalesce_limit ← global uint64 (codes "KARU_COALESCE_LIMIT") (codes "67108864") 1 u64_max s
  coalesce_parts ← global uint64 (codes "KARU_COALESCE_PARTS") (codes "1024") 1 1048576 s
  coalesce_amplification ←
      global uint64 (codes "KARU_COALESCE_AMPLIFICATION") (codes "16") 1 1048576 s
  range_fallback_limit ←
      global uint64 (codes "KARU_RANGE_FALLBACK_LIMIT") (codes "8388608") 0 u64_max s
  attempts ← global int (codes "KARU_MAX_ATTEMPTS") (codes "8") 1 16 s
  request_timeout ← global long (codes "KARU_REQUEST_TIMEOUT") (codes "120") 0 86400 s
  connect ← global long (codes "KARU_CONNECT_TIMEOUT") (codes "30") 1 3600 s
  low_time ← global long (codes "KARU_LOW_SPEED_TIME") (codes "60") 0 3600 s
  low_limit ← global long (codes "KARU_LOW_SPEED_LIMIT") (codes "1024") 0 long.largest s
  value (record {
    concurrency = concurrency;
    io_threads = io_threads;
    coalesce_gap = gap;
    coalesce_limit = coalesce_limit;
    coalesce_parts = coalesce_parts;
    coalesce_amplification = coalesce_amplification;
    range_fallback_limit = range_fallback_limit;
    max_attempts = attempts;
    request_timeout_seconds = request_timeout;
    connect_timeout_seconds = connect;
    low_speed_time_seconds = low_time;
    low_speed_limit = low_limit;
  })

abbrev pub snapshot : Bytes → ConfigBuilder → ClientOptions → ConfigSnapshot
snapshot version b client =
    let headers = option [] (codes "KARU_HTTP_HEADERS") [] b in
    record {
      layers = b;
      client = client;
      http = compute_http_options version b;
      configured_headers = parse_configured_headers headers;
      has_configured_headers = not (is_empty headers);
    }

unfoldable pub freeze : Bytes → ConfigBuilder → Expected Bytes ConfigSnapshot
unfolding client_options validate_rules
freeze version b = do
  _ ← validate_values b.environment
  _ ← validate_values b.explicit
  _ ← validate_rules b.paths
  client ← client_options b
  value (snapshot version b client)
