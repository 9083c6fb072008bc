-- ===== src/Config/Snapshot.antt =====
-- src/config.cpp: ConfigSnapshot, which looks an option up in the rules of a path, the options of the
-- program and the environment, in this order.
use karu.Base.{
  ℕ, Bool, true, false, ◌&&◌, ◌||◌, not, Option, none, some, List, [], ◌∷◌, ◌++◌, Bytes, codes,
  text_eq, is_empty, starts_with, length, drop, ltb, ◌==◌, if◌then◌else◌, find_in, or_else,
  text_key, number_key,
}
use karu.Config.Names.{canonical_option_name, canonical_vsi_path, path_prefix_matches}
use karu.Config.Builder.{PathOptions, CredentialCallback, ConfigBuilder}

-- The rule that holds the name for the path, with a prefix longer than that of `best`.
abbrev pub better : Option PathOptions → PathOptions → Bool
better none candidate = true
better (some best) candidate = ltb (length best.prefix) (length candidate.prefix)

abbrev pub has_value : Option Bytes → Bool
has_value none = false
has_value (some text) = true

abbrev pub applies : Bytes → Bytes → PathOptions → Bool
applies path name candidate =
    path_prefix_matches path candidate.prefix && has_value (find_in candidate.values name)

abbrev pub best_rule : Bytes → Bytes → List PathOptions → Option PathOptions → Option PathOptions
best_rule path name [] best = best
best_rule path name (candidate ∷ rest) best =
    best_rule path name rest
      (if applies path name candidate && better best candidate then some candidate else best)

-- What the rule of a path has for the name.
abbrev pub in_rule : Bytes → Option PathOptions → Option Bytes
in_rule name none = none
in_rule name (some rule) = find_in rule.values name

abbrev pub or_fallback : Option Bytes → Bytes → Bytes
or_fallback none fallback = fallback
or_fallback (some text) fallback = text

unfoldable pub option : Bytes → Bytes → Bytes → ConfigBuilder → Bytes
option path name fallback s =
    let canonical_name = canonical_option_name name in
    let canonical_path = canonical_vsi_path path in
    let best = best_rule canonical_path canonical_name s.paths none in
    or_fallback
      (or_else (in_rule canonical_name best)
        (or_else (find_in s.explicit canonical_name) (find_in s.environment canonical_name)))
      fallback

abbrev pub sentinel : Bytes
sentinel = 0 ∷ codes "missing"

unfoldable pub has_option : Bytes → Bytes → ConfigBuilder → Bool
unfolding option
has_option path name s = not (text_eq (option path name sentinel s) sentinel)

unfoldable pub provider : ℕ → ConfigBuilder → Option CredentialCallback
provider kind s = find_in s.providers kind

-- The layer that an option comes from.
abbrev supplier : Option PathOptions → Option Bytes → Option Bytes → Bytes
supplier (some best) explicit environment = best.prefix
supplier none (some text) environment = codes "explicit"
supplier none none (some text) = codes "environment"
supplier none none none = codes "default"

unfoldable pub scope_key : Bytes → List Bytes → ConfigBuilder → Bytes
unfolding canonical_option_name
scope_key path [] s = []
scope_key path (raw_name ∷ names) s =
    let name = canonical_option_name raw_name in
    let best = best_rule (canonical_vsi_path path) name s.paths none in
    name
    ++ (b'='
        ∷ (supplier best (find_in s.explicit name) (find_in s.environment name)
            ++ (10 ∷ scope_key path names s)))

unfoldable pub expand_user_path : Bytes → ConfigBuilder → Bytes
expand_user_path path s =
    if is_empty s.home_directory
    then path
    else if text_eq path (codes "~")
    then s.home_directory
    else if not (starts_with path (codes "~/")) && not (starts_with path (b'~' ∷ 92 ∷ []))
    then path
    else s.home_directory ++ drop 1 path

unfoldable pub default_aws_path : Bytes → ConfigBuilder → Bytes
default_aws_path suffix s =
    if is_empty s.home_directory then [] else s.home_directory ++ (codes "/.aws/" ++ suffix)

-- On a system that is not Windows.
unfoldable pub default_gcloud_adc_path : ConfigBuilder → Bytes
default_gcloud_adc_path s =
    if is_empty s.home_directory
    then []
    else s.home_directory ++ codes "/.config/gcloud/application_default_credentials.json"

ends_with_separator : Bytes → Bool
ends_with_separator [] = false
ends_with_separator (c ∷ s) =
    let later = ends_with_separator s in if is_empty s then c == b'/' || c == 92 else later

unfoldable pub append_local_path : Bytes → Bytes → Bytes
unfolding ends_with_separator
append_local_path base suffix =
    (if not (is_empty base) && not (ends_with_separator base) then base ++ codes "/" else base)
    ++ suffix

unfoldable pub hugging_face_token_path : Bytes → ConfigBuilder → Bytes
unfolding option expand_user_path append_local_path
hugging_face_token_path path s =
    let configured = option path (codes "HF_TOKEN_PATH") [] s in
    let home = option path (codes "HF_HOME") [] s in
    if not (is_empty configured)
    then expand_user_path configured s
    else if not (is_empty home)
    then append_local_path (expand_user_path home s) (codes "token")
    else if not s.discover_default_credentials
    then []
    else if not (is_empty s.cache_directory)
    then append_local_path (expand_user_path s.cache_directory s) (codes "huggingface/token")
    else if is_empty s.home_directory
    then []
    else s.home_directory ++ codes "/.cache/huggingface/token"
