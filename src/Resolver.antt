-- ===== src/Resolver.antt =====
-- src/runtime/resolver.cpp: the addresses of hosts, looked up by a thread of their own and given to
-- transfers in rotation. Times are in nanoseconds.
pub mod Entries
pub mod Steps
pub mod Table
pub mod Lookups
pub mod Rotation
mod Tests
use karu.Base.{
  ℕ, ◌+◌, ◌-◌, ◌%◌, ◌^◌, Bool, true, false, not, ◌&&◌, ◌||◌, Option, none, some, List, [], ◌∷◌,
  ◌++◌, map, Bytes, codes, text_eq, is_empty, starts_with, find_any, find_last, find_text, length,
  take, drop, select, ltb, leb, ◌==◌, if◌then◌else◌, add64, find_in, assign, try_emplace, text_key,
}
use karu.Decimal.{is_digit}
use karu.Config.Names.{to_lower}
use karu.Config.Builder.{set_and_not_empty}
use karu.Config.Snapshot.{has_value}

abbrev pub keep_answer : ℕ
keep_answer = 60000000000

abbrev pub wait_for_first_answer : ℕ
wait_for_first_answer = 300000000

abbrev pub pass_always : ℕ
pass_always = 1000000000

abbrev pub pass_every : ℕ
pass_every = 8

abbrev pub max_hosts : ℕ
max_hosts = 256

abbrev proxy_names : List Bytes
proxy_names =
    codes "http_proxy"
    ∷ codes "https_proxy"
    ∷ codes "HTTPS_PROXY"
    ∷ codes "all_proxy"
    ∷ codes "ALL_PROXY"
    ∷ []

abbrev any_set : (Bytes → Option Bytes) → List Bytes → Bool
any_set getenv [] = false
any_set getenv (name ∷ names) = has_value (set_and_not_empty (getenv name)) || any_set getenv names

unfoldable pub proxy_environment_present : (Bytes → Option Bytes) → Bool
proxy_environment_present getenv = any_set getenv proxy_names

unfoldable pub lowercase : Bytes → Bytes
lowercase text = map to_lower text

abbrev all_of : (ℕ → Bool) → Bytes → Bool
all_of p [] = true
all_of p (c ∷ s) = p c && all_of p s

unfoldable pub is_decimal : Bytes → Bool
is_decimal text = not (is_empty text) && all_of is_digit text

-- The authority of what stands behind the scheme, without the user.
unfoldable pub authority_of : Bytes → Bytes
authority_of rest =
    let authority : Bytes = elim (find_any rest (codes "/?#")) [
      | none ↦ rest
      | some end ↦ take end rest
    ] in
    elim (find_last authority b'@') [ none ↦ authority | some at ↦ drop (at + 1) authority ]

-- The host and the port of an authority.
unfoldable pub split_port : Bytes → Bytes × Bytes
split_port authority = elim (find_last authority b':') [
  | none ↦ (authority, [])
  | some colon ↦ (take colon authority, drop (colon + 1) authority)
]

unfoldable pub default_port : Bytes → Bytes
default_port scheme =
    if text_eq scheme (codes "https")
    then codes "443"
    else if text_eq scheme (codes "http")
    then codes "80"
    else []

unfoldable pub resolvable_host : Bytes → Option (Bytes × Bytes)
unfolding lowercase is_decimal authority_of split_port default_port
resolvable_host url = elim (find_text url (codes "://")) [
  | none ↦ none
  | some separator ↦
      let scheme = lowercase (take separator url) in
      let authority = authority_of (drop (separator + 3) url) in
      let (host, given) = split_port authority in
      let port = if is_empty given then default_port scheme else given in
      if not (text_eq scheme (codes "http")) && not (text_eq scheme (codes "https"))
      then none
      else if is_empty authority || starts_with authority (codes "[")
      then none
      else if is_empty host || not (is_decimal port)
      then none
      else if all_of (λ c. is_digit c || c == b'.') host
      then none
      else some (lowercase host, port)
]

pub record Host : Type 0 where
  pub addresses : List Bytes
  pub expires : ℕ
  pub started : ℕ
  pub answered : ℕ
  pub transfers : ℕ
  pub next : ℕ
  pub looking : Bool

pub record Shared : Type 0 where
  pub enabled : Bool
  pub serving : Bool
  pub stopped : Bool
  pub hosts : List (Bytes × Host)
  pub queue : List Bytes

pub record Entry : Type 0 where
  pub waiting : Bool
  pub resolve : Bytes

abbrev pub new_host : Host
new_host = record {
  addresses = [];
  expires = 0;
  started = 0;
  answered = 0;
  transfers = 0;
  next = 0;
  looking = false;
}

abbrev pub no_entry : Entry
no_entry = record { waiting = false; resolve = [] }

-- `has_lookup` says that there is a lookup, of the caller or of the system.
abbrev pub make_resolver : (Bytes → Option Bytes) → Bool → Shared
make_resolver getenv has_lookup = record {
  enabled = has_lookup && not (proxy_environment_present getenv);
  serving = false;
  stopped = false;
  hosts = [];
  queue = [];
}

-- The entry that removes what libcurl has for a host.
abbrev pub removal : Bytes → Bytes → Entry
removal host port = record { waiting = false; resolve = codes "-" ++ (host ++ (codes ":" ++ port)) }

-- What is kept when the table is full.
abbrev pub is_kept : ℕ → Bytes × Host → Bool
is_kept now item = not (not item.1.looking && leb item.1.expires now)

abbrev pub make_room : ℕ → List (Bytes × Host) → List (Bytes × Host)
make_room now hosts = if leb max_hosts (length hosts) then select (is_kept now) hosts else hosts
