-- ===== src/Credentials.antt =====
-- src/credential_cache.cpp and src/request.hpp: credentials, how long they are kept, and the keys they
-- are kept under. Times are in seconds from the epoch on.
pub mod Cache
pub mod Steps
pub mod Calls
pub mod Flights
pub mod Invalidation
pub mod Kept
mod Tests
use karu.Base.{
  ℕ, ◌+◌, ◌-◌, ◌/◌, ◌^◌, max, min, Bool, true, false, not, ◌&&◌, ◌||◌, Option, none, some, List, [],
  ◌∷◌, ◌++◌, Bytes, codes, is_empty, ltb, leb, ◌==◌, if◌then◌else◌, Expected, value, unexpected,
}
use karu.Transfer.{Status, err_credentials, err_nomem}
use karu.Decimal.{to_string}
use karu.Config.Names.{canonical_vsi_path, path_prefix_matches}
use karu.Config.Builder.{ConfigBuilder}
use karu.Config.Snapshot.{scope_key}

pub record ProviderCredentials : Type 0 where
  pub access_key_id : Bytes
  pub secret_access_key : Bytes
  pub session_token : Bytes
  pub bearer_token : Bytes
  pub sas_token : Bytes
  pub account_name : Bytes
  pub region : Bytes
  pub cache_prefix : Bytes
  pub expires_at : ℕ

pub record RequestError : Type 0 where
  pub status : Status
  pub message : Bytes

abbrev pub Loaded : Type 0
Loaded = Expected RequestError ProviderCredentials

abbrev pub failed : Bytes → Loaded
failed message = unexpected (record { status = err_credentials; message = message })

-- How a load ends: it returns, or throws std::bad_alloc, an exception or something else.
pub data Outcome : Type 0 where
  returned : Loaded → Outcome
  out_of_memory : Outcome
  raised : Bytes → Outcome
  raised_unknown : Outcome

abbrev pub load_credentials : Outcome → Loaded
load_credentials (returned loaded) = loaded
load_credentials out_of_memory =
    unexpected (record { status = err_nomem; message = codes "out of memory loading credentials" })
load_credentials (raised what) = failed (codes "credential provider: " ++ what)
load_credentials raised_unknown = failed (codes "credential provider raised an unknown exception")

unfoldable pub credential_family : Bytes → ℕ → Bytes
unfolding to_string
credential_family source kind = source ++ (10 ∷ (to_string kind ++ (10 ∷ [])))

abbrev pub credential_key : Bytes → Bytes → Bytes
credential_key family scope = family ++ scope

-- The key of a provider's credentials, by the kind and the options of the provider.
unfoldable pub native_credential_key : ConfigBuilder → ℕ → List Bytes → Bytes → Bytes
unfolding credential_family scope_key
native_credential_key config kind options path =
    credential_key (credential_family (codes "native") kind) (scope_key path options config)

abbrev pub static_credential_ttl : ℕ
static_credential_ttl = 60

abbrev pub clamp : ℕ → ℕ → ℕ → ℕ
clamp n low high = if ltb n low then low else if ltb high n then high else n

unfoldable pub refresh_time : ProviderCredentials → ℕ → Bool → ℕ
refresh_time credentials now refresh_static =
    let margin = clamp ((credentials.expires_at - now) / 10) 1 60 in
    if credentials.expires_at == 0
    then (if refresh_static then now + static_credential_ttl else 2 ^ 63 - 1)
    else if leb credentials.expires_at now
    then now
    else max (now + 1) (credentials.expires_at - margin)

pub record Entry : Type 0 where
  pub credentials : ProviderCredentials
  pub refresh_at : ℕ

unfoldable pub reusable : Entry → ℕ → Bool
reusable entry now =
    ltb now entry.refresh_at
    && (entry.credentials.expires_at == 0 || ltb now entry.credentials.expires_at)

-- Credentials that have expired when they are loaded are an error.
unfoldable pub still_valid : Bytes → ℕ → Loaded → Loaded
still_valid message now (unexpected e) = unexpected e
still_valid message now (value credentials) =
    if not (credentials.expires_at == 0) && leb credentials.expires_at now
    then failed message
    else value credentials

-- The scope that a callback chose, in its canonical form.
unfoldable pub scoped : Bytes → Loaded → Loaded
scoped path (unexpected e) = unexpected e
scoped path (value credentials) =
    let prefix = canonical_vsi_path credentials.cache_prefix in
    if is_empty credentials.cache_prefix
    then value credentials
    else if not (path_prefix_matches path prefix)
    then failed (codes "custom credential cache_prefix does not contain the requested path")
    else value (record credentials { cache_prefix = prefix })

-- Whether there is something to sign with.
unfoldable pub is_present : ProviderCredentials → Bool
is_present credentials =
    not (is_empty credentials.access_key_id)
    || not (is_empty credentials.secret_access_key)
    || not (is_empty credentials.session_token)
    || not (is_empty credentials.bearer_token)
    || not (is_empty credentials.sas_token)
