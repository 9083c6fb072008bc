-- ===== src/Credentials/Tests.antt =====
-- A provider's credentials that are loaded, kept and invalidated, once while a load is under way.
use karu.Base.{
  ◌≡◌, refl, true, false, none, [], ◌∷◌, Bytes, codes, value, find_in, text_key, number_key, inr,
  false, arith,
}
use karu.Config.Builder.{empty_builder}
use karu.Config.Names.{canonical_vsi_path, path_prefix_matches}
use karu.Decimal.{to_string}
use karu.Credentials.{
  ProviderCredentials, returned, refresh_time, reusable, still_valid, is_present, scoped,
  credential_family, native_credential_key,
}
use karu.Credentials.Cache.{
  Cache, is_invalidated, hit, empty_cache, native_begin, native_finish, settle, invalidate_native,
  custom_begin, custom_finish, custom_entry, invalidate_custom,
}
use karu.Credentials.Steps.{
  World, family, call_native, call_custom, custom_called, custom_invalidated, native_call, empty,
  then_step, native_called, native_loaded, Quiet, still, quiet_step,
}
use karu.Credentials.Invalidation.{invalidate_native-stays}
use karu.Credentials.Kept.{unchanged, calm_step, Calm, native_begin-native_finish}

abbrev credentials : ProviderCredentials
credentials = record {
  access_key_id = codes "id";
  secret_access_key = codes "secret";
  session_token = [];
  bearer_token = [];
  sas_token = [];
  account_name = [];
  region = [];
  cache_prefix = [];
  expires_at = 1000;
}

abbrev key : Bytes
key = native_credential_key empty_builder 1 [] (codes "/vsis3/b/k")

-- A call has begun its load.
abbrev loading : World
loading = call_native key 100 (record { cache = empty_cache; calls = [] })

abbrev invalidated : World
invalidated = record loading { cache = invalidate_native key loading.cache }

abbrev loaded : World
loaded = record {
  cache = (native_finish key 0 true 110 (value credentials) invalidated.cache).0;
  calls = [];
}

calls : loading.calls ≡ native_call key 0 ∷ []
unfolding native_begin
calls = refl

late_load : Quiet key invalidated loaded
unfolding native_begin
late_load =
    quiet_step invalidated loaded still
      (native_loaded invalidated.cache [] [] key 0 true 110 (returned (value credentials))) tt

-- The load that ends after the invalidation leaves no entry.
invalidate_native-stays_example : find_in loaded.cache.entries key ≡ none
invalidate_native-stays_example =
    invalidate_native-stays loading loaded empty_builder 1 [] (codes "/vsis3/b/k")
      (then_step _ loading empty (
        native_called (record { cache = empty_cache; calls = [] }) empty_builder 1 []
          (codes "/vsis3/b/k") 100))
      late_load

present : is_present credentials ≡ true
unfolding is_present
present = refl

in_flight : is_invalidated (find_in loading.cache.store 0) ≡ false
unfolding native_begin
in_flight = refl

-- The load has ended, and a callback is asked and its credentials are invalidated.
abbrev filled : World
filled = record {
  cache = (native_finish key 0 true 110 (value credentials) loading.cache).0;
  calls = [];
}

abbrev asked : World
asked = call_custom 1 (codes "/vsis3/b/y") 120 filled

abbrev later : World
later = record asked { cache = invalidate_custom (family 1) (codes "/vsis3/b/x") asked.cache }

later-Calm : Calm key filled later
later-Calm =
    calm_step asked later
      (calm_step filled asked unchanged (custom_called filled 1 (codes "/vsis3/b/y") 120) tt)
      (custom_invalidated asked 1 (codes "/vsis3/b/x")) tt

native_begin-native_finish_example :
    native_begin key 900 later.cache ≡ (later.cache, hit credentials)
native_begin-native_finish_example =
    native_begin-native_finish credentials 110 900 0 empty_builder 1 [] (codes "/vsis3/b/k")
      loading.cache [] later present in_flight (inr (omega arith, omega arith)) later-Calm

-- Credentials of a callback that another path of their scope is loading when they are invalidated.
abbrev scope_credentials : ProviderCredentials
scope_credentials = record credentials { cache_prefix = codes "s3://b" }

abbrev sibling_loading : Cache
sibling_loading = (custom_begin (family 1) (codes "/vsis3/b/y") 100 empty_cache).0

abbrev sibling_loaded : Cache
sibling_loaded =
    (custom_finish (family 1) (codes "/vsis3/b/y") 0 true 110 (value scope_credentials)
      (invalidate_custom (family 1) (codes "/vsis3/b/x") sibling_loading)).0

-- They come back to the path that they were invalidated for.
sibling_refills :
    (custom_begin (family 1) (codes "/vsis3/b/x") 120 sibling_loaded).1
    ≡ hit (record credentials { cache_prefix = codes "/vsis3/b" })
unfolding custom_begin custom_finish invalidate_custom settle custom_entry scoped still_valid
    reusable refresh_time credential_family to_string canonical_vsi_path path_prefix_matches
sibling_refills = refl
