-- ===== src/Credentials/Steps.antt =====
-- src/credential_cache.cpp: the callers of the cache as steps, one for each time that the lock is held.
use karu.Base.{ℕ, ◌≡◌, Bool, false, List, [], ◌∷◌, ◌++◌, Bytes, codes, text_eq}
use karu.Config.Builder.{ConfigBuilder}
use karu.Credentials.{
  Outcome, load_credentials, credential_family, credential_key, native_credential_key,
}
use karu.Credentials.Cache.{
  Cache, Begin, hit, joined, began, empty_cache, native_begin, custom_begin, native_finish,
  custom_finish, invalidate_native, invalidate_custom,
}

-- A call that has begun a flight and loads.
pub data Call : Type 0 where
  native_call : (key : Bytes) → ℕ → Call
  custom_call : (kind : ℕ) (path : Bytes) → ℕ → Call

abbrev pub family : ℕ → Bytes
family kind = credential_family (codes "custom") kind

abbrev pub key_of : Call → Bytes
key_of (native_call key id) = key
key_of (custom_call kind path id) = credential_key (family kind) path

abbrev pub id_of : Call → ℕ
id_of (native_call key id) = id
id_of (custom_call kind path id) = id

pub record World : Type 0 where
  pub cache : Cache
  pub calls : List Call

-- A call loads where it began a flight.
abbrev pub with_call : (ℕ → Call) → Begin → List Call → List Call
with_call call (hit credentials) calls = calls
with_call call (joined id) calls = calls
with_call call (began id) calls = call id ∷ calls

abbrev pub call_native : Bytes → ℕ → World → World
call_native key now w = record {
  cache = (native_begin key now w.cache).0;
  calls = with_call (native_call key) (native_begin key now w.cache).1 w.calls;
}

abbrev pub call_custom : ℕ → Bytes → ℕ → World → World
call_custom kind path now w = record {
  cache = (custom_begin (family kind) path now w.cache).0;
  calls = with_call (custom_call kind path) (custom_begin (family kind) path now w.cache).1 w.calls;
}

pub data Step : World → World → Type 0 where
  native_called :
      (w : World) (config : ConfigBuilder) (kind : ℕ) (options : List Bytes) (path : Bytes)
      (now : ℕ)
      → Step w (call_native (native_credential_key config kind options path) now w)
  custom_called :
      (w : World) (kind : ℕ) (path : Bytes) (now : ℕ) → Step w (call_custom kind path now w)
  native_loaded :
      (c : Cache) (before after : List Call) (key : Bytes) (id : ℕ) (inserts : Bool) (now : ℕ)
      (outcome : Outcome)
      → Step
          (record { cache = c; calls = before ++ native_call key id ∷ after })
          (record {
            cache = (native_finish key id inserts now (load_credentials outcome) c).0;
            calls = before ++ after;
          })
  custom_loaded :
      (c : Cache) (before after : List Call) (kind : ℕ) (path : Bytes) (id : ℕ) (inserts : Bool)
      (now : ℕ) (outcome : Outcome)
      → Step
          (record { cache = c; calls = before ++ custom_call kind path id ∷ after })
          (record {
            cache =
                (custom_finish (family kind) path id inserts now (load_credentials outcome) c).0;
            calls = before ++ after;
          })
  native_invalidated :
      (w : World) (key : Bytes) → Step w (record w { cache = invalidate_native key w.cache })
  custom_invalidated :
      (w : World) (kind : ℕ) (path : Bytes)
      → Step w (record w { cache = invalidate_custom (family kind) path w.cache })

pub data Reached : World → Type 0 where
  empty : Reached (record { cache = empty_cache; calls = [] })
  then_step : (w v : World) → Reached w → Step w v → Reached v

-- The step is no native call for the key.
abbrev pub Other : Bytes → {w v : World} → Step w v → Type 0
Other key (native_called w config kind options path now) =
    text_eq (native_credential_key config kind options path) key ≡ false
Other key (custom_called _ _ _ _) = Unit
Other key (native_loaded _ _ _ _ _ _ _ _) = Unit
Other key (custom_loaded _ _ _ _ _ _ _ _ _) = Unit
Other key (native_invalidated _ _) = Unit
Other key (custom_invalidated _ _ _) = Unit

-- Steps without a native call for the key.
pub data Quiet (key : Bytes) (w : World) : World → Type 0 where
  still : Quiet key w w
  quiet_step : (u v : World) → Quiet key w u → (step : Step u v) → Other key step → Quiet key w v
