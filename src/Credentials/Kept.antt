-- ===== src/Credentials/Kept.antt =====
-- How long loaded credentials are given to later calls.
use karu.Base.{
  not, leb, ℕ, ◌+◌, ◌<◌, ◌≡◌, ◌⊎◌, refl, ap, ◌∙◌, inl, inr, Bool, true, false, Option, none, some,
  List, [], ◌∷◌, ◌&&◌, Bytes, text_eq, text_eq_refl, text_eq_sound, starts_with, select, ◌==◌,
  value, find_in, text_key, number_key, find_in-assign, find_in-erase, Bool-cases, arith,
}
use karu.Config.Builder.{ConfigBuilder}
use karu.Credentials.{
  credential_family, credential_key, native_credential_key, load_credentials, Loaded,
  ProviderCredentials, Entry, refresh_time, reusable, still_valid, is_present,
}
use karu.Credentials.Cache.{
  Cache, hit, is_invalidated, native_begin, native_finish, native_entry, settle, custom_finish,
  invalidate_native, invalidate_custom,
}
use karu.Credentials.Steps.{
  Call, family, World, Step, native_called, custom_called, native_loaded, custom_loaded,
  native_invalidated, custom_invalidated,
}
use karu.Credentials.Flights.{native_begin-Begins, custom_begin-Begins}
use karu.Credentials.Invalidation.{
  IsNative, native_credential_key-IsNative, drop_flight-entries, native_entry-name,
  custom_entry-name, Begins-entries,
}

module _ (credentials : ProviderCredentials) (loaded_at : ℕ) where
  -- The entry of credentials that were loaded.
  abbrev entry : Entry
  entry = record { credentials = credentials; refresh_at = refresh_time credentials loaded_at true }

  reusable-static :
      (now : ℕ) → credentials.expires_at ≡ 0 → now < loaded_at + 60 → reusable entry now ≡ true
  unfolding reusable refresh_time
  reusable-static now e h = ground arith

  reusable-early :
      (now : ℕ)
      → loaded_at < credentials.expires_at
      → now + 60 < credentials.expires_at
      → reusable entry now ≡ true
  unfolding reusable refresh_time
  reusable-early now e h = ground arith

  native_finish-entries :
      (key : Bytes) (id : ℕ) (c : Cache)
      → is_present credentials ≡ true
      → is_invalidated (find_in c.store id) ≡ false
      → (credentials.expires_at ≡ 0) ⊎ (loaded_at < credentials.expires_at)
      → find_in (native_finish key id true loaded_at (value credentials) c).0.entries key
        ≡ some entry
  unfolding native_finish settle native_entry still_valid
  native_finish-entries key id c present f e =
      let valid : (not (credentials.expires_at == 0) && leb credentials.expires_at loaded_at)
          ≡ false =
        elim e [ inl z ↦ ground arith | inr z ↦ ground arith ] in
      rw (valid, native_entry, present, f)
        (find_in-assign c.entries key entry key ∙ rw (text_eq_refl key) refl)

  begin-current :
      (key : Bytes) (now : ℕ) (c : Cache)
      → find_in c.entries key ≡ some entry
      → reusable entry now ≡ true
      → native_begin key now c ≡ (c, hit credentials)
  unfolding native_begin
  begin-current key now c held fresh = rw (native_begin, held, fresh) refl

-- No custom credentials are invalidated with the key.
abbrev IsApart : Bytes → Type 0
IsApart key = (kind : ℕ) → starts_with key (family kind) ≡ false

native_credential_key-IsApart :
    (config : ConfigBuilder) (kind : ℕ) (options : List Bytes) (path : Bytes)
    → IsApart (native_credential_key config kind options path)
unfolding native_credential_key credential_family
native_credential_key-IsApart config kind options path kind' = refl

settle-other :
    (key : Bytes) (kept : Option (Bytes × Entry)) (name : Bytes) (id : ℕ) (result : Loaded)
    (c : Cache)
    → ((other : Bytes) (entry : Entry) → kept ≡ some (other, entry) → text_eq other key ≡ false)
    → find_in (settle kept name id result c).entries key ≡ find_in c.entries key
unfolding settle
settle-other key none name id result c apart = refl
settle-other key (some (other, entry)) name id result c apart =
    elim (Bool-cases (is_invalidated (find_in c.store id))) [
      | inl f ↦ rw f refl
      | inr f ↦ rw f (find_in-assign c.entries other entry key ∙ rw (apart other entry refl) refl)
    ]

find_in-select-held :
    (p : Bytes × Entry → Bool) (entries : List (Bytes × Entry)) (key : Bytes)
    → ((entry : Entry) → p (key, entry) ≡ true)
    → find_in (select p entries) key ≡ find_in entries key
find_in-select-held p [] key h = refl
find_in-select-held p ((name, entry) ∷ entries) key h = elim (Bool-cases (text_eq name key)) [
  | inl t ↦
      let same : name ≡ key = text_eq_sound name key t in
      let holds : p (name, entry) ≡ true = ap (λ n. p (n, entry)) same ∙ h entry in
      rw (holds, t) refl
  | inr t ↦ elim (Bool-cases (p (name, entry))) [
    | inl q ↦ rw (q, t) (find_in-select-held p entries key h)
    | inr q ↦ rw (q, t) (find_in-select-held p entries key h)
  ]
]

-- The step neither loads the native credentials of the key nor invalidates them.
abbrev Leaves : Bytes → {w v : World} → Step w v → Type 0
Leaves key (native_called w config kind options path now) = Unit
Leaves key (custom_called _ _ _ _) = Unit
Leaves key (native_loaded _ _ _ name _ _ _ _) = text_eq name key ≡ false
Leaves key (custom_loaded _ _ _ _ _ _ _ _ _) = Unit
Leaves key (native_invalidated _ name) = text_eq name key ≡ false
Leaves key (custom_invalidated _ _ _) = Unit

-- Steps that leave the native credentials of the key.
pub data Calm (key : Bytes) (w : World) : World → Type 0 where
  unchanged : Calm key w w
  calm_step : (u v : World) → Calm key w u → (step : Step u v) → Leaves key step → Calm key w v

module _ (key : Bytes) (native : IsNative key) (apart : IsApart key) where
  Step-entries :
      (w v : World) (step : Step w v)
      → Leaves key step
      → find_in v.cache.entries key ≡ find_in w.cache.entries key
  unfolding native_finish custom_finish invalidate_native invalidate_custom
  Step-entries _ _ (native_called w config kind options path now) other =
      let name = native_credential_key config kind options path in
      ap (λ m. find_in m key) (Begins-entries name w.cache _ (native_begin-Begins name now w.cache))
  Step-entries _ _ (custom_called w kind path now) other =
      ap (λ m. find_in m key)
        (Begins-entries (credential_key (family kind) path) w.cache _
          (custom_begin-Begins kind path now w.cache))
  Step-entries _ _ (native_loaded c before after name id inserts now outcome) other =
      settle-other key _ name id (native_finish name id inserts now (load_credentials outcome) c).1
        c (λ o entry e. let same = native_entry-name name inserts now _ o entry e in rw same other)
  Step-entries _ _ (custom_loaded c before after kind path id inserts now outcome) other =
      settle-other key _ (credential_key (family kind) path) id
        (custom_finish (family kind) path id inserts now (load_credentials outcome) c).1 c
        (λ o entry e.
          let (scope, same) = custom_entry-name kind inserts now _ o entry e in
          rw same (native kind scope))
  Step-entries _ _ (native_invalidated w name) other =
      ap (λ m. find_in m key) (drop_flight-entries name _)
      ∙ find_in-erase w.cache.entries name key
      ∙ rw other refl
  Step-entries _ _ (custom_invalidated w kind path) other =
      find_in-select-held _ _ key (λ entry. rw (apart kind) refl)
      ∙ ap (λ m. find_in m key) (drop_flight-entries (credential_key (family kind) path) w.cache)

  Calm-entries :
      (w v : World) → Calm key w v → find_in v.cache.entries key ≡ find_in w.cache.entries key
  Calm-entries w _ unchanged = refl
  Calm-entries w v (calm_step u _ calm step other) =
      Step-entries u v step other ∙ Calm-entries w u calm

-- Credentials with something to sign with that a native call loads while they are valid, whose flight was
-- not invalidated and for which there is memory, are given without a load to each later call for their
-- key, whatever calls, other loads and other invalidations come between, as long as no native load for
-- the key ends and its native credentials are not invalidated, for 60 seconds if they do not expire, and
-- otherwise until 60 seconds before they expire.
pub native_begin-native_finish :
    (credentials : ProviderCredentials) (loaded_at now id : ℕ) (config : ConfigBuilder) (kind : ℕ)
    (options : List Bytes) (path : Bytes) (c : Cache) (calls : List Call) (v : World)
    → let key = native_credential_key config kind options path in
      is_present credentials ≡ true
      → is_invalidated (find_in c.store id) ≡ false
      → ((credentials.expires_at ≡ 0) × (now < loaded_at + 60))
        ⊎ ((loaded_at < credentials.expires_at) × (now + 60 < credentials.expires_at))
      → Calm key
          (record {
            cache = (native_finish key id true loaded_at (value credentials) c).0;
            calls = calls;
          })
          v
      → native_begin key now v.cache ≡ (v.cache, hit credentials)
native_begin-native_finish credentials loaded_at now id config kind options path c calls v present f
      times calm =
    let key = native_credential_key config kind options path in
    let held =
      Calm-entries key (native_credential_key-IsNative config kind options path)
        (native_credential_key-IsApart config kind options path) _ v calm in
    elim times [
      | inl (z, soon) ↦
          begin-current credentials loaded_at key now v.cache
            (held ∙ native_finish-entries credentials loaded_at key id c present f (inl z))
            (reusable-static credentials loaded_at now z soon)
      | inr (valid, early) ↦
          begin-current credentials loaded_at key now v.cache
            (held ∙ native_finish-entries credentials loaded_at key id c present f (inr valid))
            (reusable-early credentials loaded_at now valid early)
    ]
