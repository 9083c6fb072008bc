-- ===== src/Credentials/Invalidation.antt =====
-- What was invalidated does not come back from a load that had begun.
use karu.Base.{
  ℕ, ◌≡◌, value, unexpected, refl, sym, ap, ◌∙◌, inl, inr, Bool, true, false, Option, none, some,
  List, [], ◌∷◌, ◌++◌, Bytes, text_eq, text_eq_refl, text_eq_sound, select, ◌==◌, ==_iff, All,
  All-imp, All-zip, find_in, text_key, number_key, find_in-assign, find_in-erase, Bool-cases,
  Option-cases, arith,
}
use karu.Config.Builder.{ConfigBuilder}
use karu.Credentials.{credential_family, credential_key, native_credential_key, Loaded, Entry}
use karu.Credentials.Steps.{
  Call, key_of, id_of, native_call, custom_call, family, with_call, World, Step, native_called,
  custom_called, native_loaded, custom_loaded, native_invalidated, custom_invalidated, Reached,
  Quiet, still, quiet_step, Other,
}
use karu.Credentials.Cache.{
  Begin, native_finish, custom_finish, native_entry, custom_entry, invalidate_native,
  invalidate_custom, Cache, settle, drop_flight, is_invalidated,
}
use karu.Credentials.Calls.{Flagged, CallSound, start-find_in, settle-flagged, drop_flight-flagged}
use karu.Credentials.Flights.{
  Sound, Begins, native_begin-Begins, custom_begin-Begins, All-middle, with_call-same,
  CallSound-entries, Step-Sound, Reached-Sound,
}

-- The key has no entry, and no call for it can make one.
record Gone (key : Bytes) (w : World) : Type 0 where
  absent : find_in w.cache.entries key ≡ none
  marked : All (λ call. key_of call ≡ key → Flagged w.cache (id_of call)) w.calls
  sound : Sound w

-- No custom entry or flight has the key.
abbrev pub IsNative : Bytes → Type 0
IsNative key = (kind : ℕ) (text : Bytes) → text_eq (credential_key (family kind) text) key ≡ false

pub native_credential_key-IsNative :
    (config : ConfigBuilder) (kind : ℕ) (options : List Bytes) (path : Bytes)
    → IsNative (native_credential_key config kind options path)
unfolding native_credential_key credential_family
native_credential_key-IsNative config kind options path kind' text = refl

pub drop_flight-entries : (key : Bytes) (c : Cache) → (drop_flight key c).entries ≡ c.entries
drop_flight-entries key c = elim (Option-cases (find_in c.flights key)) [
  | inl n ↦ rw (drop_flight, n) refl
  | inr (id, n) ↦ rw (drop_flight, n) refl
]

drop_flight-keeps :
    (key : Bytes) (c : Cache) (call : Call)
    → CallSound c call
    → Flagged c (id_of call)
    → Flagged (drop_flight key c) (id_of call)
drop_flight-keeps key c call h f = elim (Option-cases (find_in c.flights key)) [
  | inl n ↦ rw (drop_flight, n) f
  | inr (other, n) ↦
      drop_flight-flagged key c other n (id_of call)
      ∙ elim (Bool-cases (other == id_of call)) [ inl t ↦ rw (t, h.stored.1) refl | inr t ↦ rw t f ]
]

drop_flight-marks :
    (key : Bytes) (c : Cache) (call : Call)
    → CallSound c call
    → key_of call ≡ key
    → Flagged (drop_flight key c) (id_of call)
drop_flight-marks key c call h k = elim h.fate [
  | inl r ↦
      let own : find_in c.flights key ≡ some (id_of call) = rw (← k) r in
      drop_flight-flagged key c (id_of call) own (id_of call)
      ∙ rw ((==_iff (id_of call) (id_of call)).1 refl, h.stored.1) refl
  | inr f ↦ drop_flight-keeps key c call h f
]

find_in-select-none :
    (p : Bytes × Entry → Bool) (entries : List (Bytes × Entry)) (key : Bytes)
    → find_in entries key ≡ none
    → find_in (select p entries) key ≡ none
find_in-select-none p [] key h = refl
find_in-select-none p ((name, entry) ∷ entries) key h =
    ground (arith, find_in-select-none p entries key)

settle-absent :
    (key : Bytes) (kept : Option (Bytes × Entry)) (name : Bytes) (id : ℕ) (result : Loaded)
    (c : Cache)
    → ((other : Bytes) (entry : Entry)
        → kept ≡ some (other, entry)
        → text_eq other key ≡ true
        → Flagged c id)
    → find_in c.entries key ≡ none
    → find_in (settle kept name id result c).entries key ≡ none
unfolding settle
settle-absent key none name id result c own h = h
settle-absent key (some (other, entry)) name id result c own h =
    elim (Bool-cases (text_eq other key)) [
      | inl t ↦ rw (own other entry refl t) h
      | inr t ↦ elim (Bool-cases (is_invalidated (find_in c.store id))) [
        | inl f ↦ rw f h
        | inr f ↦ rw f (find_in-assign c.entries other entry key ∙ rw t h)
      ]
    ]

pub native_entry-name :
    (key : Bytes) (inserts : Bool) (now : ℕ) (result : Loaded) (other : Bytes) (entry : Entry)
    → native_entry key inserts now result ≡ some (other, entry)
    → other ≡ key
unfolding native_entry
native_entry-name key inserts now (unexpected e) other entry h = ground arith
native_entry-name key inserts now (value credentials) other entry h = ground arith

pub custom_entry-name :
    (kind : ℕ) (inserts : Bool) (now : ℕ) (result : Loaded) (other : Bytes) (entry : Entry)
    → custom_entry (family kind) inserts now result ≡ some (other, entry)
    → (scope : Bytes) × (other ≡ credential_key (family kind) scope)
unfolding custom_entry
custom_entry-name kind inserts now (unexpected e) other entry h = ground arith
custom_entry-name kind inserts now (value credentials) other entry h =
    (credentials.cache_prefix, ground arith)

pub Begins-entries :
    (key : Bytes) (c : Cache) (r : Cache × Begin) → Begins key c r → r.0.entries ≡ c.entries
Begins-entries key c r (inl (b, e, _)) = rw e refl
Begins-entries key c r (inr (n, e)) = rw e refl

Begins-marked :
    (name key : Bytes) (call : ℕ → Call) (w : World) (r : Cache × Begin)
    → ((id : ℕ) → key_of (call id) ≡ name)
    → text_eq name key ≡ false
    → Begins name w.cache r
    → Gone key w
    → All (λ call. key_of call ≡ key → Flagged r.0 (id_of call)) (with_call call r.1 w.calls)
Begins-marked name key call w r k t (inl (b, e, none_begun)) h =
    rw e (rw (with_call-same call b w.calls none_begun) h.marked)
Begins-marked name key call w r k t (inr (n, e)) h = rw e (
  λ same. ground (arith, k w.cache.next, text_eq_refl key),
  All-imp _ _
      (λ other s own.
        ap is_invalidated (start-find_in name w.cache (id_of other) s.0.below) ∙ s.1 own)
      w.calls (All-zip _ _ w.calls h.sound.calls h.marked),
)

invalidate_native-Gone :
    (key : Bytes) (w : World)
    → Sound w
    → Gone key (record w { cache = invalidate_native key w.cache })
unfolding invalidate_native
invalidate_native-Gone key w h = record {
  absent =
      ap (λ m. find_in m key) (drop_flight-entries key _)
      ∙ find_in-erase w.cache.entries key key
      ∙ rw (text_eq_refl key) refl;
  marked =
      All-imp _ _ (λ call s k. drop_flight-marks key _ call (CallSound-entries w.cache _ call s) k)
        w.calls h.calls;
  sound = Step-Sound w _ (native_invalidated w key) h;
}

-- The end of a load keeps the key gone, unless it makes an entry for the key from a flight that was
-- not invalidated.
Gone-settle :
    (key : Bytes) (c : Cache) (before after : List Call) (call : Call)
    (kept : Option (Bytes × Entry)) (name : Bytes) (result : Loaded)
    → ((other : Bytes) (entry : Entry)
        → kept ≡ some (other, entry)
        → text_eq other key ≡ true
        → key_of call ≡ key)
    → Gone key (record { cache = c; calls = before ++ call ∷ after })
    → Sound (record { cache = settle kept name (id_of call) result c; calls = before ++ after })
    → Gone key (record { cache = settle kept name (id_of call) result c; calls = before ++ after })
Gone-settle key c before after call kept name result own h sound =
    let (mark, rest) = All-middle _ before call after h.marked in
    record {
      absent =
          settle-absent key kept name (id_of call) result c
            (λ other entry e t. mark (own other entry e t)) h.absent;
      marked =
          All-imp _ _
            (λ other f k. settle-flagged kept name (id_of call) result c (id_of other) ∙ f k)
            (before ++ after) rest;
      sound = sound;
    }

module _ (key : Bytes) (native : IsNative key) where
  Gone-drop :
      (name : Bytes) (c : Cache) (calls : List Call)
      → All (CallSound c) calls
      → All (λ call. key_of call ≡ key → Flagged c (id_of call)) calls
      → All (λ call. key_of call ≡ key → Flagged (drop_flight name c) (id_of call)) calls
  Gone-drop name c calls sound marked =
      All-imp _ _ (λ call s k. drop_flight-keeps name c call s.0 (s.1 k)) calls
        (All-zip _ _ calls sound marked)

  Step-Gone : (w v : World) (step : Step w v) → Other key step → Gone key w → Gone key v
  unfolding native_finish custom_finish invalidate_native invalidate_custom
  Step-Gone _ _ (native_called w config kind options path now) other h =
      let name = native_credential_key config kind options path in
      let begins = native_begin-Begins name now w.cache in
      record {
        absent = ap (λ m. find_in m key) (Begins-entries name w.cache _ begins) ∙ h.absent;
        marked = Begins-marked name key (native_call name) w _ (λ id. refl) other begins h;
        sound = Step-Sound w _ (native_called w config kind options path now) h.sound;
      }
  Step-Gone _ _ (custom_called w kind path now) other h =
      let name = credential_key (family kind) path in
      let begins = custom_begin-Begins kind path now w.cache in
      record {
        absent = ap (λ m. find_in m key) (Begins-entries name w.cache _ begins) ∙ h.absent;
        marked =
            Begins-marked name key (custom_call kind path) w _ (λ id. refl) (native kind path)
              begins h;
        sound = Step-Sound w _ (custom_called w kind path now) h.sound;
      }
  Step-Gone w v (native_loaded c before after name id inserts now outcome) other h =
      Gone-settle key c before after (native_call name id) _ name _
        (λ o entry e t.
          sym (native_entry-name name inserts now _ o entry e) ∙ text_eq_sound o key t)
        h (Step-Sound w v (native_loaded c before after name id inserts now outcome) h.sound)
  Step-Gone w v (custom_loaded c before after kind path id inserts now outcome) other h =
      Gone-settle key c before after (custom_call kind path id) _
        (credential_key (family kind) path) _
        (λ o entry e t.
          let (scope, same) = custom_entry-name kind inserts now _ o entry e in
          let apart = native kind scope in ground arith)
        h (Step-Sound w v (custom_loaded c before after kind path id inserts now outcome) h.sound)
  Step-Gone _ _ (native_invalidated w name) other h = record {
    absent =
        ap (λ m. find_in m key) (drop_flight-entries name _)
        ∙ find_in-erase w.cache.entries name key
        ∙ ground (arith, h.absent);
    marked =
        Gone-drop name _ w.calls (All-imp _ _ (CallSound-entries w.cache _) w.calls h.sound.calls)
          h.marked;
    sound = Step-Sound w _ (native_invalidated w name) h.sound;
  }
  Step-Gone _ _ (custom_invalidated w kind path) other h =
      let name = credential_key (family kind) path in
      record {
        absent =
            find_in-select-none _ _ key
              (ap (λ m. find_in m key) (drop_flight-entries name w.cache) ∙ h.absent);
        marked = Gone-drop name w.cache w.calls h.sound.calls h.marked;
        sound = Step-Sound w _ (custom_invalidated w kind path) h.sound;
      }

  Quiet-Gone : (w v : World) → Gone key w → Quiet key w v → Gone key v
  Quiet-Gone w _ h still = h
  Quiet-Gone w v h (quiet_step u _ quiet step other) =
      Step-Gone u v step other (Quiet-Gone w u h quiet)

-- When native credentials are invalidated, in any state that the cache reaches, they stay out of it
-- until the next native call for their key, whatever loads that had begun end with.
pub invalidate_native-stays :
    (w v : World) (config : ConfigBuilder) (kind : ℕ) (options : List Bytes) (path : Bytes)
    → Reached w
    → Quiet
        (native_credential_key config kind options path)
        (record w {
          cache = invalidate_native (native_credential_key config kind options path) w.cache;
        })
        v
    → find_in v.cache.entries (native_credential_key config kind options path) ≡ none
invalidate_native-stays w v config kind options path r quiet =
    let key = native_credential_key config kind options path in
    (Quiet-Gone key (native_credential_key-IsNative config kind options path) _ v
      (invalidate_native-Gone key w (Reached-Sound w r)) quiet).absent
