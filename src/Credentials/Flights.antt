-- ===== src/Credentials/Flights.antt =====
-- Every call that loads has the flight of its key, unless that was invalidated.
use karu.Base.{
  ℕ, ◌≡◌, ◌≢◌, refl, ◌∙◌, ◌⊎◌, inl, inr, false, Option, none, List, [], ◌∷◌, ◌++◌, Bytes,
  text_eq_refl, ◌==◌, All, All-imp, All-zip, Ordered, find_in, text_key, number_key, find_in-assign,
  find_in-try_emplace, Option-cases, arith,
}
use karu.Credentials.{credential_key, native_credential_key, Loaded, Entry}
use karu.Credentials.Steps.{
  Call, key_of, id_of, native_call, custom_call, family, with_call, World, Step, native_called,
  custom_called, native_loaded, custom_loaded, native_invalidated, custom_invalidated, Reached,
  empty, then_step,
}
use karu.Credentials.Cache.{
  Begin, hit, joined, began, current, find_reusable, native_begin, custom_begin, native_finish,
  custom_finish, invalidate_native, invalidate_custom, Cache, new_flight, start, join_or_start,
  settle,
}
use karu.Credentials.Calls.{CallSound, CallSound-start, CallSound-settle, CallSound-drop}

abbrev pub Apart : List Call → Type 0
Apart = Ordered (λ a b. (id_of a == id_of b) ≡ false)

pub record Sound (w : World) : Type 0 where
  pub calls : All (CallSound w.cache) w.calls
  pub apart : Apart w.calls

-- A call that begins a flight, or does not and leaves everything as it was.
abbrev pub Begins : Bytes → Cache → Cache × Begin → Type 0
Begins key c r =
    ((b : Begin) × (r ≡ (c, b)) × ((id : ℕ) → b ≢ began id))
    ⊎ ((find_in c.flights key ≡ none) × (r ≡ start key c))

join_or_start-Begins : (key : Bytes) (c : Cache) → Begins key c (join_or_start key c)
join_or_start-Begins key c = elim (Option-cases (find_in c.flights key)) [
  | inl n ↦ inr (n, rw (join_or_start, n) refl)
  | inr (id, n) ↦ inl (joined id, rw (join_or_start, n) refl, λ other e. ground arith)
]

pub native_begin-Begins :
    (key : Bytes) (now : ℕ) (c : Cache) → Begins key c (native_begin key now c)
unfolding native_begin
native_begin-Begins key now c = elim (Option-cases (current now (find_in c.entries key))) [
  | inl n ↦ rw (native_begin, n) (join_or_start-Begins key c)
  | inr (credentials, n) ↦ inl (hit credentials, rw (native_begin, n) refl, λ other e. ground arith)
]

pub custom_begin-Begins :
    (kind : ℕ) (path : Bytes) (now : ℕ) (c : Cache)
    → Begins (credential_key (family kind) path) c (custom_begin (family kind) path now c)
unfolding custom_begin
custom_begin-Begins kind path now c =
    elim (Option-cases (find_reusable (family kind) path now c.entries none)) [
      | inl n ↦ rw (custom_begin, n) (join_or_start-Begins (credential_key (family kind) path) c)
      | inr (credentials, n) ↦
          inl (hit credentials, rw (custom_begin, n) refl, λ other e. ground arith)
    ]

pub with_call-same :
    (call : ℕ → Call) (b : Begin) (calls : List Call)
    → ((id : ℕ) → b ≢ began id)
    → with_call call b calls ≡ calls
with_call-same call (hit credentials) calls h = refl
with_call-same call (joined id) calls h = refl
with_call-same call (began id) calls h = elim (h id refl) [ ]

CallSound-new :
    (key : Bytes) (c : Cache) (call : Call)
    → find_in c.flights key ≡ none
    → key_of call ≡ key
    → id_of call ≡ c.next
    → CallSound (start key c).0 call
CallSound-new key c call n k i = record {
  below = omega arith;
  stored = (new_flight, rw i (find_in-assign c.store c.next new_flight c.next ∙ ground arith));
  fate =
      inl
        (rw (i, k) (find_in-try_emplace c.flights key c.next key ∙ rw (n, text_eq_refl key) refl));
}

pub Sound-begin :
    (key : Bytes) (call : ℕ → Call) (w : World) (r : Cache × Begin)
    → ((id : ℕ) → key_of (call id) ≡ key)
    → ((id : ℕ) → id_of (call id) ≡ id)
    → Begins key w.cache r
    → Sound w
    → Sound (record { cache = r.0; calls = with_call call r.1 w.calls })
Sound-begin key call w r k i (inl (b, e, none_begun)) h =
    rw e
      (rw (with_call-same call b w.calls none_begun) (record { calls = h.calls; apart = h.apart }))
Sound-begin key call w r k i (inr (n, e)) h = rw e (record {
  calls = (
    CallSound-new key w.cache (call w.cache.next) n (k w.cache.next) (i w.cache.next),
    All-imp _ _ (CallSound-start key w.cache) w.calls h.calls,
  );
  apart = (
    All-imp _ _ (λ other s. let below = s.below in ground (arith, i w.cache.next)) w.calls h.calls,
    h.apart,
  );
})

pub All-middle {ℓ} :
    {A : Type ℓ} (P : A → Type 0) (before : List A) (x : A) (after : List A)
    → All P (before ++ x ∷ after)
    → P x × All P (before ++ after)
All-middle P [] x after (px, h) = (px, h)
All-middle P (y ∷ before) x after (py, h) =
    let (px, rest) = All-middle P before x after h in (px, (py, rest))

-- The calls without the one that ends have other flights.
Apart-middle :
    (before : List Call) (x : Call) (after : List Call)
    → Apart (before ++ x ∷ after)
    → All (λ y. (id_of x == id_of y) ≡ false) (before ++ after) × Apart (before ++ after)
Apart-middle [] x after (hx, h) = (hx, h)
Apart-middle (y ∷ before) x after (hy, h) =
    let (yx, rest) = All-middle _ before x after hy in
    let (others, apart) = Apart-middle before x after h in ((ground arith, others), (rest, apart))

Sound-settle :
    (c : Cache) (before after : List Call) (call : Call) (kept : Option (Bytes × Entry))
    (key : Bytes) (result : Loaded)
    → Sound (record { cache = c; calls = before ++ call ∷ after })
    → Sound (record { cache = settle kept key (id_of call) result c; calls = before ++ after })
Sound-settle c before after call kept key result h =
    let (_, rest) = All-middle _ before call after h.calls in
    let (others, apart) = Apart-middle before call after h.apart in
    record {
      calls =
          All-imp _ _ (λ other s. CallSound-settle kept key (id_of call) result c other s.0 s.1)
            (before ++ after) (All-zip _ _ (before ++ after) others rest);
      apart = apart;
    }

-- A change of the entries alone.
pub CallSound-entries :
    (c : Cache) (entries : List (Bytes × Entry)) (call : Call)
    → CallSound c call
    → CallSound (record c { entries = entries }) call
CallSound-entries c entries call h = record { below = h.below; stored = h.stored; fate = h.fate }

pub Step-Sound : (w v : World) → Step w v → Sound w → Sound v
unfolding native_finish custom_finish invalidate_native invalidate_custom
Step-Sound _ _ (native_called w config kind options path now) h =
    let key = native_credential_key config kind options path in
    Sound-begin key (native_call key) w _ (λ id. refl) (λ id. refl)
      (native_begin-Begins key now w.cache) h
Step-Sound _ _ (custom_called w kind path now) h =
    Sound-begin (credential_key (family kind) path) (custom_call kind path) w _ (λ id. refl)
      (λ id. refl) (custom_begin-Begins kind path now w.cache) h
Step-Sound _ _ (native_loaded c before after key id inserts now outcome) h =
    Sound-settle c before after (native_call key id) _ key _ h
Step-Sound _ _ (custom_loaded c before after kind path id inserts now outcome) h =
    Sound-settle c before after (custom_call kind path id) _ (credential_key (family kind) path) _ h
Step-Sound _ _ (native_invalidated w key) h = record {
  calls =
      All-imp _ _ (λ call s. CallSound-drop key _ call (CallSound-entries w.cache _ call s)) w.calls
        h.calls;
  apart = h.apart;
}
Step-Sound _ _ (custom_invalidated w kind path) h = record {
  calls =
      All-imp _ _
        (λ call s.
          CallSound-entries _ _ call
            (CallSound-drop (credential_key (family kind) path) w.cache call s))
        w.calls h.calls;
  apart = h.apart;
}

pub Reached-Sound : (w : World) → Reached w → Sound w
Reached-Sound _ empty = record { calls = tt; apart = tt }
Reached-Sound v (then_step w _ r step) = Step-Sound w v step (Reached-Sound w r)
