-- ===== src/Credentials/Cache.antt =====
-- src/credential_cache.cpp: the cache, with one function for each time that its lock is held.
use karu.Base.{
  ℕ, ◌+◌, Bool, true, false, not, ◌&&◌, Option, none, some, List, [], ◌∷◌, Bytes, codes, is_empty,
  starts_with, length, select, ltb, ◌==◌, if◌then◌else◌, value, unexpected, find_in, assign,
  try_emplace, erase, text_key, number_key,
}
use karu.Config.Names.{path_prefix_matches}
use karu.Credentials.{
  ProviderCredentials, Loaded, Entry, credential_key, reusable, refresh_time, still_valid, scoped,
  is_present,
}

pub record Flight : Type 0 where
  pub done : Bool
  pub invalidated : Bool
  pub result : Option Loaded

-- A flight is shared by its callers, so the table has its number, and `store` the flight.
pub record Cache : Type 0 where
  pub entries : List (Bytes × Entry)
  pub flights : List (Bytes × ℕ)
  pub store : List (ℕ × Flight)
  pub next : ℕ

abbrev pub new_flight : Flight
new_flight = record { done = false; invalidated = false; result = none }

abbrev pub empty_cache : Cache
empty_cache = record { entries = []; flights = []; store = []; next = 0 }

-- What a call finds: credentials, a flight to wait for, or nothing, so that it begins a flight.
pub data Begin : Type 0 where
  hit : ProviderCredentials → Begin
  joined : ℕ → Begin
  began : ℕ → Begin

abbrev pub start : Bytes → Cache → Cache × Begin
start key c = (
  record c {
    flights = try_emplace c.flights key c.next;
    store = assign c.store c.next new_flight;
    next = c.next + 1;
  },
  began c.next,
)

abbrev pub join_or_start : Bytes → Cache → Cache × Begin
join_or_start key c = elim (find_in c.flights key) [ some id ↦ (c, joined id) | none ↦ start key c ]

-- An entry that is there and may be used.
abbrev pub current : ℕ → Option Entry → Option ProviderCredentials
current now none = none
current now (some entry) = if reusable entry now then some entry.credentials else none

unfoldable pub native_begin : Bytes → ℕ → Cache → Cache × Begin
native_begin key checked_at c = elim (current checked_at (find_in c.entries key)) [
  | some credentials ↦ (c, hit credentials)
  | none ↦ join_or_start key c
]

-- The entry of the family with the longest scope that contains the path.
abbrev pub longer : Option ProviderCredentials → ProviderCredentials → Bool
longer none credentials = true
longer (some best) credentials = ltb (length best.cache_prefix) (length credentials.cache_prefix)

abbrev pub is_current : Bytes → Bytes → ℕ → Bytes × Entry → Bool
is_current family path now item =
    starts_with item.0 family
    && path_prefix_matches path item.1.credentials.cache_prefix
    && reusable item.1 now

abbrev pub find_reusable :
    Bytes
    → Bytes
    → ℕ
    → List (Bytes × Entry)
    → Option ProviderCredentials
    → Option ProviderCredentials
find_reusable family path now [] best = best
find_reusable family path now (item ∷ entries) best = find_reusable family path now entries (
    if is_current family path now item && longer best item.1.credentials
    then some item.1.credentials
    else best)

unfoldable pub custom_begin : Bytes → Bytes → ℕ → Cache → Cache × Begin
custom_begin family path checked_at c = elim (find_reusable family path checked_at c.entries none) [
  | some credentials ↦ (c, hit credentials)
  | none ↦ join_or_start (credential_key family path) c
]

-- What a caller that joined a flight gets, once it is done.
abbrev pub result_of : Option Flight → Option Loaded
result_of none = none
result_of (some flight) = if flight.done then flight.result else none

unfoldable pub wait_for : ℕ → Cache → Option Loaded
wait_for id c = result_of (find_in c.store id)

abbrev pub is_invalidated : Option Flight → Bool
is_invalidated none = false
is_invalidated (some flight) = flight.invalidated

abbrev pub is_flight : Option ℕ → ℕ → Bool
is_flight none id = false
is_flight (some other) id = other == id

abbrev pub done_with : Loaded → Option Flight → Flight
done_with result none = record new_flight { done = true; result = some result }
done_with result (some flight) = record flight { done = true; result = some result }

-- The end of a load: its entry, if there is one, is kept unless the flight was invalidated, the flight
-- is done, and leaves the table where it is still there.
unfoldable pub settle : Option (Bytes × Entry) → Bytes → ℕ → Loaded → Cache → Cache
settle kept key id result c =
    let flight = find_in c.store id in
    record c {
      entries = elim kept [
        | none ↦ c.entries
        | some (name, entry) ↦
            if is_invalidated flight then c.entries else assign c.entries name entry
      ];
      store = assign c.store id (done_with result flight);
      flights = if is_flight (find_in c.flights key) id then erase c.flights key else c.flights;
    }

-- What is kept of a load, where `inserts` says that there is memory for it.
unfoldable pub native_entry : Bytes → Bool → ℕ → Loaded → Option (Bytes × Entry)
unfolding is_present
native_entry key inserts loaded_at (unexpected e) = none
native_entry key inserts loaded_at (value credentials) =
    if is_present credentials && inserts
    then some (
      key,
      record { credentials = credentials; refresh_at = refresh_time credentials loaded_at true },
    )
    else none

unfoldable pub native_finish : Bytes → ℕ → Bool → ℕ → Loaded → Cache → Cache × Loaded
unfolding settle native_entry still_valid
native_finish key id inserts loaded_at loaded c =
    let result =
      still_valid (codes "credential provider returned expired credentials") loaded_at loaded in
    (settle (native_entry key inserts loaded_at result) key id result c, result)

unfoldable pub custom_entry : Bytes → Bool → ℕ → Loaded → Option (Bytes × Entry)
custom_entry family inserts loaded_at (unexpected e) = none
custom_entry family inserts loaded_at (value credentials) =
    if not (is_empty credentials.cache_prefix) && inserts
    then some (
      credential_key family credentials.cache_prefix,
      record { credentials = credentials; refresh_at = refresh_time credentials loaded_at false },
    )
    else none

unfoldable pub custom_finish : Bytes → Bytes → ℕ → Bool → ℕ → Loaded → Cache → Cache × Loaded
unfolding settle custom_entry scoped still_valid
custom_finish family path id inserts loaded_at loaded c =
    let result =
      still_valid (codes "custom credential provider returned expired credentials") loaded_at
        (scoped path loaded) in
    (
      settle (custom_entry family inserts loaded_at result) (credential_key family path) id result
          c,
      result,
    )

-- The flight of a key is marked and leaves the table.
abbrev pub drop_flight : Bytes → Cache → Cache
drop_flight key c = elim (find_in c.flights key) [
  | none ↦ c
  | some id ↦ record c {
    store = elim (find_in c.store id) [
      | none ↦ c.store
      | some flight ↦ assign c.store id (record flight { invalidated = true })
    ];
    flights = erase c.flights key;
  }
]

unfoldable pub invalidate_native : Bytes → Cache → Cache
invalidate_native key c = drop_flight key (record c { entries = erase c.entries key })

abbrev pub outlives : Bytes → Bytes → Bytes × Entry → Bool
outlives family path item =
    not (starts_with item.0 family && path_prefix_matches path item.1.credentials.cache_prefix)

unfoldable pub invalidate_custom : Bytes → Bytes → Cache → Cache
invalidate_custom family path c =
    let dropped = drop_flight (credential_key family path) c in
    record dropped { entries = select (outlives family path) dropped.entries }
