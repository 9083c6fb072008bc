-- ===== src/Resolver/Steps.antt =====
-- src/runtime/resolver.cpp: the thread that serves the lookups, and the steps that it and the callers
-- take, one for each time that the lock is held.
use karu.Base.{
  ℕ, ◌+◌, ◌≡◌, Bool, true, false, Option, none, some, List, [], ◌∷◌, Bytes, if◌then◌else◌, find_in,
  assign, text_key,
}
use karu.Resolver.{Host, Shared, keep_answer, make_resolver}
use karu.Resolver.Entries.{entry}

-- The state with the host that the thread is looking up.
pub record World : Type 0 where
  pub shared : Shared
  pub in_lookup : Option Bytes

unfoldable pub stop : Shared → Shared
stop s = record s { stopped = true; queue = [] }

abbrev pub answered_host : List Bytes → ℕ → Host → Host
answered_host addresses now state = record state {
  looking = false;
  addresses = addresses;
  answered = now;
  expires = now + keep_answer;
  transfers = 0;
}

-- The thread takes the next host, and gives its answer when it holds the lock again. An exception of
-- the lookup is an answer with no addresses.
unfoldable pub answer : Bytes → List Bytes → ℕ → Shared → Shared
answer host addresses now s = elim (find_in s.hosts host) [
  | none ↦ s
  | some state ↦
      if s.stopped
      then s
      else record s { hosts = assign s.hosts host (answered_host addresses now state) }
]

pub data Step : World → World → Type 0 where
  called :
      (w : World) (thread_starts : Bool) (now : ℕ) (url : Bytes)
      → Step w (record w { shared = (entry thread_starts now url w.shared).0 })
  taken :
      (s : Shared) (host : Bytes) (rest : List Bytes)
      → s.queue ≡ host ∷ rest
      → s.stopped ≡ false
      → Step
          (record { shared = s; in_lookup = none })
          (record { shared = record s { queue = rest }; in_lookup = some host })
  looked_up :
      (s : Shared) (host : Bytes) (addresses : List Bytes) (now : ℕ)
      → Step
          (record { shared = s; in_lookup = some host })
          (record { shared = answer host addresses now s; in_lookup = none })
  stopped : (w : World) → Step w (record w { shared = stop w.shared })

-- The states that a resolver reaches.
pub data Reached : World → Type 0 where
  begun :
      (getenv : Bytes → Option Bytes) (has_lookup : Bool)
      → Reached (record { shared = make_resolver getenv has_lookup; in_lookup = none })
  then_step : (w v : World) → Reached w → Step w v → Reached v
