-- ===== src/Resolver/Table.antt =====
-- The table of hosts, and what a call of `entry` does with it.
use karu.Base.{
  ℕ, ◌+◌, ◌≤◌, ◌≡◌, refl, ap, ◌∙◌, inl, inr, Bool, true, false, not, ◌&&◌, Option, none, some, List,
  [], ◌∷◌, ◌++◌, Bytes, text_eq, text_eq_refl, text_eq_sound, length, leb, if◌then◌else◌, Keyed,
  Keyed-assign, Keyed-try_emplace, Keyed-select, find_in, or_else, assign, text_key, find_in-assign,
  find_in-try_emplace, find_in-select, length-assign, length-try_emplace, length-select, Bool-cases,
  Option-cases, arith,
}
use karu.Resolver.{Host, Shared, new_host, make_room, is_kept, max_hosts}
use karu.Resolver.Entries.{host_for, ask, tell}

abbrev pub asks : Option Host → Bool
asks none = false
asks (some state) = state.looking

abbrev pub times : Bytes → List Bytes → ℕ
times x [] = 0
times x (host ∷ hosts) = (if text_eq host x then 1 else 0) + times x hosts

times-append :
    (x : Bytes) (hosts more : List Bytes) → times x (hosts ++ more) ≡ times x hosts + times x more
times-append x [] more = ground arith
times-append x (host ∷ hosts) more = ground (arith, times-append x hosts more)

-- The hosts that are looked up or wait for it.
abbrev pub outstanding : Option Bytes → List Bytes → List Bytes
outstanding none queue = queue
outstanding (some host) queue = host ∷ queue

abbrev pub once : Bool → ℕ
once b = if b then 1 else 0

-- A host is outstanding once where it is looked for, and otherwise not.
abbrev pub Matches : Option Bytes → Shared → Type 0
Matches in_lookup s =
    (x : Bytes) → times x (outstanding in_lookup s.queue) ≡ once (asks (find_in s.hosts x))

-- What a call keeps of the table.
pub record Keeps (hosts made : List (Bytes × Host)) : Type 0 where
  pub keyed : Keyed made
  pub few : length made ≤ max_hosts
  pub asks_same : (x : Bytes) → asks (find_in made x) ≡ asks (find_in hosts x)

asks-kept :
    (now : ℕ) (x : Bytes) (o : Option Host)
    → asks (elim o [ none ↦ none | some v ↦ if is_kept now (x, v) then some v else none ]) ≡ asks o
asks-kept now x none = refl
asks-kept now x (some state) = elim (Bool-cases (is_kept now (x, state))) [
  | inl t ↦ rw t refl
  | inr t ↦ ground arith
]

make_room-asks :
    (now : ℕ) (hosts : List (Bytes × Host)) (x : Bytes)
    → Keyed hosts
    → asks (find_in (make_room now hosts) x) ≡ asks (find_in hosts x)
make_room-asks now hosts x k = elim (Bool-cases (leb max_hosts (length hosts))) [
  | inl t ↦
      rw t (ap asks (find_in-select (is_kept now) hosts x k) ∙ asks-kept now x (find_in hosts x))
  | inr t ↦ rw t refl
]

make_room-find_in-none :
    (now : ℕ) (hosts : List (Bytes × Host)) (x : Bytes)
    → Keyed hosts
    → find_in hosts x ≡ none
    → find_in (make_room now hosts) x ≡ none
make_room-find_in-none now hosts x k n = elim (Bool-cases (leb max_hosts (length hosts))) [
  | inl t ↦ rw t (find_in-select (is_kept now) hosts x k ∙ rw n refl)
  | inr t ↦ rw t n
]

make_room-Keeps :
    (now : ℕ) (hosts : List (Bytes × Host))
    → Keyed hosts
    → length hosts ≤ max_hosts
    → Keeps hosts (make_room now hosts)
make_room-Keeps now hosts k few = record {
  keyed = elim (Bool-cases (leb max_hosts (length hosts))) [
    | inl t ↦ rw t (Keyed-select (is_kept now) hosts k)
    | inr t ↦ rw t k
  ];
  few = elim (Bool-cases (leb max_hosts (length hosts))) [
    | inl t ↦ rw t (let less = length-select (is_kept now) hosts in omega arith)
    | inr t ↦ rw t few
  ];
  asks_same = λ x. make_room-asks now hosts x k;
}

asks-or_new :
    (o : Option Host) (b : Bool) → asks (or_else o (if b then some new_host else none)) ≡ asks o
asks-or_new none true = refl
asks-or_new none false = refl
asks-or_new (some state) b = refl

pub host_for-Keeps :
    (host : Bytes) (now : ℕ) (hosts : List (Bytes × Host))
    → Keyed hosts
    → length hosts ≤ max_hosts
    → Keeps hosts (host_for host now hosts).0
unfolding host_for
host_for-Keeps host now hosts k few = elim (Option-cases (find_in hosts host)) [
  | inr (state, e) ↦ rw (host_for, e) (record { keyed = k; few = few; asks_same = λ x. refl })
  | inl e ↦
      let room = make_room-Keeps now hosts k few in
      elim (Bool-cases (leb max_hosts (length (make_room now hosts)))) [
        | inl t ↦ rw (host_for, e, t) room
        | inr t ↦
            rw (host_for, e, t)
              (record {
                keyed = Keyed-try_emplace (make_room now hosts) host new_host room.keyed;
                few =
                    let more = length-try_emplace (make_room now hosts) host new_host in
                    ground arith;
                asks_same = λ x.
                    ap asks (find_in-try_emplace (make_room now hosts) host new_host x)
                    ∙ asks-or_new (find_in (make_room now hosts) x) (text_eq host x)
                    ∙ room.asks_same x;
              })
      ]
]

pub host_for-found :
    (host : Bytes) (now : ℕ) (hosts : List (Bytes × Host)) (state : Host)
    → Keyed hosts
    → (host_for host now hosts).1 ≡ some state
    → find_in (host_for host now hosts).0 host ≡ some state
unfolding host_for
host_for-found host now hosts state k h = elim (Option-cases (find_in hosts host)) [
  | inr (old, e) ↦ ground arith
  | inl e ↦ elim (Bool-cases (leb max_hosts (length (make_room now hosts)))) [
    | inl t ↦ ground arith
    | inr t ↦ ground (
      arith,
      find_in-try_emplace (make_room now hosts) host new_host host,
      make_room-find_in-none now hosts host,
      text_eq_refl host,
    )
  ]
]

-- A host of the table, with the state that a call has of it.
pub record Table (in_lookup : Option Bytes) (host : Bytes) (state : Host) (s : Shared)
    : Type 0 where
  pub keyed : Keyed s.hosts
  pub few : length s.hosts ≤ max_hosts
  pub found : find_in s.hosts host ≡ some state
  pub matches : Matches in_lookup s

outstanding-push :
    (in_lookup : Option Bytes) (queue : List Bytes) (host x : Bytes)
    → times x (outstanding in_lookup (queue ++ host ∷ []))
      ≡ times x (outstanding in_lookup queue) + once (text_eq host x)
outstanding-push none queue host x = ground (arith, times-append x queue (host ∷ []))
outstanding-push (some current) queue host x = ground (arith, times-append x queue (host ∷ []))

pub assign-same :
    (hosts : List (Bytes × Host)) (host x : Bytes) (old state : Host)
    → find_in hosts host ≡ some old
    → state.looking ≡ old.looking
    → asks (find_in (assign hosts host state) x) ≡ asks (find_in hosts x)
assign-same hosts host x old state found e =
    ground (arith, find_in-assign hosts host state x, text_eq_sound host x)

pub ask-Table :
    (in_lookup : Option Bytes) (thread_starts : Bool) (now : ℕ) (host : Bytes) (state : Host)
    (s : Shared)
    → Table in_lookup host state s
    → Table in_lookup host
        (ask thread_starts now host state s).1
        (ask thread_starts now host state s).0
unfolding ask
ask-Table in_lookup thread_starts now host state s t =
    elim (Bool-cases (not state.looking && leb state.expires now)) [
      | inr e ↦ rw (ask, e) t
      | inl e ↦ elim (Bool-cases (not s.serving && not thread_starts)) [
        | inl f ↦
            rw (ask, e, f)
              (record { keyed = t.keyed; few = t.few; found = t.found; matches = t.matches })
        | inr f ↦
            rw (ask, e, f)
              (record {
                keyed = Keyed-assign s.hosts host _ t.keyed;
                few =
                    rw
                      (length-assign s.hosts host (record state { looking = true; started = now })
                        state t.found)
                      t.few;
                found = find_in-assign s.hosts host _ host ∙ rw (text_eq_refl host) refl;
                matches = λ x. ground (
                  arith,
                  t.matches x,
                  outstanding-push in_lookup s.queue host x,
                  find_in-assign s.hosts host (record state { looking = true; started = now }) x,
                  text_eq_sound host x,
                  t.found,
                );
              })
      ]
    ]

pub tell-looking :
    (host port : Bytes) (now : ℕ) (state : Host)
    → (tell host port now state).0.looking ≡ state.looking
unfolding tell
tell-looking host port now state = ground arith
