-- ===== src/Resolver/Entries.antt =====
-- src/runtime/resolver.cpp: `entry`, which asks for a lookup where none is fresh, and gives a transfer
-- the addresses of its host.
use karu.Base.{
  ℕ, zero, suc, ◌+◌, ◌-◌, ◌%◌, Bool, true, false, not, ◌&&◌, Option, none, some, List, [], ◌∷◌,
  ◌++◌, Bytes, codes, length, ltb, leb, ◌==◌, if◌then◌else◌, add64, find_in, assign, try_emplace,
  text_key,
}
use karu.Resolver.{
  Host, Shared, Entry, new_host, no_entry, removal, make_room, max_hosts, wait_for_first_answer,
  pass_always, pass_every, resolvable_host,
}

-- The hosts with the one of a call and its state, with `none` for the state where the table is full.
unfoldable pub host_for : Bytes → ℕ → List (Bytes × Host) → List (Bytes × Host) × Option Host
host_for host now hosts =
    let room = make_room now hosts in
    elim (find_in hosts host) [
      | some state ↦ (hosts, some state)
      | none ↦
          if leb max_hosts (length room)
          then (room, none)
          else (try_emplace room host new_host, some new_host)
    ]

-- A lookup is begun, unless there is one or the answer is fresh. The second part is false where the
-- thread cannot be started.
unfoldable pub ask : Bool → ℕ → Bytes → Host → Shared → Shared × Host × Bool
ask thread_starts now host state s =
    let asking = record state { looking = true; started = now } in
    if not state.looking && leb state.expires now
    then (if not s.serving && not thread_starts
        then (record s { enabled = false }, state, false)
        else (
          record s {
            serving = true;
            queue = s.queue ++ host ∷ [];
            hosts = assign s.hosts host asking;
          },
          asking,
          true,
        ))
    else (s, state, true)

abbrev pub address_at : List Bytes → ℕ → Bytes
address_at [] i = []
address_at (address ∷ addresses) zero = address
address_at (address ∷ addresses) (suc i) = address_at addresses i

-- The addresses that are left to write, from `index` on.
abbrev pub write_addresses : (ℕ → Bytes) → ℕ → ℕ → Bytes
write_addresses address zero index = []
write_addresses address (suc left) index =
    (if index == 0 then [] else codes ",")
    ++ (address index ++ write_addresses address left (index + 1))

unfoldable pub addition : Bytes → Bytes → List Bytes → ℕ → Bytes
addition host port addresses next =
    let count = length addresses in
    let first = next % count in
    codes "+"
    ++ (host
        ++ (codes ":"
            ++ (port
                ++ (codes ":"
                    ++ write_addresses (λ index. address_at addresses ((first + index) % count))
                        count 0))))

abbrev pub no_addresses : List Bytes → Bool
no_addresses [] = true
no_addresses (address ∷ addresses) = false

-- What a transfer is told, with the state of its host after that.
unfoldable pub tell : Bytes → Bytes → ℕ → Host → Host × Entry
unfolding addition
tell host port now state =
    let late = leb pass_always (now - state.answered) in
    let counted = if late then record state { transfers = add64 state.transfers 1 } else state in
    if not (no_addresses state.addresses) && ltb now state.expires
    then (if late && not (state.transfers % pass_every == 0) then (counted, no_entry) else (
      record counted { next = add64 state.next 1 },
      record { waiting = false; resolve = addition host port state.addresses state.next },
    ))
    else if state.looking && ltb (now - state.started) wait_for_first_answer
    then (state, record { waiting = true; resolve = [] })
    else (state, removal host port)

-- A call of `entry` for a host, under the lock.
unfoldable pub entry_for : Bool → ℕ → Bytes → Bytes → Shared → Shared × Entry
unfolding host_for ask tell
entry_for thread_starts now host port s =
    let (hosts, found) = host_for host now s.hosts in
    let made = record s { hosts = hosts } in
    elim found [
      | none ↦ (made, removal host port)
      | some state ↦
          let (asked, asking, started) = ask thread_starts now host state made in
          let (told, answer) = tell host port now asking in
          if started
          then (record asked { hosts = assign asked.hosts host told }, answer)
          else (asked, no_entry)
    ]

-- `thread_starts` says whether a thread can be started.
unfoldable pub entry : Bool → ℕ → Bytes → Shared → Shared × Entry
unfolding entry_for resolvable_host
entry thread_starts now url s =
    if not s.enabled then (s, no_entry) else elim (resolvable_host url) [
      | none ↦ (s, no_entry)
      | some (host, port) ↦
          if s.stopped then (s, no_entry) else entry_for thread_starts now host port s
    ]
