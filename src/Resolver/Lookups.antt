-- ===== src/Resolver/Lookups.antt =====
-- A host is looked up by one lookup at a time, and the table of hosts stays small.
use karu.Base.{
  ℕ, ◌≤◌, ◌≡◌, refl, sym, ap, subst, ◌⊎◌, ◌∙◌, inl, inr, Bool, true, false, not, Option, none, some,
  List, Bytes, text_eq_refl, text_eq_sound, length, Keyed, Keyed-assign, find_in, assign, text_key,
  find_in-assign, length-assign, Bool-cases, Option-cases, arith,
}
use karu.Resolver.{Host, Shared, no_entry, max_hosts, resolvable_host}
use karu.Resolver.Entries.{host_for, ask, tell, entry_for, entry}
use karu.Resolver.Steps.{
  World, Step, called, taken, looked_up, stopped, Reached, begun, then_step, answered_host, answer,
  stop,
}
use karu.Resolver.Table.{
  asks, times, outstanding, once, Matches, Table, host_for-Keeps, host_for-found, ask-Table,
  assign-same, tell-looking,
}

pub record IsSound (w : World) : Type 0 where
  pub keyed : Keyed w.shared.hosts
  pub few : length w.shared.hosts ≤ max_hosts
  pub matches : (w.shared.stopped ≡ true) ⊎ Matches w.in_lookup w.shared

-- What every call and every step keeps, whatever is in lookup.
record Sound (in_lookup : Option Bytes) (s : Shared) : Type 0 where
  keyed : Keyed s.hosts
  few : length s.hosts ≤ max_hosts
  matches : Matches in_lookup s

Table-told :
    (in_lookup : Option Bytes) (host : Bytes) (state told : Host) (s : Shared)
    → Table in_lookup host state s
    → told.looking ≡ state.looking
    → Sound in_lookup (record s { hosts = assign s.hosts host told })
Table-told in_lookup host state told s t e = record {
  keyed = Keyed-assign s.hosts host told t.keyed;
  few = rw (length-assign s.hosts host told state t.found) t.few;
  matches = λ x. t.matches x ∙ ap once (sym (assign-same s.hosts host x state told t.found e));
}

entry_for-Sound :
    (in_lookup : Option Bytes) (thread_starts : Bool) (now : ℕ) (host port : Bytes) (s : Shared)
    → Sound in_lookup s
    → Sound in_lookup (entry_for thread_starts now host port s).0
unfolding entry_for
entry_for-Sound in_lookup thread_starts now host port s h =
    let made : Shared = record s { hosts = (host_for host now s.hosts).0 } in
    let keeps = host_for-Keeps host now s.hosts h.keyed h.few in
    let matches : Matches in_lookup made = λ x. h.matches x ∙ ap once (sym (keeps.asks_same x)) in
    elim (Option-cases (host_for host now s.hosts).1) [
      | inl e ↦
          rw (entry_for, e) (record { keyed = keeps.keyed; few = keeps.few; matches = matches })
      | inr (state, e) ↦
          let t = ask-Table in_lookup thread_starts now host state made (record {
            keyed = keeps.keyed;
            few = keeps.few;
            found = host_for-found host now s.hosts state h.keyed e;
            matches = matches;
          }) in
          elim (Bool-cases (ask thread_starts now host state made).2) [
            | inl f ↦
                rw (entry_for, e, f)
                  (Table-told in_lookup host _ _ _ t (tell-looking host port now _))
            | inr f ↦
                rw (entry_for, e, f) (record { keyed = t.keyed; few = t.few; matches = t.matches })
          ]
    ]

matched : (w : World) → IsSound w → w.shared.stopped ≡ false → Matches w.in_lookup w.shared
matched w h t = elim h.matches [ inl s ↦ cc | inr m ↦ m ]

IsSound-from : (w : World) → Sound w.in_lookup w.shared → IsSound w
IsSound-from w h = record { keyed = h.keyed; few = h.few; matches = inr h.matches }

-- A call does nothing, or is for a host while the resolver is not stopped.
entry-cases :
    (thread_starts : Bool) (now : ℕ) (url : Bytes) (s : Shared)
    → (entry thread_starts now url s ≡ (s, no_entry))
      ⊎ ((host : Bytes) × (port : Bytes) × (resolvable_host url ≡ some (host, port))
          × (s.stopped ≡ false)
          × (entry thread_starts now url s ≡ entry_for thread_starts now host port s))
unfolding entry
entry-cases thread_starts now url s = elim (Bool-cases (not s.enabled)) [
  | inl off ↦ inl (rw off refl)
  | inr on ↦ elim (Option-cases (resolvable_host url)) [
    | inl n ↦ inl (rw (on, n) refl)
    | inr ((host, port), n) ↦ elim (Bool-cases s.stopped) [
      | inl t ↦ inl (ground arith)
      | inr t ↦ inr (host, port, n, t, ground arith)
    ]
  ]
]

entry-IsSound :
    (w : World) (thread_starts : Bool) (now : ℕ) (url : Bytes)
    → IsSound w
    → IsSound (record w { shared = (entry thread_starts now url w.shared).0 })
entry-IsSound w thread_starts now url h = elim (entry-cases thread_starts now url w.shared) [
  | inl e ↦ subst (λ r. IsSound (record w { shared = r.0 })) (sym e) h
  | inr (host, port, n, t, e) ↦
      subst (λ r. IsSound (record w { shared = r.0 })) (sym e)
        (IsSound-from _ (
          entry_for-Sound w.in_lookup thread_starts now host port w.shared
            (record { keyed = h.keyed; few = h.few; matches = matched w h t })))
]

answer-IsSound :
    (s : Shared) (host : Bytes) (addresses : List Bytes) (now : ℕ)
    → IsSound (record { shared = s; in_lookup = some host })
    → IsSound (record { shared = answer host addresses now s; in_lookup = none })
unfolding answer
answer-IsSound s host addresses now h = elim (Option-cases (find_in s.hosts host)) [
  | inl n ↦
      rw (answer, n)
        (record {
          keyed = h.keyed;
          few = h.few;
          matches = elim h.matches [
            | inl t ↦ inl t
            | inr m ↦ inr (λ x. ground (arith, m host, text_eq_refl host))
          ];
        })
  | inr (state, n) ↦ elim (Bool-cases s.stopped) [
    | inl t ↦ rw (answer, n, t) (record { keyed = h.keyed; few = h.few; matches = inl refl })
    | inr t ↦
        rw (answer, n, t)
          (record {
            keyed = Keyed-assign s.hosts host _ h.keyed;
            few = rw (length-assign s.hosts host _ state n) h.few;
            matches = inr (λ x. ground (
              arith,
              matched (record { shared = s; in_lookup = some host }) h t x,
              matched (record { shared = s; in_lookup = some host }) h t host,
              text_eq_refl host,
              text_eq_sound host x,
              find_in-assign s.hosts host (answered_host addresses now state) x,
            ));
          })
  ]
]

Step-IsSound : (w v : World) → Step w v → IsSound w → IsSound v
unfolding stop
Step-IsSound _ _ (called w thread_starts now url) h = entry-IsSound w thread_starts now url h
Step-IsSound _ _ (taken s host rest q t) h = record {
  keyed = h.keyed;
  few = h.few;
  matches =
      inr (λ x. ap (times x) (sym q) ∙ matched (record { shared = s; in_lookup = none }) h t x);
}
Step-IsSound _ _ (looked_up s host addresses now) h = answer-IsSound s host addresses now h
Step-IsSound _ _ (stopped w) h = record { keyed = h.keyed; few = h.few; matches = inl refl }

-- In every state that a resolver reaches its table has at most 256 hosts, each once, and until it is
-- stopped a host waits for a lookup or is in one exactly once where it is looked for, and otherwise not.
pub Reached-IsSound : (w : World) → Reached w → IsSound w
Reached-IsSound _ (begun getenv has_lookup) = record {
  keyed = tt;
  few = ground arith;
  matches = inr (λ x. refl);
}
Reached-IsSound v (then_step w _ r step) = Step-IsSound w v step (Reached-IsSound w r)

tell-waiting :
    (host port : Bytes) (now : ℕ) (state : Host)
    → (tell host port now state).1.waiting ≡ true
    → state.looking ≡ true
unfolding tell
tell-waiting host port now state h = ground arith

entry_for-waiting :
    (in_lookup : Option Bytes) (thread_starts : Bool) (now : ℕ) (host port : Bytes) (s : Shared)
    → Sound in_lookup s
    → (entry_for thread_starts now host port s).1.waiting ≡ true
    → asks (find_in (entry_for thread_starts now host port s).0.hosts host) ≡ true
unfolding entry_for
entry_for-waiting in_lookup thread_starts now host port s h w =
    let made : Shared = record s { hosts = (host_for host now s.hosts).0 } in
    elim (Option-cases (host_for host now s.hosts).1) [
      | inl e ↦ ground arith
      | inr (state, e) ↦
          let asking = (ask thread_starts now host state made).1 in
          ground (
            arith,
            tell-waiting host port now asking,
            tell-looking host port now asking,
            find_in-assign (ask thread_starts now host state made).0.hosts host
                (tell host port now asking).0 host,
            text_eq_refl host,
          )
    ]

-- A transfer that a resolver tells to wait, in any state that it reaches, waits for its host while
-- this is outstanding exactly once.
pub Reached-entry_waiting :
    (w : World) (thread_starts : Bool) (now : ℕ) (url : Bytes)
    → Reached w
    → (entry thread_starts now url w.shared).1.waiting ≡ true
    → (host : Bytes) × (port : Bytes) × (resolvable_host url ≡ some (host, port))
      × (times host (outstanding w.in_lookup (entry thread_starts now url w.shared).0.queue) ≡ 1)
Reached-entry_waiting w thread_starts now url r waits =
    let h = Reached-IsSound w r in
    elim (entry-cases thread_starts now url w.shared) [
      | inl e ↦ ground arith
      | inr (host, port, n, t, e) ↦
          let sound : Sound w.in_lookup w.shared = record {
            keyed = h.keyed;
            few = h.few;
            matches = matched w h t;
          } in
          let asked =
            entry_for-waiting w.in_lookup thread_starts now host port w.shared sound
              (rw e at waits) in
          let after = entry_for-Sound w.in_lookup thread_starts now host port w.shared sound in
          (host, port, n, rw e (after.matches host ∙ rw asked refl))
    ]
