-- ===== src/Credentials/Calls.antt =====
-- What a call of src/credential_cache.cpp has of its flight, and that settling and dropping keep it.
use karu.Base.{
  ℕ, ◌<◌, ◌≡◌, refl, ap, ◌∙◌, ◌⊎◌, inl, inr, Bool, true, false, not, Option, none, some, Bytes,
  text_eq, text_eq_sound, ◌==◌, if◌then◌else◌, find_in, text_key, number_key, find_in-assign,
  find_in-erase, find_in-try_emplace, Bool-cases, Option-cases, arith,
}
use karu.Credentials.{Loaded, Entry}
use karu.Credentials.Steps.{Call, key_of, id_of}
use karu.Credentials.Cache.{
  Cache, Flight, new_flight, start, settle, drop_flight, is_invalidated, is_flight, done_with,
}

abbrev pub is_absent : Option Flight → Bool
is_absent none = true
is_absent (some flight) = false

abbrev pub Flagged : Cache → ℕ → Type 0
Flagged c id = is_invalidated (find_in c.store id) ≡ true

-- A call in progress has its flight, which is the one of its key unless it was invalidated.
pub record CallSound (c : Cache) (call : Call) : Type 0 where
  pub below : id_of call < c.next
  pub stored : (flight : Flight) × (find_in c.store (id_of call) ≡ some flight)
  pub fate : (find_in c.flights (key_of call) ≡ some (id_of call)) ⊎ Flagged c (id_of call)

pub start-find_in :
    (key : Bytes) (c : Cache) (id : ℕ)
    → id < c.next
    → find_in (start key c).0.store id ≡ find_in c.store id
start-find_in key c id h = ground (arith, find_in-assign c.store c.next new_flight id)

pub CallSound-start :
    (key : Bytes) (c : Cache) (call : Call) → CallSound c call → CallSound (start key c).0 call
CallSound-start key c call h =
    let same = start-find_in key c (id_of call) h.below in
    record {
      below = let b = h.below in omega arith;
      stored = (h.stored.0, same ∙ h.stored.1);
      fate = elim h.fate [
        | inl r ↦ inl (find_in-try_emplace c.flights key c.next (key_of call) ∙ rw r refl)
        | inr f ↦ inr (ap is_invalidated same ∙ f)
      ];
    }

pub settle-flagged :
    (kept : Option (Bytes × Entry)) (key : Bytes) (id : ℕ) (result : Loaded) (c : Cache) (other : ℕ)
    → is_invalidated (find_in (settle kept key id result c).store other)
      ≡ is_invalidated (find_in c.store other)
unfolding settle
settle-flagged kept key id result c other = elim (Option-cases (find_in c.store id)) [
  | inl n ↦ ground (arith, find_in-assign c.store id (done_with result (find_in c.store id)) other)
  | inr (flight, n) ↦
      ground (arith, find_in-assign c.store id (done_with result (find_in c.store id)) other)
]

pub CallSound-settle :
    (kept : Option (Bytes × Entry)) (key : Bytes) (id : ℕ) (result : Loaded) (c : Cache)
    (call : Call)
    → (id == id_of call) ≡ false
    → CallSound c call
    → CallSound (settle kept key id result c) call
unfolding settle
CallSound-settle kept key id result c call e h = record {
  below = h.below;
  stored = (
    h.stored.0,
    find_in-assign c.store id (done_with result (find_in c.store id)) (id_of call)
        ∙ rw e h.stored.1,
  );
  fate = elim h.fate [
    | inl r ↦ inl (elim (Bool-cases (is_flight (find_in c.flights key) id)) [
      | inl t ↦
          ground (arith, find_in-erase c.flights key (key_of call), text_eq_sound key (key_of call))
      | inr t ↦ rw t r
    ])
    | inr f ↦ inr (settle-flagged kept key id result c (id_of call) ∙ f)
  ];
}

-- Where a key has a flight, it is marked and erased.
module _ (key : Bytes) (c : Cache) (other : ℕ) (n : find_in c.flights key ≡ some other) where
  pub drop_flight-flagged :
      (id : ℕ)
      → is_invalidated (find_in (drop_flight key c).store id) ≡ (
          if other == id
          then not (is_absent (find_in c.store id))
          else is_invalidated (find_in c.store id))
  drop_flight-flagged id = elim (Option-cases (find_in c.store other)) [
    | inl m ↦ rw (drop_flight, n, m) (ground arith)
    | inr (flight, m) ↦
        rw (drop_flight, n, m)
          (ground (arith, find_in-assign c.store other (record flight { invalidated = true }) id))
  ]

  drop_flight-stored :
      (id : ℕ) (flight : Flight)
      → find_in c.store id ≡ some flight
      → (marked : Flight) × (find_in (drop_flight key c).store id ≡ some marked)
  drop_flight-stored id flight s = elim (Option-cases (find_in c.store other)) [
    | inl m ↦ (flight, rw (drop_flight, n, m) s)
    | inr (old, m) ↦ (
      if other == id then record old { invalidated = true } else flight,
      rw (drop_flight, n, m) (find_in-assign c.store other _ id ∙ ground arith),
    )
  ]

pub CallSound-drop :
    (key : Bytes) (c : Cache) (call : Call) → CallSound c call → CallSound (drop_flight key c) call
CallSound-drop key c call h = elim (Option-cases (find_in c.flights key)) [
  | inl n ↦ rw (drop_flight, n) h
  | inr (other, n) ↦ record {
    below = rw (drop_flight, n) h.below;
    stored = drop_flight-stored key c other n (id_of call) h.stored.0 h.stored.1;
    fate = elim h.fate [
      | inl r ↦ elim (Bool-cases (text_eq key (key_of call))) [
        | inl t ↦
            let same : (other == id_of call) ≡ true =
              ground (arith, text_eq_sound key (key_of call)) in
            inr (drop_flight-flagged key c other n (id_of call) ∙ rw (same, h.stored.1) refl)
        | inr t ↦ inl (rw (drop_flight, n) (find_in-erase c.flights key (key_of call) ∙ rw t r))
      ]
      | inr f ↦ inr (
          drop_flight-flagged key c other n (id_of call) ∙ elim (Bool-cases (other == id_of call)) [
            | inl t ↦ rw (t, h.stored.1) refl
            | inr t ↦ rw t f
          ])
    ];
  }
]
