-- ===== src/Batch/Accounts.antt =====
-- The counts of a batch are true in every state, no completion is reported twice, and none is lost but
-- with a transfer that was discarded.
use karu.Base.{
  ℕ, ◌+◌, ◌≡◌, ◌⊎◌, inl, inr, true, refl, ◌∙◌, ap, Bool, some, List, [], ◌∷◌, ◌++◌, map, length,
  total, total-append, total-middle, length-middle, ◌==◌, if◌then◌else◌, arith,
}
use karu.Transfer.{ok, Part, Transfer, Completion}
use karu.Batch.{Batch, push, transfer_finished, can_return, take_ready, next}
use karu.Batch.Deliver.{
  Ended, completion_of, completion_of-tag, completions_of, count_finished, discard_transfer,
  completions_of-length,
}
use karu.Batch.World.{World, Step, ends, pushes, drops, takes, cancels, discards}

-- How often a tag is the tag of a part, and of a completion.
abbrev pub is_tag : ℕ → ℕ → ℕ
is_tag x y = if x == y then 1 else 0

abbrev pub in_parts : ℕ → List Part → ℕ
in_parts x = total (λ p. is_tag x p.tag)

abbrev pub in_completions : ℕ → List Completion → ℕ
in_completions x = total (λ c. is_tag x c.tag)

abbrev pub in_transfers : ℕ → List Transfer → ℕ
in_transfers x = total (λ t. in_parts x t.parts)

-- Parts that have no completion in the queue yet.
abbrev pub outstanding : World → ℕ
outstanding w =
    total (λ t. length t.parts) w.running
    + total length w.delivering
    + total (λ t. length t.parts) w.discarded

abbrev pub tags : ℕ → World → ℕ
tags x w =
    in_completions x w.reported
    + in_completions x w.batch.ready
    + total (in_completions x) w.delivering
    + in_transfers x w.running
    + in_transfers x w.discarded

-- The counts that a state keeps; `submitted x` is how often a tag was submitted. Only a cancelled batch
-- has lost transfers.
pub record IsCounted (submitted : ℕ → ℕ) (w : World) : Type 0 where
  pub pending : w.batch.pending_parts ≡ outstanding w
  pub live : w.batch.live_transfers ≡ length w.running + length w.delivering
  pub kept : (x : ℕ) → tags x w ≡ submitted x
  pub lost : (w.batch.cancelled ≡ true) ⊎ (w.discarded ≡ [])

completions_of-tags :
    (x : ℕ) (e : Ended) (ps : List Part)
    → in_completions x (map (completion_of e) ps) ≡ in_parts x ps
completions_of-tags x e [] = refl
completions_of-tags x e (p ∷ ps) = ground (arith, completions_of-tags x e ps, completion_of-tag e p)

ends-IsCounted :
    (submitted : ℕ → ℕ) (w : World) (e : Ended) (before after : List Transfer)
    → w.running ≡ before ++ e.transfer ∷ after
    → IsCounted submitted w
    → IsCounted submitted (record w {
      batch = count_finished w.batch;
      running = before ++ after;
      delivering = completions_of e ∷ w.delivering;
    })
unfolding count_finished
ends-IsCounted submitted w e before after r k = record {
  pending = ground (
    arith,
    k.pending,
    ap (total (λ t. length t.parts)) r,
    total-middle (λ t. length t.parts) before e.transfer after,
    completions_of-length e e.transfer.parts,
  );
  live = ground (arith, k.live, ap length r, length-middle before e.transfer after);
  kept = λ x. ground (
    arith,
    k.kept x,
    ap (in_transfers x) r,
    total-middle (λ t. in_parts x t.parts) before e.transfer after,
    completions_of-tags x e e.transfer.parts,
  );
  lost = k.lost;
}

pushes-IsCounted :
    (submitted : ℕ → ℕ) (w : World) (c : Completion) (cs : List Completion)
    (before after : List (List Completion))
    → w.delivering ≡ before ++ (c ∷ cs) ∷ after
    → IsCounted submitted w
    → IsCounted submitted (record w { batch = push c w.batch; delivering = before ++ cs ∷ after })
unfolding push
pushes-IsCounted submitted w c cs before after d k = record {
  pending = ground (
    arith,
    k.pending,
    ap (total length) d,
    total-middle length before (c ∷ cs) after,
    total-middle length before cs after,
  );
  live = ground (
    arith,
    k.live,
    ap length d,
    length-middle before (c ∷ cs) after,
    length-middle before cs after,
  );
  kept = λ x. ground (
    arith,
    k.kept x,
    ap (total (in_completions x)) d,
    total-middle (in_completions x) before (c ∷ cs) after,
    total-middle (in_completions x) before cs after,
    total-append (λ c. is_tag x c.tag) w.batch.ready (c ∷ []),
  );
  lost = k.lost;
}

drops-IsCounted :
    (submitted : ℕ → ℕ) (w : World) (before after : List (List Completion))
    → w.delivering ≡ before ++ [] ∷ after
    → IsCounted submitted w
    → IsCounted submitted
        (record w { batch = transfer_finished w.batch; delivering = before ++ after })
unfolding transfer_finished
drops-IsCounted submitted w before after d k = record {
  pending = ground (arith, k.pending, ap (total length) d, total-middle length before [] after);
  live = ground (arith, k.live, ap length d, length-middle before [] after);
  kept = λ x. ground (
    arith,
    k.kept x,
    ap (total (in_completions x)) d,
    total-middle (in_completions x) before [] after,
  );
  lost = k.lost;
}

-- What `next` takes is the front of the queue.
next-takes :
    (bounded : Bool) (b b' : Batch) (c : Completion)
    → next bounded b ≡ some (ok, (some c, b'))
    → (b.ready ≡ c ∷ b'.ready) × (b' ≡ record b { ready = b'.ready })
unfolding next can_return take_ready
next-takes bounded b b' c h = (ground arith, ground arith)

takes-IsCounted :
    (submitted : ℕ → ℕ) (w : World) (bounded : Bool) (c : Completion) (b : Batch)
    → next bounded w.batch ≡ some (ok, (some c, b))
    → IsCounted submitted w
    → IsCounted submitted (record w { batch = b; reported = w.reported ++ c ∷ [] })
takes-IsCounted submitted w bounded c b h k =
    let (front, same) = next-takes bounded w.batch b c h in
    let pending = ap (λ b. b.pending_parts) same in
    let live = ap (λ b. b.live_transfers) same in
    let cancelled = ap (λ b. b.cancelled) same in
    record {
      pending = pending ∙ k.pending;
      live = live ∙ k.live;
      kept = λ x. ground (
        arith,
        k.kept x,
        ap (in_completions x) front,
        total-append (λ c. is_tag x c.tag) w.reported (c ∷ []),
      );
      lost = elim k.lost [ inl e ↦ inl (cancelled ∙ e) | inr e ↦ inr e ];
    }

discards-IsCounted :
    (submitted : ℕ → ℕ) (w : World) (t : Transfer) (before after : List Transfer)
    → w.running ≡ before ++ t ∷ after
    → w.batch.cancelled ≡ true
    → IsCounted submitted w
    → IsCounted submitted (record w {
      batch = discard_transfer w.batch;
      running = before ++ after;
      discarded = t ∷ w.discarded;
    })
unfolding discard_transfer transfer_finished
discards-IsCounted submitted w t before after r cancelled k = record {
  pending = ground (
    arith,
    k.pending,
    ap (total (λ t. length t.parts)) r,
    total-middle (λ t. length t.parts) before t after,
  );
  live = ground (arith, k.live, ap length r, length-middle before t after);
  kept = λ x. ground (
    arith,
    k.kept x,
    ap (in_transfers x) r,
    total-middle (λ t. in_parts x t.parts) before t after,
  );
  lost = inl cancelled;
}

pub Step-IsCounted :
    (submitted : ℕ → ℕ) (v w : World) → Step v w → IsCounted submitted v → IsCounted submitted w
Step-IsCounted submitted _ _ (ends w e before after r) k =
    ends-IsCounted submitted w e before after r k
Step-IsCounted submitted _ _ (pushes w c cs before after d) k =
    pushes-IsCounted submitted w c cs before after d k
Step-IsCounted submitted _ _ (drops w before after d) k =
    drops-IsCounted submitted w before after d k
Step-IsCounted submitted _ _ (takes w bounded c b h) k = takes-IsCounted submitted w bounded c b h k
Step-IsCounted submitted _ _ (cancels w) k = record {
  pending = k.pending;
  live = k.live;
  kept = k.kept;
  lost = inl refl;
}
Step-IsCounted submitted _ _ (discards w t before after r c) k =
    discards-IsCounted submitted w t before after r c k
