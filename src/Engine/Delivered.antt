-- ===== src/Engine/Delivered.antt =====
-- A local read, from the queue of `file_loop` to the buffers of the requests.
use karu.Base.{
  ℕ, ◌+◌, ◌-◌, ◌<◌, ◌≡◌, ◌⊎◌, refl, sym, ◌∙◌, ap, subst, Bool, true, false, Option, none, some,
  Bytes, min, if◌then◌else◌, codes, ◌≢◌, Bool-cases, Option-cases, inl, inr, arith, Ordered,
}
use karu.Uri.{same_backend, file}
use karu.Transfer.{Status, Transfer, ok, err_io, err_nomem}
use karu.Scatter.{Heap}
use karu.Scatter.Chunk.{Apart}
use karu.Planner.Bounds.{IsLaidOut}
use karu.Batch.{Batch}
use karu.Batch.Deliver.{Ended, deliver}
use karu.Engine.Files.{
  Pread, Stop, filled, ended, cancelled, endless, error, Reading, read_all, front_buffer,
}
use karu.Engine.Local.{LocalRead, unread, ends_unread, end_read, read_into, local_read}
use karu.Engine.Reads.{IsPread, IsEnd, read_all-IsEnd}
use karu.Engine.Copies.{Delivered, scratch-Delivered, direct-Delivered}

module _ (t : Transfer) (content : ℕ → ℕ) (size : ℕ) (laid_out : IsLaidOut t)
    (apart : Ordered Apart t.parts) where
  -- How far a read comes that is neither cancelled nor refused.
  abbrev pub Reached : ℕ → Type 0
  Reached received = received ≡ min t.length (size - t.offset)

  end_read-ok :
      (is_cancelled : ℕ → Bool) (pread : ℕ → ℕ → ℕ → Pread) (patience : ℕ) (sink : ℕ) (start : Heap)
      (space : Option (ℕ → ℕ)) (s : Reading) (stop : Stop) (p : IsPread pread size patience)
      → IsEnd pread content size patience p t.offset t.length sink start is_cancelled (s, stop)
      → ((k : ℕ) → is_cancelled k ≡ false)
      → (end_read t space (s, stop)).status ≡ ok
      → Reached s.done
  unfolding end_read
  end_read-ok is_cancelled pread patience sink start space s filled p (k, e) never fine =
      omega (arith, k.in_object, k.in_length)
  end_read-ok is_cancelled pread patience sink start space s ended p (k, (e, f)) never fine =
      omega (arith, k.in_object)
  end_read-ok is_cancelled pread patience sink start space s endless p (k, e) never fine = absurd e
  end_read-ok is_cancelled pread patience sink start space s cancelled p (k, e) never fine =
      ground (arith, never s.calls)
  end_read-ok is_cancelled pread patience sink start space s (error x) p (k, e) never fine =
      ground arith

  end_read-received :
      (space : Option (ℕ → ℕ)) (out : Reading × Stop) → (end_read t space out).received ≡ out.0.done
  unfolding end_read
  end_read-received space (s, stop) = refl

  module _ (pread : ℕ → ℕ → ℕ → Pread) (patience : ℕ) (p : IsPread pread size patience)
      (is_cancelled : ℕ → Bool) (never : (k : ℕ) → is_cancelled k ≡ false) (b : Batch) where
    abbrev space_of : Bool → ℕ → Heap → Option (ℕ → ℕ)
    space_of in_scratch sink heap = if in_scratch then some (λ i. heap (sink + i)) else none

    end_read-delivers :
        (sink : ℕ) (in_scratch : Bool) (start : Heap) (out : Reading × Stop)
        → (in_scratch ≡ true)
          ⊎ ((in_scratch ≡ false) × ((t.scattered ≡ false) × (sink ≡ front_buffer t.parts)))
        → IsEnd pread content size patience p t.offset t.length sink start is_cancelled out
        → (end_read t (space_of in_scratch sink out.0.heap) out).status ≡ ok
        → Reached out.0.done
          × Delivered content t
              (end_read t (space_of in_scratch sink out.0.heap) out)
              (deliver (end_read t (space_of in_scratch sink out.0.heap) out) (b, out.0.heap)).1
    unfolding end_read
    end_read-delivers sink true start (s, stop) kind (k, e) fine =
        let x = end_read t (some (λ i. s.heap (sink + i))) (s, stop) in
        (
          end_read-ok is_cancelled pread patience sink start (some (λ i. s.heap (sink + i))) s stop
              p (k, e) never fine,
          scratch-Delivered t content laid_out apart x sink s.heap b refl refl fine
              (omega (arith, k.in_length, laid_out.length_fits)) k.held,
        )
    end_read-delivers sink false start (s, stop) (inl never_so) (k, e) fine = ground arith
    end_read-delivers sink false start (s, stop) (inr (_, (direct, place))) (k, e) fine =
        let x = end_read t none (s, stop) in
        (
          end_read-ok is_cancelled pread patience sink start none s stop p (k, e) never fine,
          direct-Delivered t content laid_out apart x s.heap b refl refl direct fine
              (omega (arith, k.in_length, laid_out.length_fits))
              (subst (λ a. (i : ℕ) → i < s.done → s.heap (a + i) ≡ content (t.offset + i)) place
                k.held),
        )

    read_into-delivers :
        (sink : ℕ) (in_scratch : Bool) (heap : Heap) (e : Ended)
        → (in_scratch ≡ true)
          ⊎ ((in_scratch ≡ false) × ((t.scattered ≡ false) × (sink ≡ front_buffer t.parts)))
        → (read_into pread content patience is_cancelled false t sink in_scratch heap).ends ≡ some e
        → e.status ≡ ok
        → let after =
            (read_into pread content patience is_cancelled false t sink in_scratch heap).heap in
          Reached e.received × Delivered content t e (deliver e (b, after)).1
    unfolding read_into
    read_into-delivers sink in_scratch heap e kind read fine =
        let out = read_all pread content patience is_cancelled t.offset t.length sink 0 heap in
        let all =
          read_all-IsEnd pread content size patience p t.offset t.length sink heap is_cancelled 0
            laid_out.fits in
        let x = end_read t (space_of in_scratch sink out.0.heap) out in
        let same : x ≡ e = cc in
        let received_is : x.received ≡ out.0.done =
          end_read-received (space_of in_scratch sink out.0.heap) out in
        let (reached, delivered) =
          end_read-delivers sink in_scratch heap out kind all
            (subst (λ (y : Ended). y.status ≡ ok) (sym same) fine) in
        subst
          (λ (y : Ended). Reached y.received × Delivered content t y (deliver y (b, out.0.heap)).1)
          same (received_is ∙ reached, delivered)

-- What a round of the loop comes to: a transfer that is reported unread, or a read into its buffer or
-- into scratch space.
local_read-cases :
    (t : Transfer) (content : ℕ → ℕ) (patience : ℕ) (pread : ℕ → ℕ → ℕ → Pread)
    (allocate : ℕ → Option ℕ) (open_error : Option Bytes) (is_cancelled : ℕ → Bool) (heap : Heap)
    → same_backend t.locator.resolved.backend file ≡ true
    → let r =
        local_read pread content patience allocate open_error false is_cancelled false t heap in
      ((status : Status) × ((detail : Bytes) × ((status ≢ ok)
            × (r ≡ unread heap (some (ends_unread t status detail))))))
      ⊎ ((sink : ℕ) × ((in_scratch : Bool) × (((in_scratch ≡ true)
                ⊎ ((in_scratch ≡ false) × ((t.scattered ≡ false) × (sink ≡ front_buffer t.parts))))
              × (r ≡ read_into pread content patience is_cancelled false t sink in_scratch heap))))
unfolding local_read
local_read-cases t content patience pread allocate open_error is_cancelled heap local =
    elim (Bool-cases t.scattered) [
      | inr direct ↦ elim (Option-cases open_error) [
        | inr (x, failed) ↦ inl (err_io, (x, (λ h. ground arith, ground arith)))
        | inl opened ↦
            inr (front_buffer t.parts, (false, (inr (refl, (direct, refl)), ground arith)))
      ]
      | inl scattered ↦ elim (Option-cases (allocate t.length)) [
        | inl full ↦
            inl (
              err_nomem,
              (codes "out of memory staging the read", (λ h. ground arith, ground arith)),
            )
        | inr (sink, space) ↦ elim (Option-cases open_error) [
          | inr (x, failed) ↦ inl (err_io, (x, (λ h. ground arith, ground arith)))
          | inl opened ↦ inr (sink, (true, (inl refl, ground arith)))
        ]
      ]
    ]

-- A local read of a transfer that is laid out, whose parts do not overlap, from a file that pread serves,
-- of a batch that is not cancelled, and that ends well, has received all that the file has of the range,
-- and when it is delivered every part has in its buffer the bytes of the file that its completion says.
pub local_read-delivers :
    (t : Transfer) (content : ℕ → ℕ) (size patience : ℕ) (pread : ℕ → ℕ → ℕ → Pread)
    (allocate : ℕ → Option ℕ) (open_error : Option Bytes) (is_cancelled : ℕ → Bool) (heap : Heap)
    (b : Batch) (e : Ended)
    → IsLaidOut t
    → Ordered Apart t.parts
    → IsPread pread size patience
    → same_backend t.locator.resolved.backend file ≡ true
    → ((k : ℕ) → is_cancelled k ≡ false)
    → (local_read pread content patience allocate open_error false is_cancelled false t heap).ends
      ≡ some e
    → e.status ≡ ok
    → (e.received ≡ min t.length (size - t.offset))
      × Delivered content t e
          (deliver e (
            b,
            (local_read pread content patience allocate open_error false is_cancelled false t
                heap).heap,
          )).1
local_read-delivers t content size patience pread allocate open_error is_cancelled heap b e laid_out
      apart p local never read fine =
    let r = local_read pread content patience allocate open_error false is_cancelled false t heap in
    elim (local_read-cases t content patience pread allocate open_error is_cancelled heap local) [
      | inl (status, (detail, (bad, out))) ↦
          let unread_is : ends_unread t status detail ≡ e = cc in
          absurd (bad (ap (λ (y : Ended). y.status) unread_is ∙ fine))
      | inr (sink, (in_scratch, (kind, out))) ↦
          subst
            (λ (q : LocalRead).
              (e.received ≡ min t.length (size - t.offset))
              × Delivered content t e (deliver e (b, q.heap)).1)
            (sym out)
            (read_into-delivers t content size laid_out apart pread patience p is_cancelled never b
              sink in_scratch heap e kind (ap (λ (q : LocalRead). q.ends) (sym out) ∙ read) fine)
    ]
