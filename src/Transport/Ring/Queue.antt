-- ===== src/Transport/Ring/Queue.antt =====
-- The packet ring of luv_net_ring.hpp is a bounded first-in first-out queue.
use mathlib.Core.List.{append-nil}
use fort.Base.{
  ℕ, zero, suc, ◌+◌, ◌-◌, ◌%◌, ◌^◌, ◌≤◌, ◌<◌, ◌≡◌, ◌≢◌, refl, sym, ap, ◌∙◌, inl, inr, some, List,
  [], ◌∷◌, ◌++◌, arith, ltb, ◌==◌, if◌then◌else◌, update, ==_iff, Bool-cases,
}
use fort.Transport.Ring.{
  PacketDescriptor, PacketRing, ring_size, sub64, add64, smaller, write_slots, read_slots,
  burst_enqueue, burst_dequeue,
}

-- The first `n` values of a function.
pub values : ℕ → (ℕ → PacketDescriptor) → List PacketDescriptor
values zero f = []
values (suc n) f = f 0 ∷ values n (λ i. f (suc i))

values-same :
    (n : ℕ) (f g : ℕ → PacketDescriptor) → ((i : ℕ) → i < n → f i ≡ g i) → values n f ≡ values n g
unfolding values
values-same zero f g h = refl
values-same (suc n) f g h = rw (h 0 (omega arith)) (
    ap (λ r. g 0 ∷ r)
      (values-same n (λ i. f (suc i)) (λ i. g (suc i)) (λ i b. h (suc i) (omega arith))))

values_add :
    (n m : ℕ) (f g : ℕ → PacketDescriptor)
    → ((i : ℕ) → i < m → g i ≡ f (n + i))
    → values (n + m) f ≡ values n f ++ values m g
unfolding values
values_add zero m f g h =
    let none_before : 0 + m ≡ m = omega arith in
    rw none_before (values-same m f g (λ i b. sym (h i b ∙ ap f (omega arith))))
values_add (suc n) m f g h =
    let one_more : suc n + m ≡ suc (n + m) = omega arith in
    rw one_more
      (ap (λ r. f 0 ∷ r) (values_add n m (λ i. f (suc i)) g (λ i b. h i b ∙ ap f (omega arith))))

-- The counters are size_t values, at most a ring apart.
pub record IsRing (r : PacketRing) : Type 0 where
  pub head_fits : r.head < 2 ^ 64
  pub tail_fits : r.tail < 2 ^ 64
  pub bounded : sub64 r.head r.tail ≤ ring_size

-- The packets of the ring, oldest first.
abbrev pub item : PacketRing → ℕ → PacketDescriptor
item r i = r.slots (add64 r.tail i % ring_size)

abbrev pub held : PacketRing → ℕ
held r = sub64 r.head r.tail

pub contents : PacketRing → List PacketDescriptor
unfolding values
contents r = values (held r) (item r)

module _ (descs : ℕ → PacketDescriptor) (head : ℕ) where
  write_slots-kept :
      (n i : ℕ) (slots : ℕ → PacketDescriptor) (p : ℕ)
      → ((j : ℕ) → i ≤ j → j < i + n → p ≢ add64 head j % ring_size)
      → write_slots n i descs head slots p ≡ slots p
  unfolding write_slots
  write_slots-kept zero i slots p h = refl
  write_slots-kept (suc n) i slots p h =
      write_slots-kept n (i + 1) (update slots (add64 head i % ring_size) (descs i)) p
        (λ j a b. h j (omega arith) (omega arith))
      ∙ ground (arith, h i (omega arith) (omega arith))

  write_slots-written :
      (n i : ℕ) (slots : ℕ → PacketDescriptor) (j : ℕ)
      → n ≤ ring_size
      → i ≤ j
      → j < i + n
      → i + n ≤ ring_size
      → write_slots n i descs head slots (add64 head j % ring_size) ≡ descs j
  unfolding write_slots
  write_slots-written zero i slots j c a b d = absurd (omega arith)
  write_slots-written (suc n) i slots j c a b d = elim (Bool-cases (i == j)) [
    | inl e ↦
        let same = (==_iff i j).0 e in
        let s = update slots (add64 head i % ring_size) (descs i) in
        write_slots-kept n (i + 1) s (add64 head j % ring_size) (λ k b d p. omega arith)
        ∙ ground (arith, same)
    | inr e ↦
        write_slots-written n (i + 1) (update slots (add64 head i % ring_size) (descs i)) j
          (omega arith) (ground arith) (omega arith) (omega arith)
  ]

read_slots-read :
    (out : ℕ → PacketDescriptor) (tail : ℕ) (slots : ℕ → PacketDescriptor) (n i : ℕ) (j : ℕ)
    → j < i + n
    → read_slots n i out tail slots j
      ≡ (if ltb j i then out j else slots (add64 tail j % ring_size))
unfolding read_slots
read_slots-read out tail slots zero i j h = ground arith
read_slots-read out tail slots (suc n) i j h =
    read_slots-read (update out i (slots (add64 tail i % ring_size))) tail slots n (i + 1) j
      (omega arith)
    ∙ elim (Bool-cases (i == j)) [
      | inl e ↦ let same = (==_iff i j).0 e in ground (arith, same)
      | inr e ↦ ground (arith, e)
    ]

module _ (r : PacketRing) (v : IsRing r) where
  -- `w` packets are put into the ring, and there is room for them.
  module _ (descs : ℕ → PacketDescriptor) (w : ℕ) (room : held r + w ≤ ring_size) where
    abbrev enqueued : PacketRing
    enqueued = record r { head = add64 r.head w; slots = write_slots w 0 descs r.head r.slots }

    held-enqueued : held enqueued ≡ held r + w
    held-enqueued = omega (arith, v.head_fits, v.tail_fits)

    item-kept : (k : ℕ) → k < held r → item enqueued k ≡ item r k
    item-kept k h =
        write_slots-kept descs r.head w 0 r.slots (add64 r.tail k % ring_size)
          (λ j a b p. omega (arith, v.head_fits, v.tail_fits))

    item-new : (j : ℕ) → j < w → item enqueued (held r + j) ≡ descs j
    item-new j h =
        let same : add64 r.tail (held r + j) % ring_size ≡ add64 r.head j % ring_size =
          omega (arith, v.head_fits, v.tail_fits) in
        rw same (
          write_slots-written descs r.head w 0 r.slots j (omega arith) (omega arith) (omega arith)
            (omega arith))

    enqueued-contents : IsRing enqueued × (contents enqueued ≡ contents r ++ values w descs)
    unfolding contents
    enqueued-contents = (
      record {
        head_fits = omega arith;
        tail_fits = v.tail_fits;
        bounded = omega (arith, held-enqueued);
      },
      rw held-enqueued (
          values_add (held r) w (item enqueued) descs (λ j h. sym (item-new j h))
          ∙ ap (λ xs. xs ++ values w descs)
              (values-same (held r) (item enqueued) (item r) item-kept)),
    )

  -- `w` packets are taken out of the ring, which holds as many.
  module _ (out : ℕ → PacketDescriptor) (w : ℕ) (there : w ≤ held r) where
    abbrev dequeued : PacketRing
    dequeued = record r { tail = add64 r.tail w }

    abbrev taken : ℕ → PacketDescriptor
    taken = read_slots w 0 out r.tail r.slots

    held-dequeued : held r ≡ w + held dequeued
    held-dequeued = omega (arith, v.head_fits, v.tail_fits)

    item-dequeued : (k : ℕ) → item dequeued k ≡ item r (w + k)
    item-dequeued k =
        let same : add64 (add64 r.tail w) k % ring_size ≡ add64 r.tail (w + k) % ring_size =
          omega arith in
        rw same

    dequeued-contents : IsRing dequeued × (values w taken ++ contents dequeued ≡ contents r)
    unfolding contents
    dequeued-contents = (
      record {
        head_fits = v.head_fits;
        tail_fits = omega arith;
        bounded = omega (arith, held-dequeued, v.bounded);
      },
      sym (
          rw held-dequeued (
            values_add w (held dequeued) (item r) (item dequeued) (λ k h. item-dequeued k)
            ∙ ap (λ xs. xs ++ values (held dequeued) (item dequeued))
                (sym (
                  values-same w taken (item r) (λ i h.
                    read_slots-read out r.tail r.slots w 0 i (omega arith) ∙ ground arith))))),
    )

  -- `burst_enqueue` puts as many packets as there is room for behind those of the ring, in their
  -- order, and returns their number.
  pub burst_enqueue-contents :
      (descs : ℕ → PacketDescriptor) (count : ℕ)
      → let q = burst_enqueue r (some descs) count in
        IsRing q.1
        × (q.0 ≡ smaller count (ring_size - held r))
        × (contents q.1 ≡ contents r ++ values q.0 descs)
  unfolding burst_enqueue values
  burst_enqueue-contents descs count =
      let w = smaller count (sub64 ring_size (held r)) in
      elim (Bool-cases (count == 0)) [
        | inl e ↦ rw e (v, ground (arith, e), sym (append-nil (contents r)))
        | inr e ↦
            let (a, b) = enqueued-contents descs w (ground (arith, v.bounded)) in
            rw e (a, ground (arith, v.bounded), b)
      ]

  -- `burst_dequeue` takes the oldest packets of the ring, as many as were asked for and there are, into
  -- the caller's array, and leaves the others in their order.
  pub burst_dequeue-contents :
      (out : ℕ → PacketDescriptor) (max_count : ℕ)
      → let q = burst_dequeue r (some out) max_count in
        (taken : ℕ → PacketDescriptor) × (q.1 ≡ some taken)
        × IsRing q.2
        × (q.0 ≡ smaller max_count (held r))
        × (values q.0 taken ++ contents q.2 ≡ contents r)
  unfolding burst_dequeue values
  burst_dequeue-contents out max_count =
      let w = smaller max_count (held r) in
      elim (Bool-cases (max_count == 0)) [
        | inl e ↦ rw e (out, refl, v, ground (arith, e), refl)
        | inr e ↦
            let (a, b) = dequeued-contents out w (ground arith) in
            rw e (taken out w (ground arith), refl, a, refl, b)
      ]
