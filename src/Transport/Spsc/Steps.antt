-- ===== src/Transport/Spsc/Steps.antt =====
-- One producer and one consumer of SPSCRing in luv_arena.hpp, in any interleaving of their calls.
use fort.Base.{
  ℕ, ◌+◌, ◌%◌, ◌^◌, ◌≤◌, ◌<◌, ◌≡◌, ◌≢◌, inl, inr, ◌∙◌, false, Option, none, some, arith, ◌==◌,
  update, Bool-cases, ==_iff,
}
use fort.Transport.Spsc.{SpscRing, tick_capacity, try_claim, commit, try_peek, consume}

-- The ring; the slots that the two sides hold a pointer to, if any; and what was sent and received: the
-- numbers of messages, and each message by its number.
pub record System (T : Type 0) : Type 0 where
  pub ring : SpscRing T
  pub claimed : Option ℕ
  pub peeked : Option ℕ
  pub sent : ℕ
  pub received : ℕ
  pub message : ℕ → T

module _ {T : Type 0} where
  -- A write through a claimed pointer.
  abbrev pub write : SpscRing T → ℕ → T → SpscRing T
  write r i x = record r { slots = elim r.slots [ none ↦ none | some s ↦ some (update s i x) ] }

  abbrev pub content : SpscRing T → ℕ → Option T
  content r i = elim r.slots [ none ↦ none | some s ↦ some (s i) ]

  -- The producer may write to its slot any number of times before it commits; the consumer may read its
  -- slot as long as it has not consumed it.
  pub data Step : System T → System T → Type 0 where
    claim :
        (s : System T) (i : ℕ)
        → s.claimed ≡ none
        → try_claim s.ring ≡ some i
        → Step s (record s { claimed = some i })
    fill :
        (s : System T) (i : ℕ) (x : T)
        → s.claimed ≡ some i
        → Step s (record s { ring = write s.ring i x })
    send :
        (s : System T) (i : ℕ) (x : T)
        → s.claimed ≡ some i
        → content s.ring i ≡ some x
        → Step s (record s {
          ring = commit s.ring;
          claimed = none;
          sent = s.sent + 1;
          message = update s.message s.sent x;
        })
    peek :
        (s : System T) (i : ℕ)
        → s.peeked ≡ none
        → try_peek s.ring ≡ some i
        → Step s (record s { peeked = some i })
    receive :
        (s : System T) (i : ℕ)
        → s.peeked ≡ some i
        → Step s (record s { ring = consume s.ring; peeked = none; received = s.received + 1 })

  pub data Reach (s : System T) : System T → Type 0 where
    here : Reach s s
    next : {t u : System T} → Reach s t → Step t u → Reach s u

  -- The counters are those of the messages, which are at most as many as the slots; an unread message stands
  -- in its slot; a claimed slot is the one behind them, and a peeked slot the first of them.
  pub record IsSystem (s : System T) : Type 0 where
    pub head_is : s.ring.head ≡ s.sent % 2 ^ 64
    pub tail_is : s.ring.tail ≡ s.received % 2 ^ 64
    pub order : s.received ≤ s.sent
    pub room : s.sent ≤ s.received + tick_capacity
    pub stored :
        (k : ℕ)
        → s.received ≤ k
        → k < s.sent
        → content s.ring (k % tick_capacity) ≡ some (s.message k)
    pub claimed_is :
        (i : ℕ)
        → s.claimed ≡ some i
        → (i ≡ s.sent % tick_capacity) × (s.sent < s.received + tick_capacity)
    pub peeked_is :
        (i : ℕ) → s.peeked ≡ some i → (i ≡ s.received % tick_capacity) × (s.received < s.sent)

  claim-bounds :
      (s : System T) (i : ℕ)
      → IsSystem s
      → try_claim s.ring ≡ some i
      → (i ≡ s.sent % tick_capacity) × (s.sent < s.received + tick_capacity)
  unfolding try_claim
  claim-bounds s i v e =
      let a = v.head_is in
      let b = v.tail_is in let c = v.order in let d = v.room in ground (arith, e, a, b, c, d)

  peek-bounds :
      (s : System T) (i : ℕ)
      → IsSystem s
      → try_peek s.ring ≡ some i
      → (i ≡ s.received % tick_capacity) × (s.received < s.sent)
  unfolding try_peek
  peek-bounds s i v e =
      let a = v.head_is in
      let b = v.tail_is in let c = v.order in let d = v.room in ground (arith, e, a, b, c, d)

  content-write :
      (r : SpscRing T) (i : ℕ) (x : T) (j : ℕ)
      → (j == i) ≡ false
      → content (write r i x) j ≡ content r j
  content-write r i x j apart = ground (arith, apart)

  -- Each step keeps the system well formed.
  pub Step-IsSystem : {s t : System T} → Step s t → IsSystem s → IsSystem t
  unfolding commit consume
  Step-IsSystem (claim s i free e) v = record {
    head_is = v.head_is;
    tail_is = v.tail_is;
    order = v.order;
    room = v.room;
    stored = v.stored;
    claimed_is = λ j h. let b = claim-bounds s i v e in ground (arith, h, b);
    peeked_is = v.peeked_is;
  }
  Step-IsSystem (fill s i x held) v = record {
    head_is = v.head_is;
    tail_is = v.tail_is;
    order = v.order;
    room = v.room;
    stored = λ k a b.
        let (at, free) = v.claimed_is i held in
        let apart : ((k % tick_capacity) == i) ≡ false = ground (arith, at, free, a, b) in
        content-write s.ring i x (k % tick_capacity) apart ∙ v.stored k a b;
    claimed_is = v.claimed_is;
    peeked_is = v.peeked_is;
  }
  Step-IsSystem (send s i x held full) v =
      let (at, free) = v.claimed_is i held in
      let o = v.order in
      record {
        head_is = omega (arith, v.head_is);
        tail_is = v.tail_is;
        order = omega (arith, o);
        room = omega (arith, free);
        stored = λ k a b. elim (Bool-cases (k == s.sent)) [
          | inl q ↦ let p = (==_iff k s.sent).0 q in let w = rw at at full in rw (q, p) w
          | inr q ↦ let w = v.stored k a (ground (arith, q, b)) in rw q w
        ];
        claimed_is = λ j h. cc;
        peeked_is = λ j h. let (c, d) = v.peeked_is j h in (c, omega (arith, d));
      }
  Step-IsSystem (peek s i free e) v = record {
    head_is = v.head_is;
    tail_is = v.tail_is;
    order = v.order;
    room = v.room;
    stored = v.stored;
    claimed_is = v.claimed_is;
    peeked_is = λ j h. let b = peek-bounds s i v e in ground (arith, h, b);
  }
  Step-IsSystem (receive s i held) v =
      let (at, some_left) = v.peeked_is i held in
      let r = v.room in
      record {
        head_is = v.head_is;
        tail_is = omega (arith, v.tail_is);
        order = omega (arith, some_left);
        room = omega (arith, r);
        stored = λ k a b. v.stored k (omega (arith, a)) b;
        claimed_is = λ j h. let (c, d) = v.claimed_is j h in (c, omega (arith, d));
        peeked_is = λ j h. cc;
      }

  pub Reach-IsSystem : {s t : System T} → IsSystem s → Reach s t → IsSystem t
  Reach-IsSystem v here = v
  Reach-IsSystem v (next r st) = Step-IsSystem st (Reach-IsSystem v r)

  -- In every system that is reached from a well-formed one, whatever the interleaving: a peeked slot holds the
  -- message whose number is the count of those received, so that messages arrive in order, none lost or
  -- repeated; and no slot is claimed and peeked at once.
  pub Reach-in_order :
      (s t : System T) (i : ℕ)
      → IsSystem s
      → Reach s t
      → t.peeked ≡ some i
      → (content t.ring i ≡ some (t.message t.received)) × (t.claimed ≢ some i)
  Reach-in_order s t i v r held =
      let w = Reach-IsSystem v r in
      let (at, left) = w.peeked_is i held in
      (
        rw at (w.stored t.received (omega arith) left),
        λ h. let (c, d) = w.claimed_is i h in ground (arith, at, left, c, d),
      )
