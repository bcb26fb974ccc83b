-- ===== src/Transport/Spsc/Tests.antt =====
-- A run of the two sides of SPSCRing in luv_arena.hpp, and its pressure tiers.
use fort.Base.{ℕ, ◌+◌, ◌≡◌, ◌≢◌, refl, true, false, none, some, arith, update}
use fort.Transport.Spsc.{try_claim, try_peek, commit, allow_ingress, pressure_tier}
use fort.Transport.Spsc.Steps.{
  System, claim, fill, send, peek, Reach, here, next, IsSystem, write, content, Reach-in_order,
}

abbrev empty_system : System ℕ
empty_system = record {
  ring = record { head = 0; tail = 0; slots = some (λ i. 0) };
  claimed = none;
  peeked = none;
  sent = 0;
  received = 0;
  message = λ i. 0;
}

empty_system-IsSystem : IsSystem empty_system
empty_system-IsSystem = record {
  head_is = omega arith;
  tail_is = omega arith;
  order = omega arith;
  room = omega arith;
  stored = λ k a b. absurd (omega (arith, a, b));
  claimed_is = λ i h. cc;
  peeked_is = λ i h. cc;
}

-- The producer claims, writes 7 and commits; the consumer peeks.
abbrev claimed_system : System ℕ
claimed_system = record empty_system { claimed = some 0 }

abbrev filled_system : System ℕ
filled_system = record claimed_system { ring = write claimed_system.ring 0 7 }

abbrev sent_system : System ℕ
sent_system = record filled_system {
  ring = commit filled_system.ring;
  claimed = none;
  sent = 0 + 1;
  message = update filled_system.message 0 7;
}

abbrev peeked_system : System ℕ
peeked_system = record sent_system { peeked = some 0 }

one_message : Reach empty_system peeked_system
unfolding try_claim try_peek commit
one_message =
    next
      (next (next (next here (claim empty_system 0 refl refl)) (fill claimed_system 0 7 refl))
        (send filled_system 0 7 refl refl))
      (peek sent_system 0 refl refl)

Reach-in_order_example :
    (content peeked_system.ring 0 ≡ some (peeked_system.message peeked_system.received))
    × (peeked_system.claimed ≢ some 0)
Reach-in_order_example =
    Reach-in_order empty_system peeked_system 0 empty_system-IsSystem one_message refl

shed_cancellation : allow_ingress 3_565_159 true ≡ true
unfolding allow_ingress pressure_tier
shed_cancellation = refl

shed_order : allow_ingress 3_565_159 false ≡ false
unfolding allow_ingress pressure_tier
shed_order = refl
