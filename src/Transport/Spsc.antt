-- ===== src/Transport/Spsc.antt =====
-- SPSCRing of luv_arena.hpp with the capacity of the tick ring. `slots` is `none` while the array is not set.
-- Each call is one access of the other side's counter, and so one step; the memory order is sequential.
-- occupancy_ratio is compared with its bounds exactly: at this capacity no size stands within a rounding of
-- one.
pub mod Steps
pub mod Tests
use fort.Base.{
  ℕ, ◌+◌, ◌-◌, ◌*◌, ◌%◌, ◌^◌, Bool, true, false, Option, none, some, leb, ◌==◌, if◌then◌else◌,
}

abbrev pub tick_capacity : ℕ
tick_capacity = 2 ^ 22

pub record SpscRing (T : Type 0) : Type 0 where
  pub head : ℕ
  pub tail : ℕ
  pub slots : Option (ℕ → T)

module _ {T : Type 0} where
  -- The number of unread slots, as uint64_t.
  abbrev pub size : SpscRing T → ℕ
  size r = (r.head + (2 ^ 64 - r.tail)) % 2 ^ 64

  -- The index of the slot to write.
  unfoldable pub try_claim : SpscRing T → Option ℕ
  try_claim r = elim r.slots [
    | none ↦ none
    | some s ↦ if leb tick_capacity (size r) then none else some (r.head % tick_capacity)
  ]

  unfoldable pub commit : SpscRing T → SpscRing T
  commit r = record r { head = (r.head + 1) % 2 ^ 64 }

  -- The index of the slot to read.
  unfoldable pub try_peek : SpscRing T → Option ℕ
  try_peek r = elim r.slots [
    | none ↦ none
    | some s ↦ if r.head == r.tail then none else some (r.tail % tick_capacity)
  ]

  unfoldable pub consume : SpscRing T → SpscRing T
  consume r = record r { tail = (r.tail + 1) % 2 ^ 64 }

pub data MemoryPressureTier : Type 0 where
  normal warning shed_load emergency_halt : MemoryPressureTier

unfoldable pub pressure_tier : ℕ → MemoryPressureTier
pressure_tier size =
    if leb (95 * tick_capacity) (100 * size)
    then emergency_halt
    else if leb (85 * tick_capacity) (100 * size)
    then shed_load
    else if leb (70 * tick_capacity) (100 * size)
    then warning
    else normal

unfoldable pub allow_ingress : ℕ → Bool → Bool
allow_ingress size is_cancellation = elim (pressure_tier size) [
  | normal ↦ true
  | warning ↦ true
  | shed_load ↦ is_cancellation
  | emergency_halt ↦ false
]
