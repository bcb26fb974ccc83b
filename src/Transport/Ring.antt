-- ===== src/Transport/Ring.antt =====
-- ZeroCopyPacketRing of luv_net_ring.hpp, with the default of 2048 slots: the counters are size_t and
-- wrap. One producer and one consumer; each call is one step.
pub mod Queue
pub mod Tests
use fort.Base.{
  ℕ, zero, suc, ◌+◌, ◌-◌, ◌%◌, ◌^◌, Bool, Option, none, some, ltb, leb, ◌==◌, if◌then◌else◌, update,
}
use fort.Base.Int.{ℤ}

pub record PacketDescriptor : Type 0 where
  pub address : ℕ
  pub length : ℕ
  pub capacity : ℕ
  pub rx_timestamp_ns : ℕ
  pub queue_id : ℕ
  pub port_id : ℕ
  pub flags : ℕ

abbrev pub ring_size : ℕ
ring_size = 2048

pub record PacketRing : Type 0 where
  pub head : ℕ
  pub tail : ℕ
  pub slots : ℕ → PacketDescriptor

-- `a - b` on size_t.
abbrev pub sub64 : ℕ → ℕ → ℕ
sub64 a b = (a + (2 ^ 64 - b)) % 2 ^ 64

abbrev pub add64 : ℕ → ℕ → ℕ
add64 a b = (a + b) % 2 ^ 64

abbrev pub smaller : ℕ → ℕ → ℕ
smaller a b = if ltb a b then a else b

-- The loop of `burst_enqueue`: `n` descriptors from index `i` on.
unfoldable pub write_slots :
    ℕ → ℕ → (ℕ → PacketDescriptor) → ℕ → (ℕ → PacketDescriptor) → ℕ → PacketDescriptor
write_slots zero i descs head slots = slots
write_slots (suc n) i descs head slots =
    write_slots n (i + 1) descs head (update slots (add64 head i % ring_size) (descs i))

-- The loop of `burst_dequeue` into the caller's array.
unfoldable pub read_slots :
    ℕ → ℕ → (ℕ → PacketDescriptor) → ℕ → (ℕ → PacketDescriptor) → ℕ → PacketDescriptor
read_slots zero i out tail slots = out
read_slots (suc n) i out tail slots =
    read_slots n (i + 1) (update out i (slots (add64 tail i % ring_size))) tail slots

unfoldable pub burst_enqueue : PacketRing → Option (ℕ → PacketDescriptor) → ℕ → ℕ × PacketRing
burst_enqueue r none count = (0, r)
burst_enqueue r (some descs) count =
    let free_slots = sub64 ring_size (sub64 r.head r.tail) in
    let to_write = smaller count free_slots in
    if count == 0 then (0, r) else (
      to_write,
      record r {
        head = add64 r.head to_write;
        slots = write_slots to_write 0 descs r.head r.slots;
      },
    )

-- The count, the array that is written to, and the ring.
unfoldable pub burst_dequeue :
    PacketRing → Option (ℕ → PacketDescriptor) → ℕ → ℕ × Option (ℕ → PacketDescriptor) × PacketRing
burst_dequeue r none max_count = (0, none, r)
burst_dequeue r (some out) max_count =
    let available = sub64 r.head r.tail in
    let to_read = smaller max_count available in
    if max_count == 0 then (0, some out, r) else (
      to_read,
      some (read_slots to_read 0 out r.tail r.slots),
      record r { tail = add64 r.tail to_read },
    )

pub occupancy : PacketRing → ℕ
occupancy r = if leb r.tail r.head then r.head - r.tail else 0

pub is_full : PacketRing → Bool
unfolding occupancy
is_full r = leb ring_size (occupancy r)

pub is_empty : PacketRing → Bool
is_empty r = r.head == r.tail
