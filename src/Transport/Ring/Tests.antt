-- ===== src/Transport/Ring/Tests.antt =====
-- A ring of luv_net_ring.hpp whose counters are about to wrap.
use fort.Base.{ℕ, ◌+◌, ◌-◌, ◌^◌, ◌≡◌, some, ◌++◌, arith}
use fort.Transport.Ring.{PacketDescriptor, PacketRing, smaller, burst_enqueue, burst_dequeue}
use fort.Transport.Ring.Queue.{
  IsRing, contents, values, held, burst_enqueue-contents, burst_dequeue-contents,
}

abbrev packet : ℕ → PacketDescriptor
packet i = record {
  address = 4096 + i;
  length = 60 + i;
  capacity = 2048;
  rx_timestamp_ns = i;
  queue_id = 0;
  port_id = 1;
  flags = 0;
}

-- Two packets, one on each side of the wrap.
abbrev wrapping : PacketRing
wrapping = record { head = 1; tail = 2 ^ 64 - 1; slots = packet }

wrapping-IsRing : IsRing wrapping
wrapping-IsRing = record { head_fits = omega arith; tail_fits = omega arith; bounded = omega arith }

burst_enqueue-contents_example :
    IsRing (burst_enqueue wrapping (some packet) 3000).1
    × ((burst_enqueue wrapping (some packet) 3000).0 ≡ smaller 3000 (2048 - held wrapping))
    × (contents (burst_enqueue wrapping (some packet) 3000).1
        ≡ contents wrapping ++ values (burst_enqueue wrapping (some packet) 3000).0 packet)
burst_enqueue-contents_example = burst_enqueue-contents wrapping wrapping-IsRing packet 3000

burst_dequeue-contents_example :
    (taken : ℕ → PacketDescriptor) × ((burst_dequeue wrapping (some packet) 2).1 ≡ some taken)
    × IsRing (burst_dequeue wrapping (some packet) 2).2
    × ((burst_dequeue wrapping (some packet) 2).0 ≡ smaller 2 (held wrapping))
    × (values (burst_dequeue wrapping (some packet) 2).0 taken
          ++ contents (burst_dequeue wrapping (some packet) 2).2
        ≡ contents wrapping)
burst_dequeue-contents_example = burst_dequeue-contents wrapping wrapping-IsRing packet 2
