-- ===== src/Transport/Mold/Tests.antt =====
-- A packet of luv_moldudp64.hpp with two messages, and a request.
use fort.Base.{ℕ, ◌+◌, ◌≤◌, ◌<◌, ◌≡◌, ◌↔◌, refl, true, none, some, arith, ◌==◌, if◌then◌else◌}
use fort.Transport.Mold.{
  message_iterator, validate_message_block, walk_blocks, read_be16, RequestPacket, format_request,
  parse_request,
}
use fort.Transport.Mold.Blocks.{IsWhole, drain, validate_message_block-drain}
use fort.Transport.Mold.Request.{Reads, parse_request-format_request}

-- 20 bytes of header, then messages of 3 and of 1 byte.
abbrev packet : ℕ → ℕ
packet i = if i == 21 then 3 else if i == 26 then 1 else 0

packet_valid : validate_message_block (some packet) 28 2 ≡ true
unfolding validate_message_block walk_blocks read_be16
packet_valid = refl

packet-two_messages : IsWhole 2 (drain 2 (message_iterator (some packet) 28))
packet-two_messages = ((validate_message_block-drain packet 28 2).0 packet_valid).1

validate_message_block-drain_example :
    (validate_message_block (some packet) 28 2 ≡ true)
    ↔ ((20 ≤ 28) × IsWhole 2 (drain 2 (message_iterator (some packet) 28)))
validate_message_block-drain_example = validate_message_block-drain packet 28 2

abbrev request : RequestPacket
request = record { session = λ i. 65 + i; sequence = 0x1_0203_0405; requested_count = 513 }

parse_request-format_request_example :
    (20 ≤ 24 → Reads (parse_request (format_request request (some packet) 24) 24) request)
    × (24 < 20
        → (format_request request (some packet) 24 ≡ none)
          × (parse_request (some packet) 24 ≡ none))
parse_request-format_request_example =
    parse_request-format_request request packet 24 (omega arith) (omega arith)
