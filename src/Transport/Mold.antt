-- ===== src/Transport/Mold.antt =====
-- luv_moldudp64.hpp: packets are functions from offsets to bytes with a size, `none` where the
-- pointer is null. On bytes `<< 8 |` is times 256, plus. The offset of a walk never passes the size, so
-- `size - offset` does not wrap.
pub mod Blocks
pub mod Request
pub mod Tests
use fort.Base.{
  ℕ, zero, suc, ◌+◌, ◌-◌, ◌*◌, ◌/◌, ◌%◌, ◌^◌, Bool, true, false, not, ◌&&◌, ◌||◌, Option, none,
  some, ltb, leb, ◌==◌, if◌then◌else◌,
}

abbrev pub header_size : ℕ
header_size = 20

pub record Header : Type 0 where
  pub sequence : ℕ
  pub message_count : ℕ

unfoldable pub read_be16 : (ℕ → ℕ) → ℕ → ℕ
read_be16 bytes at = (bytes at * 256 + bytes (at + 1)) % 2 ^ 16

-- The loop of `read_be64` over `n` bytes from `at` on.
unfoldable pub read_bytes : ℕ → (ℕ → ℕ) → ℕ → ℕ → ℕ
read_bytes zero bytes at value = value
read_bytes (suc n) bytes at value = read_bytes n bytes (at + 1) ((value * 256 + bytes at) % 2 ^ 64)

unfoldable pub read_be64 : (ℕ → ℕ) → ℕ → ℕ
unfolding read_bytes
read_be64 bytes at = read_bytes 8 bytes at 0

unfoldable pub parse_header : Option (ℕ → ℕ) → ℕ → Option Header
parse_header none size = none
parse_header (some bytes) size =
    if ltb size header_size
    then none
    else some (record { sequence = read_be64 bytes 10; message_count = read_be16 bytes 18 })

-- The loop of `validate_message_block` with `n` messages to go.
unfoldable pub walk_blocks : ℕ → (ℕ → ℕ) → ℕ → ℕ → Bool
walk_blocks zero bytes size offset = offset == size
walk_blocks (suc n) bytes size offset =
    let length = read_be16 bytes offset in
    let rest = walk_blocks n bytes size (offset + 2 + length) in
    if ltb (size - offset) 2
    then false
    else if length == 0 || ltb (size - (offset + 2)) length
    then false
    else rest

unfoldable pub validate_message_block : Option (ℕ → ℕ) → ℕ → ℕ → Bool
unfolding walk_blocks
validate_message_block none size count = false
validate_message_block (some bytes) size count =
    if ltb size header_size then false else walk_blocks count bytes size header_size

pub record MessageIterator : Type 0 where
  pub bytes : Option (ℕ → ℕ)
  pub size : ℕ
  pub offset : ℕ
  pub invalid : Bool

abbrev pub message_iterator : Option (ℕ → ℕ) → ℕ → MessageIterator
message_iterator bytes size = record {
  bytes = bytes;
  size = size;
  offset = header_size;
  invalid = false;
}

-- A message as its offset and length.
unfoldable pub next_in : (ℕ → ℕ) → MessageIterator → Option (ℕ × ℕ) × MessageIterator
next_in bytes it =
    let length = read_be16 bytes it.offset in
    if it.invalid || it.offset == it.size
    then (none, it)
    else if ltb it.size it.offset || ltb (it.size - it.offset) 2
    then (none, record it { invalid = true })
    else if length == 0 || ltb (it.size - (it.offset + 2)) length
    then (none, record it { offset = it.offset + 2; invalid = true })
    else (some (it.offset + 2, length), record it { offset = it.offset + 2 + length })

unfoldable pub next : MessageIterator → Option (ℕ × ℕ) × MessageIterator
next it = elim it.bytes [ none ↦ (none, it) | some bytes ↦ next_in bytes it ]

abbrev pub valid : MessageIterator → Bool
valid it = not it.invalid

-- The bytes of `session` are those at the indices below 10.
pub record RequestPacket : Type 0 where
  pub session : ℕ → ℕ
  pub sequence : ℕ
  pub requested_count : ℕ

-- What `format_request` leaves in the buffer.
unfoldable pub request_bytes : RequestPacket → (ℕ → ℕ) → ℕ → ℕ
request_bytes req buffer i =
    if ltb i 10
    then req.session i
    else if ltb i 18
    then req.sequence / 256 ^ (17 - i) % 256
    else if i == 18
    then req.requested_count / 256 % 256
    else if i == 19
    then req.requested_count % 256
    else buffer i

unfoldable pub format_request : RequestPacket → Option (ℕ → ℕ) → ℕ → Option (ℕ → ℕ)
unfolding request_bytes
format_request req none size = none
format_request req (some buffer) size =
    if ltb size 20 then none else some (request_bytes req buffer)

unfoldable pub parse_request : Option (ℕ → ℕ) → ℕ → Option RequestPacket
parse_request none size = none
parse_request (some bytes) size =
    if ltb size 20
    then none
    else some (record {
      session = bytes;
      sequence = read_be64 bytes 10;
      requested_count = read_be16 bytes 18;
    })
