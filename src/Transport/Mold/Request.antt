-- ===== src/Transport/Mold/Request.antt =====
-- The request packets of luv_moldudp64.hpp, written and read back.
use fort.Base.{ℕ, ◌^◌, ◌<◌, ◌≤◌, ◌≡◌, false, Option, none, some, arith, ltb}
use fort.Transport.Mold.{
  RequestPacket, read_be16, read_bytes, read_be64, request_bytes, format_request, parse_request,
}

-- A packet that `parse_request` reads as the request.
pub record Reads (parsed : Option RequestPacket) (req : RequestPacket) : Type 0 where
  pub packet : RequestPacket
  pub returned : parsed ≡ some packet
  pub session : (i : ℕ) → i < 10 → packet.session i ≡ req.session i
  pub sequence : packet.sequence ≡ req.sequence
  pub requested_count : packet.requested_count ≡ req.requested_count

module _ (req : RequestPacket) (buffer : ℕ → ℕ) where
  read_sequence : req.sequence < 2 ^ 64 → read_be64 (request_bytes req buffer) 10 ≡ req.sequence
  unfolding read_be64 read_bytes request_bytes
  read_sequence h = omega arith

  read_count :
      req.requested_count < 2 ^ 16 → read_be16 (request_bytes req buffer) 18 ≡ req.requested_count
  unfolding read_be16 request_bytes
  read_count h = omega arith

  -- A request with a 64-bit sequence number and a 16-bit count, formatted into a buffer of at least 20
  -- bytes, is parsed back: the ten bytes of the session, the sequence number and the count. In a
  -- smaller buffer both functions fail.
  pub parse_request-format_request :
      (size : ℕ)
      → req.sequence < 2 ^ 64
      → req.requested_count < 2 ^ 16
      → (20 ≤ size → Reads (parse_request (format_request req (some buffer) size) size) req)
        × (size < 20
            → (format_request req (some buffer) size ≡ none)
              × (parse_request (some buffer) size ≡ none))
  unfolding format_request parse_request
  parse_request-format_request size a b = (
    λ h. record {
      packet = record {
        session = request_bytes req buffer;
        sequence = read_be64 (request_bytes req buffer) 10;
        requested_count = read_be16 (request_bytes req buffer) 18;
      };
      returned = rw ((long size h), parse_request) (rw (long size h));
      session = ten;
      sequence = read_sequence a;
      requested_count = read_count b;
    },
    λ h. ground arith,
  )
    where
      long : (size : ℕ) → 20 ≤ size → ltb size 20 ≡ false
      long size h = ground arith

      ten : (i : ℕ) → i < 10 → request_bytes req buffer i ≡ req.session i
      ten i h = ground arith
