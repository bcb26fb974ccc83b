-- ===== src/WebSocket/Frame/Whole.antt =====
-- What `frame` of luv_websocket_parse.hpp guarantees of its results, whatever the bytes are.
use fort.Base.{
  ℕ, ◌+◌, ◌-◌, ◌/◌, ◌%◌, ◌≤◌, ◌<◌, ◌≡◌, ◌≢◌, ◌⊎◌, inl, inr, refl, ap, ◌∙◌, Bool, true, arith, ltb,
  leb, ◌==◌, Bool-cases,
}
use Prim.Native.Nat.{bit_xor}
use fort.WebSocket.Frame.{
  max_web_socket_message_bytes, FrameResult, incomplete, consumed, protocol_error,
  message_too_large, Frame, FragmentState, Header, stop, is_control, bad_start, length_of,
  check_header, read_header, payload_offset, unmask, check_close, continue_message, start_message,
  accept, frame_from, frame,
}
use fort.WebSocket.Frame.Bounds.{HeaderResult-cases, read_header-IsHeader}

accept-ne-incomplete :
    (buffer : ℕ → ℕ) (h : Header) (s : FragmentState) → (accept buffer h s).0 ≢ incomplete
unfolding accept check_close continue_message start_message
accept-ne-incomplete buffer h s e = ground (arith, e)

length_of-ne-consumed :
    (input : ℕ → ℕ) (size : ℕ) (final : Bool) (opcode : ℕ)
    → length_of input size final opcode ≢ stop consumed
unfolding length_of
length_of-ne-consumed input size final opcode e = ground (arith, e)

check_header-ne-consumed : (size : ℕ) (h : Header) → check_header size h ≢ stop consumed
unfolding check_header
check_header-ne-consumed size h e = ground (arith, e)

read_header-ne-consumed : (input : ℕ → ℕ) (size : ℕ) → read_header input size ≢ stop consumed
unfolding read_header
read_header-ne-consumed input size e = elim (Bool-cases (ltb size 2)) [
  | inl bad ↦ cc (rw bad at e)
  | inr ok ↦ elim (Bool-cases (bad_start input)) [
    | inl bad ↦ cc (rw (ok, bad) at e)
    | inr ok' ↦
        let final = input 0 / 128 % 2 == 1 in
        let opcode = input 0 % 16 in
        elim (HeaderResult-cases (length_of input size final opcode)) [
          | inl (r, l) ↦
              let r' : r ≡ consumed = cc (rw (ok, ok', l) at e) in
              absurd (length_of-ne-consumed input size final opcode (l ∙ ap stop r'))
          | inr (h, l) ↦ absurd (check_header-ne-consumed size h (rw (ok, ok', l) at e))
        ]
  ]
]

-- A client frame at the begin of a buffer of `size` bytes, its payload unmasked.
pub record IsClientFrame (before after : ℕ → ℕ) (size : ℕ) (f : Frame) : Type 0 where
  pub whole : f.size ≡ f.payload_offset + f.payload_size
  pub there : f.size ≤ size
  pub offset_bounds : (6 ≤ f.payload_offset) × (f.payload_offset ≤ 14)
  pub small : f.payload_size ≤ max_web_socket_message_bytes
  pub control : is_control f.opcode ≡ true → f.payload_size ≤ 125
  pub unmasked :
      (i : ℕ)
      → i < f.payload_size
      → after (f.payload_offset + i)
        ≡ bit_xor (before (f.payload_offset + i)) (before (f.payload_offset - 4 + i % 4))
  pub elsewhere : (i : ℕ) → ((i < f.payload_offset) ⊎ (f.size ≤ i)) → after i ≡ before i

unmask_inside :
    (buffer : ℕ → ℕ) (h : Header) (i : ℕ)
    → i < h.payload_size
    → unmask buffer h (payload_offset h + i)
      ≡ bit_xor (buffer (payload_offset h + i)) (buffer (payload_offset h - 4 + i % 4))
unfolding unmask
unmask_inside buffer h i l =
    let at : payload_offset h + i - payload_offset h ≡ i = omega arith in
    let back : payload_offset h - 4 ≡ h.header_size = omega arith in
    let a : leb (payload_offset h) (payload_offset h + i) ≡ true = ground arith in
    let b : ltb (payload_offset h + i) (payload_offset h + h.payload_size) ≡ true =
      ground (arith, l) in
    rw (a, b, at, back) refl

unmask_outside :
    (buffer : ℕ → ℕ) (h : Header) (i : ℕ)
    → ((i < payload_offset h) ⊎ (payload_offset h + h.payload_size ≤ i))
    → unmask buffer h i ≡ buffer i
unfolding unmask
unmask_outside buffer h i out = ground (arith, out)

-- A frame that `frame` consumes is whole and in the buffer, behind a header of 6 to 14 bytes, within the bound
-- of a message, and a control frame within 125 bytes; its payload is unmasked by the four bytes in front of it,
-- and no other byte of the buffer changes.
pub frame-IsClientFrame :
    (buffer : ℕ → ℕ) (size : ℕ) (s : FragmentState) (output : Frame)
    → (frame buffer size s output).0 ≡ consumed
    → IsClientFrame buffer (frame buffer size s output).1 size (frame buffer size s output).3
unfolding frame frame_from
frame-IsClientFrame buffer size s output done =
    elim (HeaderResult-cases (read_header buffer size)) [
      | inl (r, e) ↦ absurd (read_header-ne-consumed buffer size (e ∙ ap stop (rw e at done)))
      | inr (h, e) ↦
          let v = read_header-IsHeader buffer size h e in
          let ok : (accept (unmask buffer h) h s).0 ≡ consumed = rw e at done in
          rw (e, ok)
            (record {
              whole = refl;
              there = omega (arith, v.there);
              offset_bounds = omega (arith, v.header_bounds);
              small = v.small;
              control = λ c. (v.control c).1;
              unmasked = unmask_inside buffer h;
              elsewhere = unmask_outside buffer h;
            })
    ]

-- A payload that is copied behind what is kept of a message: the continuation was not refused before the
-- copy, by one of the two results that come first.
abbrev pub FitsText : Header → FragmentState → FrameResult → Type 0
FitsText h s r =
    (r ≡ protocol_error)
    ⊎ (r ≡ message_too_large)
    ⊎ (s.message_size + h.payload_size ≤ max_web_socket_message_bytes)

-- Incomplete input leaves the buffer, the state and the output as they were.
pub frame-incomplete :
    (buffer : ℕ → ℕ) (size : ℕ) (s : FragmentState) (output : Frame)
    → (frame buffer size s output).0 ≡ incomplete
    → frame buffer size s output ≡ (incomplete, buffer, s, output)
unfolding frame frame_from
frame-incomplete buffer size s output e = elim (HeaderResult-cases (read_header buffer size)) [
  | inl (r, l) ↦ let same : r ≡ incomplete = rw l at e in rw (l, same) refl
  | inr (h, l) ↦ absurd (accept-ne-incomplete (unmask buffer h) h s (rw l at e))
]
