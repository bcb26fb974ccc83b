-- ===== src/WebSocket/Frame.antt =====
-- `frame` of luv_websocket_parse.hpp: one client frame in the connection's buffer, which is a function from
-- offsets to bytes and is unmasked in place, also where the frame is refused after that. On bytes a mask is a
-- remainder or a quotient.
pub mod Bounds
pub mod Whole
pub mod Text
use Prim.Native.Nat.{bit_xor}
use fort.Base.{
  ℕ, zero, suc, ◌+◌, ◌-◌, ◌*◌, ◌/◌, ◌%◌, ◌^◌, Bool, true, false, not, ◌&&◌, ◌||◌, Option, none,
  some, ltb, leb, ◌==◌, if◌then◌else◌,
}
use fort.WebSocket.Utf8.{valid_utf8}

abbrev pub max_web_socket_message_bytes : ℕ
max_web_socket_message_bytes = 2048 - 14

unfoldable pub valid_close_code : ℕ → Bool
valid_close_code code =
    (leb 3000 code && leb code 4999)
    || (leb 1000 code
        && leb code 1014
        && not (code == 1004)
        && not (code == 1005)
        && not (code == 1006))

pub data FrameResult : Type 0 where
  incomplete consumed protocol_error message_too_large invalid_utf8 : FrameResult

pub record Frame : Type 0 where
  pub size : ℕ
  pub payload_offset : ℕ
  pub payload_size : ℕ
  pub opcode : ℕ

pub record FragmentState : Type 0 where
  pub fragmented : Bool
  pub opcode : ℕ
  pub message_size : ℕ
  pub text : ℕ → ℕ

abbrev pub no_fragment : FragmentState
no_fragment = record { fragmented = false; opcode = 0; message_size = 0; text = λ i. 0 }

-- What the bytes in front of the payload say.
pub record Header : Type 0 where
  pub final : Bool
  pub opcode : ℕ
  pub header_size : ℕ
  pub payload_size : ℕ

pub data HeaderResult : Type 0 where
  stop : FrameResult → HeaderResult
  go : Header → HeaderResult

abbrev pub is_control : ℕ → Bool
is_control opcode = opcode / 8 % 2 == 1

abbrev pub known_opcode : ℕ → Bool
known_opcode opcode =
    opcode == 0 || opcode == 1 || opcode == 2 || opcode == 8 || opcode == 9 || opcode == 10

-- The loop over `n` bytes of the 64-bit length.
unfoldable pub read_length : ℕ → (ℕ → ℕ) → ℕ → ℕ → ℕ
read_length zero input at value = value
read_length (suc n) input at value =
    read_length n input (at + 1) ((value * 256 + input at) % 2 ^ 64)

-- The length selector: the size of the header so far and that of the payload.
unfoldable pub length_of : (ℕ → ℕ) → ℕ → Bool → ℕ → HeaderResult
unfolding read_length
length_of input size final opcode =
    let length_marker = input 1 % 128 in
    let short = input 2 * 256 + input 3 in
    let long = read_length 8 input 2 0 in
    if leb length_marker 125
    then go
        (record { final = final; opcode = opcode; header_size = 2; payload_size = length_marker })
    else if length_marker == 126
    then (if ltb size 4
        then stop incomplete
        else if ltb short 126
        then stop protocol_error
        else go (record { final = final; opcode = opcode; header_size = 4; payload_size = short }))
    else if ltb size 10
    then stop incomplete
    else if input 2 / 128 % 2 == 1
    then stop protocol_error
    else if leb long 0xffff
    then stop protocol_error
    else go (record { final = final; opcode = opcode; header_size = 10; payload_size = long })

-- The checks of the length, up to that the whole frame is there.
unfoldable pub check_header : ℕ → Header → HeaderResult
check_header size h =
    if is_control h.opcode && (not h.final || ltb 125 h.payload_size)
    then stop protocol_error
    else if ltb max_web_socket_message_bytes h.payload_size
    then stop message_too_large
    else if ltb size (h.header_size + 4 + h.payload_size)
    then stop incomplete
    else go h

abbrev pub bad_start : (ℕ → ℕ) → Bool
bad_start input =
    not (known_opcode (input 0 % 16)) || not (input 0 / 16 % 8 == 0) || not (input 1 / 128 % 2 == 1)

unfoldable pub read_header : (ℕ → ℕ) → ℕ → HeaderResult
unfolding length_of check_header
read_header input size =
    if ltb size 2
    then stop incomplete
    else if bad_start input
    then stop protocol_error
    else elim (length_of input size (input 0 / 128 % 2 == 1) (input 0 % 16)) [
      | stop r ↦ stop r
      | go h ↦ check_header size h
    ]

abbrev pub payload_offset : Header → ℕ
payload_offset h = h.header_size + 4

-- The loop that unmasks the payload.
unfoldable pub unmask : (ℕ → ℕ) → Header → ℕ → ℕ
unmask buffer h i =
    if leb (payload_offset h) i && ltb i (payload_offset h + h.payload_size)
    then bit_xor (buffer i) (buffer (h.header_size + (i - payload_offset h) % 4))
    else buffer i

-- The payload, and the part of it behind `k` bytes.
abbrev pub payload_from : (ℕ → ℕ) → Header → ℕ → ℕ → ℕ
payload_from buffer h k i = buffer (payload_offset h + k + i)

-- The checks of a close frame; `none` if it passes.
unfoldable pub check_close : (ℕ → ℕ) → Header → Option FrameResult
check_close buffer h =
    let code = payload_from buffer h 0 0 * 256 + payload_from buffer h 0 1 in
    if h.payload_size == 1
    then some protocol_error
    else if leb 2 h.payload_size && not (valid_close_code code)
    then some protocol_error
    else if ltb 2 h.payload_size
        && not (valid_utf8 (some (payload_from buffer h 2)) (h.payload_size - 2))
    then some invalid_utf8
    else none

-- `memcpy` of `n` bytes to `at`.
unfoldable pub copy_text : (ℕ → ℕ) → ℕ → (ℕ → ℕ) → ℕ → ℕ → ℕ
copy_text text at src n i = if leb at i && ltb i (at + n) then src (i - at) else text i

-- A continuation frame.
unfoldable pub continue_message : (ℕ → ℕ) → Header → FragmentState → FrameResult × FragmentState
unfolding copy_text
continue_message buffer h state =
    let total = state.message_size + h.payload_size in
    let copied = record state {
      text =
          if state.opcode == 1
          then copy_text state.text state.message_size (payload_from buffer h 0) h.payload_size
          else state.text;
    } in
    if not state.fragmented
    then (protocol_error, state)
    else if ltb ((max_web_socket_message_bytes + (2 ^ 64 - state.message_size)) % 2 ^ 64)
        h.payload_size
    then (message_too_large, state)
    else if state.opcode == 1 && h.final && not (valid_utf8 (some copied.text) total)
    then (invalid_utf8, copied)
    else if h.final
    then (consumed, no_fragment)
    else (consumed, record copied { message_size = total })

-- The first, or only, frame of a message.
unfoldable pub start_message : (ℕ → ℕ) → Header → FragmentState → FrameResult × FragmentState
unfolding copy_text
start_message buffer h state =
    if state.fragmented
    then (protocol_error, state)
    else if h.opcode == 1
        && h.final
        && not (valid_utf8 (some (payload_from buffer h 0)) h.payload_size)
    then (invalid_utf8, state)
    else if h.final
    then (consumed, state)
    else (
      consumed,
      record state {
        fragmented = true;
        opcode = h.opcode;
        message_size = h.payload_size;
        text =
            if h.opcode == 1
            then copy_text state.text 0 (payload_from buffer h 0) h.payload_size
            else state.text;
      },
    )

-- What happens to an unmasked frame.
unfoldable pub accept : (ℕ → ℕ) → Header → FragmentState → FrameResult × FragmentState
unfolding check_close continue_message start_message
accept buffer h state =
    if is_control h.opcode
    then (if h.opcode == 8
        then elim (check_close buffer h) [ none ↦ (consumed, state) | some r ↦ (r, state) ]
        else (consumed, state))
    else if h.opcode == 0
    then continue_message buffer h state
    else if h.opcode == 1 || h.opcode == 2
    then start_message buffer h state
    else (protocol_error, state)

abbrev pub is_consumed : FrameResult → Bool
is_consumed consumed = true
is_consumed incomplete = false
is_consumed protocol_error = false
is_consumed message_too_large = false
is_consumed invalid_utf8 = false

-- `frame` behind the header: the result, the buffer, the state and the output.
unfoldable pub frame_from :
    (ℕ → ℕ) → FragmentState → Frame → HeaderResult → FrameResult × (ℕ → ℕ) × FragmentState × Frame
frame_from buffer state output (stop r) = (r, buffer, state, output)
frame_from buffer state output (go h) =
    let buffer' = unmask buffer h in
    let (r, state') = accept buffer' h state in
    (
      r,
      buffer',
      state',
      if is_consumed r
          then record {
            size = payload_offset h + h.payload_size;
            payload_offset = payload_offset h;
            payload_size = h.payload_size;
            opcode = h.opcode;
          }
          else output,
    )

unfoldable pub frame :
    (ℕ → ℕ) → ℕ → FragmentState → Frame → FrameResult × (ℕ → ℕ) × FragmentState × Frame
unfolding frame_from
frame buffer size state output = frame_from buffer state output (read_header buffer size)
